-- ===== src/Daemon/Started.antt =====
-- What start-up has checked when there is a server.
use bb_action_router.Base.{Text, ◌<◌, ◌≡◌, false, Option, List, All}
use bb_action_router.Status.{Error, Result, ok}
use bb_action_router.Fetcher.Options.{Options}
use bb_action_router.Fetcher.RegistryAuth.{RegistryAuth}
use bb_action_router.Fetcher.Server.{Server, new_server}
use bb_action_router.Router.Config.{UnixUser, build_user_from_proto}
use bb_action_router.Daemon.Start.{
  ApplicationConfiguration, SystemCall, remove_all, mkdir_all, without_segment, server_options,
}

-- A call that removes a directory is one of the roots, whose path has a segment.
abbrev pub IsCareful : ApplicationConfiguration → SystemCall → Type 0
IsCareful config (remove_all path) =
    (path ≡ config.roots_directory_path) × (without_segment path ≡ false)
IsCareful config (mkdir_all path) = path ≡ config.roots_directory_path

pub record IsConfigured (config : ApplicationConfiguration) (server : Server) : Type 0 where
  pub made : new_server (server_options config) ≡ bb_action_router.Fetcher.Server.Result.ok server
  pub parallel : 0 < config.fetch_parallelism
  pub roots : server.max_roots ≡ config.maximum_materialized_roots
  pub fetches : server.max_concurrent_fetches ≡ config.maximum_concurrent_fetches
  pub some_root : 0 < config.maximum_materialized_roots
  pub some_fetch : 0 < config.maximum_concurrent_fetches
  pub user : (u : UnixUser) × (build_user_from_proto config.build_user ≡ ok u)

module _ (remove_fails mkdir_fails : Option Error)
    (registries : Result (List (Text × RegistryAuth))) where
  Starts : ApplicationConfiguration → Result Server × List SystemCall → Type 0
  Starts config r =
      ((server : Server) → r.0 ≡ ok server → IsConfigured config server)
      × All (IsCareful config) r.1
