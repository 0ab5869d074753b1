-- ===== src/Daemon/Start.antt =====
-- Start-up of cmd/bb_docker_root_fetcher/main.go, from its configuration to the server. What
-- ParseRegistryAuth returns, and whether the two calls of the system fail, are parameters.
use bb_action_router.Base.{
  Text, split_slash, ℕ, Bool, true, false, Option, none, some, List, [], ◌∷◌, ◌==◌, if◌then◌else◌,
}
use bb_action_router.Status.{Error, Result, ok, err, status, unknown, invalid_argument, wrap}
use bb_action_router.Fetcher.Options.{Options}
use bb_action_router.Fetcher.RegistryAuth.{RegistryAuth}
use bb_action_router.Fetcher.Server.{Server, new_server}
use bb_action_router.Router.Config.{BuildUser, UnixUser, build_user_from_proto}
use bb_action_router.Layers.Paths.{is_rooted, clean_parts}

-- A duration that is not set is 0.
pub record ApplicationConfiguration : Type 0 where
  pub roots_directory_path : Text
  pub fetch_parallelism : ℕ
  pub fetch_open_directory_limit : ℕ
  pub maximum_materialized_roots : ℕ
  pub maximum_concurrent_fetches : ℕ
  pub acquire_timeout : Option ℕ
  pub root_use_boost : Option ℕ
  pub maximum_root_use_boost : Option ℕ
  pub prefetch_images : List Text
  pub build_user : Option BuildUser

pub data SystemCall : Type 0 where
  remove_all mkdir_all : Text → SystemCall

abbrev pub as_duration : Option ℕ → ℕ
as_duration none = 0
as_duration (some d) = d

abbrev pub is_nil : List Text → Bool
is_nil [] = true
is_nil (part ∷ parts) = false

-- Whether filepath.Clean gives "/" or ".".
abbrev pub without_segment : Text → Bool
without_segment path = is_nil (clean_parts (is_rooted path) (split_slash path) [])

abbrev pub server_options : ApplicationConfiguration → Options
server_options config = record {
  max_roots = config.maximum_materialized_roots;
  max_concurrent_fetches = config.maximum_concurrent_fetches;
  acquire_timeout = as_duration config.acquire_timeout;
  prefetch_images = config.prefetch_images;
  use_boost = as_duration config.root_use_boost;
  max_use_boost = as_duration config.maximum_root_use_boost;
}

unfoldable pub created : bb_action_router.Fetcher.Server.Result Server → Result Server
created (bb_action_router.Fetcher.Server.Result.ok server) = ok server
created (bb_action_router.Fetcher.Server.Result.err e) =
    err (wrap "Failed to create docker root fetcher" (status unknown "pinned"))

unfoldable pub create_server : ApplicationConfiguration → Result UnixUser → Result Server
create_server config (err e) = err (wrap "Invalid build user" e)
create_server config (ok user) = created (new_server (server_options config))

-- The limits that have to be set.
unfoldable pub check_limits : ApplicationConfiguration → Result Server
check_limits config =
    if config.fetch_parallelism == 0
    then err (status invalid_argument "fetchParallelism not set")
    else if config.fetch_open_directory_limit == 0
    then err (status invalid_argument "openDirLimit not set")
    else if config.maximum_materialized_roots == 0
    then err (status invalid_argument "maxRoots not set")
    else if config.maximum_concurrent_fetches == 0
    then err (status invalid_argument "maxConcurrentFetches not set")
    else create_server config (build_user_from_proto config.build_user)

unfoldable pub with_registries :
    ApplicationConfiguration → Result (List (Text × RegistryAuth)) → Result Server
with_registries config (err e) = err (wrap "Failed to parse registry authentication" e)
with_registries config (ok registries) = check_limits config

module _ (remove_fails mkdir_fails : Option Error)
    (registries : Result (List (Text × RegistryAuth))) where
  unfoldable pub made_roots : Option Error → ApplicationConfiguration → Result Server
  made_roots (some e) config = err (wrap "Failed to create roots directory %v" e)
  made_roots none config = with_registries config registries

  unfoldable pub cleared_roots :
      Option Error → ApplicationConfiguration → Result Server × List SystemCall
  cleared_roots (some e) config = (
    err (wrap "Failed to clear roots directory %v" e),
    remove_all config.roots_directory_path ∷ [],
  )
  cleared_roots none config = (
    made_roots mkdir_fails config,
    remove_all config.roots_directory_path ∷ mkdir_all config.roots_directory_path ∷ [],
  )

  -- The server, and the calls of the system that were made.
  unfoldable pub start_server : ApplicationConfiguration → Result Server × List SystemCall
  start_server config =
      if without_segment config.roots_directory_path
      then (
        err (
            status invalid_argument "RootsDirectoryPath %q must contain at least one path segment"),
        [],
      )
      else cleared_roots remove_fails config
