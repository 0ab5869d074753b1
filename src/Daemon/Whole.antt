-- ===== src/Daemon/Whole.antt =====
-- The handler of connections, the server of Fetcher and materialize, together.
use bb_action_router.Base.{Text, member, holds, ℕ, ◌<◌, ◌≡◌, inl, inr, Bool, false, List, ◌∷◌}
use bb_action_router.Status.{Error, Result, ok, err}
use bb_action_router.Fetcher.Options.{Options}
use bb_action_router.Fetcher.Server.{Server, new_server}
use bb_action_router.Fetcher.System.{idle, System, Reach, init}
use bb_action_router.Fetcher.System.Alone.{as_before, and_new, Makes}
use bb_action_router.Daemon.Connection.{handle_connection}
use bb_action_router.Daemon.Materialize.{Materializer, materialize}
use bb_action_router.Daemon.Removed.{not_member}
use bb_action_router.Daemon.Cleaned.{Materialized, Ended, materialize_lem}
use bb_action_router.Daemon.Served.{server_roots, connection_releases}

module _ (h : Materializer)
    (fresh : (prefix d : Text) (dirs : List Text)
      → h.mkdir_temp prefix dirs ≡ ok d
      → member d dirs ≡ false)
    (t now : ℕ) (renamed : Bool) (refusal : Error) (message : Error → Text)
    (meanwhile : System → System) where
  Materialized-Makes :
      (ref : Text) (dirs : List Text) (r : Result Text × List Text)
      → Materialized h fresh ref dirs r
      → Makes (materialize h) t now renamed dirs r
  unfolding Materialized Ended
  Materialized-Makes ref dirs (ok path, left)
        (f, (cas, root, digest, new, away, inl (_, e), up, full)) =
      (dirs, as_before, not_member path cas dirs away, e)
  Materialized-Makes ref dirs (ok path, left)
        (f, (cas, root, digest, new, away, inr (_, e), up, full)) =
      (cas ∷ dirs, and_new dirs cas as_before new, away, e)
  Materialized-Makes ref dirs (err x, left) (inl e) = rw e as_before
  Materialized-Makes ref dirs (err x, left) (inr (cas, new, inl (inl (_, e)))) = rw e as_before
  Materialized-Makes ref dirs (err x, left) (inr (cas, new, inl (inr (_, e)))) =
      rw e (and_new dirs cas as_before new)
  Materialized-Makes ref dirs (err x, left) (inr (cas, new, inr (root, away, inl (_, e), why))) =
      rw e (and_new dirs root as_before (not_member root cas dirs away))
  Materialized-Makes ref dirs (err x, left) (inr (cas, new, inr (root, away, inr (_, e), why))) =
      rw e (and_new (cas ∷ dirs) root (and_new dirs cas as_before new) away)

  -- Whatever a client sends, its connection to the daemon is a run of the system, in which the
  -- server calls materialize: when it is closed, the server is in a state that can be reached, and
  -- no root has the lease of the connection. The conditions: the name of a new temporary directory
  -- is not that of a directory that is there, the connection is new, the semaphore has room, no
  -- other call comes between the steps of its Acquire, and while it holds a root other calls do what
  -- they like.
  pub daemon_releases :
      ((s : System) → Reach s (meanwhile s) × ((meanwhile s).phase t ≡ s.phase t))
      → (o : Options) {server : Server} {s : System}
      → new_server o ≡ bb_action_router.Fetcher.Server.Result.ok server
      → Reach (init server) s
      → (input : Text) → s.phase t ≡ idle
      → s.in_fetch < s.max_concurrent_fetches
      → let roots = server_roots (materialize h) t now renamed refusal message meanwhile in
        let left = (handle_connection roots meanwhile input s).1 in
        Reach (init server) left × ((p : ℕ) → holds t (left.heap p).leases ≡ false)
  daemon_releases others o made r input free room =
      connection_releases (materialize h) t now renamed refusal message meanwhile
        (λ ref disk.
          Materialized-Makes ref disk (materialize h ref disk) (materialize_lem h fresh ref disk))
        others o made r input free room
