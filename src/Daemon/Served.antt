-- ===== src/Daemon/Served.antt =====
-- A connection to the server of Fetcher, when no other call comes between the steps of its Acquire.
use bb_action_router.Base.{
  Text, holds, ℕ, ◌<◌, ◌≡◌, refl, ◌∙◌, ◌≢◌, inl, Bool, false, Option, none, some, List,
}
use bb_action_router.Status.{Error, Result}
use bb_action_router.Fetcher.Options.{Options}
use bb_action_router.Fetcher.Server.{Server, new_server}
use bb_action_router.Fetcher.System.{
  Phase, idle, fetched, leased, released, System, Reach, here, next, init, let_go,
}
use bb_action_router.Fetcher.System.Alone.{
  outcome, let_go_call, acquire_alone, Going, at_leased, at_failed, Makes, acquire_alone-Reach,
  phase_set, Reach-trans,
}
use bb_action_router.Fetcher.System.Safety.{no_lease_left}
use bb_action_router.Router.Template.{trim_space}
use bb_action_router.Daemon.Connection.{
  Roots, read_string, parse_request, answer, serve, serve_line, handle_connection,
}

module _ (make : Text → List Text → Result Text × List Text) (t now : ℕ) (renamed : Bool)
    (refusal : Error) (message : Error → Text) (meanwhile : System → System) where
  abbrev pub server_roots : Roots System
  server_roots = record { acquire = acquire_alone make t now renamed refusal; message = message }

  -- The call has no lease and none that was just fetched.
  abbrev Quiet : Phase → Type 0
  Quiet x = (ref : Text) (p : ℕ) → (x ≢ leased ref p) × (x ≢ fetched ref p)

  abbrev Serves : System → Text × System → Type 0
  Serves s r = Reach s r.1 × Quiet (r.1.phase t)

  module _ (makes : (ref : Text) (disk : List Text) → Makes make t now renamed disk (make ref disk))
      (others : (s : System) → Reach s (meanwhile s) × ((meanwhile s).phase t ≡ s.phase t)) where
    outcome-Serves :
        (x : Phase) (s : System)
        → s.phase t ≡ x
        → Going make t now renamed 0 x
        → Serves s (answer server_roots meanwhile (outcome make t now renamed x s refusal, s))
    unfolding outcome let_go_call answer
    outcome-Serves _ s e (at_leased _ ref p) =
        let later = others s in
        (
          next later.0 (let_go (meanwhile s) t ref p now (inl (later.1 ∙ e))),
          λ k q.
              rw (phase_set make t now renamed (meanwhile s).phase (released ref p))
                (λ h. cc h, λ h. cc h),
        )
    outcome-Serves _ s e (at_failed _) = (here, λ k q. rw e (λ h. cc h, λ h. cc h))

    serve-Serves :
        (line : Text) (request : Option Text) (s : System)
        → s.phase t ≡ idle
        → s.in_fetch < s.max_concurrent_fetches
        → Serves s (serve server_roots meanwhile line request s)
    unfolding serve acquire_alone
    serve-Serves line none s free room = (here, λ k q. rw free (λ h. cc h, λ h. cc h))
    serve-Serves line (some ref) s free room =
        let (r, going) = acquire_alone-Reach make t now renamed makes refusal ref s free room in
        let ended = (acquire_alone make t now renamed refusal ref s).1 in
        let (rest, quiet) = outcome-Serves (ended.phase t) ended refl going in
        (Reach-trans r rest, quiet)

    serve_line-Serves :
        (line : Option Text) (s : System)
        → s.phase t ≡ idle
        → s.in_fetch < s.max_concurrent_fetches
        → Serves s (serve_line server_roots meanwhile line s)
    unfolding serve_line
    serve_line-Serves none s free room = (here, λ k q. rw free (λ h. cc h, λ h. cc h))
    serve_line-Serves (some line) s free room =
        serve-Serves (trim_space line) (parse_request (trim_space line)) s free room

    module _ (o : Options) {server : Server} {s : System}
        (made : new_server o ≡ bb_action_router.Fetcher.Server.Result.ok server)
        (r : Reach (init server) s) where
      -- Whatever a client sends, its connection is a run of the system: when it is closed, the server
      -- is in a state that can be reached, and no root has the lease of the connection. The
      -- conditions: the connection is new, the semaphore has room, no other call comes between the
      -- steps of its Acquire, while it holds a root other calls do what they like, and Materialize
      -- moves a directory to a free path or changes nothing.
      pub connection_releases :
          (input : Text)
          → s.phase t ≡ idle
          → s.in_fetch < s.max_concurrent_fetches
          → let left = (handle_connection server_roots meanwhile input s).1 in
            Reach (init server) left × ((p : ℕ) → holds t (left.heap p).leases ≡ false)
      unfolding handle_connection
      connection_releases input free room =
          let (run, quiet) = serve_line-Serves (read_string input) s free room in
          let reached = Reach-trans r run in (reached, no_lease_left o made reached t quiet)
