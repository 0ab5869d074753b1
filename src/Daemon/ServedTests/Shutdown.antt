-- ===== src/Daemon/ServedTests/Shutdown.antt =====
-- Two connections, of which the second comes while the daemon closes its listener and takes the root
-- that the first has let go of.
use bb_action_router.Base.{
  Text, codes, same, lookup, put, member, holds, release_token, ℕ, ◌+◌, ◌≤◌, ◌<◌, ◌≡◌, refl, ◌⊎◌,
  inl, inr, true, false, some, [], arith, length, All,
}
use bb_action_router.Fetcher.Options.{with_defaults}
use bb_action_router.Fetcher.Server.{
  acquire_cached_root, attach_lease, install_fetched, install_root, release, lease_root, touch,
}
use bb_action_router.Fetcher.System.{
  System, hit, miss, begin_fetch, materialize, install, attach, let_go, init,
}
use bb_action_router.Fetcher.System
use bb_action_router.Daemon.Accepting.{
  Loop, closed, cancel, connect, count, hang_up, uncount, see_none, close, listening_loop,
}
use bb_action_router.Daemon.Accepting
use bb_action_router.Daemon.Running.{
  Daemon, call, prefetch_call, caller, MayRun, ending_connection, MayEnd, of_loop, of_event,
  of_call, Run, started, turned,
}
use bb_action_router.Daemon.Running.Released.{shutdown_releases}
use bb_action_router.Daemon.ServedTests.{options, server, server_made}

abbrev After : Type 0
After = (d : Daemon) × Run server d

abbrev then_loop :
    (r : After) {m : Loop} (st : Accepting.Step r.0.loop m)
    → MayEnd r.0.system (ending_connection st)
    → After
then_loop r {m} st may = (_, turned r.1 (of_loop r.0 m st may))

abbrev then_event : (r : After) {m : Loop} → Accepting.Event r.0.loop m → After
then_event r {m} ev = (_, turned r.1 (of_event r.0 m ev))

abbrev then_call :
    (r : After) {u : System} (st : System.Step r.0.system u) → MayRun r.0.loop (caller st) → After
then_call r {u} st may = (_, turned r.1 (of_call r.0 u st may))

abbrev at_start : After
at_start = (record { loop = listening_loop; system = init server }, started)

abbrev image : Text
image = codes "a"

abbrev first_connected : After
unfolding ending_connection
first_connected =
    then_loop (then_event at_start (connect at_start.0.loop refl refl)) (count _ refl) tt

abbrev mine : (l : Loop) (c : ℕ) → holds c l.running ≡ true → MayRun l (some (call c))
mine l c h = inr (c, refl, h)

has_room : 0 < server.max_concurrent_fetches
unfolding server with_defaults
has_room = omega arith

abbrev first_served : After
unfolding first_connected caller holds with_defaults acquire_cached_root lookup install_fetched
    install_root put attach_lease lease_root touch member same server
first_served =
    let r0 = first_connected in
    let r1 = then_call r0 (miss r0.0.system 0 image 100 refl refl) (mine r0.0.loop 0 refl) in
    let r2 = then_call r1 (begin_fetch r1.0.system 0 image refl has_room) (mine r1.0.loop 0 refl) in
    let r3 =
      then_call r2 (materialize r2.0.system 0 image (codes "/roots/a") refl refl)
        (mine r2.0.loop 0 refl) in
    let r4 =
      then_call r3 (install r3.0.system 0 image (codes "/roots/a") true 200 refl)
        (mine r3.0.loop 0 refl) in
    then_call r4 (attach r4.0.system 0 image 0 300 refl) (mine r4.0.loop 0 refl)

abbrev first_gone : After
unfolding first_served release release_token caller holds ending_connection server with_defaults
first_gone =
    let r1 =
      then_call first_served (let_go first_served.0.system 0 image 0 400 (inl refl))
        (mine first_served.0.loop 0 refl) in
    let r2 = then_loop r1 (hang_up r1.0.loop [] [] 0 refl) tt in
    then_loop r2 (uncount r2.0.loop 0 refl) tt

abbrev shut : After
unfolding first_gone caller holds ending_connection acquire_cached_root lookup same lease_root touch
    server with_defaults
shut =
    let r1 = then_event first_gone (cancel first_gone.0.loop) in
    let r2 = then_loop r1 (see_none r1.0.loop refl refl refl) tt in
    let r3 = then_event r2 (connect r2.0.loop refl refl) in
    let r4 = then_loop r3 (count r3.0.loop refl) tt in
    let r5 = then_call r4 (hit r4.0.system 2 image 0 500 refl refl) (mine r4.0.loop 1 refl) in
    then_loop r5 (close r5.0.loop 1 refl) tt

shutdown_releases_example :
    (shut.0.loop.stopping ≡ true)
    × (shut.0.loop.in_flight ≡ length shut.0.loop.running + shut.0.loop.ending)
    × All (λ c. 1 ≤ c) shut.0.loop.running
    × ((t p : ℕ)
        → (holds t (shut.0.system.server.heap p).leases ≡ false)
          ⊎ (((k : ℕ) × (t ≡ prefetch_call k))
              ⊎ ((c : ℕ) × (t ≡ call c) × (holds c shut.0.loop.running ≡ true) × (1 ≤ c))))
unfolding shut
shutdown_releases_example = shutdown_releases options 1 server_made shut.1 refl
