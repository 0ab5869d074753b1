-- ===== src/Daemon/Running/Released.antt =====
-- What the daemon has let go of when its listener closes.
use bb_action_router.Base.{
  Text, holds, holds-cons, ℕ, ◌+◌, ◌/◌, ◌%◌, ◌≤◌, ◌≡◌, refl, sym, subst, ◌≢◌, ◌⊎◌, inl, inr, true,
  false, Option, none, some, List, [], ◌∷◌, ◌++◌, arith, ℕ_discrete, length, All,
}
use bb_action_router.Fetcher.Options.{Options}
use bb_action_router.Fetcher.Server.{Server, Result, new_server}
use bb_action_router.Fetcher.System.{
  Phase, idle, waiting, fetching, materialized, fetched, leased, released, failed, System, hit,
  miss, begin_fetch, materialize_fails, materialize_leaves, materialize, install, share,
  share_failure, attach, let_go, reap_trash, reap_doomed, init,
}
use bb_action_router.Fetcher.System
use bb_action_router.Fetcher.System.Safety.{no_lease_left}
use bb_action_router.Daemon.Accepting.{
  Loop, closed, cancel, connect, accept_breaks, count, hang_up, uncount, see_none, close,
  stop_accepting, listening_loop,
}
use bb_action_router.Daemon.Accepting
use bb_action_router.Daemon.Accepting.Drained.{shutdown_drains}
use bb_action_router.Daemon.Running.{
  Daemon, call, prefetch_call, caller, MayRun, HasEnded, ending_connection, MayEnd, of_loop,
  of_event, of_call, Run, started, turned,
}

-- The two halves of a run are runs.
Run-loop : {server : Server} {d : Daemon} → Run server d → Accepting.Reach d.loop
Run-loop started = Accepting.Reach.here
Run-loop (turned r (of_loop d m st may)) = Accepting.Reach.by_step (Run-loop r) st
Run-loop (turned r (of_event d m ev)) = Accepting.Reach.by_event (Run-loop r) ev
Run-loop (turned r (of_call d u st may)) = Run-loop r

Run-system : {server : Server} {d : Daemon} → Run server d → System.Reach (init server) d.system
Run-system started = System.Reach.here
Run-system (turned r (of_loop d m st may)) = Run-system r
Run-system (turned r (of_event d m ev)) = Run-system r
Run-system (turned r (of_call d u st may)) = System.Reach.next (Run-system r) st

-- A step moves the phase of its call alone.
other_phases :
    {s u : System} (st : System.Step s u) (k : ℕ) → caller st ≢ some k → u.phase k ≡ s.phase k
unfolding caller
other_phases (hit s t ref p now e got) k n = ground arith
other_phases (miss s t ref now e got) k n = ground arith
other_phases (begin_fetch s t ref e room) k n = ground arith
other_phases (materialize_fails s t ref e) k n = ground arith
other_phases (materialize_leaves s t ref path e absent) k n = refl
other_phases (materialize s t ref path e absent) k n = ground arith
other_phases (install s t ref path renamed now e) k n = ground arith
other_phases (share s t ref p e flown) k n = ground arith
other_phases (share_failure s t ref e) k n = ground arith
other_phases (attach s t ref p now e) k n = ground arith
other_phases (let_go s t ref p now e) k n = ground arith
other_phases (reap_trash s removed seq) k n = refl
other_phases (reap_doomed s removed path) k n = refl

-- A connection whose call has not ended has a handler that runs.
abbrev Tied : Daemon → Type 0
Tied d = (c : ℕ) → HasEnded (d.system.phase (call c)) ⊎ (holds c d.loop.running ≡ true)

holds-rest :
    (c k : ℕ) (before after : List ℕ)
    → holds k (before ++ (c ∷ after)) ≡ true
    → c ≢ k
    → holds k (before ++ after) ≡ true
unfolding holds
holds-rest c k [] after h n = ground arith
holds-rest c k (b ∷ before) after h n = ground (arith, holds-rest c k before after)

loop-Tied :
    (s : System) {l m : Loop} (st : Accepting.Step l m)
    → MayEnd s (ending_connection st)
    → Tied (record { loop = l; system = s })
    → Tied (record { loop = m; system = s })
unfolding ending_connection
loop-Tied s (count l e) may tied c = elim (tied c) [
  | inl ended ↦ inl ended
  | inr h ↦ inr (ground (arith, holds-cons c l.counted l.running))
]
loop-Tied s (hang_up l before after k e) may tied c = elim (ℕ_discrete k c) [
  | yes self ↦ inl (subst (λ i. HasEnded (s.phase (call i))) self may)
  | no other ↦ elim (tied c) [
    | inl ended ↦ inl ended
    | inr h ↦ inr (holds-rest k c before after (subst (λ r. holds c r ≡ true) e h) other)
  ]
]
loop-Tied s (uncount l n e) may tied c = tied c
loop-Tied s (see_none l stop w e) may tied c = tied c
loop-Tied s (close l n e) may tied c = tied c
loop-Tied s (stop_accepting l e m shut) may tied c = tied c

event-Tied :
    (s : System) {l m : Loop}
    → Accepting.Event l m
    → Tied (record { loop = l; system = s })
    → Tied (record { loop = m; system = s })
event-Tied s (cancel l) tied c = tied c
event-Tied s (connect l e shut) tied c = tied c
event-Tied s (accept_breaks l x e shut) tied c = tied c

some-injective : {m n : ℕ} → Option.some m ≡ some n → m ≡ n
some-injective e = ground arith

caller-cases :
    (l : Loop) (o : Option ℕ) (c : ℕ)
    → MayRun l o
    → (o ≢ some (call c)) ⊎ (holds c l.running ≡ true)
caller-cases l none c may = inl (λ e. cc)
caller-cases l (some t) c (inl (k, e)) = inl (λ h. omega (arith, some-injective h, e))
caller-cases l (some t) c (inr (i, e, h)) = elim (ℕ_discrete i c) [
  | yes self ↦ inr (subst (λ j. holds j l.running ≡ true) self h)
  | no other ↦ inl (λ f. other (omega (arith, some-injective f, e)))
]

call-Tied :
    (l : Loop) {s u : System} (st : System.Step s u)
    → MayRun l (caller st)
    → Tied (record { loop = l; system = s })
    → Tied (record { loop = l; system = u })
call-Tied l st may tied c = elim (caller-cases l (caller st) c may) [
  | inr h ↦ inr h
  | inl n ↦ elim (tied c) [
    | inr h ↦ inr h
    | inl ended ↦ inl (subst HasEnded (sym (other_phases st (call c) n)) ended)
  ]
]

Run-Tied : {server : Server} {d : Daemon} → Run server d → Tied d
Run-Tied started = λ c. inl tt
Run-Tied (turned r (of_loop d m st may)) = loop-Tied d.system st may (Run-Tied r)
Run-Tied (turned r (of_event d m ev)) = event-Tied d.system ev (Run-Tied r)
Run-Tied (turned r (of_call d u st may)) = call-Tied d.loop st may (Run-Tied r)

ended_quiet :
    (x : Phase) → HasEnded x → (ref : Text) (p : ℕ) → (x ≢ leased ref p) × (x ≢ fetched ref p)
ended_quiet idle h ref p = (cc, cc)
ended_quiet failed h ref p = (cc, cc)
ended_quiet (released j q) h ref p = (cc, cc)
ended_quiet (waiting j) h ref p = elim h [ ]
ended_quiet (fetching j) h ref p = elim h [ ]
ended_quiet (materialized j path) h ref p = elim h [ ]
ended_quiet (fetched j q) h ref p = elim h [ ]
ended_quiet (leased j q) h ref p = elim h [ ]

half : (t : ℕ) → ((k : ℕ) × (t ≡ prefetch_call k)) ⊎ ((c : ℕ) × (t ≡ call c))
half t = elim (ℕ_discrete (t % 2) 0) [
  | yes even ↦ inr (t / 2, omega arith)
  | no odd ↦ inl (t / 2, omega arith)
]

late-holds : (n c : ℕ) (cs : List ℕ) → All (λ i. n ≤ i) cs → holds c cs ≡ true → n ≤ c
unfolding holds
late-holds n c [] all h = cc
late-holds n c (i ∷ cs) all h = ground (arith, late-holds n c cs all.1, all.0)

-- When the goroutine of a daemon that runs on a new server has closed the listener, the context is
-- done, the count is that of the handlers that have not ended, and every connection that is still
-- open was counted only after the goroutine had seen the count at 0. Every lease is then that of
-- such a connection, or of an image that is being prefetched: no other connection has left one.
pub shutdown_releases :
    (o : Options) {server : Server} {d : Daemon} (n : ℕ)
    → new_server o ≡ Result.ok server
    → Run server d
    → d.loop.shutdown ≡ closed n
    → (d.loop.stopping ≡ true)
      × (d.loop.in_flight ≡ length d.loop.running + d.loop.ending)
      × All (λ c. n ≤ c) d.loop.running
      × ((t p : ℕ)
          → (holds t (d.system.server.heap p).leases ≡ false)
            ⊎ (((k : ℕ) × (t ≡ prefetch_call k))
                ⊎ ((c : ℕ) × (t ≡ call c) × (holds c d.loop.running ≡ true) × (n ≤ c))))
shutdown_releases o {server} {d} n new r shut =
    let (stop, closed_listener, counted, late) = shutdown_drains n (Run-loop r) shut in
    (
      stop,
      counted,
      late,
      λ t p. elim (half t) [
        | inl prefetch ↦ inr (inl prefetch)
        | inr (c, e) ↦ elim (Run-Tied r c) [
          | inr runs ↦ inr (inr (c, e, runs, late-holds n c d.loop.running late runs))
          | inl ended ↦ inl (
              subst (λ i. holds i (d.system.server.heap p).leases ≡ false) (sym e)
                (no_lease_left o new (Run-system r) (call c) (ended_quiet _ ended) p))
        ]
      ],
    )
