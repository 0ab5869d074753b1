-- ===== src/Daemon/Accepting/Ends.antt =====
-- Once the daemon is to stop and no more clients connect, the loop ends.
use bb_action_router.Base.{
  ℕ, zero, suc, ◌+◌, ◌*◌, ◌≤◌, ◌<◌, ◌≡◌, refl, ap, subst, ◌≢◌, ◌⊎◌, inl, inr, true, none, some,
  List, [], ◌∷◌, arith, length,
}
use bb_action_router.Status.{Error, status, unknown}
use bb_action_router.Daemon.Accepting.{
  Shutdown, waiting, drained, closed, Main, accepting, accepted, returned, Loop, accept_failed,
  Step, count, hang_up, uncount, see_none, close, stop_accepting, Reach, Steps, none_yet, one_more,
}
use bb_action_router.Daemon.Accepting.Drained.{Inv, Reach-Inv, Steps-Inv, Behind, length-one_extra}

abbrev pub shutdown_steps : Shutdown → ℕ
shutdown_steps waiting = 2
shutdown_steps (drained n) = 1
shutdown_steps (closed n) = 0

-- A connection that is accepted has to be counted, to end and to be taken off the count.
abbrev pub main_steps : Main → ℕ
main_steps accepting = 1
main_steps accepted = 4
main_steps (returned e) = 0

abbrev pub steps_left : Loop → ℕ
steps_left s = 2 * length s.running + s.ending + shutdown_steps s.shutdown + main_steps s.main

Step-steps_left : {s u : Loop} → Step s u → steps_left u < steps_left s
Step-steps_left (count s e) = ground (arith, ap main_steps e)
Step-steps_left (hang_up s before after c e) =
    ground (arith, length-one_extra before after c, ap length e)
Step-steps_left (uncount s n e) = ground arith
Step-steps_left (see_none s stop w e) = ground (arith, ap shutdown_steps w)
Step-steps_left (close s n e) = ground (arith, ap shutdown_steps e)
Step-steps_left (stop_accepting s e m l) = ground (arith, ap main_steps m)

Steps-steps_left : {s u : Loop} {n : ℕ} → Steps s n u → n + steps_left u ≤ steps_left s
Steps-steps_left none_yet = omega arith
Steps-steps_left (one_more r st) = omega (arith, Steps-steps_left r, Step-steps_left st)

-- The daemon is to stop, and the loop has not ended with an error.
record Stops (s : Loop) : Type 0 where
  stop : s.stopping ≡ true
  well : (e : Error) → s.main ≢ returned (some e)

Step-Stops : {s u : Loop} → Step s u → Stops s → Stops u
unfolding accept_failed
Step-Stops (count s e) h = record { stop = h.stop; well = λ x. cc }
Step-Stops (hang_up s before after c e) h = record { stop = h.stop; well = h.well }
Step-Stops (uncount s n e) h = record { stop = h.stop; well = h.well }
Step-Stops (see_none s stop w e) h = record { stop = h.stop; well = h.well }
Step-Stops (close s n e) h = record { stop = h.stop; well = h.well }
Step-Stops (stop_accepting s e m l) h = record { stop = h.stop; well = λ x. rw h.stop cc }

Steps-Stops : {s u : Loop} {n : ℕ} → Steps s n u → Stops s → Stops u
Steps-Stops none_yet h = h
Steps-Stops (one_more r st) h = Step-Stops st (Steps-Stops r h)

abbrev CanStep : Loop → Type 0
CanStep s = (u : Loop) × Step s u

ℕ-cases : (n : ℕ) → (n ≡ 0) ⊎ ((m : ℕ) × (n ≡ suc m))
ℕ-cases zero = inl refl
ℕ-cases (suc m) = inr (m, refl)

List-cases : (cs : List ℕ) → (cs ≡ []) ⊎ ((d : ℕ) × (ds : List ℕ) × (cs ≡ d ∷ ds))
List-cases [] = inl refl
List-cases (d ∷ ds) = inr (d, ds, refl)

-- The goroutine waits: a connection is still open, or a handler is ending, or there is none left.
waiting-CanStep : (s : Loop) → Inv s → s.stopping ≡ true → s.shutdown ≡ waiting → CanStep s
waiting-CanStep s inv stop w = elim (List-cases s.running) [
  | inr (c, cs, e) ↦ (_, hang_up s [] cs c e)
  | inl gone ↦ elim (ℕ-cases s.ending) [
    | inr (n, e) ↦ (_, uncount s n e)
    | inl ended ↦ (_, see_none s stop w (ground (arith, inv.counts, ap length gone)))
  ]
]

shutdown-CanStep :
    (s : Loop) (x : Shutdown)
    → s.shutdown ≡ x
    → Inv s
    → s.stopping ≡ true
    → s.main ≡ accepting
    → CanStep s
shutdown-CanStep s waiting e inv stop m = waiting-CanStep s inv stop e
shutdown-CanStep s (drained n) e inv stop m = (_, close s n e)
shutdown-CanStep s (closed n) e inv stop m = (
  _,
  stop_accepting s (status unknown "use of closed network connection") m
      (subst (λ x. Behind x s) e inv.behind).0,
)

main-CanStep :
    (s : Loop) (m : Main) → s.main ≡ m → Inv s → Stops s → (s.main ≡ returned none) ⊎ CanStep s
main-CanStep s accepting e inv h = inr (shutdown-CanStep s s.shutdown refl inv h.stop e)
main-CanStep s accepted e inv h = inr (_, count s e)
main-CanStep s (returned none) e inv h = inl e
main-CanStep s (returned (some x)) e inv h = absurd (h.well x e)

-- Once the context is done, if no more clients connect: the daemon takes no more than a number of
-- steps that its state bounds, whatever their order, and until the loop has returned without an
-- error, there is one to take, be it that a client hangs up.
pub loop_ends :
    {s u : Loop} {n : ℕ}
    → Reach s
    → s.stopping ≡ true
    → ((e : Error) → s.main ≢ returned (some e))
    → Steps s n u
    → (n ≤ steps_left s) × ((u.main ≡ returned none) ⊎ ((v : Loop) × Step u v))
loop_ends {s} {u} r stop well steps = (
  omega (arith, Steps-steps_left steps),
  main-CanStep u u.main refl (Steps-Inv steps (Reach-Inv r))
      (Steps-Stops steps (record { stop = stop; well = well })),
)
