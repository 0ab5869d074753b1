-- ===== src/Daemon/AcceptTests.antt =====
-- The loop with two clients, of which the second connects while the goroutine closes the listener.
use bb_action_router.Base.{◌≤◌, ◌≡◌, refl, ◌⊎◌, none, [], ◌∷◌}
use bb_action_router.Status.{external, unknown}
use bb_action_router.Daemon.Accepting.{
  returned, Loop, accept_failed, Step, count, hang_up, uncount, see_none, close, stop_accepting,
  Event, cancel, connect, listening_loop, Reach, here, by_step, by_event, Steps, none_yet, one_more,
}
use bb_action_router.Daemon.Accepting.Ends.{steps_left, loop_ends}

abbrev Run : Type 0
Run = (s : Loop) × Reach s

abbrev then_step : (r : Run) {u : Loop} → Step r.0 u → Run
then_step r {u} st = (u, by_step r.1 st)

abbrev then_event : (r : Run) {u : Loop} → Event r.0 u → Run
then_event r {u} ev = (u, by_event r.1 ev)

-- One client comes, and the daemon is to stop.
abbrev serving : Run
serving =
    let r0 : Run = (listening_loop, here) in
    let r1 = then_event r0 (connect _ refl refl) in
    let r2 = then_step r1 (count _ refl) in then_event r2 (cancel _)

-- It goes, and its handler ends.
abbrev idle_again : Run
unfolding serving
idle_again = then_step (then_step serving (hang_up _ [] [] 0 refl)) (uncount _ 0 refl)

-- Another comes once the count has been seen at 0.
abbrev stopped : Run
unfolding idle_again accept_failed
stopped =
    let r1 = then_step idle_again (see_none _ refl refl refl) in
    let r2 = then_event r1 (connect _ refl refl) in
    let r3 = then_step r2 (count _ refl) in
    let r4 = then_step r3 (close _ 1 refl) in
    then_step r4 (stop_accepting _ (external unknown) refl refl)

-- The loop has returned without an error, and the second connection is open.
cut_off : (stopped.0.main ≡ returned none) × (stopped.0.running ≡ 1 ∷ [])
unfolding stopped
cut_off = (refl, refl)

abbrev two_steps : Steps serving.0 2 idle_again.0
unfolding idle_again
two_steps = one_more (one_more none_yet (hang_up _ [] [] 0 refl)) (uncount _ 0 refl)

loop_ends_example :
    (2 ≤ steps_left serving.0)
    × ((idle_again.0.main ≡ returned none) ⊎ ((v : Loop) × Step idle_again.0 v))
unfolding serving
loop_ends_example = loop_ends serving.1 refl (λ e. cc) two_steps
