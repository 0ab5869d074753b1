-- ===== src/Daemon/Accepting/Drained.antt =====
-- What holds in every state of the loop, and what has ended when the listener closes.
use bb_action_router.Base.{
  ℕ, suc, ◌+◌, ◌≤◌, ◌≡◌, refl, ap, subst, Bool, true, false, none, some, List, [], ◌∷◌, ◌++◌, arith,
  length, All,
}
use bb_action_router.Status.{Error}
use bb_action_router.Daemon.Accepting.{
  Shutdown, waiting, drained, closed, Main, accepting, accepted, returned, Loop, accept_failed,
  Step, count, hang_up, uncount, see_none, close, stop_accepting, Event, cancel, connect,
  accept_breaks, Reach, here, by_step, by_event, Steps, none_yet, one_more,
}

-- What the goroutine knows when it has seen the count at 0.
abbrev pub Behind : Shutdown → Loop → Type 0
Behind waiting s = Unit {0}
Behind (drained n) s = (s.stopping ≡ true) × (n ≤ s.counted) × All (λ c. n ≤ c) s.running
Behind (closed n) s =
    (s.listening ≡ false) × (s.stopping ≡ true) × (n ≤ s.counted) × All (λ c. n ≤ c) s.running

abbrev pub Quits : Main → Bool → Type 0
Quits (returned none) stopping = stopping ≡ true
Quits _ stopping = Unit {0}

pub record Inv (s : Loop) : Type 0 where
  pub counts : s.in_flight ≡ length s.running + s.ending
  pub behind : Behind s.shutdown s
  pub quits : Quits s.main s.stopping

one_fewer :
    (P : ℕ → Type 0) (before after : List ℕ) (c : ℕ)
    → All P (before ++ (c ∷ after))
    → All P (before ++ after)
one_fewer P [] after c h = h.1
one_fewer P (b ∷ before) after c h = (h.0, one_fewer P before after c h.1)

pub length-one_extra :
    (before after : List ℕ) (c : ℕ)
    → length (before ++ (c ∷ after)) ≡ suc (length (before ++ after))
length-one_extra [] after c = refl
length-one_extra (b ∷ before) after c = ap suc (length-one_extra before after c)

All-none : (P : ℕ → Type 0) (cs : List ℕ) → length cs ≡ 0 → All P cs
All-none P [] h = tt
All-none P (c ∷ cs) h = absurd (ground arith)

-- What the goroutine knows outlives a step that opens nothing and counts only up.
Behind-step :
    (x : Shutdown) (s u : Loop)
    → (s.stopping ≡ true → u.stopping ≡ true)
    → (s.listening ≡ false → u.listening ≡ false)
    → s.counted ≤ u.counted
    → ((n : ℕ) → n ≤ s.counted → All (λ c. n ≤ c) s.running → All (λ c. n ≤ c) u.running)
    → Behind x s
    → Behind x u
Behind-step waiting s u stop shut more keep b = tt
Behind-step (drained n) s u stop shut more keep (b, m, all) = (stop b, ground arith, keep n m all)
Behind-step (closed n) s u stop shut more keep (l, b, m, all) =
    (shut l, stop b, ground arith, keep n m all)

accept_failed-Quits : (b : Bool) (e : Error) → Quits (returned (accept_failed b e)) b
unfolding accept_failed
accept_failed-Quits true e = refl
accept_failed-Quits false e = tt

cancel-Quits : (m : Main) (b : Bool) → Quits m b → Quits m true
cancel-Quits accepting b q = tt
cancel-Quits accepted b q = tt
cancel-Quits (returned none) b q = refl
cancel-Quits (returned (some e)) b q = tt

pub Step-Inv : {s u : Loop} → Step s u → Inv s → Inv u
Step-Inv (count s e) inv = record {
  counts = omega (arith, inv.counts);
  behind =
      Behind-step s.shutdown s _ (λ b. b) (λ l. l) (omega arith) (λ n m all. (m, all)) inv.behind;
  quits = tt;
}
Step-Inv (hang_up s before after c e) inv = record {
  counts = ground (arith, inv.counts, length-one_extra before after c, ap length e);
  behind =
      Behind-step s.shutdown s _ (λ b. b) (λ l. l) (omega arith)
        (λ n m all. one_fewer _ before after c (subst (All (λ i. n ≤ i)) e all)) inv.behind;
  quits = inv.quits;
}
Step-Inv (uncount s n e) inv = record {
  counts = omega (arith, inv.counts);
  behind = Behind-step s.shutdown s _ (λ b. b) (λ l. l) (omega arith) (λ n m all. all) inv.behind;
  quits = inv.quits;
}
Step-Inv (see_none s stop w e) inv = record {
  counts = inv.counts;
  behind = (stop, omega arith, All-none _ s.running (omega (arith, inv.counts)));
  quits = inv.quits;
}
Step-Inv (close s n e) inv =
    let seen = subst (λ x. Behind x s) e inv.behind in
    record { counts = inv.counts; behind = (refl, seen.0, seen.1, seen.2); quits = inv.quits }
Step-Inv (stop_accepting s e m l) inv = record {
  counts = inv.counts;
  behind = Behind-step s.shutdown s _ (λ b. b) (λ l. l) (omega arith) (λ n m all. all) inv.behind;
  quits = accept_failed-Quits s.stopping e;
}

Event-Inv : {s u : Loop} → Event s u → Inv s → Inv u
Event-Inv (cancel s) inv = record {
  counts = inv.counts;
  behind =
      Behind-step s.shutdown s _ (λ b. refl) (λ l. l) (omega arith) (λ n m all. all) inv.behind;
  quits = cancel-Quits s.main s.stopping inv.quits;
}
Event-Inv (connect s m l) inv = record {
  counts = inv.counts;
  behind = Behind-step s.shutdown s _ (λ b. b) (λ l. l) (omega arith) (λ n m all. all) inv.behind;
  quits = tt;
}
Event-Inv (accept_breaks s e m l) inv = record {
  counts = inv.counts;
  behind =
      Behind-step s.shutdown s _ (λ b. b) (λ l. refl) (omega arith) (λ n m all. all) inv.behind;
  quits = accept_failed-Quits s.stopping e;
}

pub Reach-Inv : {s : Loop} → Reach s → Inv s
Reach-Inv here = record { counts = refl; behind = tt; quits = tt }
Reach-Inv (by_step r st) = Step-Inv st (Reach-Inv r)
Reach-Inv (by_event r ev) = Event-Inv ev (Reach-Inv r)

pub Steps-Inv : {s u : Loop} {n : ℕ} → Steps s n u → Inv s → Inv u
Steps-Inv none_yet inv = inv
Steps-Inv (one_more r st) inv = Step-Inv st (Steps-Inv r inv)

-- When the goroutine has closed the listener, the context is done, the count is that of the handlers
-- that have not ended, and each connection that is still open was counted only after the goroutine
-- had seen the count at 0: no connection that it knew of is cut off.
pub shutdown_drains :
    {s : Loop} (n : ℕ)
    → Reach s
    → s.shutdown ≡ closed n
    → (s.stopping ≡ true)
      × (s.listening ≡ false)
      × (s.in_flight ≡ length s.running + s.ending)
      × All (λ c. n ≤ c) s.running
shutdown_drains {s} n r e =
    let inv = Reach-Inv r in
    let (shut, stop, _, late) = subst (λ x. Behind x s) e inv.behind in
    (stop, shut, inv.counts, late)
