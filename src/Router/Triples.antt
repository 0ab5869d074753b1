-- ===== src/Router/Triples.antt =====
-- Triples: what holds after an action on the state that succeeds, given what held before.
use bb_action_router.Base.{◌≡◌, sym, subst, inl, inr}
use bb_action_router.Status.{Error, Result, Result-cases, ok}
use bb_action_router.Router.State.{
  World, State, Exec, pure, lift, modify, continue, ◌>>=◌, on_error, get_command,
}
use bb_action_router.Router.Template.{Template, render}
use bb_action_router.Router.Loading.{loaded, render-AtMostLoads}

pub record Ensures {A : Type 0} (P : State → Type 0) (m : Exec A) (Q : State → Type 0)
    : Type 0 where
  pub after : (s : State) → P s → (v : A) → (m s).0 ≡ ok v → Q (m s).1

pub Ensures-bind :
    {A B : Type 0} {P Q R : State → Type 0} {m : Exec A} {f : A → Exec B}
    → Ensures P m R
    → ((x : A) → Ensures R (f x) Q)
    → Ensures P (m >>= f) Q
Ensures-bind {m = m} {f = f} hm hf = record {
  after = λ s p v e. elim (Result-cases (m s).0) [
    | inl (x, r) ↦ rw r (
        (hf x).after (m s).1 (hm.after s p x r) v
          (subst (λ z. (continue z f (m s).1).0 ≡ ok v) r e))
    | inr (x, r) ↦ cc (r, e)
  ];
}

pub Ensures-pure : {A : Type 0} {P : State → Type 0} (x : A) → Ensures P (pure x) P
Ensures-pure x = record { after = λ s p v e. p }

pub Ensures-lift : {A : Type 0} {P : State → Type 0} (r : Result A) → Ensures P (lift r) P
Ensures-lift r = record { after = λ s p v e. p }

pub Ensures-modify :
    {P Q : State → Type 0} (f : State → State)
    → ((s : State) → P s → Q (f s))
    → Ensures P (modify f) Q
Ensures-modify f h = record { after = λ s p v e. h s p }

pub Ensures-on_error :
    {A : Type 0} {P Q : State → Type 0} {m : Exec A} (g : Error → Error)
    → Ensures P m Q
    → Ensures P (on_error g m) Q
Ensures-on_error {m = m} g h = record {
  after = λ s p v e. elim (Result-cases (m s).0) [
    | inl (x, r) ↦ h.after s p x r
    | inr (x, r) ↦ cc (r, e)
  ];
}

module _ (w : World) {P : State → Type 0} (loads : (s : State) → P s → P (loaded w s)) where
  pub Ensures-get_command : Ensures P (get_command w) P
  Ensures-get_command = record { after = λ s p v e. loads s p }

  pub Ensures-render : (t : Template) → Ensures P (render w t) P
  Ensures-render t = record {
    after = λ s p v e. elim (render-AtMostLoads w t s) [
      | inl f ↦ subst P (sym f) p
      | inr f ↦ subst P (sym f) (loads s p)
    ];
  }
