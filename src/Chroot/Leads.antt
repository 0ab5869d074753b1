-- ===== src/Chroot/Leads.antt =====
-- Steps of the helper from one condition to another, or to an error.
use bb_action_router.Base.{
  Text, ◌≡◌, refl, sym, subst, inl, inr, Bool, true, false, Option, none, some, if◌then◌else◌,
  Option-cases,
}
use bb_action_router.Status.{Error, Result, ok, err, or_else, code_of, is_not_found}
use bb_action_router.Chroot.Run.{user_in, does_not_exist, file_contains_user}
use bb_action_router.Chroot.System.{
  Call, read_file, remove_file, Process, Exec, effect, continue, ◌>>=◌, ◌>>◌, on_error, ignoring,
  ignoring_result, unless_error, perform, read_all, remove_path, read, found, present,
}

module _ (Bad : Process → Type 0) where
  -- A result that is fine, with a condition on its value and the state, or an error in a bad state.
  abbrev pub After : {A : Type 0} → (A → Process → Type 0) → Result A × Process → Type 0
  After Q (ok a, p) = Q a p
  After Q (err e, p) = Bad p

  pub record Leads {A : Type 0} (P : Process → Type 0) (Q : A → Process → Type 0) (m : Exec A)
      : Type 0 where
    pub runs : (p : Process) → P p → After Q (m p)

  continue-After :
      {A B : Type 0} (Q : A → Process → Type 0) (R : B → Process → Type 0) (r : Result A × Process)
      (f : A → Exec B)
      → After Q r
      → ((a : A) → Leads (Q a) R (f a))
      → After R (continue r.0 f r.1)
  continue-After Q R (ok a, p) f h k = (k a).runs p h
  continue-After Q R (err e, p) f h k = h

  pub >>=-Leads :
      {A B : Type 0} {P : Process → Type 0} {Q : A → Process → Type 0} {R : B → Process → Type 0}
      {m : Exec A} {f : A → Exec B}
      → Leads P Q m
      → ((a : A) → Leads (Q a) R (f a))
      → Leads P R (m >>= f)
  unfolding ◌>>=◌
  >>=-Leads {Q} {R} {m} {f} h k = record {
    runs = λ p hp. continue-After Q R (m p) f (h.runs p hp) k;
  }

  pub >>-Leads :
      {B : Type 0} {P Q : Process → Type 0} {R : B → Process → Type 0} {m : Exec (Unit {0})}
      {n : Exec B}
      → Leads P (λ (u : Unit {0}). Q) m
      → Leads Q R n
      → Leads P R (m >> n)
  unfolding ◌>>◌
  >>-Leads {Q} {R} {m} {n} h k = >>=-Leads {Q = λ u. Q} {f = λ u. n} h (λ u. k)

  or_else-After :
      {A : Type 0} (Q : A → Process → Type 0) (g : Error → Error) (r : Result A × Process)
      → After Q r
      → After Q (or_else r.0 g, r.1)
  or_else-After Q g (ok a, p) h = h
  or_else-After Q g (err e, p) h = h

  pub on_error-Leads :
      {A : Type 0} {P : Process → Type 0} {Q : A → Process → Type 0} {m : Exec A}
      (g : Error → Error)
      → Leads P Q m
      → Leads P Q (on_error g m)
  unfolding on_error
  on_error-Leads {Q} {m} g h = record { runs = λ p hp. or_else-After Q g (m p) (h.runs p hp) }

  -- What a call that fails leaves, under the errors that are ignored.
  unless_error-After :
      (Q : Process → Type 0) (p : Process) (e : Error) (b : Bool)
      → Q p
      → Bad p
      → After (λ u. Q) (unless_error b e, p)
  unless_error-After Q p e true q b = q
  unless_error-After Q p e false q b = b

  module _ (fails : Process → Call → Option Error) where
    module _ (p : Process) where
      perform-ok : (c : Call) → fails p c ≡ none → perform fails c p ≡ (ok tt, effect c p)
      unfolding perform effect
      perform-ok c e = rw (e, perform) refl

      perform-err : (c : Call) (x : Error) → fails p c ≡ some x → perform fails c p ≡ (err x, p)
      unfolding perform effect
      perform-err c x e = rw (e, perform) refl

      module _ (path : Text) where
        read-ok :
            fails p (read_file path) ≡ none → read_all fails path p ≡ (found (read path p.disk), p)
        unfolding read_all read
        read-ok e = rw (e, read_all) refl

        read-err :
            (x : Error) → fails p (read_file path) ≡ some x → read_all fails path p ≡ (err x, p)
        unfolding read_all read
        read-err x e = rw (e, read_all) refl

        remove-ok :
            fails p (remove_file path) ≡ none
            → remove_path fails path p ≡ (present (read path p.disk), effect (remove_file path) p)
        unfolding remove_path read effect
        remove-ok e = rw (e, remove_path) refl

        remove-err :
            (x : Error)
            → fails p (remove_file path) ≡ some x
            → remove_path fails path p ≡ (err x, p)
        unfolding remove_path read effect
        remove-err x e = rw (e, remove_path) refl

    abbrev pub FailsBadly : (Process → Type 0) → Call → Type 0
    FailsBadly P c = (p : Process) (e : Error) → P p → fails p c ≡ some e → Bad p

    pub perform-Leads :
        {P Q : Process → Type 0} (c : Call)
        → FailsBadly P c
        → ((p : Process) → P p → Q (effect c p))
        → Leads P (λ (u : Unit {0}). Q) (perform fails c)
    perform-Leads {Q} c bad step = record {
      runs = λ p hp. elim (Option-cases (fails p c)) [
        | inl e ↦ rw (perform-ok p c e) (step p hp)
        | inr (x, e) ↦ rw (perform-err p c x e) (bad p x hp e)
      ];
    }

    pub ignoring-Leads :
        {P : Process → Type 0} (ignored : Error → Bool) (c : Call)
        → FailsBadly P c
        → ((p : Process) → P p → P (effect c p))
        → Leads P (λ (u : Unit {0}). P) (ignoring ignored (perform fails c))
    unfolding ignoring
    ignoring-Leads {P} ignored c bad step = record {
      runs = λ p hp. elim (Option-cases (fails p c)) [
        | inl e ↦ rw (perform-ok p c e) (step p hp)
        | inr (x, e) ↦
            rw (perform-err p c x e) (unless_error-After P p x (ignored x) hp (bad p x hp e))
      ];
    }

    found-After :
        (Q : Text → Process → Type 0) (p : Process) (o : Option Text)
        → (o ≡ none → Bad p)
        → ((t : Text) → o ≡ some t → Q t p)
        → After Q (found o, p)
    found-After Q p none absent step = absent refl
    found-After Q p (some t) absent step = step t refl

    pub read_all-Leads :
        {P : Process → Type 0} {Q : Text → Process → Type 0} (path : Text)
        → FailsBadly P (read_file path)
        → ((p : Process) → P p → read path p.disk ≡ none → Bad p)
        → ((p : Process) (t : Text) → P p → read path p.disk ≡ some t → Q t p)
        → Leads P Q (read_all fails path)
    read_all-Leads {Q} path bad absent step = record {
      runs = λ p hp. elim (Option-cases (fails p (read_file path))) [
        | inl e ↦
            rw (read-ok p path e)
              (found-After Q p (read path p.disk) (absent p hp) (λ t. step p t hp))
        | inr (x, e) ↦ rw (read-err p path x e) (bad p x hp e)
      ];
    }

    present-After :
        (Q : Process → Type 0) (p : Process) (o : Option Text)
        → Q p
        → After (λ u. Q) (ignoring_result does_not_exist (present o), p)
    unfolding is_not_found code_of
    present-After Q p none h = h
    present-After Q p (some t) h = h

    -- A file is removed, or is missing: no call fails as if it were.
    pub remove_missing-Leads :
        {P Q : Process → Type 0} (path : Text)
        → ((p : Process) (e : Error)
            → fails p (remove_file path) ≡ some e
            → does_not_exist e ≡ false)
        → FailsBadly P (remove_file path)
        → ((p : Process) → P p → Q (effect (remove_file path) p))
        → Leads P (λ (u : Unit {0}). Q) (ignoring does_not_exist (remove_path fails path))
    unfolding ignoring
    remove_missing-Leads {P} {Q} path honest bad step = record {
      runs = λ p hp. elim (Option-cases (fails p (remove_file path))) [
        | inl e ↦
            rw (remove-ok p path e)
              (present-After Q (effect (remove_file path) p) (read path p.disk) (step p hp))
        | inr (x, e) ↦ rw (remove-err p path x e) (
            subst (λ b. After (λ (u : Unit {0}). Q) (unless_error b x, p)) (sym (honest p x e))
              (bad p x hp e))
      ];
    }

    -- A file that may be missing is removed.
    pub remove-Leads :
        {P : Process → Type 0} (path : Text)
        → FailsBadly P (remove_file path)
        → ((p : Process) → P p → P (effect (remove_file path) p))
        → Leads P (λ (u : Unit {0}). P) (ignoring does_not_exist (remove_path fails path))
    unfolding ignoring
    remove-Leads {P} path bad step = record {
      runs = λ p hp. elim (Option-cases (fails p (remove_file path))) [
        | inl e ↦
            rw (remove-ok p path e)
              (present-After P (effect (remove_file path) p) (read path p.disk) (step p hp))
        | inr (x, e) ↦
            rw (remove-err p path x e)
              (unless_error-After P p x (does_not_exist x) hp (bad p x hp e))
      ];
    }

    user_in_found-After :
        (P : Process → Type 0) (p : Process) (username : Text) (o : Option Text)
        → P p
        → After (λ (b : Bool). P) (user_in username (found o), p)
    unfolding is_not_found code_of
    user_in_found-After P p username none h = h
    user_in_found-After P p username (some t) h = h

    user_in_err-After :
        (P : Process → Type 0) (p : Process) (e : Error) (b : Bool)
        → P p
        → Bad p
        → After (λ (b : Bool). P) ((if b then ok false else err e), p)
    user_in_err-After P p e true h k = h
    user_in_err-After P p e false h k = k

    -- A file is searched for a user, and one that is missing has none.
    pub file_contains_user-Leads :
        {P : Process → Type 0} (path username : Text)
        → FailsBadly P (read_file path)
        → Leads P (λ (b : Bool). P) (file_contains_user fails path username)
    unfolding file_contains_user
    file_contains_user-Leads {P} path username bad = record {
      runs = λ p hp. elim (Option-cases (fails p (read_file path))) [
        | inl e ↦ rw (read-ok p path e) (user_in_found-After P p username (read path p.disk) hp)
        | inr (x, e) ↦
            rw (read-err p path x e) (user_in_err-After P p x (does_not_exist x) hp (bad p x hp e))
      ];
    }
