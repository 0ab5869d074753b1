-- ===== src/Status.antt =====
-- gRPC statuses and errors, as every package builds them. A message is its format string: what
-- the verbs print into it is left out. `external` is an error of code that is not modelled.
use Prim.Native.String.{String}
use bb_action_router.Base.{Bool, true, false, ◌≡◌, refl, ap, ◌⊎◌, inl, inr}

pub data Code : Type 0 where
  invalid_argument internal not_found already_exists data_loss unknown : Code

pub data Error : Type 0 where
  -- status.Error and status.Errorf
  status : Code → String → Error
  -- util.StatusWrap and util.StatusWrapf, which keep the code
  wrap : String → Error → Error
  -- util.StatusWrapWithCode
  wrap_with_code : Code → String → Error → Error
  -- fmt.Errorf with %w
  errorf : String → Error → Error
  -- the error of a method that a template calls, as Execute returns it
  exec_error : Error → Error
  external : Code → Error

pub data Result {ℓ} (A : Type ℓ) : Type ℓ where
  ok : A → Result A
  err : Error → Result A

infixl 5 ◌>>=◌
unfoldable pub ◌>>=◌ {ℓ κ} : {A : Type ℓ} {B : Type κ} → Result A → (A → Result B) → Result B
ok a >>= f = f a
err e >>= f = err e

-- An error handled by `if err != nil { return …, g(err) }`.
abbrev pub or_else {ℓ} : {A : Type ℓ} → Result A → (Error → Error) → Result A
or_else (ok a) g = ok a
or_else (err e) g = err (g e)

pub Result-cases {ℓ} :
    {A : Type ℓ} (r : Result A) → ((a : A) × (r ≡ ok a)) ⊎ ((e : Error) × (r ≡ err e))
Result-cases (ok a) = inl (a, refl)
Result-cases (err e) = inr (e, refl)

pub bind-ok {ℓ κ} :
    {A : Type ℓ} {B : Type κ} (r : Result A) (f : A → Result B) (b : B)
    → (r >>= f) ≡ ok b
    → (a : A) × (r ≡ ok a) × (f a ≡ ok b)
unfolding ◌>>=◌
bind-ok (ok a) f b e = (a, refl, e)
bind-ok (err x) f b e = cc e

pub or_else-ok {ℓ} :
    {A : Type ℓ} (r : Result A) (g : Error → Error) (a : A) → or_else r g ≡ ok a → r ≡ ok a
or_else-ok (ok x) g a e = e
or_else-ok (err x) g a e = cc e

pub ok-injective {ℓ} : {A : Type ℓ} {a b : A} → Result.ok a ≡ ok b → a ≡ b
ok-injective {a = a} e = ap (λ r. elim r [ ok x ↦ x | err x ↦ a ]) e

-- status.Code, which looks through wrapped errors.
unfoldable pub code_of : Error → Code
code_of (status c message) = c
code_of (wrap message e) = code_of e
code_of (wrap_with_code c message e) = c
code_of (errorf message e) = code_of e
code_of (exec_error e) = code_of e
code_of (external c) = c

unfoldable pub is_not_found : Code → Bool
is_not_found not_found = true
is_not_found _ = false

unfoldable pub is_already_exists : Code → Bool
is_already_exists already_exists = true
is_already_exists _ = false
