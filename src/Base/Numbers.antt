-- ===== src/Base/Numbers.antt =====
-- Numbers in text: %d of a number, and strconv.Atoi.
use Prim.Native.Nat.{ℕ, zero, suc, ◌+◌, ◌-◌, ◌*◌, ◌/◌, ◌%◌, ◌^◌, ◌≤◌, ◌<◌}
use mathlib.Core.Path.{◌≡◌, refl}
use mathlib.Core.Logic.{◌≢◌, inl, inr}
use mathlib.Core.Bool.{Bool, true, false, ◌||◌}
use mathlib.Core.Option.{Option, none, some}
use mathlib.Core.List.{[], ◌∷◌}
use native.Mathlib.Omega.{arith}
use bb_action_router.Base.Tests.{ltb, ◌==◌, if◌then◌else◌, Bool-cases}
use bb_action_router.Base.Lists.{All}
use bb_action_router.Base.Bytes.{Text}

-- `negsuc n` is -(n + 1).
pub data ℤ : Type 0 where
  pos : ℕ → ℤ
  negsuc : ℕ → ℤ

-- The decimal digits of a number; one more than its value is fuel enough.
unfoldable pub decimal : ℕ → ℕ → Text → Text
decimal zero n acc = acc
decimal (suc fuel) n acc =
    let rest = decimal fuel (n / 10) ((48 + n % 10) ∷ acc) in
    if ltb n 10 then (48 + n) ∷ acc else rest

-- The number that digits spell behind `n`.
unfoldable pub digits_value : Text → ℕ → Option ℕ
digits_value [] n = some n
digits_value (c ∷ s) n =
    let rest = digits_value s (n * 10 + (c - b'0')) in
    if ltb c b'0' || ltb b'9' c then none else rest

-- The range of an int of 64 bits.
unfoldable pub signed : Bool → ℕ → Option ℤ
signed false n = if ltb n (2 ^ 63) then some (pos n) else none
signed true zero = some (pos 0)
signed true (suc n) = if ltb n (2 ^ 63) then some (negsuc n) else none

unfoldable pub magnitude : Bool → Text → Option ℤ
magnitude negative [] = none
magnitude negative (c ∷ s) = elim (digits_value (c ∷ s) 0) [
  | none ↦ none
  | some n ↦ signed negative n
]

unfoldable pub atoi : Text → Option ℤ
atoi [] = none
atoi (c ∷ s) =
    if c == b'-'
    then magnitude true s
    else if c == b'+'
    then magnitude false s
    else magnitude false (c ∷ s)

abbrev pub IsDigit : ℕ → Type 0
IsDigit c = (b'0' ≤ c) × (c ≤ b'9')

pub decimal-All : (fuel n : ℕ) (acc : Text) → All IsDigit acc → All IsDigit (decimal fuel n acc)
unfolding decimal
decimal-All zero n acc h = h
decimal-All (suc fuel) n acc h = elim (Bool-cases (ltb n 10)) [
  | inl e ↦ rw e (ground arith, h)
  | inr e ↦ rw e (decimal-All fuel (n / 10) ((48 + n % 10) ∷ acc) (ground arith, h))
]

pub decimal-ne-nil : (fuel n : ℕ) (acc : Text) → n < fuel → decimal fuel n acc ≢ []
unfolding decimal
decimal-ne-nil zero n acc h = absurd (omega arith)
decimal-ne-nil (suc fuel) n acc h =
    ground (arith, decimal-ne-nil fuel (n / 10) ((48 + n % 10) ∷ acc))

digits_value-decimal :
    (fuel n : ℕ) (acc : Text) → n < fuel → digits_value (decimal fuel n acc) 0 ≡ digits_value acc n
unfolding decimal digits_value
digits_value-decimal zero n acc h = absurd (omega arith)
digits_value-decimal (suc fuel) n acc h =
    ground (arith, digits_value-decimal fuel (n / 10) ((48 + n % 10) ∷ acc))

magnitude_of_digits :
    (s : Text) (n : ℕ)
    → s ≢ []
    → digits_value s 0 ≡ some n
    → n < 2 ^ 63
    → All IsDigit s
    → atoi s ≡ some (pos n)
unfolding atoi magnitude signed
magnitude_of_digits [] n h e lt d = absurd (h refl)
magnitude_of_digits (c ∷ s) n h e lt d = ground arith

-- A number that an int of 64 bits holds is read back from its digits.
pub atoi-decimal : (n : ℕ) → n < 2 ^ 63 → atoi (decimal (suc n) n []) ≡ some (pos n)
unfolding digits_value
atoi-decimal n h =
    magnitude_of_digits (decimal (suc n) n []) n (decimal-ne-nil (suc n) n [] (omega arith))
      (digits_value-decimal (suc n) n [] (omega arith)) h (decimal-All (suc n) n [] tt)
