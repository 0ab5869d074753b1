-- ===== src/Base/Bytes.antt =====
-- Go strings: sequences of bytes, compared and ordered byte by byte, as `==` and `cmp.Compare` do.
use Prim.Native.Nat.{ℕ}
use Prim.Native.Char.{code}
use Prim.Native.String.{String}
use mathlib.Core.Path.{◌≡◌, refl}
use mathlib.Core.Logic.{◌↔◌}
use mathlib.Core.Bool.{Bool, true, false, ◌&&◌}
use mathlib.Core.List.{List, [], ◌∷◌, ◌++◌, reverse}
use native.Mathlib.Omega.{arith}
use bb_action_router.Base.Tests.{ltb, ◌==◌, if◌then◌else◌}

abbrev pub Text : Type 0
Text = List ℕ

-- The bytes of an ASCII literal.
abbrev pub codes : String → Text
codes String.[] = []
codes (String.◌∷◌ c s) = code c ∷ codes s

-- s == t
unfoldable pub same : Text → Text → Bool
same [] [] = true
same [] (y ∷ ys) = false
same (x ∷ xs) [] = false
same (x ∷ xs) (y ∷ ys) = (x == y) && same xs ys

-- cmp.Compare(s, t) < 0
unfoldable pub text_lt : Text → Text → Bool
text_lt [] [] = false
text_lt [] (y ∷ ys) = true
text_lt (x ∷ xs) [] = false
text_lt (x ∷ xs) (y ∷ ys) = if ltb x y then true else if ltb y x then false else text_lt xs ys

pub same_iff : (s t : Text) → (same s t ≡ true) ↔ (s ≡ t)
unfolding same
same_iff [] [] = ground arith
same_iff [] (y ∷ ys) = ground arith
same_iff (x ∷ xs) [] = ground arith
same_iff (x ∷ xs) (y ∷ ys) = ground (arith, same_iff xs ys)

pub same_refl : (s : Text) → same s s ≡ true
same_refl s = (same_iff s s).1 refl

pub same_comm : (s t : Text) → same s t ≡ same t s
same_comm s t = ground (arith, same_iff s t, same_iff t s)

pub text_lt_asym : (s t : Text) → text_lt s t ≡ true → text_lt t s ≡ false
unfolding text_lt
text_lt_asym [] [] h = refl
text_lt_asym [] (y ∷ ys) h = refl
text_lt_asym (x ∷ xs) [] h = ground arith
text_lt_asym (x ∷ xs) (y ∷ ys) h = ground (arith, text_lt_asym xs ys)

pub text_lt_irrefl : (s : Text) → text_lt s s ≡ false
unfolding text_lt
text_lt_irrefl [] = refl
text_lt_irrefl (x ∷ xs) = ground (arith, text_lt_irrefl xs)

pub text_lt_trans : (s t u : Text) → text_lt s t ≡ true → text_lt t u ≡ true → text_lt s u ≡ true
unfolding text_lt
text_lt_trans s [] [] h k = ground arith
text_lt_trans [] [] (z ∷ zs) h k = refl
text_lt_trans (x ∷ xs) [] (z ∷ zs) h k = ground arith
text_lt_trans s (y ∷ ys) [] h k = ground arith
text_lt_trans [] (y ∷ ys) (z ∷ zs) h k = refl
text_lt_trans (x ∷ xs) (y ∷ ys) (z ∷ zs) h k = ground (arith, text_lt_trans xs ys zs)

pub text_lt_total : (s t : Text) → same s t ≡ false → text_lt s t ≡ false → text_lt t s ≡ true
unfolding text_lt same
text_lt_total [] [] n h = ground arith
text_lt_total [] (y ∷ ys) n h = ground arith
text_lt_total (x ∷ xs) [] n h = refl
text_lt_total (x ∷ xs) (y ∷ ys) n h = ground (arith, text_lt_total xs ys)

pub text_lt_neg_trans :
    (s t u : Text) → text_lt s t ≡ false → text_lt t u ≡ false → text_lt s u ≡ false
unfolding text_lt
text_lt_neg_trans s t [] h k = last s
  where
    last : (s : Text) → text_lt s [] ≡ false
    last [] = refl
    last (x ∷ xs) = refl
text_lt_neg_trans s [] (z ∷ zs) h k = ground arith
text_lt_neg_trans [] (y ∷ ys) (z ∷ zs) h k = ground arith
text_lt_neg_trans (x ∷ xs) (y ∷ ys) (z ∷ zs) h k = ground (arith, text_lt_neg_trans xs ys zs)

pub Text-set : IsSet Text
Text-set = hlevel

-- strings.Join
unfoldable pub join_with : Text → List Text → Text
join_with sep [] = []
join_with sep (t ∷ []) = t
join_with sep (t ∷ u ∷ us) = t ++ (sep ++ join_with sep (u ∷ us))

-- The rest of the text behind the prefix, if it has that prefix.
unfoldable pub strip_prefix : Text → Text → Bool × Text
strip_prefix [] s = (true, s)
strip_prefix (p ∷ ps) [] = (false, [])
strip_prefix (p ∷ ps) (c ∷ s) = let r = strip_prefix ps s in if p == c then r else (false, c ∷ s)

-- strings.TrimPrefix(s, prefix), with the arguments in the order of `trimPrefix`.
unfoldable pub trim_prefix : Text → Text → Text
unfolding strip_prefix
trim_prefix prefix s = let r = strip_prefix prefix s in if r.0 then r.1 else s

-- strings.TrimSuffix(s, suffix), with the arguments in the order of `trimSuffix`.
unfoldable pub trim_suffix : Text → Text → Text
unfolding trim_prefix
trim_suffix suffix s = reverse (trim_prefix (reverse suffix) (reverse s))
