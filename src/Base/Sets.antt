-- ===== src/Base/Sets.antt =====
-- Go sets, `map[string]struct{}` and sets of tokens, as lists without an order that matters.
use Prim.Native.Nat.{ℕ}
use mathlib.Core.Path.{◌≡◌, refl}
use mathlib.Core.Bool.{Bool, false, ◌||◌}
use mathlib.Core.List.{List, [], ◌∷◌}
use native.Mathlib.Omega.{arith}
use bb_action_router.Base.Tests.{◌==◌, if◌then◌else◌}
use bb_action_router.Base.Bytes.{Text, same, same_iff}

unfoldable pub member : Text → List Text → Bool
member k [] = false
member k (j ∷ js) = same j k || member k js

unfoldable pub without : Text → List Text → List Text
without k [] = []
without k (j ∷ js) = let rest = without k js in if same j k then rest else j ∷ rest

-- The same for sets of numbers.
unfoldable pub holds : ℕ → List ℕ → Bool
holds t [] = false
holds t (u ∷ us) = u == t || holds t us

unfoldable pub release_token : ℕ → List ℕ → List ℕ
release_token t [] = []
release_token t (u ∷ us) = let rest = release_token t us in if u == t then rest else u ∷ rest

pub member-nil : (k : Text) → member k [] ≡ false
unfolding member
member-nil k = refl

pub holds-nil : (t : ℕ) → holds t [] ≡ false
unfolding holds
holds-nil t = refl

pub holds-cons : (t u : ℕ) (us : List ℕ) → holds t (u ∷ us) ≡ (u == t || holds t us)
unfolding holds
holds-cons t u us = refl

pub member-cons : (k j : Text) (js : List Text) → member k (j ∷ js) ≡ (same j k || member k js)
unfolding member
member-cons k j js = refl

pub member-without :
    (k j : Text) (js : List Text)
    → member j (without k js) ≡ (if same k j then false else member j js)
unfolding member without
member-without k j [] = ground arith
member-without k j (i ∷ is) =
    ground (arith, same_iff k j, same_iff i k, same_iff i j, member-without k j is)

pub holds-release_token :
    (t u : ℕ) (us : List ℕ) → holds u (release_token t us) ≡ (if t == u then false else holds u us)
unfolding holds release_token
holds-release_token t u [] = ground arith
holds-release_token t u (v ∷ vs) = ground (arith, holds-release_token t u vs)
