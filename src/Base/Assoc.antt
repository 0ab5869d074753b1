-- ===== src/Base/Assoc.antt =====
-- Go maps with string keys, as association lists. The order of the entries is the order in which
-- `range` happens to visit them, so a theorem about every list is one about every such order.
use Prim.Native.Nat.{suc, ◌+◌, ◌≤◌, ◌<◌}
use mathlib.Core.Path.{◌≡◌, refl, subst}
use mathlib.Core.Logic.{inl, inr}
use mathlib.Core.Bool.{Bool, true, false}
use mathlib.Core.Option.{Option, none, some}
use mathlib.Core.List.{List, [], ◌∷◌}
use native.Mathlib.Omega.{arith}
use bb_action_router.Base.Tests.{Bool-cases, if◌then◌else◌}
use bb_action_router.Base.Lists.{length, All}
use bb_action_router.Base.Bytes.{Text, same, same_iff}

module _ {ℓ} {V : Type ℓ} where
  unfoldable pub lookup : Text → List (Text × V) → Option V
  lookup k [] = none
  lookup k ((j, v) ∷ m) = if same j k then some v else lookup k m

  -- delete(m, k)
  unfoldable pub remove : Text → List (Text × V) → List (Text × V)
  remove k [] = []
  remove k ((j, v) ∷ m) = let rest = remove k m in if same j k then rest else (j, v) ∷ rest

  -- m[k] = v
  unfoldable pub put : Text → V → List (Text × V) → List (Text × V)
  put k v [] = (k, v) ∷ []
  put k v ((j, w) ∷ m) = let rest = put k v m in if same j k then (k, v) ∷ m else (j, w) ∷ rest

  unfoldable pub keys : List (Text × V) → List Text
  keys [] = []
  keys ((k, v) ∷ m) = k ∷ keys m

  -- _, ok := m[k]
  unfoldable pub has : Text → List (Text × V) → Bool
  has k [] = false
  has k ((j, v) ∷ m) = let rest = has k m in if same j k then true else rest

  pub lookup-nil : (k : Text) → lookup k [] ≡ none
  unfolding lookup
  lookup-nil k = refl

  pub lookup-put :
      (k j : Text) (v : V) (m : List (Text × V))
      → lookup j (put k v m) ≡ (if same k j then some v else lookup j m)
  unfolding lookup put
  lookup-put k j v [] = refl
  lookup-put k j v ((i, w) ∷ m) =
      ground (arith, same_iff k j, same_iff i k, same_iff i j, lookup-put k j v m)

  pub lookup-remove :
      (k j : Text) (m : List (Text × V))
      → lookup j (remove k m) ≡ (if same k j then none else lookup j m)
  unfolding lookup remove
  lookup-remove k j [] = ground arith
  lookup-remove k j ((i, w) ∷ m) =
      ground (arith, same_iff k j, same_iff i k, same_iff i j, lookup-remove k j m)

  pub length-remove-le : (k : Text) (m : List (Text × V)) → length (remove k m) ≤ length m
  unfolding remove
  length-remove-le k [] = omega arith
  length-remove-le k ((j, v) ∷ m) = ground (arith, length-remove-le k m)

  pub length-remove_lt :
      (k : Text) (v : V) (m : List (Text × V))
      → lookup k m ≡ some v
      → length (remove k m) < length m
  unfolding remove lookup
  length-remove_lt k v [] h = ground arith
  length-remove_lt k v ((j, w) ∷ m) h = ground (arith, length-remove_lt k v m, length-remove-le k m)

  pub length-put_new :
      (k : Text) (v : V) (m : List (Text × V))
      → lookup k m ≡ none
      → length (put k v m) ≡ length m + 1
  unfolding put lookup
  length-put_new k v [] h = omega arith
  length-put_new k v ((j, w) ∷ m) h = ground (arith, length-put_new k v m)

  -- Each key stands once.
  abbrev pub IsMap : List (Text × V) → Type ℓ
  IsMap [] = Unit
  IsMap ((k, v) ∷ m) = (lookup k m ≡ none) × IsMap m

  pub put-IsMap : (k : Text) (v : V) (m : List (Text × V)) → IsMap m → IsMap (put k v m)
  unfolding put lookup
  put-IsMap k v [] h = (refl, tt)
  put-IsMap k v ((j, w) ∷ m) h =
      ground (arith, same_iff j k, same_iff k j, put-IsMap k v m h.1, lookup-put k j v m)

  pub remove-IsMap : (k : Text) (m : List (Text × V)) → IsMap m → IsMap (remove k m)
  unfolding remove
  remove-IsMap k [] h = tt
  remove-IsMap k ((j, w) ∷ m) h = ground (arith, remove-IsMap k m h.1, lookup-remove k j m)

  pub length-remove_absent :
      (k : Text) (m : List (Text × V)) → lookup k m ≡ none → length (remove k m) ≡ length m
  unfolding remove lookup
  length-remove_absent k [] h = refl
  length-remove_absent k ((j, w) ∷ m) h = ground (arith, length-remove_absent k m)

  -- Deleting a key of a map makes it shorter by one.
  pub length-remove_present :
      (k : Text) (v : V) (m : List (Text × V))
      → IsMap m
      → lookup k m ≡ some v
      → suc (length (remove k m)) ≡ length m
  unfolding remove lookup
  length-remove_present k v [] h e = ground arith
  length-remove_present k v ((j, w) ∷ m) h e =
      ground (arith, length-remove_present k v m h.1, length-remove_absent k m, hit)
    where
      hit : same j k ≡ true → lookup k m ≡ none
      hit q = subst (λ i. lookup i m ≡ none) ((same_iff j k).0 q) h.0

  -- What holds of every entry holds of what is looked up.
  pub All-lookup {κ} :
      (P : Text × V → Type κ) (k : Text) (v : V) (m : List (Text × V))
      → All P m
      → lookup k m ≡ some v
      → P (k, v)
  unfolding lookup
  All-lookup P k v [] h e = absurd (ground arith)
  All-lookup P k v ((j, w) ∷ m) h e = elim (Bool-cases (same j k)) [
    | inl hit ↦ subst P (ground (arith, same_iff j k)) h.0
    | inr miss ↦ All-lookup P k v m h.1 (ground arith)
  ]

  All-lookup_tail :
      (k : Text) (v : V) (m n : List (Text × V))
      → lookup k m ≡ none
      → All (λ e. lookup e.0 m ≡ some e.1) n
      → All (λ e. lookup e.0 ((k, v) ∷ m) ≡ some e.1) n
  unfolding lookup
  All-lookup_tail k v m [] fresh h = tt
  All-lookup_tail k v m ((j, w) ∷ n) fresh h =
      (ground (arith, same_iff k j), All-lookup_tail k v m n fresh h.1)

  -- In a map every entry is the one that is found under its key.
  pub IsMap-All : (m : List (Text × V)) → IsMap m → All (λ e. lookup e.0 m ≡ some e.1) m
  unfolding lookup
  IsMap-All [] h = tt
  IsMap-All ((k, v) ∷ m) h =
      (ground (arith, same_iff k k), All-lookup_tail k v m m h.0 (IsMap-All m h.1))

pub ruleset assoc_laws = (lookup-put, lookup-remove)
