-- ===== src/Daemon/Removed.antt =====
-- os.RemoveAll of a directory of the roots directory, which may fail.
use bb_action_router.Base.{
  Text, true, same_refl, same_comm, member, without, ◌≡◌, refl, ◌⊎◌, inl, inr, false, List, [], ◌∷◌,
  arith, Bool-cases,
}
use bb_action_router.Daemon.Materialize.{Materializer, remove_all}

without-fresh : (d : Text) (dirs : List Text) → member d dirs ≡ false → without d dirs ≡ dirs
unfolding without member
without-fresh d [] h = refl
without-fresh d (x ∷ dirs) h = ground (arith, without-fresh d dirs)

pub without-new :
    (d : Text) (dirs : List Text) → member d dirs ≡ false → without d (d ∷ dirs) ≡ dirs
unfolding without
without-new d dirs h = rw (same_refl d) (without-fresh d dirs h)

pub not_member : (k j : Text) (js : List Text) → member k (j ∷ js) ≡ false → member k js ≡ false
unfolding member
not_member k j js e = ground arith

pub without-second :
    (k j : Text) (js : List Text)
    → member k js ≡ false
    → member j (k ∷ js) ≡ false
    → without k (j ∷ k ∷ js) ≡ j ∷ js
unfolding without member
without-second k j js new other = ground (arith, without-fresh k js new, same_comm j k, same_refl k)

module _ (h : Materializer) where
  -- A directory was to be removed: it is gone, or could not be removed and all is as it was.
  abbrev pub Tidied : Text → List Text → List Text → List Text → Type 0
  Tidied d before without_it left =
      ((h.remove_fails d before ≡ false) × (left ≡ without_it))
      ⊎ ((h.remove_fails d before ≡ true) × (left ≡ before))

  pub remove_all-Tidied :
      (d : Text) (before without_it : List Text)
      → without d before ≡ without_it
      → Tidied d before without_it (remove_all h d before)
  unfolding remove_all
  remove_all-Tidied d before without_it e = elim (Bool-cases (h.remove_fails d before)) [
    | inl f ↦ inr (f, rw f refl)
    | inr f ↦ inl (f, rw f e)
  ]

  -- The directories are as before, but for a root that could not be removed.
  unfoldable pub Stuck : List Text → List Text → Type 0
  Stuck dirs left =
      (left ≡ dirs)
      ⊎ ((root : Text) × (member root dirs ≡ false)
          × (left ≡ root ∷ dirs)
          × (h.remove_fails root (root ∷ dirs) ≡ true))

  pub removed-Stuck :
      (root : Text) (dirs : List Text)
      → member root dirs ≡ false
      → Stuck dirs (remove_all h root (root ∷ dirs))
  unfolding Stuck
  removed-Stuck root dirs new =
      elim (remove_all-Tidied root (root ∷ dirs) dirs (without-new root dirs new)) [
        | inl (f, e) ↦ inl e
        | inr (f, e) ↦ inr (root, new, e, f)
      ]
