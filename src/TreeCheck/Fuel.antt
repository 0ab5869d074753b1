-- ===== src/TreeCheck/Fuel.antt =====
-- verifyDirectory with more fuel.
use bb_action_router.Base.{
  ℕ, zero, suc, ◌≡◌, sym, ap, ◌∙◌, inl, inr, Option, some, List, [], ◌∷◌, Option-cases,
}
use bb_action_router.Status.{Result, Result-cases, ok, err}
use bb_action_router.Reapi.{Digest, DirectoryNode}
use bb_action_router.TreeCheck.Verifier.{Storage, open_directory, verify_all, verify_directory}
use bb_action_router.TreeCheck.Present.{
  verify_all-none, verify_all-err, verify_all-ok, verify_directory-open, verify_directory-closed,
}

module _ (s : Storage) where
  verify_all-more :
      (verify more : Digest → Option (Result (Unit {0}))) (nodes : List DirectoryNode)
      (r : Result (Unit {0}))
      → ((d : Digest) (q : Result (Unit {0})) → verify d ≡ some q → more d ≡ some q)
      → verify_all s verify nodes ≡ some r
      → verify_all s more nodes ≡ some r
  unfolding verify_all
  verify_all-more verify more [] r h e = e
  verify_all-more verify more (n ∷ nodes) r h e = elim (Option-cases (verify n.digest)) [
    | inl f ↦ cc (verify_all-none s verify n nodes f, e)
    | inr (q, f) ↦ elim (Result-cases q) [
      | inr (x, g) ↦
          let stops = f ∙ ap some g in
          verify_all-err s more n nodes x (h n.digest (err x) stops)
          ∙ (sym (verify_all-err s verify n nodes x stops) ∙ e)
      | inl (u, g) ↦
          let goes_on = f ∙ ap some g in
          verify_all-ok s more n nodes (h n.digest (ok tt) goes_on)
          ∙ verify_all-more verify more nodes r h (sym (verify_all-ok s verify n nodes goes_on) ∙ e)
    ]
  ]

  -- Once there is fuel enough for a result, accepted or refused, more fuel gives the same result.
  pub verify_directory-more_fuel :
      (n : ℕ) (digest : Digest) (r : Result (Unit {0}))
      → verify_directory s n digest ≡ some r
      → verify_directory s (suc n) digest ≡ some r
  unfolding verify_directory
  verify_directory-more_fuel zero digest r e = cc e
  verify_directory-more_fuel (suc n) digest r e = elim (Result-cases (open_directory s digest)) [
    | inr (x, f) ↦
        verify_directory-closed s (suc n) digest x f
        ∙ (sym (verify_directory-closed s n digest x f) ∙ e)
    | inl (nodes, f) ↦
        verify_directory-open s (suc n) digest nodes f
        ∙ verify_all-more (verify_directory s n) (verify_directory s (suc n)) nodes r
            (verify_directory-more_fuel n) (sym (verify_directory-open s n digest nodes f) ∙ e)
  ]
