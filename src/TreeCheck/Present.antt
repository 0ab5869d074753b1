-- ===== src/TreeCheck/Present.antt =====
-- Trees that are all in storage, and what verifyDirectory makes of them.
use bb_action_router.Base.{
  ℕ, zero, suc, ◌≡◌, refl, sym, ap, subst, ◌∙◌, ◌↔◌, inl, inr, Option, none, some, List, [], ◌∷◌,
  map, Option-cases, All,
}
use mathlib.Core.Path.{ap₂}
use mathlib.Core.List.{head-eq_of_cons-eq, tail-eq_of_cons-eq}
use bb_action_router.Status.{
  Error, Result, Result-cases, ok, err, bind-ok, or_else-ok, ok-injective, ◌>>=◌,
}
use bb_action_router.Reapi.{Digest, FileNode, DirectoryNode, Directory}
use bb_action_router.TreeCheck.Verifier.{
  Storage, file_digests, none_missing, verify_files, open_directory, verify_all, verify_directory,
}

module _ (s : Storage) where
  -- The digests of the files are well formed, and none of them is missing.
  abbrev pub FilesPresent : List FileNode → Type 0
  FilesPresent [] = Unit
  FilesPresent (f ∷ files) =
      (digests : List Digest) × (params : s.Parameters) × (map
          (λ n. s.new_digest_from_proto n.digest) (f ∷ files)
        ≡ map ok digests)
      × (s.fetch_cdc_parameters ≡ ok params)
      × (s.find_missing params digests ≡ ok [])

  -- A tree of at most `n` levels, whose directories can all be read and whose files are there.
  unfoldable pub IsPresent : ℕ → Digest → Type 0
  IsPresent zero digest = ⊥
  IsPresent (suc n) digest =
      (parsed : Digest) × (d : Directory) × (s.new_digest_from_proto digest ≡ ok parsed)
      × (s.read_directory parsed ≡ ok d)
      × FilesPresent d.files
      × All (λ node. IsPresent n node.digest) d.directories

  file_digests-map :
      (files : List FileNode) (digests : List Digest)
      → file_digests s files ≡ ok digests
      → map (λ n. s.new_digest_from_proto n.digest) files ≡ map ok digests
  unfolding file_digests
  file_digests-map [] digests e = ap (map ok) (ok-injective e)
  file_digests-map (f ∷ files) digests e =
      let (d, parsed, e₁) = bind-ok _ _ digests e in
      let (rest, others, e₂) = bind-ok _ _ digests e₁ in
      ap₂ (λ x xs. x ∷ xs) (or_else-ok _ _ d parsed) (file_digests-map files rest others)
      ∙ ap (map ok) (ok-injective e₂)

  map-file_digests :
      (files : List FileNode) (digests : List Digest)
      → map (λ n. s.new_digest_from_proto n.digest) files ≡ map ok digests
      → file_digests s files ≡ ok digests
  unfolding file_digests ◌>>=◌
  map-file_digests [] [] e = refl
  map-file_digests [] (d ∷ ds) e = cc e
  map-file_digests (f ∷ files) [] e = cc e
  map-file_digests (f ∷ files) (d ∷ ds) e =
      rw (head-eq_of_cons-eq e, map-file_digests files ds (tail-eq_of_cons-eq e)) refl

  none_missing-nil :
      (missing : List Digest) (u : Unit {0}) → none_missing s missing ≡ ok u → missing ≡ []
  none_missing-nil [] u e = refl
  none_missing-nil (d ∷ ds) u e = cc e

  verify_files-FilesPresent :
      (files : List FileNode) (u : Unit {0}) → verify_files s files ≡ ok u → FilesPresent files
  unfolding verify_files
  verify_files-FilesPresent [] u e = tt
  verify_files-FilesPresent (f ∷ files) u e =
      let (digests, parsed, e₁) = bind-ok _ _ u e in
      let (params, fetched, e₂) = bind-ok _ _ u e₁ in
      let (missing, found, e₃) = bind-ok _ _ u e₂ in
      (
        digests,
        params,
        file_digests-map (f ∷ files) digests parsed,
        or_else-ok _ _ params fetched,
        or_else-ok _ _ missing found ∙ ap ok (none_missing-nil missing u e₃),
      )

  FilesPresent-verify_files :
      (files : List FileNode) → FilesPresent files → verify_files s files ≡ ok tt
  unfolding verify_files ◌>>=◌
  FilesPresent-verify_files [] h = refl
  FilesPresent-verify_files (f ∷ files) (digests, params, parsed, fetched, found) =
      rw (map-file_digests (f ∷ files) digests parsed, fetched, found) refl

  module _ (verify : Digest → Option (Result (Unit {0}))) (n : DirectoryNode)
      (nodes : List DirectoryNode) where
    pub verify_all-none : verify n.digest ≡ none → verify_all s verify (n ∷ nodes) ≡ none
    unfolding verify_all
    verify_all-none e = rw (e, verify_all) refl

    pub verify_all-err :
        (x : Error)
        → verify n.digest ≡ some (err x)
        → verify_all s verify (n ∷ nodes) ≡ some (err x)
    unfolding verify_all
    verify_all-err x e = rw (e, verify_all) refl

    pub verify_all-ok :
        verify n.digest ≡ some (ok tt) → verify_all s verify (n ∷ nodes) ≡ verify_all s verify nodes
    unfolding verify_all
    verify_all-ok e = rw (e, verify_all) refl

  verify_all-All :
      (verify : Digest → Option (Result (Unit {0}))) (P : Digest → Type 0)
      (nodes : List DirectoryNode)
      → ((d : Digest) → verify d ≡ some (ok tt) → P d)
      → verify_all s verify nodes ≡ some (ok tt)
      → All (λ n. P n.digest) nodes
  verify_all-All verify P [] h e = tt
  verify_all-All verify P (n ∷ nodes) h e = elim (Option-cases (verify n.digest)) [
    | inl f ↦ cc (verify_all-none verify n nodes f, e)
    | inr (r, f) ↦ elim (Result-cases r) [
      | inr (x, g) ↦ cc (verify_all-err verify n nodes x (f ∙ ap some g), e)
      | inl (u, g) ↦
          let accepted = f ∙ ap some g in
          (
            h n.digest accepted,
            verify_all-All verify P nodes h (sym (verify_all-ok verify n nodes accepted) ∙ e),
          )
    ]
  ]

  All-verify_all :
      (verify : Digest → Option (Result (Unit {0}))) (P : Digest → Type 0)
      (nodes : List DirectoryNode)
      → ((d : Digest) → P d → verify d ≡ some (ok tt))
      → All (λ n. P n.digest) nodes
      → verify_all s verify nodes ≡ some (ok tt)
  unfolding verify_all
  All-verify_all verify P [] h all = refl
  All-verify_all verify P (n ∷ nodes) h all =
      verify_all-ok verify n nodes (h n.digest all.0) ∙ All-verify_all verify P nodes h all.1

  pub verify_directory-open :
      (n : ℕ) (digest : Digest) (nodes : List DirectoryNode)
      → open_directory s digest ≡ ok nodes
      → verify_directory s (suc n) digest ≡ verify_all s (verify_directory s n) nodes
  unfolding verify_directory
  verify_directory-open n digest nodes e = rw (e, verify_directory) refl

  pub verify_directory-closed :
      (n : ℕ) (digest : Digest) (x : Error)
      → open_directory s digest ≡ err x
      → verify_directory s (suc n) digest ≡ some (err x)
  unfolding verify_directory
  verify_directory-closed n digest x e = rw (e, verify_directory) refl

  open_directory-read :
      (digest : Digest) (nodes : List DirectoryNode)
      → open_directory s digest ≡ ok nodes
      → (parsed : Digest) × (d : Directory) × (s.new_digest_from_proto digest ≡ ok parsed)
        × (s.read_directory parsed ≡ ok d)
        × FilesPresent d.files
        × (d.directories ≡ nodes)
  unfolding open_directory
  open_directory-read digest nodes e =
      let (parsed, named, e₁) = bind-ok _ _ nodes e in
      let (d, read, e₂) = bind-ok _ _ nodes e₁ in
      let (u, checked, e₃) = bind-ok _ _ nodes e₂ in
      (
        parsed,
        d,
        or_else-ok _ _ parsed named,
        or_else-ok _ _ d read,
        verify_files-FilesPresent d.files u checked,
        ok-injective e₃,
      )

  read-open_directory :
      (digest parsed : Digest) (d : Directory)
      → s.new_digest_from_proto digest ≡ ok parsed
      → s.read_directory parsed ≡ ok d
      → FilesPresent d.files
      → open_directory s digest ≡ ok d.directories
  unfolding open_directory ◌>>=◌
  read-open_directory digest parsed d named read present =
      rw (named, read, FilesPresent-verify_files d.files present) refl

  verified-IsPresent :
      (n : ℕ) (digest : Digest) → verify_directory s n digest ≡ some (ok tt) → IsPresent n digest
  unfolding IsPresent verify_directory
  verified-IsPresent zero digest e = cc e
  verified-IsPresent (suc n) digest e = elim (Result-cases (open_directory s digest)) [
    | inr (x, f) ↦ cc (verify_directory-closed n digest x f, e)
    | inl (nodes, f) ↦
        let (parsed, d, named, read, present, same_nodes) = open_directory-read digest nodes f in
        (
          parsed,
          d,
          named,
          read,
          present,
          subst (All (λ node. IsPresent n node.digest)) (sym same_nodes) (
              verify_all-All (verify_directory s n) (IsPresent n) nodes (verified-IsPresent n)
                (sym (verify_directory-open n digest nodes f) ∙ e)),
        )
  ]

  IsPresent-verified :
      (n : ℕ) (digest : Digest) → IsPresent n digest → verify_directory s n digest ≡ some (ok tt)
  unfolding IsPresent
  IsPresent-verified zero digest h = absurd h
  IsPresent-verified (suc n) digest (parsed, d, named, read, present, all) =
      verify_directory-open n digest d.directories
        (read-open_directory digest parsed d named read present)
      ∙ All-verify_all (verify_directory s n) (IsPresent n) d.directories (IsPresent-verified n) all

  -- With fuel `n` the verifier accepts a digest exactly if it is the root of a tree of at most `n`
  -- levels of which all is in storage: every directory can be read, the digest of every file is
  -- well formed, and no file is missing.
  pub verify_directory-IsPresent :
      (n : ℕ) (digest : Digest) → (verify_directory s n digest ≡ some (ok tt)) ↔ IsPresent n digest
  verify_directory-IsPresent n digest = (verified-IsPresent n digest, IsPresent-verified n digest)
