-- ===== src/TreeCheck/Verifier.antt =====
-- DirTreeVerifier. The tree is in storage, by digests, so the walk down it takes its depth for
-- fuel; without enough there is no result.
use bb_action_router.Base.{ℕ, zero, suc, Option, none, some, List, [], ◌∷◌}
use bb_action_router.Status.{Result, ok, err, status, wrap, not_found, or_else, ◌>>=◌}
use bb_action_router.Reapi.{Digest, FileNode, DirectoryNode, Directory}

-- The check of a digest, the reader of directories, and which of some digests are not in storage,
-- given the parameters of its chunking.
pub record Storage : Type 1 where
  pub Parameters : Type 0
  pub new_digest_from_proto : Digest → Result Digest
  pub read_directory : Digest → Result Directory
  pub fetch_cdc_parameters : Result Parameters
  pub find_missing : Parameters → List Digest → Result (List Digest)

module _ (s : Storage) where
  unfoldable pub file_digests : List FileNode → Result (List Digest)
  file_digests [] = ok []
  file_digests (f ∷ files) =
      or_else (s.new_digest_from_proto f.digest) (wrap "Failed to extract digest for file") >>= λ d.
      file_digests files >>= λ rest. ok (d ∷ rest)

  abbrev pub none_missing : List Digest → Result (Unit {0})
  none_missing [] = ok tt
  none_missing (d ∷ ds) = err (status not_found "Missing child digests in directory")

  unfoldable pub verify_files : List FileNode → Result (Unit {0})
  verify_files [] = ok tt
  verify_files (f ∷ files) = file_digests (f ∷ files) >>= λ digests.
      or_else s.fetch_cdc_parameters (wrap "Failed to fetch CDC parameters") >>= λ params.
      or_else (s.find_missing params digests) (wrap "Failed to check for missing files")
      >>= λ missing. none_missing missing

  -- What comes before the loop over the subdirectories: they are its result.
  unfoldable pub open_directory : Digest → Result (List DirectoryNode)
  open_directory digest =
      or_else (s.new_digest_from_proto digest) (wrap "Failed to load directory digest")
      >>= λ parsed.
          or_else (s.read_directory parsed) (wrap "Failed to get directory with digest %s") >>= λ d.
          verify_files d.files >>= λ _. ok d.directories

  -- The loop over the subdirectories.
  unfoldable pub verify_all :
      (Digest → Option (Result (Unit {0}))) → List DirectoryNode → Option (Result (Unit {0}))
  verify_all verify [] = some (ok tt)
  verify_all verify (n ∷ nodes) = elim (verify n.digest) [
    | none ↦ none
    | some r ↦ elim r [ err e ↦ some (err e) | ok u ↦ verify_all verify nodes ]
  ]

  unfoldable pub verify_directory : ℕ → Digest → Option (Result (Unit {0}))
  verify_directory zero digest = none
  verify_directory (suc fuel) digest = elim (open_directory digest) [
    | err e ↦ some (err e)
    | ok nodes ↦ verify_all (verify_directory fuel) nodes
  ]
