-- ===== src/TreeCheck/Tests.antt =====
-- A tree of two levels, and one with a file that is missing.
use bb_action_router.Base.{
  codes, ℕ, ◌≡◌, refl, ◌↔◌, false, some, List, [], ◌∷◌, ◌==◌, if◌then◌else◌,
}
use bb_action_router.Status.{ok, err, status, not_found, ◌>>=◌}
use bb_action_router.Reapi.{Digest, FileNode, Directory}
use bb_action_router.TreeCheck.Verifier.{
  Storage, file_digests, verify_files, open_directory, verify_all, verify_directory,
}
use bb_action_router.TreeCheck.Present.{IsPresent, verify_directory-IsPresent}

abbrev digest : ℕ → Digest
digest n = record { hash = n ∷ []; size_bytes = n }

abbrev file : FileNode
file = record { name = codes "f"; digest = digest 2; is_executable = false }

abbrev leaf : Directory
leaf = record { files = file ∷ []; directories = []; symlinks = [] }

abbrev top : Directory
top = record {
  files = [];
  directories = record { name = codes "d"; digest = digest 1 } ∷ [];
  symlinks = [];
}

-- The root is digest 0, its subdirectory digest 1.
abbrev storage : List Digest → Storage
storage missing = record {
  Parameters = Unit;
  new_digest_from_proto = λ d. ok d;
  read_directory = λ d. ok (if d.size_bytes == 0 then top else leaf);
  fetch_cdc_parameters = ok tt;
  find_missing = λ params digests. ok missing;
}

verifies : verify_directory (storage []) 2 (digest 0) ≡ some (ok tt)
unfolding verify_directory verify_all open_directory verify_files file_digests ◌>>=◌
verifies = refl

misses_a_file :
    verify_directory (storage (digest 2 ∷ [])) 2 (digest 0)
    ≡ some (err (status not_found "Missing child digests in directory"))
unfolding verify_directory verify_all open_directory verify_files file_digests ◌>>=◌
misses_a_file = refl

verify_directory-IsPresent_example :
    (verify_directory (storage []) 2 (digest 0) ≡ some (ok tt))
    ↔ IsPresent (storage []) 2 (digest 0)
verify_directory-IsPresent_example = verify_directory-IsPresent (storage []) 2 (digest 0)
