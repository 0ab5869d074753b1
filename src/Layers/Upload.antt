-- ===== src/Layers/Upload.antt =====
-- upload and UploadDirectories. Storing a directory is a parameter.
use bb_action_router.Base.{Text, member, List, [], ◌∷◌, map, if◌then◌else◌}
use bb_action_router.Status.{Result, ok, err, status, wrap, internal, or_else, ◌>>=◌}
use bb_action_router.Reapi.{Digest, DirectoryNode, Directory}
use bb_action_router.Router.Merge.{sort_directory}
use bb_action_router.Layers.Tree.{Dir, dir, Dirs, no_dirs, more_dirs, new_dir}

-- One loop of assertNoDuplicateNames: the names that were seen before and in it.
unfoldable pub check_names : List Text → List Text → Result (List Text)
check_names seen [] = ok seen
check_names seen (name ∷ names) =
    if member name seen
    then err (status internal "duplicate entires for %s in directory")
    else check_names (name ∷ seen) names

unfoldable pub assert_no_duplicate_names : Directory → Result (List Text)
assert_no_duplicate_names d = check_names [] (map (λ n. n.name) d.directories) >>= λ seen.
    check_names seen (map (λ n. n.name) d.symlinks) >>= λ more.
    check_names more (map (λ n. n.name) d.files)

-- toSlice
abbrev pub to_slice {ℓ} : {V : Type ℓ} → List (Text × V) → List V
to_slice [] = []
to_slice ((k, v) ∷ m) = v ∷ to_slice m

module _ (put_proto : Directory → Result Digest) where
  unfoldable pub store_directory : Directory → Result Digest
  store_directory d = assert_no_duplicate_names d >>= λ _.
      or_else (put_proto (sort_directory d)) (wrap "Failed to upload directory")

  unfoldable mutual
    pub upload : Dir → Result Digest
    upload (dir ds fs ss hs) = upload_children ds >>= λ nodes.
        store_directory
          (record { files = to_slice fs; directories = nodes; symlinks = to_slice ss })

    pub upload_children : Dirs → Result (List DirectoryNode)
    upload_children no_dirs = ok []
    upload_children (more_dirs name d ds) = upload d >>= λ digest.
        upload_children ds >>= λ nodes. ok (record { name = name; digest = digest } ∷ nodes)

  -- The tree starts anew once it is stored.
  unfoldable pub upload_directories : Dir → Result Digest × Dir
  upload_directories root = elim (upload root) [
    | err e ↦ (err e, root)
    | ok digest ↦ (ok digest, new_dir)
  ]
