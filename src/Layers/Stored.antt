-- ===== src/Layers/Stored.antt =====
-- upload and assertNoDuplicateNames on proper trees.
use bb_action_router.Base.{
  Text, same_iff, same_refl, lookup, has, keys, IsMap, member, ◌≤◌, ◌≡◌, refl, sym, ap, subst, ◌∙◌,
  true, false, ◌||◌, none, List, [], ◌∷◌, map, arith, All,
}
use mathlib.Core.Path.{ap₂}
use bb_action_router.Status.{Result, ok, ◌>>=◌}
use bb_action_router.Reapi.{Digest, FileNode, DirectoryNode, SymlinkNode, Directory}
use bb_action_router.Router.Merge.{sort_directory}
use bb_action_router.Layers.Tree.{Dir, dir, Dirs, no_dirs, more_dirs, new_dir}
use bb_action_router.Layers.Proper.{IsProper, AllProper, has_dir, occurrences}
use bb_action_router.Layers.Events.{Uploader}
use bb_action_router.Layers.Keeping.{Keeps, Keeps-IsProper}
use bb_action_router.Layers.Upload.{
  check_names, assert_no_duplicate_names, to_slice, store_directory, upload, upload_children,
  upload_directories,
}

abbrev AllDistinct : List Text → Type 0
AllDistinct [] = Unit
AllDistinct (name ∷ names) = (member name names ≡ false) × AllDistinct names

abbrev Disjoint : List Text → List Text → Type 0
Disjoint xs ys = (k : Text) → member k ys ≡ true → member k xs ≡ false

check_names-ok :
    (seen names : List Text)
    → AllDistinct names
    → Disjoint seen names
    → (more : List Text) × (check_names seen names ≡ ok more)
      × ((k : Text) → member k more ≡ (member k seen || member k names))
unfolding check_names member
check_names-ok seen [] d j = (seen, refl, λ k. ground arith)
check_names-ok seen (name ∷ names) d j =
    let fresh = j name (ground (arith, same_refl name)) in
    let rest =
      check_names-ok (name ∷ seen) names d.1 (λ k e. ground (arith, j k, same_iff name k, d.0)) in
    (rest.0, rw fresh rest.1, λ k. ground (arith, rest.2 k))

-- The names of a list of nodes, and of a map of nodes filed under their names.
abbrev dir_names : Dirs → List Text
dir_names no_dirs = []
dir_names (more_dirs n d ds) = n ∷ dir_names ds

member-dir_names : (k : Text) (ds : Dirs) → member k (dir_names ds) ≡ has_dir k ds
unfolding member has_dir
member-dir_names k no_dirs = refl
member-dir_names k (more_dirs n d ds) = ground (arith, member-dir_names k ds)

dir_names-AllDistinct : (ds : Dirs) → AllProper ds → AllDistinct (dir_names ds)
unfolding AllProper
dir_names-AllDistinct no_dirs h = tt
dir_names-AllDistinct (more_dirs n d ds) h =
    (member-dir_names n ds ∙ h.0, dir_names-AllDistinct ds h.2)

module _ {V : Type 0} where
  member-keys : (k : Text) (m : List (Text × V)) → member k (keys m) ≡ has k m
  unfolding member keys has
  member-keys k [] = refl
  member-keys k ((j, v) ∷ m) = ground (arith, member-keys k m)

  missing-has : (k : Text) (m : List (Text × V)) → lookup k m ≡ none → has k m ≡ false
  unfolding lookup has
  missing-has k [] e = refl
  missing-has k ((j, v) ∷ m) e = ground (arith, missing-has k m)

  keys-AllDistinct : (m : List (Text × V)) → IsMap m → AllDistinct (keys m)
  unfolding keys
  keys-AllDistinct [] h = tt
  keys-AllDistinct ((k, v) ∷ m) h = (member-keys k m ∙ missing-has k m h.0, keys-AllDistinct m h.1)

  slice-names :
      (name_of : V → Text) (m : List (Text × V))
      → All (λ e. name_of e.1 ≡ e.0) m
      → map name_of (to_slice m) ≡ keys m
  unfolding keys
  slice-names name_of [] h = refl
  slice-names name_of ((k, v) ∷ m) h = ap₂ (λ x xs. x ∷ xs) h.0 (slice-names name_of m h.1)

assert_no_duplicate_names-ok :
    (d : Directory)
    → AllDistinct (map (λ n. n.name) d.directories)
    → AllDistinct (map (λ n. n.name) d.symlinks)
    → AllDistinct (map (λ n. n.name) d.files)
    → Disjoint (map (λ n. n.name) d.directories) (map (λ n. n.name) d.symlinks)
    → ((k : Text)
        → member k (map (λ n. n.name) d.files) ≡ true
        → (member k (map (λ n. n.name) d.directories) ≡ false)
          × (member k (map (λ n. n.name) d.symlinks) ≡ false))
    → (more : List Text) × (assert_no_duplicate_names d ≡ ok more)
unfolding assert_no_duplicate_names ◌>>=◌ member
assert_no_duplicate_names-ok d ds ss fs j k =
    let first = check_names-ok [] (map (λ n. n.name) d.directories) ds (λ x e. refl) in
    let second =
      check_names-ok first.0 (map (λ n. n.name) d.symlinks) ss (λ x e. first.2 x ∙ j x e) in
    let third =
      check_names-ok second.0 (map (λ n. n.name) d.files) fs
        (λ x e. second.2 x ∙ ground (arith, first.2 x, k x e)) in
    (third.0, rw (first.1, second.1, third.1) refl)

-- A directory that is handed over, and what it is made of.
module _ (ds : Dirs) (fs : List (Text × FileNode)) (ss : List (Text × SymlinkNode))
    (hs : List (Text × Text)) (nodes : List DirectoryNode) where
  abbrev Assembled : Directory
  Assembled = record { files = to_slice fs; directories = nodes; symlinks = to_slice ss }

  free_of_symlink :
      (k : Text) → occurrences k (dir ds fs ss hs) ≤ 1 → has k ss ≡ true → has_dir k ds ≡ false
  free_of_symlink k once e = ground arith

  free_of_file :
      (k : Text)
      → occurrences k (dir ds fs ss hs) ≤ 1
      → has k fs ≡ true
      → (has_dir k ds ≡ false) × (has k ss ≡ false)
  free_of_file k once e = ground arith

  Assembled-ok :
      IsProper (dir ds fs ss hs)
      → map (λ n. n.name) nodes ≡ dir_names ds
      → (more : List Text) × (assert_no_duplicate_names Assembled ≡ ok more)
  unfolding IsProper
  Assembled-ok (once, (mf, ms, mh), (nf, ns), all) names =
      let symlink_names = slice-names (λ l. l.name) ss ns in
      let file_names = slice-names (λ f. f.name) fs nf in
      assert_no_duplicate_names-ok Assembled
        (subst AllDistinct (sym names) (dir_names-AllDistinct ds all))
        (subst AllDistinct (sym symlink_names) (keys-AllDistinct ss ms))
        (subst AllDistinct (sym file_names) (keys-AllDistinct fs mf))
        (λ k e.
          ap (member k) names
          ∙ (member-dir_names k ds
              ∙ free_of_symlink k (once k)
                  (sym (member-keys k ss) ∙ (ap (member k) (sym symlink_names) ∙ e))))
        (λ k e.
          let here = sym (member-keys k fs) ∙ (ap (member k) (sym file_names) ∙ e) in
          (
            ap (member k) names ∙ (member-dir_names k ds ∙ (free_of_file k (once k) here).0),
            ap (member k) symlink_names ∙ (member-keys k ss ∙ (free_of_file k (once k) here).1),
          ))

module _ (put_proto : Directory → Result Digest)
    (stores : (d : Directory) → (g : Digest) × (put_proto d ≡ ok g)) where
  store_directory-ok :
      (d : Directory) (more : List Text)
      → assert_no_duplicate_names d ≡ ok more
      → (g : Digest) × (store_directory put_proto d ≡ ok g)
  unfolding store_directory ◌>>=◌
  store_directory-ok d more e =
      let (g, stored) = stores (sort_directory d) in (g, rw (e, stored) refl)

  mutual
    unfolding upload upload_children IsProper AllProper ◌>>=◌

    upload-ok : (d : Dir) → IsProper d → (g : Digest) × (upload put_proto d ≡ ok g)
    upload-ok (dir ds fs ss hs) h =
        let children = upload_children-ok ds h.3 in
        let free = Assembled-ok ds fs ss hs children.0 h children.2 in
        let done = store_directory-ok (Assembled ds fs ss hs children.0) free.0 free.1 in
        (done.0, rw (children.1, done.1) refl)

    upload_children-ok :
        (ds : Dirs)
        → AllProper ds
        → (nodes : List DirectoryNode) × (upload_children put_proto ds ≡ ok nodes)
          × (map (λ n. n.name) nodes ≡ dir_names ds)
    upload_children-ok no_dirs h = ([], refl, refl)
    upload_children-ok (more_dirs name d ds) h =
        let (digest, done) = upload-ok d h.1 in
        let rest = upload_children-ok ds h.2 in
        (
          record { name = name; digest = digest } ∷ rest.0,
          rw (done, rest.1) refl,
          ap (λ xs. name ∷ xs) rest.2,
        )

  -- If the storage takes every directory that it is given, then every tree that an extractor can
  -- keep is uploaded: no directory in it is refused for a name that it has twice. The extractor
  -- then starts anew.
  pub upload_directories_lem :
      (u : Uploader) (root : Dir)
      → Keeps u root
      → (g : Digest) × (upload_directories put_proto root ≡ (ok g, new_dir))
  unfolding upload_directories
  upload_directories_lem u root k =
      let (g, done) = upload-ok root (Keeps-IsProper u root k) in
      (g, rw (done, upload_directories) refl)
