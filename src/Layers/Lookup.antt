-- ===== src/Layers/Lookup.antt =====
-- Where an event shows in the tree.
use bb_action_router.Base.{
  Text, same, trim_prefix, same_refl, same_iff, lookup, lookup-put, lookup-remove, ℕ, ◌≡◌, refl,
  ◌∙◌, ◌⊎◌, inl, inr, true, false, none, some, List, [], ◌∷◌, arith, Bool-cases, Option-cases,
}
use bb_action_router.Status.{Error, Result-cases, ok, err}
use bb_action_router.Reapi.{Digest, FileNode}
use bb_action_router.Layers.Tree.{
  Dir, dir, Dirs, no_dirs, more_dirs, new_dir, sub_dirs, files, find_dir, put_dir, remove_dir,
  symlinks, hard_links, delete, put_sub_dir, put_file, get_child, at_child,
}
use bb_action_router.Layers.Paths.{split_path, split_file, starts_with}
use bb_action_router.Layers.Events.{
  Uploader, is_executable, whiteout_prefix, opaque_whiteout, apply_whiteout, upload_contents,
  on_file_seen,
}
use bb_action_router.Layers.Proper.{occurrences}
use bb_action_router.Layers.Proper.Changes.{free_after_delete}

-- The directory at a path, or an empty one where there is none.
unfoldable pub child_or_new : List Text → Dir → Dir
child_or_new [] d = d
child_or_new (name ∷ path) d = elim (find_dir name (sub_dirs d)) [
  | some child ↦ child_or_new path child
  | none ↦ child_or_new path new_dir
]

find_dir-put : (name : Text) (c : Dir) (ds : Dirs) → find_dir name (put_dir name c ds) ≡ some c
unfolding find_dir put_dir
find_dir-put name c no_dirs = ground (arith, same_refl name)
find_dir-put name c (more_dirs n d ds) = ground (arith, find_dir-put name c ds, same_refl name)

find_dir-put_sub_dir :
    (name : Text) (c d : Dir) → find_dir name (sub_dirs (put_sub_dir name c d)) ≡ some c
find_dir-put_sub_dir name c (dir ds fs ss hs) = find_dir-put name c ds

get_child-found :
    (name : Text) (path : List Text) (d c : Dir)
    → find_dir name (sub_dirs d) ≡ some c
    → get_child (name ∷ path) d ≡ get_child path c
unfolding get_child
get_child-found name path d c e = rw (e, get_child) refl

pub get_child-at_child :
    (path : List Text) (f : Dir → Dir) (d : Dir)
    → get_child path (at_child path f d) ≡ some (f (child_or_new path d))
unfolding get_child at_child child_or_new
get_child-at_child [] f d = refl
get_child-at_child (name ∷ path) f d = elim (Option-cases (find_dir name (sub_dirs d))) [
  | inr (c, e) ↦
      let new = at_child path f c in
      rw (e, at_child, child_or_new)
        (get_child-found name path (put_sub_dir name new d) new (find_dir-put_sub_dir name new d)
          ∙ get_child-at_child path f c)
  | inl e ↦
      let new = at_child path f new_dir in
      let cleared = delete name d in
      rw (e, at_child, child_or_new)
        (get_child-found name path (put_sub_dir name new cleared) new
            (find_dir-put_sub_dir name new cleared)
          ∙ get_child-at_child path f new_dir)
]

lookup-put_file :
    (name : Text) (f : FileNode) (d : Dir) → lookup name (files (put_file name f d)) ≡ some f
lookup-put_file name f (dir ds fs ss hs) = lookup-put name name f fs ∙ rw (same_refl name) refl

find_dir-remove :
    (name other : Text) (ds : Dirs)
    → same name other ≡ false
    → find_dir other (remove_dir name ds) ≡ find_dir other ds
unfolding find_dir remove_dir
find_dir-remove name other no_dirs apart = refl
find_dir-remove name other (more_dirs n d ds) apart = ground (
  arith,
  find_dir-remove name other ds apart,
  same_iff n name,
  same_iff n other,
  same_iff name other,
)

-- Under every other name, a directory has what another one has.
abbrev pub SameBeside : Text → Dir → Dir → Type 0
SameBeside name old d =
    (other : Text)
    → same name other ≡ false
    → (find_dir other (sub_dirs d) ≡ find_dir other (sub_dirs old))
      × (lookup other (files d) ≡ lookup other (files old))
      × (lookup other (symlinks d) ≡ lookup other (symlinks old))
      × (lookup other (hard_links d) ≡ lookup other (hard_links old))

delete-SameBeside : (name : Text) (d : Dir) → SameBeside name d (delete name d)
unfolding delete
delete-SameBeside name (dir ds fs ss hs) other apart = (
  find_dir-remove name other ds apart,
  lookup-remove name other fs ∙ rw apart refl,
  lookup-remove name other ss ∙ rw apart refl,
  lookup-remove name other hs ∙ rw apart refl,
)

put_file-SameBeside :
    (name : Text) (f : FileNode) (old d : Dir)
    → SameBeside name old d
    → SameBeside name old (put_file name f d)
put_file-SameBeside name f old (dir ds fs ss hs) h other apart = (
  (h other apart).0,
  lookup-put name other f fs ∙ rw apart ((h other apart).1),
  (h other apart).2,
  (h other apart).3,
)

-- What stands at the place of an entry of the archive, once it has been seen, where another
-- directory stood.
abbrev pub Shows : Uploader → Text → Text → ℕ → Dir → Dir → Type 0
Shows u filename data_ mode old d =
    ((starts_with whiteout_prefix filename ≡ true)
      × (((same filename opaque_whiteout ≡ true) × (d ≡ new_dir))
          ⊎ ((same filename opaque_whiteout ≡ false)
              × (occurrences (trim_prefix whiteout_prefix filename) d ≡ 0)
              × SameBeside (trim_prefix whiteout_prefix filename) old d)))
    ⊎ ((starts_with whiteout_prefix filename ≡ false)
        × (((digest : Digest) × (upload_contents u data_ ≡ ok digest)
              × (lookup filename (files d)
                  ≡ some (record {
                    name = filename;
                    digest = digest;
                    is_executable = is_executable mode;
                  })))
            ⊎ ((e : Error) × (upload_contents u data_ ≡ err e) × (occurrences filename d ≡ 0)))
        × SameBeside filename old d)

-- After a file of the archive has been seen, its directory exists. If the file is the opaque
-- whiteout, the directory is empty; if it is another whiteout, the directory has no entry of the
-- name that it hides; if its upload failed, it has no entry of its name; and else it has the
-- uploaded file under its name. In all but the first case every other name stands for what it
-- stood for before, or for nothing if there was no directory.
pub on_file_seen_lem :
    (u : Uploader) (path data_ : Text) (mode : ℕ) (root : Dir)
    → (d : Dir) × (get_child
          (split_path (split_file path).0)
          (on_file_seen u path data_ mode root).1
        ≡ some d)
      × Shows u
          (split_file path).1
          data_
          mode
          (child_or_new (split_path (split_file path).0) root)
          d
unfolding on_file_seen apply_whiteout
on_file_seen_lem u path data_ mode root =
    let place = split_path (split_file path).0 in
    let name = (split_file path).1 in
    let hidden = trim_prefix whiteout_prefix name in
    let old = child_or_new place root in
    elim (Bool-cases (starts_with whiteout_prefix name)) [
      | inl e ↦ (
        apply_whiteout name old,
        rw e (get_child-at_child place (apply_whiteout name) root),
        inl (
          e,
          elim (Bool-cases (same name opaque_whiteout)) [
            | inl f ↦ inl (f, rw f refl)
            | inr f ↦
                inr (f, rw f (free_after_delete hidden old), rw f (delete-SameBeside hidden old))
          ],
        ),
      )
      | inr e ↦ elim (Result-cases (upload_contents u data_)) [
        | inr (x, f) ↦ (
          delete name old,
          rw (e, f) (get_child-at_child place (delete name) root),
          inr (e, inr (x, f, free_after_delete name old), delete-SameBeside name old),
        )
        | inl (digest, f) ↦
            let node : FileNode = record {
              name = name;
              digest = digest;
              is_executable = is_executable mode;
            } in
            (
              put_file name node (delete name old),
              rw (e, f) (get_child-at_child place (λ d. put_file name node (delete name d)) root),
              inr (
                e,
                inl (digest, f, lookup-put_file name node (delete name old)),
                put_file-SameBeside name node old (delete name old) (delete-SameBeside name old),
              ),
            )
      ]
    ]
