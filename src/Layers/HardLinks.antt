-- ===== src/Layers/HardLinks.antt =====
-- resolveHardlinks and OnLayerComplete. The directory that a call works on is named by its path
-- from the root, in which it also looks up what the links point to.
use bb_action_router.Base.{Text, lookup, Option, none, some, List, [], ◌∷◌, ◌++◌}
use bb_action_router.Status.{Result, ok, err, status, internal}
use bb_action_router.Reapi.{FileNode, SymlinkNode}
use bb_action_router.Layers.Tree.{
  Dir, dir, Dirs, no_dirs, more_dirs, files, symlinks, delete, put_file, put_symlink, at_child,
  get_child, find_dir, sub_dirs,
}
use bb_action_router.Layers.Paths.{split_path, split_file}

-- What a hard link becomes.
pub data Entry : Type 0 where
  file_entry : FileNode → Entry
  symlink_entry : SymlinkNode → Entry

-- The entry of a link in the directory of its target: a copy of a file, a link to a directory, or
-- a copy of a symlink.
unfoldable pub find_entry : Text → Text → Text → Dir → Result Entry
find_entry name target target_name d = elim (lookup target_name (files d)) [
  | some f ↦ ok (file_entry (record f { name = name }))
  | none ↦ elim (find_dir target_name (sub_dirs d)) [
    | some child ↦ ok (symlink_entry (record { name = name; target = target }))
    | none ↦ elim (lookup target_name (symlinks d)) [
      | some l ↦ ok (symlink_entry (record { name = name; target = l.target }))
      | none ↦ err (status internal "Couldn't find source file for %s -> %s hardlink")
    ]
  ]
]

unfoldable pub link_entry : Text → Text → Dir → Result Entry
link_entry name target root = elim (get_child (split_path (split_file target).0) root) [
  | none ↦ err (status internal "couldn't find source dir for %s -> %s hardlink")
  | some d ↦ find_entry name target (split_file target).1 d
]

abbrev pub put_entry : Text → Entry → Dir → Dir
put_entry name (file_entry f) d = put_file name f (delete name d)
put_entry name (symlink_entry l) d = put_symlink name l (delete name d)

-- The first loop, in the order of `range`.
unfoldable pub resolve_links : List Text → List (Text × Text) → Dir → Result (Unit {0}) × Dir
resolve_links path [] root = (ok tt, root)
resolve_links path ((name, target) ∷ links) root = elim (link_entry name target root) [
  | err e ↦ (err e, root)
  | ok entry ↦ resolve_links path links (at_child path (put_entry name entry) root)
]

abbrev pub clear_hard_links : Dir → Dir
clear_hard_links (dir ds fs ss hs) = dir ds fs ss []

abbrev pub and_then :
    Result (Unit {0}) × Dir → (Dir → Result (Unit {0}) × Dir) → Result (Unit {0}) × Dir
and_then (ok u, root) f = f root
and_then (err e, root) f = (err e, root)

abbrev pub if_present : {A : Type 0} → Option Dir → A → A → A
if_present (some d) x y = x
if_present none x y = y

-- The loop over the subdirectories visits those that the first loop has left. Nothing but its own
-- call changes a directory, so its links are still those that it had at the start.
unfoldable mutual
  pub resolve_hardlinks : List Text → Dir → Dir → Result (Unit {0}) × Dir
  resolve_hardlinks path (dir ds fs ss hs) root = and_then (resolve_links path hs root) λ linked.
      and_then (resolve_children path ds linked)
        λ done. (ok tt, at_child path clear_hard_links done)

  pub resolve_children : List Text → Dirs → Dir → Result (Unit {0}) × Dir
  resolve_children path no_dirs root = (ok tt, root)
  resolve_children path (more_dirs name d ds) root =
      if_present (get_child (path ++ name ∷ []) root)
        (and_then (resolve_hardlinks (path ++ name ∷ []) d root)
          λ done. resolve_children path ds done)
        (resolve_children path ds root)

unfoldable pub on_layer_complete : Dir → Result (Unit {0}) × Dir
on_layer_complete root = resolve_hardlinks [] root root
