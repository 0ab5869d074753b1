-- ===== src/Layers/Keeping.antt =====
-- The events of the extractor and OnLayerComplete on proper trees.
use bb_action_router.Base.{
  Text, same, trim_prefix, lookup, has, ℕ, ◌≡◌, refl, subst, inl, inr, Option, none, some, List, [],
  ◌∷◌, ◌++◌, arith, Bool-cases, Option-cases,
}
use bb_action_router.Status.{Result, Result-cases, ok, err}
use bb_action_router.Reapi.{FileNode}
use bb_action_router.Layers.Tree.{
  Dir, dir, Dirs, no_dirs, more_dirs, new_dir, delete, put_file, get_child, files, find_dir,
  sub_dirs, symlinks,
}
use bb_action_router.Layers.Paths.{split_path, split_file, starts_with}
use bb_action_router.Layers.Events.{
  Uploader, unchanged, on_directory_seen, whiteout_prefix, opaque_whiteout, apply_whiteout,
  upload_contents, on_file_seen, on_link_seen, on_symlink_seen, Event, directory_seen, file_seen,
  link_seen, symlink_seen, on_event,
}
use bb_action_router.Layers.HardLinks.{
  Entry, file_entry, symlink_entry, find_entry, link_entry, put_entry, resolve_links,
  clear_hard_links, and_then, if_present, resolve_hardlinks, resolve_children, on_layer_complete,
}
use bb_action_router.Layers.Proper.{IsProper, new_dir-IsProper}
use bb_action_router.Layers.Proper.Changes.{
  delete-IsProper, put_file-IsProper, put_symlink-IsProper, put_hard_link-IsProper,
  free_after_delete, at_child-IsProper,
}

apply_whiteout-IsProper :
    (filename : Text) (d : Dir) → IsProper d → IsProper (apply_whiteout filename d)
unfolding apply_whiteout
apply_whiteout-IsProper filename d h = elim (Bool-cases (same filename opaque_whiteout)) [
  | inl e ↦ rw e new_dir-IsProper
  | inr e ↦ rw e (delete-IsProper (trim_prefix whiteout_prefix filename) d h)
]

replace_file-IsProper :
    (name : Text) (f : FileNode) (d : Dir)
    → f.name ≡ name
    → IsProper d
    → IsProper (put_file name f (delete name d))
replace_file-IsProper name f d named h =
    put_file-IsProper name f (delete name d) named (free_after_delete name d)
      (delete-IsProper name d h)

on_file_seen-IsProper :
    (u : Uploader) (path data_ : Text) (mode : ℕ) (root : Dir)
    → IsProper root
    → IsProper (on_file_seen u path data_ mode root).1
unfolding on_file_seen
on_file_seen-IsProper u path data_ mode root h =
    let place = split_path (split_file path).0 in
    let filename = (split_file path).1 in
    elim (Bool-cases (starts_with whiteout_prefix filename)) [
      | inl e ↦ rw e (
          at_child-IsProper place (apply_whiteout filename) root (apply_whiteout-IsProper filename)
            h)
      | inr e ↦ elim (Result-cases (upload_contents u data_)) [
        | inr (x, f) ↦
            rw (e, f) (at_child-IsProper place (delete filename) root (delete-IsProper filename) h)
        | inl (digest, f) ↦
            rw (e, f)
              (at_child-IsProper place _ root (λ d p. replace_file-IsProper filename _ d refl p) h)
      ]
    ]

on_event-IsProper :
    (u : Uploader) (event : Event) (root : Dir) → IsProper root → IsProper (on_event u event root).1
unfolding on_event on_directory_seen on_link_seen on_symlink_seen
on_event-IsProper u (directory_seen path) root h =
    at_child-IsProper (split_path path) unchanged root (λ d p. p) h
on_event-IsProper u (file_seen path data_ mode) root h =
    on_file_seen-IsProper u path data_ mode root h
on_event-IsProper u (link_seen path target) root h =
    at_child-IsProper _ _ root
      (λ d p. put_hard_link-IsProper _ target _ (free_after_delete _ d) (delete-IsProper _ d p)) h
on_event-IsProper u (symlink_seen path target) root h =
    at_child-IsProper _ _ root
      (λ d p. put_symlink-IsProper _ _ _ refl (free_after_delete _ d) (delete-IsProper _ d p)) h

-- An entry carries the name that it is put under.
abbrev IsNamed : Text → Entry → Type 0
IsNamed name (file_entry f) = f.name ≡ name
IsNamed name (symlink_entry l) = l.name ≡ name

put_entry-IsProper :
    (name : Text) (entry : Entry) (d : Dir)
    → IsNamed name entry
    → IsProper d
    → IsProper (put_entry name entry d)
put_entry-IsProper name (file_entry f) d named h = replace_file-IsProper name f d named h
put_entry-IsProper name (symlink_entry l) d named h =
    put_symlink-IsProper name l (delete name d) named (free_after_delete name d)
      (delete-IsProper name d h)

abbrev Named : Text → Result Entry → Type 0
Named name (ok entry) = IsNamed name entry
Named name (err e) = Unit

find_entry-Named :
    (name target target_name : Text) (d : Dir) → Named name (find_entry name target target_name d)
unfolding find_entry
find_entry-Named name target target_name d = elim (Option-cases (lookup target_name (files d))) [
  | inr (f, e) ↦ rw (e, find_entry) refl
  | inl e ↦ elim (Option-cases (find_dir target_name (sub_dirs d))) [
    | inr (c, f) ↦ rw (e, find_entry, f) refl
    | inl f ↦ elim (Option-cases (lookup target_name (symlinks d))) [
      | inr (l, g) ↦ rw (e, find_entry, f, g) refl
      | inl g ↦ rw (e, find_entry, f, g) tt
    ]
  ]
]

link_entry-Named : (name target : Text) (root : Dir) → Named name (link_entry name target root)
unfolding link_entry
link_entry-Named name target root =
    elim (Option-cases (get_child (split_path (split_file target).0) root)) [
      | inl e ↦ rw (e, link_entry) tt
      | inr (d, e) ↦ rw (e, link_entry) (find_entry-Named name target (split_file target).1 d)
    ]

resolve_links-IsProper :
    (path : List Text) (links : List (Text × Text)) (root : Dir)
    → IsProper root
    → IsProper (resolve_links path links root).1
unfolding resolve_links
resolve_links-IsProper path [] root h = h
resolve_links-IsProper path ((name, target) ∷ links) root h =
    elim (Result-cases (link_entry name target root)) [
      | inr (x, e) ↦ rw (e, resolve_links) h
      | inl (entry, e) ↦
          let named = subst (Named name) e (link_entry-Named name target root) in
          rw (e, resolve_links)
            (resolve_links-IsProper path links _ (
              at_child-IsProper path (put_entry name entry) root
                (λ d p. put_entry-IsProper name entry d named p) h))
    ]

clear_hard_links-IsProper : (d : Dir) → IsProper d → IsProper (clear_hard_links d)
unfolding IsProper has
clear_hard_links-IsProper (dir ds fs ss hs) (once, (mf, ms, mh), named, all) =
    ((λ name. ground (arith, once name)), (mf, ms, tt), named, all)

and_then-IsProper :
    (r : Result (Unit {0}) × Dir) (f : Dir → Result (Unit {0}) × Dir)
    → IsProper r.1
    → ((d : Dir) → IsProper d → IsProper (f d).1)
    → IsProper (and_then r f).1
and_then-IsProper (ok u, root) f h keeps = keeps root h
and_then-IsProper (err e, root) f h keeps = h

if_present-IsProper :
    (o : Option Dir) (x y : Result (Unit {0}) × Dir)
    → IsProper x.1
    → IsProper y.1
    → IsProper (if_present o x y).1
if_present-IsProper none x y h k = k
if_present-IsProper (some d) x y h k = h

mutual
  unfolding resolve_hardlinks resolve_children

  resolve_hardlinks-IsProper :
      (path : List Text) (d root : Dir) → IsProper root → IsProper (resolve_hardlinks path d root).1
  resolve_hardlinks-IsProper path (dir ds fs ss hs) root h =
      and_then-IsProper (resolve_links path hs root) _ (resolve_links-IsProper path hs root h)
        λ linked p.
          and_then-IsProper (resolve_children path ds linked) _
            (resolve_children-IsProper path ds linked p)
            λ done q. at_child-IsProper path clear_hard_links done clear_hard_links-IsProper q

  resolve_children-IsProper :
      (path : List Text) (ds : Dirs) (root : Dir)
      → IsProper root
      → IsProper (resolve_children path ds root).1
  resolve_children-IsProper path no_dirs root h = h
  resolve_children-IsProper path (more_dirs name d ds) root h =
      if_present-IsProper (get_child (path ++ name ∷ []) root) _ _
        (and_then-IsProper (resolve_hardlinks (path ++ name ∷ []) d root) _
          (resolve_hardlinks-IsProper (path ++ name ∷ []) d root h)
          λ done p. resolve_children-IsProper path ds done p)
        (resolve_children-IsProper path ds root h)

-- The trees that an extractor can keep: it starts with an empty one, and takes the events of its
-- layers in any order, whether or not they succeed.
pub data Keeps (u : Uploader) : Dir → Type 0 where
  begin : Keeps u new_dir
  event : (root : Dir) (x : Event) → Keeps u root → Keeps u (on_event u x root).1
  layer_complete : (root : Dir) → Keeps u root → Keeps u (on_layer_complete root).1

-- In every tree that an extractor can keep, each directory has each name at most once: as a file,
-- a symlink, a subdirectory or an unresolved hard link. Files and symlinks are filed under their
-- own names.
pub Keeps-IsProper : (u : Uploader) (root : Dir) → Keeps u root → IsProper root
unfolding on_layer_complete
Keeps-IsProper u _ begin = new_dir-IsProper
Keeps-IsProper u _ (event root x k) = on_event-IsProper u x root (Keeps-IsProper u root k)
Keeps-IsProper u _ (layer_complete root k) =
    resolve_hardlinks-IsProper [] root root (Keeps-IsProper u root k)
