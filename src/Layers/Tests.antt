-- ===== src/Layers/Tests.antt =====
-- Layers of an image, and the theorems on the trees that they build.
use bb_action_router.Base.{
  Text, codes, same, split_slash, add_byte, lookup, put, remove, member, ◌≡◌, refl, false, none,
  some, [], ◌∷◌, if◌then◌else◌,
}
use bb_action_router.Status.{Result, ok, err, status, internal, external, unknown}
use bb_action_router.Reapi.{Digest, FileNode, Directory}
use bb_action_router.Layers.Tree.{
  Dir, dir, no_dirs, new_dir, find_dir, remove_dir, delete, get_child, at_child,
}
use bb_action_router.Layers.Paths.{clean_part, clean_parts, split_path, split_file}
use bb_action_router.Layers.Events.{Uploader, on_file_seen, Event, file_seen, link_seen, on_event}
use bb_action_router.Layers.TmpFile.{TmpHost}
use bb_action_router.Layers.HardLinks.{
  find_entry, link_entry, resolve_links, resolve_hardlinks, resolve_children, on_layer_complete,
}
use bb_action_router.Layers.Upload.{upload_directories}
use bb_action_router.Layers.Proper.{IsProper}
use bb_action_router.Layers.Keeping.{Keeps, begin, event, layer_complete, Keeps-IsProper}
use bb_action_router.Layers.Stored.{upload_directories_lem}
use bb_action_router.Layers.Lookup.{child_or_new, Shows, on_file_seen_lem}

abbrev blob : Digest
blob = record { hash = codes "blob"; size_bytes = 1 }

abbrev uploader : Uploader
uploader = record { create_temp = ok tt; copy = λ data_. ok tt; upload_blob = λ data_. ok blob }

abbrev put_proto : Directory → Result Digest
put_proto d = ok blob

abbrev seen_file : Event
seen_file = file_seen (codes "usr/c") (codes "text") 493

abbrev seen_link : Event
seen_link = link_seen (codes "usr/b") (codes "usr/c")

abbrev linked : Dir
linked = (on_event uploader seen_link (on_event uploader seen_file new_dir).1).1

kept : Keeps uploader (on_layer_complete linked).1
kept = layer_complete linked (event _ seen_link (event new_dir seen_file begin))

Keeps-IsProper_example : IsProper (on_layer_complete linked).1
Keeps-IsProper_example = Keeps-IsProper uploader (on_layer_complete linked).1 kept

upload_directories_example :
    (g : Digest) × (upload_directories put_proto (on_layer_complete linked).1 ≡ (ok g, new_dir))
upload_directories_example =
    upload_directories_lem put_proto (λ d. (blob, refl)) uploader (on_layer_complete linked).1 kept

on_file_seen_example :
    (d : Dir) × (get_child
        (split_path (split_file (codes "usr/.wh.b")).0)
        (on_file_seen uploader (codes "usr/.wh.b") [] 0 linked).1
      ≡ some d)
    × Shows uploader
        (split_file (codes "usr/.wh.b")).1
        []
        0
        (child_or_new (split_path (split_file (codes "usr/.wh.b")).0) linked)
        d
on_file_seen_example = on_file_seen_lem uploader (codes "usr/.wh.b") [] 0 linked

cleans : split_path (codes "/a/./b//../c/") ≡ codes "a" ∷ codes "c" ∷ []
unfolding split_path clean_parts clean_part split_slash add_byte same
cleans = refl

splits : split_file (codes "usr/lib/x") ≡ (codes "usr/lib/", codes "x")
unfolding split_file same
splits = refl

-- Two links in one directory, the first to the second, and the second to a file.
abbrev file_node : FileNode
file_node = record { name = codes "c"; digest = blob; is_executable = false }

abbrev chained : Dir
chained =
    dir no_dirs ((codes "c", file_node) ∷ []) []
      ((codes "a", codes "b") ∷ (codes "b", codes "c") ∷ [])

abbrev chained_back : Dir
chained_back =
    dir no_dirs ((codes "c", file_node) ∷ []) []
      ((codes "b", codes "c") ∷ (codes "a", codes "b") ∷ [])

-- Which of the two is resolved first decides whether the layer is accepted.
fails_in_one_order :
    (on_layer_complete chained).0
    ≡ err (status internal "Couldn't find source file for %s -> %s hardlink")
unfolding on_layer_complete resolve_hardlinks resolve_links link_entry find_entry split_path
    split_file clean_parts clean_part split_slash add_byte get_child find_dir lookup same
fails_in_one_order = refl

succeeds_in_the_other : (on_layer_complete chained_back).0 ≡ ok tt
unfolding on_layer_complete resolve_hardlinks resolve_children resolve_links link_entry find_entry
    split_path split_file clean_parts clean_part split_slash add_byte get_child at_child find_dir
    lookup remove put delete remove_dir same
succeeds_in_the_other = refl

-- A temporary directory with one name to give.
abbrev tmp_name : Text
tmp_name = codes "/tmp/casUpload1"

abbrev tmp_host : TmpHost
tmp_host = record {
  create_temp = λ files. if member tmp_name files then err (external internal) else ok tmp_name;
  copy_fails = λ data_. none;
  close_fails = λ name. none;
  remove_fails = λ name. none;
  upload_blob = λ data_. err (external unknown);
}
