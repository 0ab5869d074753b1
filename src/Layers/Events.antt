-- ===== src/Layers/Events.antt =====
-- The events of CASUploadingLayerExtractor, on the tree that it keeps.
use bb_action_router.Base.{
  Text, codes, same, trim_prefix, ℕ, ◌+◌, ◌/◌, ◌%◌, Bool, not, ◌==◌, if◌then◌else◌,
}
use bb_action_router.Status.{Result, ok, err, wrap, or_else, ◌>>=◌}
use bb_action_router.Reapi.{Digest}
use bb_action_router.Layers.Tree.{
  Dir, new_dir, delete, put_file, put_symlink, put_hard_link, at_child,
}
use bb_action_router.Layers.Paths.{split_path, split_file, starts_with}

-- The temporary file and the upload of its contents.
pub record Uploader : Type 0 where
  pub create_temp : Result (Unit {0})
  pub copy : Text → Result (Unit {0})
  pub upload_blob : Text → Result Digest

abbrev pub unchanged : Dir → Dir
unchanged d = d

-- mode & 0o111 != 0
unfoldable pub is_executable : ℕ → Bool
is_executable mode = not (mode % 2 + mode / 8 % 2 + mode / 64 % 2 == 0)

unfoldable pub on_directory_seen : Text → Dir → Dir
on_directory_seen path root = at_child (split_path path) unchanged root

abbrev pub whiteout_prefix : Text
whiteout_prefix = codes ".wh."

abbrev pub opaque_whiteout : Text
opaque_whiteout = codes ".wh..wh..opq"

-- What a whiteout does to the directory that it stands in.
unfoldable pub apply_whiteout : Text → Dir → Dir
apply_whiteout filename d =
    if same filename opaque_whiteout
    then new_dir
    else delete (trim_prefix whiteout_prefix filename) d

unfoldable pub upload_contents : Uploader → Text → Result Digest
upload_contents u data_ = or_else u.create_temp (wrap "Failed to create temp file") >>= λ _.
    or_else (u.copy data_) (wrap "Failed to write temporary file") >>= λ _.
    or_else (u.upload_blob data_) (wrap "Failed to upload file")

-- The entry that a file replaces is gone also if the upload fails.
unfoldable pub on_file_seen : Uploader → Text → Text → ℕ → Dir → Result (Unit {0}) × Dir
on_file_seen u path data_ mode root =
    let place = split_path (split_file path).0 in
    let filename = (split_file path).1 in
    if starts_with whiteout_prefix filename
    then (ok tt, at_child place (apply_whiteout filename) root)
    else elim (upload_contents u data_) [
      | err e ↦ (err e, at_child place (delete filename) root)
      | ok digest ↦ (
        ok tt,
        at_child place
            (λ d.
              put_file filename
                (record { name = filename; digest = digest; is_executable = is_executable mode })
                (delete filename d))
            root,
      )
    ]

unfoldable pub on_link_seen : Text → Text → Dir → Dir
on_link_seen path target root =
    let name = (split_file path).1 in
    at_child (split_path (split_file path).0) (λ d. put_hard_link name target (delete name d)) root

unfoldable pub on_symlink_seen : Text → Text → Dir → Dir
on_symlink_seen path target root =
    let name = (split_file path).1 in
    at_child (split_path (split_file path).0)
      (λ d. put_symlink name (record { name = name; target = target }) (delete name d)) root

-- What LayerContentsVisitor is told of, in the order of the archive.
pub data Event : Type 0 where
  directory_seen : Text → Event
  file_seen : Text → Text → ℕ → Event
  link_seen : Text → Text → Event
  symlink_seen : Text → Text → Event

unfoldable pub on_event : Uploader → Event → Dir → Result (Unit {0}) × Dir
on_event u (directory_seen path) root = (ok tt, on_directory_seen path root)
on_event u (file_seen path data_ mode) root = on_file_seen u path data_ mode root
on_event u (link_seen path target) root = (ok tt, on_link_seen path target root)
on_event u (symlink_seen path target) root = (ok tt, on_symlink_seen path target root)
