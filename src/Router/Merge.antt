-- ===== src/Router/Merge.antt =====
-- mergeDockerRootOp.apply of op_merge.go, with loadDirectory and putDirectory of pipeline.go.
use bb_action_router.Base.{
  Text, codes, same, text_lt, sort_by, Bool, true, false, ◌||◌, some, List, [], ◌∷◌, ◌++◌,
  if◌then◌else◌,
}
use bb_action_router.Status.{Result, ok, err, status, wrap, invalid_argument, internal, or_else}
use bb_action_router.Reapi.{Digest, Command, FileNode, DirectoryNode, SymlinkNode, Directory}
use bb_action_router.Router.State.{World, Exec, lift, ◌>>=◌, ◌>>◌, on_error, get_command}
use bb_action_router.Router.Template.{Template, render}

abbrev pub bazel_input_root_directory_name : Text
bazel_input_root_directory_name = codes "bazel_exec_root"

abbrev pub file_lt : FileNode → FileNode → Bool
file_lt a b = text_lt a.name b.name

abbrev pub directory_lt : DirectoryNode → DirectoryNode → Bool
directory_lt a b = text_lt a.name b.name

abbrev pub symlink_lt : SymlinkNode → SymlinkNode → Bool
symlink_lt a b = text_lt a.name b.name

-- The three calls of slices.SortFunc on a directory.
unfoldable pub sort_directory : Directory → Directory
sort_directory d = record {
  files = sort_by file_lt d.files;
  directories = sort_by directory_lt d.directories;
  symlinks = sort_by symlink_lt d.symlinks;
}

-- Whether a loop of assertDirectoryDoesntContainName meets the name.
unfoldable pub has_name {ℓ} : {A : Type ℓ} → (A → Text) → Text → List A → Bool
has_name name_of name [] = false
has_name name_of name (x ∷ xs) = same (name_of x) name || has_name name_of name xs

unfoldable pub assert_directory_doesnt_contain_name : Directory → Text → Result (Unit {0})
assert_directory_doesnt_contain_name d name =
    if has_name (λ n. n.name) name d.directories
    then err (status invalid_argument "%s directory must not be present on filesystem overlay")
    else if has_name (λ n. n.name) name d.files
    then err (status invalid_argument "%s file must not be present on filesystem overlay")
    else if has_name (λ n. n.name) name d.symlinks
    then err (status invalid_argument "%s symlink must not be present on filesystem overlay")
    else ok tt

-- The image with the input root of the action as one more subdirectory.
abbrev pub with_input_root : Digest → Directory → Directory
with_input_root digest image = record image {
  directories =
      image.directories ++ record { name = bazel_input_root_directory_name; digest = digest } ∷ [];
}

abbrev pub move_working_directory : Command → Command
move_working_directory command = record command {
  working_directory = bazel_input_root_directory_name ++ (codes "/" ++ command.working_directory);
}

module _ (w : World) where
  unfoldable pub load_directory : Digest → Result Directory
  load_directory digest =
      elim (or_else (w.new_digest_from_proto digest) (wrap "Failed to parse directory digest")) [
        | err e ↦ err e
        | ok parsed ↦
            or_else (w.read_directory parsed)
              (λ _. status internal "Failed to fetch directory %s from CAS: %v")
      ]

  unfoldable pub put_directory : Directory → Result Digest
  put_directory d =
      or_else (w.put_directory (sort_directory d))
        (λ _. status internal "Failed to store directory to CAS: %v")

  -- The end of apply: the input root becomes a subdirectory of the image.
  unfoldable pub merge_image : Directory → Command → Exec (Unit {0})
  merge_image image command s =
      elim (put_directory (with_input_root s.action.input_root_digest image)) [
        | err e ↦ (err e, s)
        | ok digest ↦ (
          ok tt,
          record s {
            action = record s.action { input_root_digest = digest };
            command = some (ok (move_working_directory command));
            command_changed = true;
          },
        )
      ]

  unfoldable pub apply_merge : Template → Exec (Unit {0})
  apply_merge image_ref = do
    ref ← on_error (λ _. status internal "Failed to render image ref: %v") (render w image_ref)
    lift (
        if same ref []
        then err (status invalid_argument "merge_docker_root.image_ref rendered empty")
        else ok tt)
    command ← get_command w
    root ← lift (w.get_dir_digest ref)
    image ← lift (load_directory root)
    lift (assert_directory_doesnt_contain_name image bazel_input_root_directory_name)
    merge_image image command
