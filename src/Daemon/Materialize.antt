-- ===== src/Daemon/Materialize.antt =====
-- materialize, buildRoot and populateRoot of cmd/bb_docker_root_fetcher/main.go. The state is the
-- list of the directories in the directory of the roots. Names of temporary directories, the upload
-- of an image, and the builder of its tree are parameters.
use bb_action_router.Base.{
  Text, Bool, codes, trim_prefix, member, without, Option, none, some, List, [], ◌∷◌, ◌++◌,
  if◌then◌else◌,
}
use bb_action_router.Status.{Error, Result, ok, err, status, unknown, errorf, or_else, ◌>>=◌}
use bb_action_router.Reapi.{Digest}
use bb_action_router.Registry.References.{Reference, validate_image_reference}

pub record Materializer : Type 0 where
  pub roots_dir : Text
  -- The path of a new directory, given those that there are.
  pub mkdir_temp : Text → List Text → Result Text
  -- UploadImageToCAS with the storage in a directory.
  pub upload_image_to_cas : Text → Text → Result Digest
  pub new_digest_from_proto : Digest → Result Digest
  pub chmod : Text → Result (Unit {0})
  pub open_dir : Text → Result (Unit {0})
  pub merge_directory_contents : Text → Digest → Result (Unit {0})
  pub mkdir_all : Text → Result (Unit {0})
  pub parse_reference : Text → Result Reference
  -- The digest of name.NewDigest.
  pub new_digest : Text → Result Text
  pub rename_fails : Text → Text → Option Error
  -- Whether os.RemoveAll of a directory fails, with those that there are.
  pub remove_fails : Text → List Text → Bool

-- filepath.Join of the directory of the roots, which is clean and not "/", and a name in it.
abbrev pub in_dir : Text → Text → Text
in_dir dir name = dir ++ (codes "/" ++ name)

module _ (h : Materializer) where
  -- os.RemoveAll, whose error is not looked at: a directory that it cannot delete stays.
  unfoldable pub remove_all : Text → List Text → List Text
  remove_all dir dirs = if h.remove_fails dir dirs then dirs else without dir dirs

  -- The loop that makes mount points.
  unfoldable pub ensure_dirs : Text → List Text → Result (Unit {0})
  ensure_dirs dir [] = ok tt
  ensure_dirs dir (sub ∷ subs) =
      or_else (h.mkdir_all (in_dir dir sub)) (errorf "ensure %s exists: %w") >>= λ u.
      ensure_dirs dir subs

  unfoldable pub populate_root : Text → Digest → Result (Unit {0})
  populate_root dir root_digest =
      or_else (h.open_dir dir) (errorf "open in-progress root dir: %w") >>= λ u.
      or_else (h.merge_directory_contents dir root_digest) (errorf "materialize: %w") >>= λ v.
      ensure_dirs dir (codes "bin" ∷ codes "var" ∷ [])

  -- A directory with the tree in it; after an error it is removed.
  unfoldable pub fill_root : Text → Digest → List Text → Result Text × List Text
  fill_root root root_digest dirs =
      elim (or_else (h.chmod root) (errorf "chmod in-progress root dir: %w") >>= λ u.
      populate_root root root_digest) [
        | err e ↦ (err e, remove_all root dirs)
        | ok u ↦ (ok root, dirs)
      ]

  unfoldable pub build_root : Digest → List Text → Result Text × List Text
  build_root root_digest dirs = elim (h.mkdir_temp (codes ".tmp-root-") dirs) [
    | err e ↦ (err (errorf "create in-progress root dir: %w" e), dirs)
    | ok root ↦ fill_root root root_digest (root ∷ dirs)
  ]

  -- os.Rename of a directory: to a path where there is no directory that holds anything.
  unfoldable pub rename_dir : Text → Text → List Text → Result (Unit {0}) × List Text
  rename_dir from to dirs = elim (h.rename_fails from to) [
    | some e ↦ (err e, dirs)
    | none ↦
        if member to dirs
        then (err (status unknown "file exists"), dirs)
        else (ok tt, to ∷ without from dirs)
  ]

  unfoldable pub final_path : Text → Result Text
  final_path ref = elim (validate_image_reference h.parse_reference ref) [
    | err e ↦ err (status unknown "invalid image ref: %s")
    | ok u ↦ or_else (h.new_digest ref) (errorf "invalid image ref %q: %w") >>= λ digest.
        ok (in_dir h.roots_dir (trim_prefix (codes "sha256:") digest))
  ]

  unfoldable pub moved_to : Text → Text → Result (Unit {0}) × List Text → Result Text × List Text
  moved_to root path (err e, dirs) =
      (err (errorf "rename to final path: %w" e), remove_all root dirs)
  moved_to root path (ok u, dirs) = (ok path, dirs)

  unfoldable pub move_root : Text → Text → List Text → Result Text × List Text
  move_root root path dirs = moved_to root path (rename_dir root path dirs)

  unfoldable pub place_root : Text → Result Text × List Text → Result Text × List Text
  place_root ref (err e, dirs) = (err e, dirs)
  place_root ref (ok root, dirs) = elim (final_path ref) [
    | err e ↦ (err e, dirs)
    | ok path ↦ move_root root path dirs
  ]

  abbrev pub root_digest : Text → Text → Result Digest
  root_digest cas ref =
      or_else (h.upload_image_to_cas cas ref) (errorf "upload image to ephemeral CAS: %w")
      >>= λ digest. or_else (h.new_digest_from_proto digest) (errorf "parse root digest: %w")

  unfoldable pub materialize_from : Text → Text → List Text → Result Text × List Text
  materialize_from cas ref dirs = elim (root_digest cas ref) [
    | err e ↦ (err e, dirs)
    | ok digest ↦ place_root ref (build_root digest dirs)
  ]

  -- The directory of the blobs is removed in the end.
  unfoldable pub materialize : Text → List Text → Result Text × List Text
  materialize ref dirs = elim (h.mkdir_temp (codes ".tmp-blobs-") dirs) [
    | err e ↦ (err (errorf "create ephemeral blob dir: %w" e), dirs)
    | ok cas ↦ let r = materialize_from cas ref (cas ∷ dirs) in (r.0, remove_all cas r.1)
  ]
