-- ===== src/Images/Uploader.antt =====
-- pkg/actionrouter/image_to_cas_uploader.go. The storage, and the batching of what is put into it,
-- are parameters; the storage of a directory is put_proto, and flushing ends the batches.
use bb_action_router.Base.{Text, Bool, Option, List, [], ◌∷◌, if◌then◌else◌}
use bb_action_router.Status.{Error, Result, ok, err, wrap, or_else, ◌>>=◌}
use bb_action_router.Reapi.{Digest, Directory}
use bb_action_router.Router.Config.{UnixUser}
use bb_action_router.Layers.Tree.{Dir, new_dir}
use bb_action_router.Layers.Events.{Uploader}
use bb_action_router.Layers.HardLinks.{on_layer_complete}
use bb_action_router.Layers.Upload.{upload_directories}
use bb_action_router.Users.Entries.{on_injected}
use bb_action_router.Registry.Puller.{Registry, ImagePuller, Context, cancel, get_image_from_ref}
use bb_action_router.Registry.Archive.{Next, extract_and_visit}

pub record ImageUploader (Descriptor Image : Type 0) : Type 0 where
  pub registry : Registry Descriptor Image
  pub puller : ImagePuller
  pub build_user : UnixUser
  -- The layers of an image, as what is read of each once it is uncompressed.
  pub layers : Image → Result (List (Result (List Next)))
  pub scan_failure : Text → Option Error
  pub uploader : Uploader
  pub put_proto : Directory → Result Digest
  pub flush : Result (Unit {0})

pub data UploadStatus : Type 0 where
  success timeout error : UploadStatus

-- The deferred flush: its error is returned unless there is one already.
unfoldable pub flush_after : Result (Unit {0}) → Result Digest → Result Digest
flush_after (ok u) r = r
flush_after (err e) (ok digest) = err (wrap "Failed to flush batched uploads to CAS" e)
flush_after (err e) (err x) = err x

module _ {Descriptor Image : Type 0} (u : ImageUploader Descriptor Image) where
  abbrev pub extract_layer : Result (List Next) → Dir → Result (Unit {0}) × Dir
  extract_layer =
      extract_and_visit (on_injected u.build_user u.scan_failure u.uploader) on_layer_complete

  unfoldable pub extract_layers : List (Result (List Next)) → Dir → Result (Unit {0}) × Dir
  extract_layers [] root = (ok tt, root)
  extract_layers (layer ∷ layers) root =
      let r = extract_layer layer root in
      elim r.0 [
        | err e ↦ (err (wrap "Failed to extract layer" e), r.1)
        | ok done ↦ extract_layers layers r.1
      ]

  unfoldable pub upload_tree : Result (Unit {0}) × Dir → Result Digest
  upload_tree (err e, root) = err e
  upload_tree (ok done, root) =
      or_else (upload_directories u.put_proto root).0 (wrap "Failed to upload directories")

  unfoldable pub upload_layers : Image → Result Digest
  upload_layers img = or_else (u.layers img) (wrap "Failed to get image layers") >>= λ layers.
      upload_tree (extract_layers layers new_dir)

  -- The digest, and the context of the image when all deferred calls have run.
  unfoldable pub upload_image_impl : Text → Result Digest × Context
  upload_image_impl ref =
      let pulled = get_image_from_ref u.registry u.puller ref in
      elim pulled.0 [
        | err e ↦ (flush_after u.flush (err (wrap "Failed to pull image" e)), pulled.1)
        | ok img ↦ (flush_after u.flush (upload_layers img), cancel u.registry u.puller pulled.1)
      ]

  module _ (is_deadline_exceeded : Error → Bool) where
    abbrev pub status_of : Result Digest → UploadStatus
    status_of (ok digest) = success
    status_of (err e) = if is_deadline_exceeded e then timeout else error

    -- UploadImageToCAS, with the label of its measurement.
    unfoldable pub upload_image : Text → Result Digest × UploadStatus
    upload_image ref = let r = (upload_image_impl ref).0 in (r, status_of r)
