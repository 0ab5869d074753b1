-- ===== src/Images/Uploaded.antt =====
-- How an upload ends.
use bb_action_router.Base.{Text, ℕ, ◌≡◌, ◌≢◌, List}
use bb_action_router.Status.{Error, Result, ok, err, wrap}
use bb_action_router.Reapi.{Digest, Directory}
use bb_action_router.Layers.Tree.{Dir, new_dir}
use bb_action_router.Layers.Upload.{upload_directories}
use bb_action_router.Layers.Proper.{IsProper}
use bb_action_router.Registry.Puller.{Context, with_timeout, get_image_from_ref}
use bb_action_router.Registry.Archive.{Next}
use bb_action_router.Images.Uploader.{ImageUploader, extract_layers}

module _ {Descriptor Image : Type 0} (u : ImageUploader Descriptor Image) where
  -- The ways in which the upload of an image ends.
  pub data Ends (ref : Text) : Result Digest → Type 0 where
    uploaded :
        (img : Image) (layers : List (Result (List Next))) (root : Dir) (digest : Digest)
        → (get_image_from_ref u.registry u.puller ref).0 ≡ ok img
        → u.layers img ≡ ok layers
        → extract_layers u layers new_dir ≡ (ok tt, root)
        → IsProper root
        → upload_directories u.put_proto root ≡ (ok digest, new_dir)
        → u.flush ≡ ok tt
        → Ends ref (ok digest)
    not_flushed :
        (e : Error)
        → u.flush ≡ err e
        → Ends ref (err (wrap "Failed to flush batched uploads to CAS" e))
    not_pulled :
        (e : Error)
        → (get_image_from_ref u.registry u.puller ref).0 ≡ err e
        → Ends ref (err (wrap "Failed to pull image" e))
    without_layers :
        (img : Image) (e : Error)
        → (get_image_from_ref u.registry u.puller ref).0 ≡ ok img
        → u.layers img ≡ err e
        → Ends ref (err (wrap "Failed to get image layers" e))
    not_extracted :
        (img : Image) (layers : List (Result (List Next))) (e : Error)
        → (get_image_from_ref u.registry u.puller ref).0 ≡ ok img
        → u.layers img ≡ ok layers
        → (extract_layers u layers new_dir).0 ≡ err e
        → Ends ref (err e)

  Stores : Type 0
  Stores = (d : Directory) → (digest : Digest) × (u.put_proto d ≡ ok digest)

  abbrev pub IsReleased : Context → Type 0
  IsReleased ctx = (t : ℕ) → ctx ≢ with_timeout t
