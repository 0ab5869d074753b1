-- ===== src/Layers/TmpFile.antt =====
-- The temporary file of pkg/blobstore/cas_uploading_layer_extractor.go: tmpFileCloser, and the part
-- of OnFileSeen that makes it. The files of the temporary directory are the list of their names.
use bb_action_router.Base.{
  Text, without, ℕ, zero, suc, Bool, Option, none, some, List, [], ◌∷◌, ltb, leb, if◌then◌else◌,
  length,
}
use bb_action_router.Status.{Error, Result, ok, err, wrap, or_else}
use bb_action_router.Reapi.{Digest}
use bb_action_router.Layers.Events.{Uploader}

-- The calls of the system, each of which may fail, and the storage. UploadBlob is given what it
-- reads, and closes its reader in the end.
pub record TmpHost : Type 0 where
  pub create_temp : List Text → Result Text
  pub copy_fails : Text → Option Error
  pub close_fails : Text → Option Error
  pub remove_fails : Text → Option Error
  pub upload_blob : Text → Result Digest

pub record TmpFile : Type 0 where
  pub name : Text
  pub contents : Text
  pub size_bytes : ℕ

pub data RegionType : Type 0 where
  data_region hole : RegionType

abbrev pub take : ℕ → Text → Text
take zero s = []
take (suc n) [] = []
take (suc n) (c ∷ s) = c ∷ take n s

abbrev pub drop : ℕ → Text → Text
drop zero s = s
drop (suc n) [] = []
drop (suc n) (c ∷ s) = drop n s

-- The bytes from an offset, and whether the file ends before `n` of them.
unfoldable pub read_at : TmpFile → ℕ → ℕ → Text × Bool
read_at c n off = let s = take n (drop off c.contents) in (s, ltb (length s) n)

unfoldable pub len : TmpFile → ℕ
len c = c.size_bytes

-- none for io.EOF
unfoldable pub get_next_region_offset : TmpFile → ℕ → RegionType → Option ℕ
get_next_region_offset c offset data_region = if leb c.size_bytes offset then none else some offset
get_next_region_offset c offset hole = if leb c.size_bytes offset then none else some c.size_bytes

abbrev pub first_error : Option Error → Option Error → Option Error
first_error none e2 = e2
first_error (some e1) e2 = some e1

module _ (h : TmpHost) where
  unfoldable pub removed_file : Text → List Text → List Text
  removed_file name files = elim (h.remove_fails name) [
    | none ↦ without name files
    | some e ↦ files
  ]

  unfoldable pub close_file : TmpFile → List Text → Option Error × List Text
  close_file c files =
      (first_error (h.close_fails c.name) (h.remove_fails c.name), removed_file c.name files)

  -- The copy, and the upload of what can be read back.
  unfoldable pub copied : Text → Text → List Text → Result Digest × List Text
  copied name data_ files = elim (h.copy_fails data_) [
    | some e ↦ (err (wrap "Failed to write temporary file" e), removed_file name files)
    | none ↦
        let c : TmpFile = record { name = name; contents = data_; size_bytes = length data_ } in
        (
          or_else (h.upload_blob (read_at c (len c) 0).0) (wrap "Failed to upload file"),
          (close_file c files).1,
        )
  ]

  unfoldable pub upload_file : Text → List Text → Result Digest × List Text
  upload_file data_ files = elim (h.create_temp files) [
    | err e ↦ (err (wrap "Failed to create temp file" e), files)
    | ok name ↦ copied name data_ (name ∷ files)
  ]

  abbrev pub as_result : Option Error → Result (Unit {0})
  as_result none = ok tt
  as_result (some e) = err e

  -- The host as Events sees it.
  abbrev pub tmp_uploader : List Text → Uploader
  tmp_uploader files = record {
    create_temp = elim (h.create_temp files) [ ok name ↦ ok tt | err e ↦ err e ];
    copy = λ data_. as_result (h.copy_fails data_);
    upload_blob = h.upload_blob;
  }
