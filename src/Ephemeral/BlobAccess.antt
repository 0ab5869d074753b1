-- ===== src/Ephemeral/BlobAccess.antt =====
-- pkg/ephemeralcas/blob_access.go. The state is the files of the directory, by their paths, which
-- reads, writes and os.Stat see and change. Digests, their keys and the codec of chunk mappings are
-- parameters.
use bb_action_router.Base.{
  Text, codes, lookup, put, ℕ, ◌-◌, Bool, Option, none, some, List, [], ◌∷◌, ◌++◌, ◌==◌,
  if◌then◌else◌,
}
use bb_action_router.Status.{Error, Result, ok, err, status, not_found, data_loss, errorf, ◌>>=◌}

pub record BlobDirectory (Digest Mapping : Type 0) : Type 0 where
  pub dir : Text
  -- GetKey(digest.KeyWithoutInstance)
  pub get_key : Digest → Text
  -- ComputeDigest with the digest function of a digest, compared with it.
  pub computes_to : Text → Digest → Bool
  pub to_compact_binary : Mapping → Result Text
  pub from_compact_binary : Text → Digest → Result Mapping
  -- Errors of the file system. A failed write leaves the file, or a part of the data in it.
  pub read_fails : Text → Option Error
  pub stat_fails : Text → Option Error
  pub write_fails : Text → Text → Option (Error × Option ℕ)

abbrev pub take : ℕ → Text → Text
take n [] = []
take n (c ∷ s) = if n == 0 then [] else c ∷ take (n - 1) s

pub data Lookup (A : Type 0) : Type 0 where
  found : A → Lookup A
  not_exist : Lookup A
  broken : Error → Lookup A

abbrev pub Files : Type 0
Files = List (Text × Text)

module _ {Digest Mapping : Type 0} (b : BlobDirectory Digest Mapping) where
  abbrev pub blob_path : Digest → Text
  blob_path d = b.dir ++ (codes "/" ++ b.get_key d)

  abbrev pub mapping_path : Digest → Text
  mapping_path d = blob_path d ++ codes ".mapping"

  abbrev pub after_error : {A : Type 0} → Option Error → Option A → Lookup A
  after_error (some e) f = broken e
  after_error none (some a) = found a
  after_error none none = not_exist

  abbrev pub read_blob : Text → Files → Lookup Text
  read_blob path files = after_error (b.read_fails path) (lookup path files)

  abbrev pub stat : Text → Files → Lookup Text
  stat path files = after_error (b.stat_fails path) (lookup path files)

  unfoldable pub left_by_write :
      Option (Error × Option ℕ) → Text → Text → Files → Result (Unit {0}) × Files
  left_by_write none path data_ files = (ok tt, put path data_ files)
  left_by_write (some (e, none)) path data_ files = (err e, files)
  left_by_write (some (e, some n)) path data_ files = (err e, put path (take n data_) files)

  abbrev pub write_blob : Text → Text → Files → Result (Unit {0}) × Files
  write_blob path data_ files = left_by_write (b.write_fails path data_) path data_ files

  unfoldable pub put_chunk : Digest → Text → Files → Result (Unit {0}) × Files
  put_chunk d value = write_blob (blob_path d) value

  unfoldable pub checked : Digest → Lookup Text → Result Text
  checked d not_exist = err (status not_found "blob %s not found")
  checked d (broken e) = err e
  checked d (found data_) =
      if b.computes_to data_ d then ok data_ else err (status data_loss "blob %s is corrupt")

  abbrev pub get_chunk : Digest → Files → Result Text
  get_chunk d files = checked d (read_blob (blob_path d) files)

  -- A round of the loop, given what the rounds behind it find.
  unfoldable pub add_missing :
      (Error → Error) → Digest → Lookup Text → Result (List Digest) → Result (List Digest)
  add_missing wrapped d (found data_) rest = rest
  add_missing wrapped d (broken e) rest = err (wrapped e)
  add_missing wrapped d not_exist rest = rest >>= λ missing. ok (d ∷ missing)

  unfoldable pub find_missing_chunks : List Digest → Files → Result (List Digest)
  find_missing_chunks [] files = ok []
  find_missing_chunks (d ∷ ds) files =
      add_missing (errorf "stat blob %s: %w") d (stat (blob_path d) files)
        (find_missing_chunks ds files)

  unfoldable pub decoded : Digest → Lookup Text → Result Mapping
  decoded d not_exist = err (status not_found "chunk mapping %s not found")
  decoded d (broken e) = err e
  decoded d (found data_) = b.from_compact_binary data_ d

  abbrev pub get_mapping : Digest → Files → Result Mapping
  get_mapping d files = decoded d (read_blob (mapping_path d) files)

  unfoldable pub put_encoded : Text → Result Text → Files → Result (Unit {0}) × Files
  put_encoded path (err e) files = (err e, files)
  put_encoded path (ok data_) files = write_blob path data_ files

  abbrev pub put_mapping : Digest → Mapping → Files → Result (Unit {0}) × Files
  put_mapping d value = put_encoded (mapping_path d) (b.to_compact_binary value)

  unfoldable pub find_missing_mappings : List Digest → Files → Result (List Digest)
  find_missing_mappings [] files = ok []
  find_missing_mappings (d ∷ ds) files =
      add_missing (λ e. e) d (stat (mapping_path d) files) (find_missing_mappings ds files)
