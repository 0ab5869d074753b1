-- ===== src/Ephemeral/Answers.antt =====
-- What the storage answers after writes, by the maps that it stands for.
use bb_action_router.Base.{
  Text, lookup, holds, ◌≡◌, refl, sym, Bool, true, false, Option, none, some, List, [], ◌∷◌,
  if◌then◌else◌, filter,
}
use bb_action_router.Status.{Error, Result, ok, err, status, not_found, data_loss, errorf, ◌>>=◌}
use bb_action_router.Ephemeral.BlobAccess.{
  BlobDirectory, Files, blob_path, mapping_path, after_error, checked, decoded, add_missing,
  get_chunk, find_missing_chunks, get_mapping, find_missing_mappings,
}
use bb_action_router.Ephemeral.Refined.{
  Write, Stored, write, store, Encodes, absent, present, Refines, write-Refines,
}

module _ {Digest Mapping : Type 0} (b : BlobDirectory Digest Mapping) where
  unfoldable pub when_ok :
      Result (Unit {0}) × Files → (Files → Result (Unit {0}) × Files) → Result (Unit {0}) × Files
  when_ok (err e, files) next = (err e, files)
  when_ok (ok u, files) next = next files

  -- Writes up to the first that fails.
  unfoldable pub write_all : List (Write Digest Mapping) → Files → Result (Unit {0}) × Files
  write_all [] files = (ok tt, files)
  write_all (w ∷ ws) files = when_ok (write b w files) (write_all ws)

  unfoldable pub store_all : List (Write Digest Mapping) → Stored Mapping → Stored Mapping
  store_all [] s = s
  store_all (w ∷ ws) s = store_all ws (store b w s)

  -- What is read of a chunk that is stored, or of one that is not.
  unfoldable pub read_chunk : Digest → Option Text → Result Text
  read_chunk d none = err (status not_found "blob %s not found")
  read_chunk d (some data_) =
      if b.computes_to data_ d then ok data_ else err (status data_loss "blob %s is corrupt")

  unfoldable pub read_mapping : Option Mapping → Result Mapping
  read_mapping none = err (status not_found "chunk mapping %s not found")
  read_mapping (some m) = ok m

  abbrev pub is_absent : {A : Type 0} → Option A → Bool
  is_absent none = true
  is_absent (some x) = false

  -- The answers to all reads are those of the two maps.
  pub Answers : Files → Stored Mapping → Type 0
  Answers files s =
      ((d : Digest) → get_chunk b d files ≡ read_chunk d (lookup (b.get_key d) s.chunks))
      × ((d : Digest) → get_mapping b d files ≡ read_mapping (lookup (b.get_key d) s.mappings))
      × ((ds : List Digest)
          → find_missing_chunks b ds files
            ≡ ok (filter (λ d. is_absent (lookup (b.get_key d) s.chunks)) ds))
      × ((ds : List Digest)
          → find_missing_mappings b ds files
            ≡ ok (filter (λ d. is_absent (lookup (b.get_key d) s.mappings)) ds))

  module _ (plain : (d : Digest) → holds b'.' (b.get_key d) ≡ false)
      (decodes : (m : Mapping) (data_ : Text) (d : Digest)
        → b.to_compact_binary m ≡ ok data_
        → b.from_compact_binary data_ d ≡ ok m)
      (readable : (path : Text) → (b.read_fails path ≡ none) × (b.stat_fails path ≡ none)) where
    when_ok-Refines :
        (r : Result (Unit {0}) × Files) (next : Files → Result (Unit {0}) × Files)
        (s t : Stored Mapping)
        → (when_ok r next).0 ≡ ok tt
        → (r.0 ≡ ok tt → Refines b plain r.1 s)
        → ((files : Files)
            → (next files).0 ≡ ok tt
            → Refines b plain files s
            → Refines b plain (next files).1 t)
        → Refines b plain (when_ok r next).1 t
    unfolding when_ok
    when_ok-Refines (err x, files) next s t e h k = cc e
    when_ok-Refines (ok u, files) next s t e h k = k files e (h refl)

    write_all-Refines :
        (ws : List (Write Digest Mapping)) (files : Files) (s : Stored Mapping)
        → (write_all ws files).0 ≡ ok tt
        → Refines b plain files s
        → Refines b plain (write_all ws files).1 (store_all ws s)
    unfolding write_all store_all
    write_all-Refines [] files s e r = r
    write_all-Refines (w ∷ ws) files s e r =
        when_ok-Refines (write b w files) (write_all ws) (store b w s) (store_all ws (store b w s))
          e (λ f. write-Refines b plain w files s f r)
          (λ left f q. write_all-Refines ws left (store b w s) f q)

    checked_lem :
        (d : Digest) (o : Option Text) → checked b d (after_error b none o) ≡ read_chunk d o
    unfolding checked read_chunk
    checked_lem d none = refl
    checked_lem d (some data_) = refl

    decoded_lem :
        (d : Digest) (o : Option Text) (m : Option Mapping)
        → Encodes b plain o m
        → decoded b d (after_error b none o) ≡ read_mapping m
    unfolding decoded read_mapping
    decoded_lem d _ _ absent = refl
    decoded_lem d _ _ (present m data_ e) = decodes m data_ d e

    add_missing_lem :
        (wrapped : Error → Error) (d : Digest) (o : Option Text) (rest : Result (List Digest))
        (ds : List Digest)
        → rest ≡ ok ds
        → add_missing b wrapped d (after_error b none o) rest
          ≡ ok (if is_absent o then d ∷ ds else ds)
    unfolding add_missing ◌>>=◌
    add_missing_lem wrapped d none rest ds e = rw e refl
    add_missing_lem wrapped d (some data_) rest ds e = e

    Encodes-is_absent :
        (o : Option Text) (m : Option Mapping) → Encodes b plain o m → is_absent o ≡ is_absent m
    Encodes-is_absent _ _ absent = refl
    Encodes-is_absent _ _ (present m data_ e) = refl

    module _ (files : Files) (s : Stored Mapping) (r : Refines b plain files s) where
      find_missing_chunks_lem :
          (ds : List Digest)
          → find_missing_chunks b ds files
            ≡ ok (filter (λ d. is_absent (lookup (b.get_key d) s.chunks)) ds)
      unfolding find_missing_chunks Refines
      find_missing_chunks_lem [] = refl
      find_missing_chunks_lem (d ∷ ds) =
          rw ((readable (blob_path b d)).1, sym (r d).0)
            (add_missing_lem (errorf "stat blob %s: %w") d (lookup (blob_path b d) files)
              (find_missing_chunks b ds files)
              (filter (λ e. is_absent (lookup (b.get_key e) s.chunks)) ds)
              (find_missing_chunks_lem ds))

      find_missing_mappings_lem :
          (ds : List Digest)
          → find_missing_mappings b ds files
            ≡ ok (filter (λ d. is_absent (lookup (b.get_key d) s.mappings)) ds)
      unfolding find_missing_mappings Refines
      find_missing_mappings_lem [] = refl
      find_missing_mappings_lem (d ∷ ds) =
          rw
            (
              (readable (mapping_path b d)).1,
              sym (
                  Encodes-is_absent (lookup (mapping_path b d) files)
                    (lookup (b.get_key d) s.mappings) (r d).1),
            )
            (add_missing_lem (λ e. e) d (lookup (mapping_path b d) files)
              (find_missing_mappings b ds files)
              (filter (λ e. is_absent (lookup (b.get_key e) s.mappings)) ds)
              (find_missing_mappings_lem ds))

      Refines-Answers : Answers files s
      unfolding Answers Refines
      Refines-Answers = (
        λ d.
            rw ((readable (blob_path b d)).0, sym (r d).0)
              (checked_lem d (lookup (blob_path b d) files)),
        λ d. rw (readable (mapping_path b d)).0 (
            decoded_lem d (lookup (mapping_path b d) files) (lookup (b.get_key d) s.mappings)
              (r d).1),
        find_missing_chunks_lem,
        find_missing_mappings_lem,
      )

    empty-Refines : Refines b plain [] (record { chunks = []; mappings = [] })
    unfolding Refines lookup
    empty-Refines d = (refl, absent)

    -- In an empty directory, after any number of writes without an error, the storage answers every
    -- read as two maps would that the same writes have changed: a chunk or a mapping is what was
    -- last put under a digest with the same key, a chunk only if it has that digest, and what was
    -- not put is not found and is missing. A chunk and the mapping of one digest are kept apart.
    -- The conditions: keys have no dot, what a mapping is encoded to decodes to it, and neither
    -- reading a file nor asking for it fails.
    pub write_all-Answers :
        (ws : List (Write Digest Mapping))
        → (write_all ws []).0 ≡ ok tt
        → Answers (write_all ws []).1 (store_all ws (record { chunks = []; mappings = [] }))
    write_all-Answers ws e =
        let start : Stored Mapping = record { chunks = []; mappings = [] } in
        Refines-Answers (write_all ws []).1 (store_all ws start)
          (write_all-Refines ws [] start e empty-Refines)
