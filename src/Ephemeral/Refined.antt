-- ===== src/Ephemeral/Refined.antt =====
-- The storage against two maps, one of chunks and one of their mappings.
use mathlib.Core.List.{append_assoc, append_cancel_left, append_cancel_right}
use bb_action_router.Base.{
  Text, codes, same, same_iff, same_refl, same_comm, lookup, put, lookup-put, holds, ℕ, ◌≡◌, refl,
  sym, subst, ◌∙◌, inl, inr, Bool, true, false, ◌||◌, Option, none, some, List, [], ◌∷◌, ◌++◌,
  arith, if◌then◌else◌, Bool-cases,
}
use bb_action_router.Status.{Error, Result, ok, err}
use bb_action_router.Ephemeral.BlobAccess.{
  BlobDirectory, Files, blob_path, mapping_path, left_by_write, put_encoded, put_chunk, put_mapping,
}

-- A call that writes.
pub data Write (Digest Mapping : Type 0) : Type 0 where
  chunk : Digest → Text → Write Digest Mapping
  mapping : Digest → Mapping → Write Digest Mapping

-- What is stored, by the keys of digests.
pub record Stored (Mapping : Type 0) : Type 0 where
  pub chunks : List (Text × Text)
  pub mappings : List (Text × Mapping)

same-prepend : (p s t : Text) → same (p ++ s) (p ++ t) ≡ same s t
same-prepend p s t = elim (Bool-cases (same s t)) [
  | inl e ↦ rw (e, (same_iff s t).0 e) (same_refl (p ++ t))
  | inr e ↦ elim (Bool-cases (same (p ++ s) (p ++ t))) [
    | inr f ↦ rw (e, f) refl
    | inl f ↦
        let g = append_cancel_left p s t ((same_iff (p ++ s) (p ++ t)).0 f) in
        cc ((same_iff s t).1 g, f)
  ]
]

same-append : (s t p : Text) → same (s ++ p) (t ++ p) ≡ same s t
same-append s t p = elim (Bool-cases (same s t)) [
  | inl e ↦ rw (e, (same_iff s t).0 e) (same_refl (t ++ p))
  | inr e ↦ elim (Bool-cases (same (s ++ p) (t ++ p))) [
    | inr f ↦ rw (e, f) refl
    | inl f ↦
        let g = append_cancel_right s t p ((same_iff (s ++ p) (t ++ p)).0 f) in
        cc ((same_iff s t).1 g, f)
  ]
]

holds-append : (c : ℕ) (s t : Text) → holds c (s ++ t) ≡ (holds c s || holds c t)
unfolding holds
holds-append c [] t = refl
holds-append c (x ∷ s) t = ground (arith, holds-append c s t)

module _ {Digest Mapping : Type 0} (b : BlobDirectory Digest Mapping) where
  unfoldable pub write : Write Digest Mapping → Files → Result (Unit {0}) × Files
  write (chunk d v) files = put_chunk b d v files
  write (mapping d m) files = put_mapping b d m files

  unfoldable pub store : Write Digest Mapping → Stored Mapping → Stored Mapping
  store (chunk d v) s = record s { chunks = put (b.get_key d) v s.chunks }
  store (mapping d m) s = record s { mappings = put (b.get_key d) m s.mappings }

  chunk_paths :
      (d e : Digest) → same (blob_path b d) (blob_path b e) ≡ same (b.get_key d) (b.get_key e)
  chunk_paths d e =
      same-prepend b.dir (codes "/" ++ b.get_key d) (codes "/" ++ b.get_key e)
      ∙ same-prepend (codes "/") (b.get_key d) (b.get_key e)

  mapping_paths :
      (d e : Digest) → same (mapping_path b d) (mapping_path b e) ≡ same (b.get_key d) (b.get_key e)
  mapping_paths d e =
      same-append (blob_path b d) (blob_path b e) (codes ".mapping") ∙ chunk_paths d e

  module _ (plain : (d : Digest) → holds b'.' (b.get_key d) ≡ false) where
    key_apart : (d e : Digest) → same (b.get_key d) (b.get_key e ++ codes ".mapping") ≡ false
    unfolding holds
    key_apart d e = elim (Bool-cases (same (b.get_key d) (b.get_key e ++ codes ".mapping"))) [
      | inr f ↦ f
      | inl t ↦
          let dotted : holds b'.' (b.get_key e ++ codes ".mapping") ≡ true =
            holds-append b'.' (b.get_key e) (codes ".mapping") ∙ rw (plain e) refl in
          cc (plain d, (same_iff (b.get_key d) (b.get_key e ++ codes ".mapping")).0 t, dotted)
    ]

    apart : (d e : Digest) → same (blob_path b d) (mapping_path b e) ≡ false
    apart d e =
        subst (λ p. same (blob_path b d) p ≡ false)
          (sym (append_assoc b.dir (codes "/" ++ b.get_key e) (codes ".mapping")))
          (same-prepend b.dir (codes "/" ++ b.get_key d)
              (codes "/" ++ b.get_key e ++ codes ".mapping")
            ∙ same-prepend (codes "/") (b.get_key d) (b.get_key e ++ codes ".mapping")
            ∙ key_apart d e)

    pub data Encodes : Option Text → Option Mapping → Type 0 where
      absent : Encodes none none
      present :
          (m : Mapping) (data_ : Text)
          → b.to_compact_binary m ≡ ok data_
          → Encodes (some data_) (some m)

    unfoldable pub Refines : Files → Stored Mapping → Type 0
    Refines files s =
        (d : Digest)
        → (lookup (blob_path b d) files ≡ lookup (b.get_key d) s.chunks)
          × Encodes (lookup (mapping_path b d) files) (lookup (b.get_key d) s.mappings)

    left_by_write-ok :
        (o : Option (Error × Option ℕ)) (path data_ : Text) (files : Files)
        → (left_by_write b o path data_ files).0 ≡ ok tt
        → (left_by_write b o path data_ files).1 ≡ put path data_ files
    unfolding left_by_write
    left_by_write-ok none path data_ files e = refl
    left_by_write-ok (some (x, none)) path data_ files e = cc e
    left_by_write-ok (some (x, some n)) path data_ files e = cc e

    put-Encodes :
        (t : Bool) (m : Mapping) (data_ : Text) (f : Option Text) (g : Option Mapping)
        → b.to_compact_binary m ≡ ok data_
        → Encodes f g
        → Encodes (if t then some data_ else f) (if t then some m else g)
    put-Encodes true m data_ f g e r = present m data_ e
    put-Encodes false m data_ f g e r = r

    put_chunk-Refines :
        (d : Digest) (v : Text) (files : Files) (s : Stored Mapping)
        → Refines files s
        → Refines (put (blob_path b d) v files) (store (chunk d v) s)
    unfolding Refines store
    put_chunk-Refines d v files s r e = (
      rw
          (
            lookup-put (blob_path b d) (blob_path b e) v files,
            lookup-put (b.get_key d) (b.get_key e) v s.chunks,
            chunk_paths d e,
            (r e).0,
          )
          refl,
      rw (lookup-put (blob_path b d) (mapping_path b e) v files, apart d e) (r e).1,
    )

    put_mapping-Refines :
        (d : Digest) (m : Mapping) (data_ : Text) (files : Files) (s : Stored Mapping)
        → b.to_compact_binary m ≡ ok data_
        → Refines files s
        → Refines (put (mapping_path b d) data_ files) (store (mapping d m) s)
    unfolding Refines store
    put_mapping-Refines d m data_ files s f r e = (
      rw
          (
            lookup-put (mapping_path b d) (blob_path b e) data_ files,
            same_comm (mapping_path b d) (blob_path b e),
            apart e d,
          )
          (r e).0,
      rw
          (
            lookup-put (mapping_path b d) (mapping_path b e) data_ files,
            lookup-put (b.get_key d) (b.get_key e) m s.mappings,
            mapping_paths d e,
          )
          (put-Encodes (same (b.get_key d) (b.get_key e)) m data_ (lookup (mapping_path b e) files)
            (lookup (b.get_key e) s.mappings) f (r e).1),
    )

    put_encoded-Refines :
        (d : Digest) (m : Mapping) (encoded : Result Text) (files : Files) (s : Stored Mapping)
        → b.to_compact_binary m ≡ encoded
        → (put_encoded b (mapping_path b d) encoded files).0 ≡ ok tt
        → Refines files s
        → Refines (put_encoded b (mapping_path b d) encoded files).1 (store (mapping d m) s)
    unfolding put_encoded
    put_encoded-Refines d m (err x) files s f e r = cc e
    put_encoded-Refines d m (ok data_) files s f e r =
        let path = mapping_path b d in
        subst (λ x. Refines x (store (mapping d m) s))
          (sym (left_by_write-ok (b.write_fails path data_) path data_ files e))
          (put_mapping-Refines d m data_ files s f r)

    pub write-Refines :
        (w : Write Digest Mapping) (files : Files) (s : Stored Mapping)
        → (write w files).0 ≡ ok tt
        → Refines files s
        → Refines (write w files).1 (store w s)
    unfolding write put_chunk
    write-Refines (chunk d v) files s e r =
        let path = blob_path b d in
        subst (λ x. Refines x (store (chunk d v) s))
          (sym (left_by_write-ok (b.write_fails path v) path v files e))
          (put_chunk-Refines d v files s r)
    write-Refines (mapping d m) files s e r =
        put_encoded-Refines d m (b.to_compact_binary m) files s refl e r
