-- ===== src/Fetcher/Directories.antt =====
-- The invariant of the cache when a directory appears on disk, and when a reaper deletes one.
use bb_action_router.Base.{
  Text, same_iff, same_refl, member, member-cons, member-without, ℕ, suc, ◌≡◌, ap, inl, inr, Bool,
  true, false, not, List, [], ◌∷◌, arith, ◌==◌, Bool-cases, filter,
}
use bb_action_router.Fetcher.Server.{Server, reap_moved, reap_in_place}
use bb_action_router.Fetcher.Validity.{Falling, Falling-mono, IsValid, IsFresh}

-- Materialize has moved a directory into place.
abbrev pub with_directory : Text → Server → Server
with_directory path s = record s { disk = path ∷ s.disk }

module _ (path : Text) (s : Server) (v : IsValid s) where
  pub with_directory-IsValid : IsValid (with_directory path s)
  with_directory-IsValid = record {
    map = v.map;
    bounded = v.bounded;
    gauge = v.gauge;
    falling = v.falling;
    allocated = v.allocated;
    unshared = v.unshared;
    present = λ k q c. ground (arith, v.present k q c, member-cons (s.heap q).path path s.disk);
    safe = v.safe;
    pending = λ d h. ground (arith, v.pending d h, member-cons d path s.disk);
    apart = v.apart;
  }

  pub with_directory-IsFresh : member path s.disk ≡ false → IsFresh (with_directory path s) path
  with_directory-IsFresh absent = record {
    on_disk = ground (arith, member-cons path path s.disk, same_refl path);
    kept = ground (arith, v.pending path);
    unused = λ k q c e. ground (arith, v.present k q c, ap (λ (t : Text). member t s.disk) e);
  }

  pub reap_in_place-IsValid : (removed : Bool) → IsValid (reap_in_place removed path s)
  unfolding reap_in_place
  reap_in_place-IsValid false = elim (Bool-cases (member path s.doomed)) [
    | inr idle ↦ rw idle v
    | inl due ↦ rw due (record {
      map = v.map;
      bounded = v.bounded;
      gauge = v.gauge;
      falling = v.falling;
      allocated = v.allocated;
      unshared = v.unshared;
      present = v.present;
      safe = λ k q c.
          let mine = (s.heap q).path in
          ground (arith, v.safe k q c, member-without path mine s.doomed);
      pending = λ d h. ground (arith, v.pending d, member-without path d s.doomed);
      apart = v.apart;
    })
  ]
  reap_in_place-IsValid true = elim (Bool-cases (member path s.doomed)) [
    | inr idle ↦ rw idle v
    | inl due ↦ rw due (record {
      map = v.map;
      bounded = v.bounded;
      gauge = v.gauge;
      falling = v.falling;
      allocated = v.allocated;
      unshared = v.unshared;
      present = λ k q c.
          let mine = (s.heap q).path in
          ground (
            arith,
            v.present k q c,
            v.safe k q c,
            member-without path mine s.disk,
            same_iff path mine,
          );
      safe = λ k q c.
          let mine = (s.heap q).path in
          ground (arith, v.safe k q c, member-without path mine s.doomed);
      pending = λ d h.
          ground (arith, v.pending d, member-without path d s.disk, member-without path d s.doomed);
      apart = v.apart;
    })
  ]

pub with_directory-IsFresh_other :
    (path other : Text) (s : Server) → IsFresh s other → IsFresh (with_directory path s) other
with_directory-IsFresh_other path other s f = record {
  on_disk = ground (arith, f.on_disk, member-cons other path s.disk);
  kept = f.kept;
  unused = f.unused;
}

pub reap_in_place-IsFresh :
    (removed : Bool) (path other : Text) (s : Server)
    → IsFresh s other
    → IsFresh (reap_in_place removed path s) other
unfolding reap_in_place
reap_in_place-IsFresh false path other s f = elim (Bool-cases (member path s.doomed)) [
  | inr idle ↦ rw idle f
  | inl due ↦ rw due (record {
    on_disk = f.on_disk;
    kept = ground (arith, f.kept, member-without path other s.doomed);
    unused = f.unused;
  })
]
reap_in_place-IsFresh true path other s f = elim (Bool-cases (member path s.doomed)) [
  | inr idle ↦ rw idle f
  | inl due ↦ rw due (record {
    on_disk =
        ground
          (arith, f.on_disk, f.kept, due, member-without path other s.disk, same_iff path other);
    kept = ground (arith, f.kept, member-without path other s.doomed);
    unused = f.unused;
  })
]

Falling-filter :
    (n seq : ℕ) (l : List (Text × ℕ)) → Falling n l → Falling n (filter (λ e. not (e.1 == seq)) l)
Falling-filter n seq [] h = tt
Falling-filter n seq ((p, k) ∷ l) h =
    ground (arith, Falling-filter k seq l h.1, Falling-mono k n (filter (λ e. not (e.1 == seq)) l))

pub reap_moved-IsValid :
    (removed : Bool) (seq : ℕ) (s : Server) → IsValid s → IsValid (reap_moved removed seq s)
unfolding reap_moved
reap_moved-IsValid removed seq s v = record {
  map = v.map;
  bounded = v.bounded;
  gauge = v.gauge;
  falling = ground (arith, v.falling, Falling-filter (suc s.trash_seq) seq s.trash v.falling);
  allocated = v.allocated;
  unshared = v.unshared;
  present = v.present;
  safe = v.safe;
  pending = v.pending;
  apart = v.apart;
}

pub reap_in_place-roots :
    (removed : Bool) (path : Text) (s : Server) → (reap_in_place removed path s).roots ≡ s.roots
unfolding reap_in_place
reap_in_place-roots removed path s = ground arith

pub reap_in_place-heap :
    (removed : Bool) (path : Text) (s : Server) → (reap_in_place removed path s).heap ≡ s.heap
unfolding reap_in_place
reap_in_place-heap removed path s = ground arith
