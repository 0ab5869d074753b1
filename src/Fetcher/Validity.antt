-- ===== src/Fetcher/Validity.antt =====
-- The invariant of the cache, for each section under the mutex.
pub mod Discarding
pub mod Installing
use bb_action_router.Base.{
  Text, same_iff, lookup, remove, lookup-nil, lookup-put, lookup-remove, length-put_new,
  length-remove_lt, IsMap, put-IsMap, remove-IsMap, length-remove_present, member, member-nil,
  member-cons, member-without, ℕ, suc, ◌-◌, ◌≤◌, ◌<◌, ◌≡◌, sym, subst, ◌≢◌, ◌⊎◌, inl, inr, Bool,
  true, false, none, some, List, [], ◌∷◌, arith, length,
}
use bb_action_router.Fetcher.Pins.{IsNew}
use bb_action_router.Fetcher.Server.{
  Server, touch, lease_root, release, discard, evict_victim, install_root,
}

-- The numbers of the directories moved aside fall along the list, so no two share a name.
abbrev pub Falling : ℕ → List (Text × ℕ) → Type 0
Falling n [] = Unit {0}
Falling n ((p, k) ∷ rest) = (k < n) × Falling k rest

pub Falling-mono : (m n : ℕ) (l : List (Text × ℕ)) → m ≤ n → Falling m l → Falling n l
Falling-mono m n [] h f = tt
Falling-mono m n ((p, k) ∷ rest) h f = (omega arith, f.1)

-- The entries that the map has, as it is read by every section.
abbrev pub Cached : Server → Text → ℕ → Type 0
Cached s ref p = lookup ref s.roots ≡ some p

pub record IsValid (s : Server) : Type 0 where
  pub map : IsMap s.roots
  pub bounded : length s.roots ≤ s.max_roots
  pub gauge : s.roots_gauge ≡ length s.roots
  pub falling : Falling (suc s.trash_seq) s.trash
  pub allocated : (k : Text) (q : ℕ) → Cached s k q → q < s.next_root
  pub unshared : (j k : Text) (q : ℕ) → Cached s j q → Cached s k q → j ≡ k
  pub present : (k : Text) (q : ℕ) → Cached s k q → member (s.heap q).path s.disk ≡ true
  pub safe : (k : Text) (q : ℕ) → Cached s k q → member (s.heap q).path s.doomed ≡ false
  pub pending : (path : Text) → member path s.doomed ≡ true → member path s.disk ≡ true
  pub apart :
      (j k : Text) (p q : ℕ)
      → Cached s j p
      → Cached s k q
      → (s.heap p).path ≡ (s.heap q).path
      → j ≡ k

-- A directory that was materialized and that no cached root has: it may be installed.
pub record IsFresh (s : Server) (path : Text) : Type 0 where
  pub on_disk : member path s.disk ≡ true
  pub kept : member path s.doomed ≡ false
  pub unused : (k : Text) (q : ℕ) → Cached s k q → (s.heap q).path ≢ path

-- Sections that only write leases and times.
pub record OnlyLeases (s u : Server) : Type 0 where
  pub options : u.options ≡ s.options
  pub pinned : u.pinned ≡ s.pinned
  pub roots : u.roots ≡ s.roots
  pub next_root : u.next_root ≡ s.next_root
  pub trash_seq : u.trash_seq ≡ s.trash_seq
  pub disk : u.disk ≡ s.disk
  pub trash : u.trash ≡ s.trash
  pub doomed : u.doomed ≡ s.doomed
  pub gauge : u.roots_gauge ≡ s.roots_gauge
  pub paths : (q : ℕ) → (u.heap q).path ≡ (s.heap q).path

pub lease_root-OnlyLeases : (p token now : ℕ) (s : Server) → OnlyLeases s (lease_root p token now s)
unfolding lease_root touch
lease_root-OnlyLeases p token now s = ground arith

pub release-OnlyLeases : (p token now : ℕ) (s : Server) → OnlyLeases s (release p token now s)
unfolding release
release-OnlyLeases p token now s = ground arith

module _ {s u : Server} (h : OnlyLeases s u) where
  pub OnlyLeases-IsValid : IsValid s → IsValid u
  OnlyLeases-IsValid v = record {
    map = rw h.roots v.map;
    bounded = ground (arith, v.bounded, h.options);
    gauge = ground (arith, v.gauge);
    falling = ground (arith, v.falling);
    allocated = λ k q c. ground (arith, v.allocated k q);
    unshared = λ j k q c d. ground (arith, v.unshared j k q);
    present = λ k q c. ground (arith, v.present k q, h.paths q);
    safe = λ k q c. ground (arith, v.safe k q, h.paths q);
    pending = λ path d. ground (arith, v.pending path);
    apart = λ j k p q c d e. ground (arith, v.apart j k p q, h.paths p, h.paths q);
  }

  pub OnlyLeases-IsFresh : {path : Text} → IsFresh s path → IsFresh u path
  OnlyLeases-IsFresh {path} f = record {
    on_disk = ground (arith, f.on_disk);
    kept = ground (arith, f.kept);
    unused = λ k q c e. ground (arith, f.unused k q, h.paths q);
  }

IsNew-empty : (s : Server) → IsNew s → (k : Text) (q : ℕ) → ¬ Cached s k q
IsNew-empty s n k q c = ground (arith, n.roots, lookup-nil {V = ℕ} k)

-- The empty cache of a new server.
pub IsNew-IsValid : (s : Server) → IsNew s → IsValid s
IsNew-IsValid s n = record {
  map = rw n.roots tt;
  bounded = rw n.roots (omega arith);
  gauge = ground (arith, n.gauge, n.roots);
  falling = rw n.trash tt;
  allocated = λ k q c. absurd (IsNew-empty s n k q c);
  unshared = λ j k q c d. absurd (IsNew-empty s n k q d);
  present = λ k q c. absurd (IsNew-empty s n k q c);
  safe = λ k q c. absurd (IsNew-empty s n k q c);
  pending = λ path d. ground (arith, n.doomed, member-nil path);
  apart = λ j k p q c d e. absurd (IsNew-empty s n k q d);
}
