-- ===== src/Fetcher/Validity/Discarding.antt =====
-- Discarding a root, and evicting one, keeps the invariant of the cache.
use bb_action_router.Base.{
  Text, same_iff, remove, lookup-remove, length-remove_lt, remove-IsMap, length-remove_present,
  member-cons, member-without, ℕ, suc, ◌-◌, ◌≡◌, sym, subst, ◌≢◌, Bool, true, false, ◌∷◌, arith,
}
use bb_action_router.Fetcher.Server.{Server, discard, evict_victim}
use bb_action_router.Fetcher.Validity.{Falling-mono, Cached, IsValid, IsFresh}

-- No cached root has the directory.
abbrev pub IsUnused : Server → Text → Type 0
IsUnused s path = (k : Text) (q : ℕ) → Cached s k q → (s.heap q).path ≢ path

-- Discarding a directory that no cached root has.
pub discard-IsValid :
    (renamed : Bool) (path : Text) (s : Server)
    → IsFresh s path
    → IsValid s
    → IsValid (discard renamed path s)
unfolding discard
discard-IsValid true path s f v = record {
  map = v.map;
  bounded = v.bounded;
  gauge = v.gauge;
  falling = ground (arith, v.falling);
  allocated = v.allocated;
  unshared = v.unshared;
  present = λ k q c. ground (
    arith,
    v.present k q c,
    member-without path (s.heap q).path s.disk,
    same_iff path (s.heap q).path,
    f.unused k q c,
  );
  safe = v.safe;
  pending =
      λ d h. ground (arith, v.pending d, f.kept, member-without path d s.disk, same_iff path d);
  apart = v.apart;
}
discard-IsValid false path s f v = record {
  map = v.map;
  bounded = v.bounded;
  gauge = v.gauge;
  falling = Falling-mono (suc s.trash_seq) _ s.trash (omega arith) v.falling;
  allocated = v.allocated;
  unshared = v.unshared;
  present = v.present;
  safe = λ k q c. ground (
    arith,
    v.safe k q c,
    member-cons (s.heap q).path path s.doomed,
    same_iff path (s.heap q).path,
    f.unused k q c,
  );
  pending =
      λ d h. ground (arith, v.pending d, f.on_disk, member-cons d path s.doomed, same_iff path d);
  apart = v.apart;
}

without_root : Text → ℕ → Server → Server
without_root ref idle s = record s {
  roots = remove ref s.roots;
  roots_gauge = s.roots_gauge - 1;
  eviction_idle = idle ∷ s.eviction_idle;
}

module _ (ref : Text) (p idle : ℕ) (s : Server) (c : Cached s ref p) (v : IsValid s) where
  kept_entry : (k : Text) (q : ℕ) → Cached (without_root ref idle s) k q → Cached s k q × (ref ≢ k)
  unfolding without_root
  kept_entry k q e = ground (arith, lookup-remove ref k s.roots, same_iff ref k)

  without_root-IsValid : IsValid (without_root ref idle s)
  unfolding without_root
  without_root-IsValid = record {
    map = remove-IsMap ref s.roots v.map;
    bounded = omega (arith, v.bounded, length-remove_lt ref p s.roots c);
    gauge = omega (arith, v.gauge, length-remove_present ref p s.roots v.map c);
    falling = v.falling;
    allocated = λ k q e. v.allocated k q (kept_entry k q e).0;
    unshared = λ j k q e f. v.unshared j k q (kept_entry j q e).0 (kept_entry k q f).0;
    present = λ k q e. v.present k q (kept_entry k q e).0;
    safe = λ k q e. v.safe k q (kept_entry k q e).0;
    pending = v.pending;
    apart = λ j k i q e f. v.apart j k i q (kept_entry j i e).0 (kept_entry k q f).0;
  }

  -- The directory of the evicted root is no longer that of a cached root.
  without_root-IsUnused : IsUnused (without_root ref idle s) (s.heap p).path
  without_root-IsUnused k q e same_path =
      let (cached, differs) = kept_entry k q e in
      differs (v.apart ref k p q c cached (sym (unfold without_root in same_path)))

  without_root-IsFresh : IsFresh (without_root ref idle s) (s.heap p).path
  unfolding without_root
  without_root-IsFresh = record {
    on_disk = v.present ref p c;
    kept = v.safe ref p c;
    unused = without_root-IsUnused;
  }

  pub evict_victim-IsValid :
      (renamed : Bool) (now : ℕ)
      → idle ≡ now - (s.heap p).idle_since
      → IsValid (evict_victim renamed now s ref p)
  unfolding evict_victim without_root
  evict_victim-IsValid renamed now e =
      subst (λ i. IsValid (discard renamed (s.heap p).path (without_root ref i s))) e
        (discard-IsValid renamed (s.heap p).path (without_root ref idle s) without_root-IsFresh
          without_root-IsValid)
