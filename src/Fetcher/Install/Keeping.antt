-- ===== src/Fetcher/Install/Keeping.antt =====
-- What discarding, evicting and installing a root leave alone.
pub mod Outcomes
use bb_action_router.Base.{
  Text, same, same_iff, same_refl, lookup, lookup-put, lookup-remove, length-remove_lt, member-cons,
  member-without, ℕ, ◌<◌, ◌≡◌, refl, ap, ◌≢◌, Bool, true, false, none, arith, if◌then◌else◌, length,
}
use bb_action_router.Fetcher.Eviction.{Entry, IsVictim}
use bb_action_router.Fetcher.Server.{
  Server, Result, ok, evictable, discard, evict_victim, install_root,
}
use bb_action_router.Fetcher.Validity.{Cached, IsValid, IsFresh}
use bb_action_router.Fetcher.Validity.Discarding.{discard-IsValid, evict_victim-IsValid}
use bb_action_router.Fetcher.Validity.Installing.{install_root-IsValid}
use bb_action_router.Fetcher.Install.{Installs, redundant, superseded, installed, replaced, refused}

-- What an operation leaves alone: the cached roots that may not be evicted, and every root's fields.
pub record Keeps (s u : Server) : Type 0 where
  pub options : u.options ≡ s.options
  pub pinned : u.pinned ≡ s.pinned
  pub entries : (k : Text) (q : ℕ) → Cached s k q → evictable s k q ≡ false → Cached u k q
  pub fields : (q : ℕ) → q < s.next_root → u.heap q ≡ s.heap q

Keeps-refl : (s : Server) → Keeps s s
Keeps-refl s = record {
  options = refl;
  pinned = refl;
  entries = λ k q c _. c;
  fields = λ q h. refl;
}

discard-Keeps : (renamed : Bool) (path : Text) (s : Server) → Keeps s (discard renamed path s)
unfolding discard
discard-Keeps true path s = record {
  options = refl;
  pinned = refl;
  entries = λ k q c _. c;
  fields = λ q h. refl;
}
discard-Keeps false path s = record {
  options = refl;
  pinned = refl;
  entries = λ k q c _. c;
  fields = λ q h. refl;
}

evict_victim-Keeps :
    (renamed : Bool) (now : ℕ) (s : Server) (v : Entry)
    → IsVictim s s.roots v
    → Keeps s (evict_victim renamed now s v.0 v.1)
unfolding evict_victim discard
evict_victim-Keeps renamed now s v victim = record {
  options = ground arith;
  pinned = ground arith;
  entries = λ k q c busy. ground (
    arith,
    lookup-remove v.0 k s.roots,
    same_iff v.0 k,
    victim.entry,
    victim.idle,
    ap (λ i. lookup i s.roots) {x = v.0} {y = k},
  );
  fields = λ q h. ground arith;
}

install_root-Keeps :
    (ref : Text) (token now : ℕ) (path : Text) (s : Server)
    → lookup ref s.roots ≡ none
    → Keeps s (install_root ref token path now s)
unfolding install_root
install_root-Keeps ref token now path s absent = record {
  options = refl;
  pinned = refl;
  entries = λ k q c busy. ground (
    arith,
    lookup-put ref k s.next_root s.roots,
    same_iff ref k,
    ap (λ i. lookup i s.roots) {x = ref} {y = k},
  );
  fields = λ q h. ground arith;
}

evict_victim-next_root :
    (renamed : Bool) (now : ℕ) (s : Server) (v : Entry)
    → (evict_victim renamed now s v.0 v.1).next_root ≡ s.next_root
unfolding evict_victim discard
evict_victim-next_root renamed now s v = ground arith

pub evict_victim-lookup :
    (renamed : Bool) (now : ℕ) (s : Server) (v : Entry) (k : Text)
    → lookup k (evict_victim renamed now s v.0 v.1).roots
      ≡ (if same v.0 k then none else lookup k s.roots)
unfolding evict_victim discard
evict_victim-lookup renamed now s v k = ground (arith, lookup-remove v.0 k s.roots)

pub evict_victim-absent :
    (renamed : Bool) (now : ℕ) (s : Server) (v : Entry) (k : Text)
    → lookup k s.roots ≡ none
    → lookup k (evict_victim renamed now s v.0 v.1).roots ≡ none
evict_victim-absent renamed now s v k absent = ground (arith, evict_victim-lookup renamed now s v k)

evict_victim-room :
    (renamed : Bool) (now : ℕ) (s : Server) (v : Entry)
    → IsVictim s s.roots v
    → IsValid s
    → let t = evict_victim renamed now s v.0 v.1 in length t.roots < t.max_roots
unfolding evict_victim discard
evict_victim-room renamed now s v victim valid =
    ground (arith, length-remove_lt v.0 v.1 s.roots victim.entry, valid.bounded)

Keeps-trans :
    (s t u : Server) → IsValid s → t.next_root ≡ s.next_root → Keeps s t → Keeps t u → Keeps s u
unfolding evictable
Keeps-trans s t u valid n a b = record {
  options = ground (arith, a.options, b.options);
  pinned = ground (arith, a.pinned, b.pinned);
  entries = λ k q c busy.
      b.entries k q (a.entries k q c busy)
        (ground (arith, a.fields q (valid.allocated k q c), a.pinned));
  fields = λ q h. ground (arith, a.fields q h, b.fields q (ground arith));
}

discard-IsFresh :
    (renamed : Bool) (gone path : Text) (s : Server)
    → gone ≢ path
    → IsFresh s path
    → IsFresh (discard renamed gone s) path
unfolding discard
discard-IsFresh renamed gone path s differs f = record {
  on_disk = ground (arith, f.on_disk, member-without gone path s.disk, same_iff gone path);
  kept = ground (arith, f.kept, member-cons path gone s.doomed, same_iff gone path);
  unused = λ k q c e. ground (arith, f.unused k q);
}

evict_victim-IsFresh :
    (renamed : Bool) (now : ℕ) (s : Server) (v : Entry) (path : Text)
    → IsVictim s s.roots v
    → IsFresh s path
    → IsFresh (evict_victim renamed now s v.0 v.1) path
unfolding evict_victim discard
evict_victim-IsFresh renamed now s v path victim f =
    let other = f.unused v.0 v.1 victim.entry in
    let gone = (s.heap v.1).path in
    record {
      on_disk =
          ground (arith, other, f.on_disk, member-without gone path s.disk, same_iff gone path);
      kept = ground (arith, other, f.kept, member-cons path gone s.doomed, same_iff gone path);
      unused = λ k q c e. ground (arith, f.unused k q, lookup-remove v.0 k s.roots);
    }

install_root-IsFresh :
    (ref : Text) (token now : ℕ) (mine path : Text) (s : Server)
    → mine ≢ path
    → IsValid s
    → IsFresh s path
    → IsFresh (install_root ref token mine now s) path
unfolding install_root
install_root-IsFresh ref token now mine path s differs valid f = record {
  on_disk = f.on_disk;
  kept = f.kept;
  unused = λ k q c e.
      ground (arith, f.unused k q, lookup-put ref k s.next_root s.roots, valid.allocated k q);
}
