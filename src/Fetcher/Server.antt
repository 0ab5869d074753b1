-- ===== src/Fetcher/Server.antt =====
-- The server's state, and the sections that run with its mutex held. A root is named by the
-- address of its MaterializedRoot, so that a map entry and a stale pointer can be told apart.
use bb_action_router.Base.{
  ℕ, suc, ◌+◌, ◌-◌, Bool, true, false, not, ◌&&◌, ◌||◌, Option, none, some, List, [], ◌∷◌, Text,
  same, text_lt, lookup, put, remove, member, without, holds, release_token, length, filter, ltb,
  leb, ◌==◌, if◌then◌else◌,
}
use bb_action_router.Fetcher.Options.{Options, with_defaults, pin_all, too_many_pins}

pub record Root : Type 0 where
  pub path : Text
  pub leases : List ℕ
  pub virtual_last_use : ℕ
  pub idle_since : ℕ

pub record Server : Type 0 where
  pub options : Options
  pub open options use *
  pub pinned : List Text
  pub roots : List (Text × ℕ)
  pub heap : ℕ → Root
  pub next_root : ℕ
  pub trash_seq : ℕ
  -- The directories under the roots directory that carry the name of an image.
  pub disk : List Text
  -- Directories moved aside, named by their path and a sequence number, which reaper goroutines
  -- delete if they can; and directories left in place because the rename failed, which reapers still
  -- have to delete.
  pub trash : List (Text × ℕ)
  pub doomed : List Text
  -- The instruments of metrics.go that the server drives.
  pub roots_gauge : ℕ
  pub eviction_idle : List ℕ

pub data Failure : Type 0 where
  slots_in_use evicted_early materialize_failed too_many_pinned : Failure

pub data Result {ℓ} (A : Type ℓ) : Type ℓ where
  ok : A → Result A
  err : Failure → Result A

abbrev pub set_root : (ℕ → Root) → ℕ → Root → ℕ → Root
set_root heap p r q = if p == q then r else heap q

abbrev pub blank_root : Root
blank_root = record { path = []; leases = []; virtual_last_use = 0; idle_since = 0 }

unfoldable pub new_server : Options → Result Server
unfolding with_defaults pin_all too_many_pins
new_server given =
    let options = with_defaults given in
    let pinned = pin_all options.prefetch_images in
    if too_many_pins options pinned
    then err too_many_pinned
    else ok (record {
      options = options;
      pinned = pinned;
      roots = [];
      heap = λ _. blank_root;
      next_root = 0;
      trash_seq = 0;
      disk = [];
      trash = [];
      doomed = [];
      roots_gauge = 0;
      eviction_idle = [];
    })

-- touchLocked
unfoldable pub touch : Options → ℕ → Root → Root
touch o now root =
    let base = if ltb root.virtual_last_use now then now else root.virtual_last_use in
    let pushed = base + o.use_boost in
    let ceiling = now + o.max_use_boost in
    record root { virtual_last_use = if ltb ceiling pushed then ceiling else pushed }

abbrev pub add_token : ℕ → List ℕ → List ℕ
add_token token leases = if holds token leases then leases else token ∷ leases

-- root.leases[token] = struct{}{}; s.touchLocked(root)
unfoldable pub lease_root : ℕ → ℕ → ℕ → Server → Server
unfolding touch
lease_root p token now s =
    let root = s.heap p in
    let leased = record root { leases = add_token token root.leases } in
    record s { heap = set_root s.heap p (touch s.options now leased) }

unfoldable pub acquire_cached_root : Text → ℕ → ℕ → Server → Server × Option ℕ
unfolding lease_root
acquire_cached_root ref token now s = elim (lookup ref s.roots) [
  | none ↦ (s, none)
  | some p ↦ (lease_root p token now s, some p)
]

abbrev pub points_to : Option ℕ → ℕ → Bool
points_to none p = false
points_to (some q) p = q == p

unfoldable pub attach_lease : Text → ℕ → ℕ → ℕ → Server → Server × Bool
unfolding lease_root
attach_lease ref p token now s =
    if points_to (lookup ref s.roots) p then (lease_root p token now s, true) else (s, false)

abbrev pub is_nil {ℓ} : {A : Type ℓ} → List A → Bool
is_nil [] = true
is_nil (x ∷ xs) = false

-- The body of the func that releaseFunc returns.
unfoldable pub release : ℕ → ℕ → ℕ → Server → Server
release p token now s =
    let root = s.heap p in
    let left = release_token token root.leases in
    let idle = if is_nil left then now else root.idle_since in
    if holds token root.leases
    then record s { heap = set_root s.heap p (record root { leases = left; idle_since = idle }) }
    else s

-- discardLocked; `renamed` says whether os.Rename succeeds.
unfoldable pub discard : Bool → Text → Server → Server
discard renamed path s =
    let seq = suc s.trash_seq in
    if renamed
    then record s { trash_seq = seq; disk = without path s.disk; trash = (path, seq) ∷ s.trash }
    else record s { trash_seq = seq; doomed = path ∷ s.doomed }

-- A root that is neither leased nor pinned.
unfoldable pub evictable : Server → Text → ℕ → Bool
evictable s ref p = is_nil (s.heap p).leases && not (member ref s.pinned)

-- Whether an entry takes the place of the victim found so far.
unfoldable pub is_better : Server → Text → ℕ → Option (Text × ℕ) → Bool
is_better s ref p none = true
is_better s ref p (some (victim_ref, victim)) =
    let mine = (s.heap p).virtual_last_use in
    let best = (s.heap victim).virtual_last_use in
    ltb mine best || mine == best && text_lt ref victim_ref

-- The loop of evictOneIdleLocked over the entries, in the order in which `range` visits them.
unfoldable pub pick_victim : Server → List (Text × ℕ) → Option (Text × ℕ) → Option (Text × ℕ)
pick_victim s [] best = best
pick_victim s ((ref, p) ∷ entries) best =
    pick_victim s entries
      (if evictable s ref p && is_better s ref p best then some (ref, p) else best)

unfoldable pub evict_victim : Bool → ℕ → Server → Text → ℕ → Server
evict_victim renamed now s ref p =
    let root = s.heap p in
    discard renamed root.path (record s {
      roots = remove ref s.roots;
      roots_gauge = s.roots_gauge - 1;
      eviction_idle = (now - root.idle_since) ∷ s.eviction_idle;
    })

unfoldable pub evict_one_idle : Bool → ℕ → Server → Server × Bool
evict_one_idle renamed now s = elim (pick_victim s s.roots none) [
  | none ↦ (s, false)
  | some (ref, p) ↦ (evict_victim renamed now s ref p, true)
]

unfoldable pub install_root : Text → ℕ → Text → ℕ → Server → Server
install_root ref token path now s =
    let root : Root = record {
      path = path;
      leases = token ∷ [];
      virtual_last_use = now;
      idle_since = now;
    } in
    record s {
      roots = put ref s.next_root s.roots;
      heap = set_root s.heap s.next_root root;
      next_root = suc s.next_root;
      roots_gauge = s.roots_gauge + 1;
    }

abbrev pub after_eviction : Bool → Text → ℕ → Text → ℕ → Server × Bool → Server × Result ℕ
after_eviction renamed ref token path now (s, true) =
    (install_root ref token path now s, ok s.next_root)
after_eviction renamed ref token path now (s, false) = (discard renamed path s, err slots_in_use)

-- The section of fetchRefSingle that follows a successful Materialize.
unfoldable pub install_fetched : Bool → Text → ℕ → Text → ℕ → Server → Server × Result ℕ
install_fetched renamed ref token path now s = elim (lookup ref s.roots) [
  | some p ↦ (if same (s.heap p).path path then s else discard renamed path s, ok p)
  | none ↦
      let evicted = evict_one_idle renamed now s in
      if leb s.max_roots (length s.roots)
      then after_eviction renamed ref token path now evicted
      else (install_root ref token path now s, ok s.next_root)
]

-- The reaper of the directory that was moved aside under this number ends: os.RemoveAll has deleted
-- it, or has failed, which is only logged.
unfoldable pub reap_moved : Bool → ℕ → Server → Server
reap_moved removed seq s = record s {
  trash = if removed then filter (λ e. not (e.1 == seq)) s.trash else s.trash;
}

-- The reaper of a directory that could not be renamed ends, likewise.
unfoldable pub reap_in_place : Bool → Text → Server → Server
reap_in_place removed path s =
    if member path s.doomed
    then record s {
      disk = if removed then without path s.disk else s.disk;
      doomed = without path s.doomed;
    }
    else s

-- RootCount and LeaseCount, the latter without the test's -1 for an unknown image.
unfoldable pub root_count : Server → ℕ
root_count s = length s.roots

unfoldable pub lease_count : Text → Server → Option ℕ
lease_count ref s = elim (lookup ref s.roots) [
  | none ↦ none
  | some p ↦ some (length (s.heap p).leases)
]
