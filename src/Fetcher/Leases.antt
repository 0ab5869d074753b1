-- ===== src/Fetcher/Leases.antt =====
-- Which tokens hold which root, after each section that writes leases.
use bb_action_router.Base.{
  Text, holds, holds-nil, holds-cons, holds-release_token, ℕ, ◌≡◌, refl, ◌≢◌, ◌⊎◌, inl, Bool, true,
  false, [], arith,
}
use bb_action_router.Fetcher.Eviction.{Entry}
use bb_action_router.Fetcher.Server.{
  Server, evictable, Result, ok, touch, lease_root, release, discard, evict_victim, install_root,
}
use bb_action_router.Fetcher.Install.{Installs, redundant, superseded, installed, replaced, refused}

-- A token is in the lease set of the root.
abbrev pub Held : Server → ℕ → ℕ → Type 0
Held s t q = holds t (s.heap q).leases ≡ true

-- A root under lease may not be evicted.
pub Held-not_evictable : (s : Server) (t q : ℕ) (k : Text) → Held s t q → evictable s k q ≡ false
unfolding evictable
Held-not_evictable s t q k h = ground (arith, holds-nil t)

module _ (p t now : ℕ) (s : Server) where
  pub lease_root-holds : holds t ((lease_root p t now s).heap p).leases ≡ true
  unfolding lease_root touch
  lease_root-holds = ground (arith, holds-cons t t (s.heap p).leases)

  pub lease_root-kept : (u q : ℕ) → Held s u q → Held (lease_root p t now s) u q
  unfolding lease_root touch
  lease_root-kept u q h = ground (arith, holds-cons u t (s.heap p).leases)

  pub lease_root-origin :
      (u q : ℕ) → Held (lease_root p t now s) u q → Held s u q ⊎ ((u ≡ t) × (q ≡ p))
  unfolding lease_root touch
  lease_root-origin u q h = ground (arith, holds-cons u t (s.heap p).leases)

  pub release-holds : holds t ((release p t now s).heap p).leases ≡ false
  unfolding release
  release-holds = ground (arith, holds-release_token t t (s.heap p).leases)

  pub release-kept : (u q : ℕ) → u ≢ t → Held s u q → Held (release p t now s) u q
  unfolding release
  release-kept u q n h = ground (arith, holds-release_token t u (s.heap p).leases)

  pub release-origin : (u q : ℕ) → Held (release p t now s) u q → Held s u q × ((u ≢ t) ⊎ (q ≢ p))
  unfolding release
  release-origin u q h = ground (arith, holds-release_token t u (s.heap p).leases)

discard-heap : (renamed : Bool) (path : Text) (s : Server) → (discard renamed path s).heap ≡ s.heap
unfolding discard
discard-heap true path s = refl
discard-heap false path s = refl

evict_victim-heap :
    (renamed : Bool) (now : ℕ) (s : Server) (v : Entry)
    → (evict_victim renamed now s v.0 v.1).heap ≡ s.heap
unfolding evict_victim discard
evict_victim-heap true now s v = refl
evict_victim-heap false now s v = refl

module _ (ref : Text) (token now : ℕ) (path : Text) (s : Server) where
  pub install_root-origin :
      (u q : ℕ)
      → Held (install_root ref token path now s) u q
      → Held s u q ⊎ ((u ≡ token) × (q ≡ s.next_root))
  unfolding install_root
  install_root-origin u q h = ground (arith, holds-cons u token [], holds-nil u)

-- After the section behind Materialize, a token that holds a root did so before, or it is that of
-- the leader and the root is the one that the section returns.
pub Installs-origin :
    (renamed : Bool) (ref : Text) (token : ℕ) (path : Text) (now : ℕ) (s : Server)
    (r : Server × Result ℕ) (u q : ℕ)
    → Installs renamed ref token path now s r
    → Held r.0 u q
    → Held s u q ⊎ ((u ≡ token) × (r.1 ≡ ok q))
Installs-origin renamed ref token path now s r u q (redundant p c e eq) h = inl (ground arith)
Installs-origin renamed ref token path now s r u q (superseded p c e eq) h =
    inl (ground (arith, discard-heap renamed path s))
Installs-origin renamed ref token path now s r u q (installed absent room eq) h =
    ground (arith, install_root-origin ref token now path s u q)
Installs-origin renamed ref token path now s r u q (replaced v absent full victim eq) h = ground (
  arith,
  evict_victim-heap renamed now s v,
  install_root-origin ref token now path (evict_victim renamed now s v.0 v.1) u q,
)
Installs-origin renamed ref token path now s r u q (refused absent full idle eq) h =
    inl (ground (arith, discard-heap renamed path s))
