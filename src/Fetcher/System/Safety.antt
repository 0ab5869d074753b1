-- ===== src/Fetcher/System/Safety.antt =====
-- What callers may rely on in every state that interleaved calls can reach on a new server.
use bb_action_router.Base.{
  Text, lookup, member, holds, holds-cons, ℕ, ◌≤◌, ◌≡◌, refl, ap, subst, ◌≢◌, ◌↔◌, ◌⊎◌, inl, inr,
  Bool, true, false, none, some, List, [], ◌∷◌, arith, Bool-cases, length,
}
use bb_action_router.Fetcher.Eviction.{NoneIdle}
use bb_action_router.Fetcher.Options.{Options}
use bb_action_router.Fetcher.Server.{
  Server, Result, ok, err, slots_in_use, new_server, release, install_fetched, root_count,
}
use bb_action_router.Fetcher.Install.{
  Installs, redundant, superseded, installed, replaced, refused, install_fetched-Installs,
}
use bb_action_router.Fetcher.System.{Phase, fetched, leased, released, System, Reach, init}
use bb_action_router.Fetcher.System.Invariant.{Owner}
use bb_action_router.Fetcher.System.Steps.{Reach-Inv}

no_holder : (leases : List ℕ) → ((t : ℕ) → holds t leases ≢ true) → leases ≡ []
no_holder [] h = refl
no_holder (t ∷ ts) h = absurd (h t (ground (arith, holds-cons t t ts)))

unowned :
    (x : Phase) (p : ℕ)
    → Owner x p
    → ((ref : Text) → x ≢ leased ref p)
    → ((ref : Text) → x ≢ fetched ref p)
    → ⊥
unowned (leased ref q) p o not_leased not_fetched = not_leased ref (ap (leased ref) o)
unowned (fetched ref q) p o not_leased not_fetched = not_fetched ref (ap (fetched ref) o)
unowned _ p o not_leased not_fetched = o

module _ (renamed : Bool) (ref : Text) (t : ℕ) (path : Text) (now : ℕ) (s : Server) where
  abbrev Full : Type 0
  Full = (lookup ref s.roots ≡ none) × (s.max_roots ≤ length s.roots) × NoneIdle s s.roots

  refused_full :
      (f : Server × Result ℕ) → Installs renamed ref t path now s f → f.1 ≡ err slots_in_use → Full
  refused_full f (redundant p c d eq) e = cc (eq, e)
  refused_full f (superseded p c d eq) e = cc (eq, e)
  refused_full f (installed absent room eq) e = cc (eq, e)
  refused_full f (replaced v absent full victim eq) e = cc (eq, e)
  refused_full f (refused absent full none_idle eq) e = (absent, full, none_idle)

  full_refused :
      (f : Server × Result ℕ) → Installs renamed ref t path now s f → Full → f.1 ≡ err slots_in_use
  full_refused f (redundant p c d eq) (absent, full, none_idle) = cc (c, absent)
  full_refused f (superseded p c d eq) (absent, full, none_idle) = cc (c, absent)
  full_refused f (installed absent room eq) (_, full, none_idle) = absurd (omega arith)
  full_refused f (replaced v absent _ victim eq) (_, full, none_idle) =
      cc (victim.idle, none_idle v.0 v.1 victim.entry)
  full_refused f (refused absent full none_idle eq) _ = ap (λ g. g.1) eq

module _ (o : Options) {server : Server} {s : System} (made : new_server o ≡ ok server)
    (r : Reach (init server) s) where
  -- While a call holds a lease, the root that it was given is still the cached root of its image,
  -- the directory that it was told of is on disk, and no reaper is about to delete it.
  pub leased_root_stays :
      (t : ℕ) (ref : Text) (p : ℕ)
      → s.phase t ≡ leased ref p
      → (lookup ref s.server.roots ≡ some p)
        × (member (s.server.heap p).path s.server.disk ≡ true)
        × (member (s.server.heap p).path s.server.doomed ≡ false)
  leased_root_stays t ref p e =
      let inv = Reach-Inv o made r in
      let c = (inv.held t ref p e).0 in (c, inv.valid.present ref p c, inv.valid.safe ref p c)

  -- The cache never holds more roots than there are slots, and the gauge counts them.
  pub root_count_bounded :
      (root_count s.server ≤ s.server.max_roots) × (s.server.roots_gauge ≡ root_count s.server)
  unfolding root_count
  root_count_bounded = let inv = Reach-Inv o made r in (inv.valid.bounded, inv.valid.gauge)

  -- Two images never have the same directory or the same root.
  pub roots_apart :
      (j k : Text) (p q : ℕ)
      → lookup j s.server.roots ≡ some p
      → lookup k s.server.roots ≡ some q
      → ((s.server.heap p).path ≡ (s.server.heap q).path) ⊎ (p ≡ q)
      → j ≡ k
  roots_apart j k p q c d (inl e) = (Reach-Inv o made r).valid.apart j k p q c d e
  roots_apart j k p q c d (inr e) =
      (Reach-Inv o made r).valid.unshared j k q (subst (λ i. lookup j s.server.roots ≡ some i) e c)
        d

  -- No lease outlives its call: a root that no call has leased, and that no fetch has just
  -- returned to a call, has an empty lease set.
  pub no_leaked_lease :
      (p : ℕ)
      → ((t : ℕ) (ref : Text) → s.phase t ≢ leased ref p)
      → ((t : ℕ) (ref : Text) → s.phase t ≢ fetched ref p)
      → (s.server.heap p).leases ≡ []
  no_leaked_lease p not_leased not_fetched =
      no_holder (s.server.heap p).leases λ t h.
        unowned (s.phase t) p ((Reach-Inv o made r).owned t p h) (not_leased t) (not_fetched t)

  -- A call that has no lease, and none just fetched for it, is in no lease set.
  pub no_lease_left :
      (t : ℕ)
      → ((ref : Text) (p : ℕ) → (s.phase t ≢ leased ref p) × (s.phase t ≢ fetched ref p))
      → (p : ℕ) → holds t (s.server.heap p).leases ≡ false
  no_lease_left t quiet p = elim (Bool-cases (holds t (s.server.heap p).leases)) [
    | inr free ↦ free
    | inl h ↦ absurd (
        unowned (s.phase t) p ((Reach-Inv o made r).owned t p h) (λ ref. (quiet ref p).0)
          (λ ref. (quiet ref p).1))
  ]

  -- Once released, calling the release func again changes nothing at all.
  pub release_again :
      (t : ℕ) (ref : Text) (p now : ℕ)
      → s.phase t ≡ released ref p
      → release p t now s.server ≡ s.server
  unfolding release
  release_again t ref p now e = elim (Bool-cases (holds t (s.server.heap p).leases)) [
    | inr free ↦ rw free
    | inl h ↦ absurd (subst (λ y. Owner y p) e ((Reach-Inv o made r).owned t p h))
  ]

  -- A fetch is refused for want of a slot exactly if the image is not cached, every slot is taken,
  -- and every cached root is under lease or pinned.
  pub refused_iff_full :
      (renamed : Bool) (ref : Text) (t : ℕ) (path : Text) (now : ℕ)
      → ((install_fetched renamed ref t path now s.server).1 ≡ err slots_in_use) ↔ (
          (lookup ref s.server.roots ≡ none)
          × (s.server.max_roots ≤ root_count s.server)
          × NoneIdle s.server s.server.roots)
  unfolding root_count
  refused_iff_full renamed ref t path now =
      let fetch = install_fetched renamed ref t path now s.server in
      let done =
        install_fetched-Installs renamed ref t path now s.server (Reach-Inv o made r).valid.map in
      (
        refused_full renamed ref t path now s.server fetch done,
        full_refused renamed ref t path now s.server fetch done,
      )
