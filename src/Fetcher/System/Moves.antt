-- ===== src/Fetcher/System/Moves.antt =====
-- Each kind of step, against the frame rule.
use mathlib.Core.Path.{subst₂}
use bb_action_router.Base.{
  Text, member, holds, ℕ, ◌≡◌, refl, sym, ap, subst, ◌≢◌, inl, inr, Bool, true, false, arith,
}
use bb_action_router.Fetcher.Server.{Result, ok, err, lease_root, release, install_fetched}
use bb_action_router.Fetcher.Validity.{
  Cached, IsFresh, OnlyLeases-IsValid, OnlyLeases-IsFresh, lease_root-OnlyLeases,
  release-OnlyLeases,
}
use bb_action_router.Fetcher.Directories.{
  with_directory, with_directory-IsValid, with_directory-IsFresh, with_directory-IsFresh_other,
}
use bb_action_router.Fetcher.Install.{install_fetched-Installs}
use bb_action_router.Fetcher.Install.Keeping.Outcomes.{
  Installs-Keeps, Installs-IsValid, Installs-IsFresh, Installs-Cached,
}
use bb_action_router.Fetcher.Leases.{
  Held, Held-not_evictable, lease_root-holds, lease_root-kept, lease_root-origin, release-kept,
  release-origin, Installs-origin,
}
use bb_action_router.Fetcher.System.{
  Phase, materialized, fetched, leased, released, System, after_install,
}
use bb_action_router.Fetcher.System.Invariant.{Owner, Inv, Moves}

same_directory : (j k path mine : Text) → materialized j path ≡ materialized k mine → path ≡ mine
same_directory j k path mine e = ground arith

same_lease : (j k : Text) (p q : ℕ) → leased j p ≡ leased k q → (j ≡ k) × (p ≡ q)
same_lease j k p q e = ground arith

never_leased : (ref k : Text) (q : ℕ) (r : Result ℕ) → after_install ref r ≢ leased k q
never_leased ref k q (ok p) e = cc
never_leased ref k q (err f) e = cc

fetched_from :
    (ref k : Text) (q : ℕ) (r : Result ℕ)
    → after_install ref r ≡ fetched k q
    → (ref ≡ k) × (r ≡ ok q)
fetched_from ref k q (ok p) e = ground arith
fetched_from ref k q (err f) e = cc

never_materialized : (ref k path : Text) (r : Result ℕ) → after_install ref r ≢ materialized k path
never_materialized ref k path (ok p) e = cc
never_materialized ref k path (err f) e = cc

module _ (s : System) (inv : Inv s) (t : ℕ) where
  -- The call holds nothing in its phase, so it holds no root.
  pub holds_nothing :
      (x : Phase) → s.phase t ≡ x → ((q : ℕ) → ¬ Owner x q) → (q : ℕ) → ¬ Held s.server t q
  holds_nothing x e none_owned q h = none_owned q (subst (λ y. Owner y q) e (inv.owned t q h))

  -- A move that leaves the server alone, to a phase that stands for nothing.
  pub quiet-Moves :
      (x : Phase)
      → ((q : ℕ) → Held s.server t q → Owner x q)
      → ((ref : Text) (p : ℕ) → x ≢ leased ref p)
      → ((ref path : Text) → x ≢ materialized ref path)
      → ((ref : Text) (p : ℕ) → x ≡ fetched ref p → Held s.server t p → Cached s.server ref p)
      → Moves s t x s.server
  quiet-Moves x roots not_leased not_materialized lead = record {
    valid = inv.valid;
    held = λ a k q other c h. (c, h);
    owned = λ a q other h. h;
    fresh = λ a ref path other e. inv.fresh a ref path e;
    my_lease = λ ref p e. absurd (not_leased ref p e);
    my_roots = roots;
    my_fetch = lead;
    my_directory = λ ref path e. absurd (not_materialized ref path e);
    my_name = λ a ref ref' path e _. not_materialized ref path e;
  }

  -- The call takes a lease on a cached root.
  pub lease-Moves :
      (ref : Text) (p now : ℕ)
      → Cached s.server ref p
      → ((q : ℕ) → Held s.server t q → p ≡ q)
      → Moves s t (leased ref p) (lease_root p t now s.server)
  lease-Moves ref p now c mine =
      let only = lease_root-OnlyLeases p t now s.server in
      record {
        valid = OnlyLeases-IsValid only inv.valid;
        held = λ a k q other d h. (rw (only.roots) d, lease_root-kept p t now s.server a q h);
        owned = λ a q other h. ground (arith, lease_root-origin p t now s.server a q h);
        fresh = λ a k path other e. OnlyLeases-IsFresh only (inv.fresh a k path e);
        my_lease = λ k q e.
            let (ref_eq, p_eq) = same_lease ref k p q e in
            subst₂
              (λ j i.
                Cached (lease_root p t now s.server) j i × Held (lease_root p t now s.server) t i)
              ref_eq p_eq (rw (only.roots) c, lease_root-holds p t now s.server);
        my_roots = λ q h. ground (arith, lease_root-origin p t now s.server t q h, mine q);
        my_fetch = λ k q e _. cc;
        my_directory = λ k path e. cc;
        my_name = λ a k k' path e _. cc;
      }

  pub release-Moves :
      (ref : Text) (p now : ℕ)
      → ((q : ℕ) → Held s.server t q → p ≡ q)
      → Moves s t (released ref p) (release p t now s.server)
  release-Moves ref p now mine =
      let only = release-OnlyLeases p t now s.server in
      record {
        valid = OnlyLeases-IsValid only inv.valid;
        held = λ a k q other d h. (rw (only.roots) d, release-kept p t now s.server a q other h);
        owned = λ a q other h. (release-origin p t now s.server a q h).0;
        fresh = λ a k path other e. OnlyLeases-IsFresh only (inv.fresh a k path e);
        my_lease = λ k q e. cc;
        my_roots = λ q h. ground (arith, release-origin p t now s.server t q h, mine q);
        my_fetch = λ k q e _. cc;
        my_directory = λ k path e. cc;
        my_name = λ a k k' path e _. cc;
      }

  -- A call fails and leaves a new directory.
  pub materialize-Moves :
      (ref path : Text)
      → ((q : ℕ) → ¬ Held s.server t q)
      → member path s.disk ≡ false
      → Moves s t (materialized ref path) (with_directory path s.server)
  materialize-Moves ref path nothing absent = record {
    valid = with_directory-IsValid path s.server inv.valid;
    held = λ a k q other c h. (c, h);
    owned = λ a q other h. h;
    fresh = λ a k other_path other e.
        with_directory-IsFresh_other path other_path s.server (inv.fresh a k other_path e);
    my_lease = λ k p e. cc;
    my_roots = λ q h. nothing q h;
    my_fetch = λ k q e _. cc;
    my_directory = λ k mine e.
        subst (IsFresh (with_directory path s.server)) (ground arith)
          (with_directory-IsFresh path s.server inv.valid absent);
    my_name = λ a k k' mine e e'.
        let found = (inv.fresh a k' mine e').on_disk in
        cc (absent, found, ap (λ (d : Text). member d s.disk) (same_directory ref k path mine e));
  }

  pub install-Moves :
      (ref path : Text) (renamed : Bool) (now : ℕ)
      → s.phase t ≡ materialized ref path
      → ((q : ℕ) → ¬ Held s.server t q)
      → let r = install_fetched renamed ref t path now s.server in
        Moves s t (after_install ref r.1) r.0
  install-Moves ref path renamed now e nothing =
      let r = install_fetched renamed ref t path now s.server in
      let done = install_fetched-Installs renamed ref t path now s.server inv.valid.map in
      let mine = inv.fresh t ref path e in
      let keeps = Installs-Keeps renamed ref t path now s.server r inv.valid done in
      record {
        valid = Installs-IsValid renamed ref t path now s.server r inv.valid mine done;
        held = λ a k q other c h. (
          keeps.entries k q c (Held-not_evictable s.server a q k h),
          subst (λ root. holds a root.leases ≡ true)
              (sym (keeps.fields q (inv.valid.allocated k q c))) h,
        );
        owned = λ a q other h.
            ground (arith, Installs-origin renamed ref t path now s.server r a q done h);
        fresh = λ a k d other ea.
            Installs-IsFresh renamed ref t path now s.server d r
              (λ eq.
                other (
                  sym (inv.lone t a ref k d (subst (λ x. s.phase t ≡ materialized ref x) eq e) ea)))
              inv.valid (inv.fresh a k d ea) done;
        my_lease = λ k q el. absurd (never_leased ref k q r.1 el);
        my_roots = λ q h. elim (Installs-origin renamed ref t path now s.server r t q done h) [
          | inl old ↦ absurd (nothing q old)
          | inr (_, eq) ↦ subst (λ y. Owner (after_install ref y) q) (sym eq) refl
        ];
        my_fetch = λ k q el _.
            let (ref_eq, got) = fetched_from ref k q r.1 el in
            subst (λ j. Cached r.0 j q) ref_eq
              (Installs-Cached renamed ref t path now s.server r q done got);
        my_directory = λ k d el. absurd (never_materialized ref k d r.1 el);
        my_name = λ a k k' d el _. never_materialized ref k d r.1 el;
      }
