-- ===== src/Fetcher/System/Alone.antt =====
-- Acquire of pkg/fetcher/server.go when no other call comes between its steps: a call is driven by
-- its phase. What Materialize returns, and the directories that it leaves, is a parameter.
use bb_action_router.Base.{
  Text, lookup, member, ℕ, zero, suc, ◌+◌, ◌-◌, ◌<◌, ◌≡◌, refl, sym, ap, subst, ◌∙◌, inl, inr, Bool,
  true, false, Option, none, some, List, ◌∷◌, arith, Option-cases,
}
use bb_action_router.Status.{Error, Result, ok, err}
use bb_action_router.Fetcher.Server.{
  Server, lease_root, acquire_cached_root, attach_lease, release, install_fetched,
}
use bb_action_router.Fetcher.System.{
  Phase, idle, waiting, fetching, materialized, fetched, leased, released, failed, System,
  set_phase, after_install, add_flight, after_attach, Step, Reach, here, next, hit, miss,
  begin_fetch, materialize_fails, materialize_leaves, install, attach,
}

pub Reach-trans : {s t u : System} → Reach s t → Reach t u → Reach s u
Reach-trans r here = r
Reach-trans r (next q step) = next (Reach-trans r q) step

lookup-options :
    (ref : Text) (t now : ℕ) (s : Server) → (acquire_cached_root ref t now s).0.options ≡ s.options
unfolding acquire_cached_root lease_root
lookup-options ref t now s = elim (Option-cases (lookup ref s.roots)) [
  | inl e ↦ rw (e, acquire_cached_root) refl
  | inr (p, e) ↦ rw (e, acquire_cached_root) refl
]

-- Directories that there were, and new ones.
pub data Grown (disk : List Text) : List Text → Type 0 where
  as_before : Grown disk disk
  and_new :
      (left : List Text) (path : Text)
      → Grown disk left
      → member path left ≡ false
      → Grown disk (path ∷ left)

abbrev pub with_disk : List Text → System → System
with_disk left s = record s { server = record s.server { disk = left } }

-- A call of Materialize leaves directories behind.
pub Grown-Reach :
    (s : System) (t : ℕ) (ref : Text) {left : List Text}
    → s.phase t ≡ fetching ref
    → Grown s.disk left
    → Reach s (with_disk left s)
Grown-Reach s t ref e as_before = here
Grown-Reach s t ref e (and_new left path g absent) =
    next (Grown-Reach s t ref e g) (materialize_leaves (with_disk left s) t ref path e absent)

module _ (make : Text → List Text → Result Text × List Text) (t now : ℕ) (renamed : Bool) where
  unfoldable pub looked_up : Text → Server × Option ℕ → System → System
  looked_up ref (server, some p) s = record s {
    server = server;
    phase = set_phase s.phase t (leased ref p);
  }
  looked_up ref (server, none) s = record s {
    server = server;
    phase = set_phase s.phase t (waiting ref);
  }

  unfoldable pub made : Text → Result Text × List Text → System → System
  made ref (ok path, disk) s = record s {
    server = record s.server { disk = disk };
    phase = set_phase s.phase t (materialized ref path);
  }
  made ref (err e, disk) s = record s {
    server = record s.server { disk = disk };
    phase = set_phase s.phase t failed;
    in_fetch = s.in_fetch - 1;
  }

  -- From one phase to the next; a call that has ended stays as it is.
  unfoldable pub advance : Phase → System → System
  advance (waiting ref) s = record s {
    phase = set_phase s.phase t (fetching ref);
    in_fetch = s.in_fetch + 1;
  }
  advance (fetching ref) s = made ref (make ref s.disk) s
  advance (materialized ref path) s = record s {
    server = (install_fetched renamed ref t path now s.server).0;
    phase =
        set_phase s.phase t (after_install ref (install_fetched renamed ref t path now s.server).1);
    in_fetch = s.in_fetch - 1;
    flights = add_flight ref (install_fetched renamed ref t path now s.server).1 s.flights;
  }
  advance (fetched ref p) s = record s {
    server = (attach_lease ref p t now s.server).0;
    phase = set_phase s.phase t (after_attach ref p (attach_lease ref p t now s.server).1);
  }
  advance idle s = s
  advance (leased ref p) s = s
  advance (released ref p) s = s
  advance failed s = s

  unfoldable pub begin_call : Text → System → System
  begin_call ref s = looked_up ref (acquire_cached_root ref t now s.server) s

  unfoldable pub advance_all : ℕ → System → System
  advance_all zero s = s
  advance_all (suc n) s = advance_all n (advance (s.phase t) s)

  unfoldable pub let_go_call : Text → ℕ → System → System
  let_go_call ref p s = record s {
    server = release p t now s.server;
    phase = set_phase s.phase t (released ref p);
  }

  -- The path of a leased root, and its release func.
  unfoldable pub outcome : Phase → System → Error → Result (Text × (System → System))
  outcome (leased ref p) s e = ok ((s.heap p).path, let_go_call ref p)
  outcome _ s e = err e

  -- Four phases follow the first look into the cache.
  unfoldable pub acquire_alone : Error → Text → System → Result (Text × (System → System)) × System
  acquire_alone e ref s =
      let ended = advance_all 4 (begin_call ref s) in (outcome (ended.phase t) ended e, ended)

  pub phase_set : (f : ℕ → Phase) (x : Phase) → set_phase f t x t ≡ x
  phase_set f x = ground arith

  -- A call that has ended, or that does so in this many steps.
  pub data Going : ℕ → Phase → Type 0 where
    at_leased : (n : ℕ) (ref : Text) (p : ℕ) → Going n (leased ref p)
    at_failed : (n : ℕ) → Going n failed
    at_fetched : (n : ℕ) (ref : Text) (p : ℕ) → Going (suc n) (fetched ref p)
    at_materialized : (n : ℕ) (ref path : Text) → Going (suc (suc n)) (materialized ref path)
    at_fetching : (n : ℕ) (ref : Text) → Going (suc (suc (suc n))) (fetching ref)
    at_waiting : (n : ℕ) (ref : Text) → Going (suc (suc (suc (suc n)))) (waiting ref)

  -- Materialize makes a directory at a path that is free, and may leave others behind.
  abbrev pub Makes : List Text → Result Text × List Text → Type 0
  Makes disk (ok path, left) =
      (rest : List Text) × Grown disk rest × (member path rest ≡ false) × (left ≡ path ∷ rest)
  Makes disk (err e, left) = Grown disk left

  module _ (makes : (ref : Text) (disk : List Text) → Makes disk (make ref disk)) where
    still_room :
        (s : System) (server : Server)
        → s.in_fetch < s.max_concurrent_fetches
        → server.options ≡ s.options
        → s.in_fetch < server.options.max_concurrent_fetches
    still_room s server room e = subst (λ o. s.in_fetch < o.max_concurrent_fetches) (sym e) room

    looked_up-Reach :
        (ref : Text) (s : System) (r : Server × Option ℕ)
        → s.phase t ≡ idle
        → s.in_fetch < s.max_concurrent_fetches
        → acquire_cached_root ref t now s.server ≡ r
        → Reach s (looked_up ref r s)
          × Going 4 ((looked_up ref r s).phase t)
          × ((looked_up ref r s).in_fetch < (looked_up ref r s).max_concurrent_fetches)
    unfolding looked_up
    looked_up-Reach ref s (server, some p) free room e = (
      subst (λ q. Reach s (record s { server = q; phase = set_phase s.phase t (leased ref p) }))
          (ap (λ q. q.0) e) (next here (hit s t ref p now free (ap (λ q. q.1) e))),
      rw (phase_set s.phase (leased ref p)) (at_leased 4 ref p),
      still_room s server room (ap (λ q. q.0.options) (sym e) ∙ lookup-options ref t now s.server),
    )
    looked_up-Reach ref s (server, none) free room e = (
      subst (λ q. Reach s (record s { server = q; phase = set_phase s.phase t (waiting ref) }))
          (ap (λ q. q.0) e) (next here (miss s t ref now free (ap (λ q. q.1) e))),
      rw (phase_set s.phase (waiting ref)) (at_waiting 0 ref),
      still_room s server room (ap (λ q. q.0.options) (sym e) ∙ lookup-options ref t now s.server),
    )

    made-Reach :
        (n : ℕ) (ref : Text) (s : System) (r : Result Text × List Text)
        → s.phase t ≡ fetching ref
        → Makes s.disk r
        → Reach s (made ref r s) × Going (suc (suc n)) ((made ref r s).phase t)
    unfolding made
    made-Reach n ref s (ok path, disk) e (rest, grown, new, left) = (
      rw left (
          next (Grown-Reach s t ref e grown)
            (Step.materialize (with_disk rest s) t ref path e new)),
      rw (phase_set s.phase (materialized ref path)) (at_materialized n ref path),
    )
    made-Reach n ref s (err x, disk) e grown = (
      next (Grown-Reach s t ref e grown) (materialize_fails (with_disk disk s) t ref e),
      rw (phase_set s.phase failed) (at_failed (suc (suc n))),
    )

    fetched_later :
        (n : ℕ) (ref : Text) (r : bb_action_router.Fetcher.Server.Result ℕ)
        → Going (suc n) (after_install ref r)
    fetched_later n ref (bb_action_router.Fetcher.Server.Result.ok p) = at_fetched n ref p
    fetched_later n ref (bb_action_router.Fetcher.Server.Result.err e) = at_failed (suc n)

    attached_later : (n : ℕ) (ref : Text) (p : ℕ) (b : Bool) → Going n (after_attach ref p b)
    attached_later n ref p true = at_leased n ref p
    attached_later n ref p false = at_failed n

    waiting_late : (n : ℕ) (ref : Text) → Going n (waiting ref) → 3 < n
    waiting_late _ _ (at_waiting n ref) = omega arith

    advance-Reach :
        (n : ℕ) (s : System) (x : Phase)
        → s.phase t ≡ x
        → Going (suc n) x
        → ((3 < suc n) → s.in_fetch < s.max_concurrent_fetches)
        → Reach s (advance x s) × Going n ((advance x s).phase t)
    unfolding advance
    advance-Reach n s _ e (at_leased _ ref p) room = (here, rw e (at_leased n ref p))
    advance-Reach n s _ e (at_failed _) room = (here, rw e (at_failed n))
    advance-Reach n s _ e (at_fetched _ ref p) room = (
      next here (attach s t ref p now e),
      rw (phase_set s.phase (after_attach ref p (attach_lease ref p t now s.server).1))
          (attached_later n ref p (attach_lease ref p t now s.server).1),
    )
    advance-Reach _ s _ e (at_materialized n ref path) room = (
      next here (install s t ref path renamed now e),
      rw (phase_set s.phase (after_install ref (install_fetched renamed ref t path now s.server).1))
          (fetched_later n ref (install_fetched renamed ref t path now s.server).1),
    )
    advance-Reach _ s _ e (at_fetching n ref) room =
        made-Reach n ref s (make ref s.disk) e (makes ref s.disk)
    advance-Reach _ s _ e (at_waiting n ref) room = (
      next here (begin_fetch s t ref e (room (omega arith))),
      rw (phase_set s.phase (fetching ref)) (at_fetching n ref),
    )

    advance_all-Reach :
        (n : ℕ) (s : System)
        → Going n (s.phase t)
        → ((3 < n) → s.in_fetch < s.max_concurrent_fetches)
        → n < 5
        → Reach s (advance_all n s) × Going 0 ((advance_all n s).phase t)
    unfolding advance_all
    advance_all-Reach zero s g room l = (here, g)
    advance_all-Reach (suc n) s g room l =
        let (r, more) = advance-Reach n s (s.phase t) refl g room in
        let (rest, ended) =
          advance_all-Reach n (advance (s.phase t) s) more (λ h. absurd (omega (arith, h, l)))
            (omega (arith, l)) in
        (Reach-trans r rest, ended)

    pub acquire_alone-Reach :
        (e : Error) (ref : Text) (s : System)
        → s.phase t ≡ idle
        → s.in_fetch < s.max_concurrent_fetches
        → Reach s (acquire_alone e ref s).1 × Going 0 ((acquire_alone e ref s).1.phase t)
    unfolding acquire_alone begin_call
    acquire_alone-Reach e ref s free room =
        let looked = acquire_cached_root ref t now s.server in
        let (r, going, still) = looked_up-Reach ref s looked free room refl in
        let (rest, ended) =
          advance_all-Reach 4 (looked_up ref looked s) going (λ h. still) (omega arith) in
        (Reach-trans r rest, ended)
