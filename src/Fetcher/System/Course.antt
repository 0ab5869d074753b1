-- ===== src/Fetcher/System/Course.antt =====
-- One call of Acquire for a pinned image, when only pinned images are cached: only Materialize can
-- make it fail.
use bb_action_router.Base.{
  Text, member, ℕ, zero, suc, ◌≡◌, refl, sym, ap, subst, lookup, none, ◌∙◌, ◌≢◌, inl, inr, Bool,
  true, List, arith,
}
use bb_action_router.Status.{Error, Result, ok, err}
use bb_action_router.Fetcher.Options.{Options}
use bb_action_router.Fetcher.Server.{
  Server, new_server, lease_root, acquire_cached_root, attach_lease, install_root, install_fetched,
  discard,
}
use bb_action_router.Fetcher.Validity.{Cached, lease_root-OnlyLeases}
use bb_action_router.Fetcher.Install.{install_fetched-Installs}
use bb_action_router.Fetcher.Install.Keeping.Outcomes.{Installs-Keeps, Installs-Cached}
use bb_action_router.Fetcher.System.{
  Phase, idle, waiting, fetching, materialized, fetched, leased, failed, System, set_phase, Step,
  Reach, here, next, hit, miss, begin_fetch, materialize_fails, install, attach, init,
}
use bb_action_router.Fetcher.System.Alone.{
  with_disk, Grown-Reach, Reach-trans, Makes, looked_up, made, advance, begin_call, advance_all,
  acquire_alone,
}
use bb_action_router.Fetcher.System.Room.{
  AllPinned, OnlyLeases-AllPinned, Installs-pinned, has_room, has_slot,
}
use bb_action_router.Fetcher.System.Steps.{Reach-Inv, acquire_cached_root-cases, attach_lease-cases}

module _ (o : Options) {server : Server}
    (new : new_server o ≡ bb_action_router.Fetcher.Server.Result.ok server) where
  module _ (make : Text → List Text → Result Text × List Text) (t now : ℕ) (renamed : Bool)
      (ref : Text)
      (makes : (j : Text) (disk : List Text) → Makes make t now renamed disk (make j disk))
      (start : System) where
    -- Materialize fails for the image, with the directories that are there when the call starts.
    abbrev pub Fails : Type 0
    Fails = (lookup ref start.roots ≡ none) × ((e : Error) × ((make ref start.disk).0 ≡ err e))

    -- Before Materialize is called.
    abbrev AsAtStart : System → Type 0
    AsAtStart s = (lookup ref start.roots ≡ none) × (s.disk ≡ start.disk)

    -- Where the call stands, and how many phases it has left.
    pub data Course (s : System) : ℕ → Phase → Type 0 where
      on_failed : (n : ℕ) → s.in_fetch ≡ 0 → Fails → Course s n failed
      on_leased : (n p : ℕ) → s.in_fetch ≡ 0 → Cached s.server ref p → Course s n (leased ref p)
      on_fetched :
          (n p : ℕ) → s.in_fetch ≡ 0 → Cached s.server ref p → Course s (suc n) (fetched ref p)
      on_materialized :
          (n : ℕ) (path : Text) → s.in_fetch ≡ 1 → Course s (suc (suc n)) (materialized ref path)
      on_fetching :
          (n : ℕ) → s.in_fetch ≡ 1 → AsAtStart s → Course s (suc (suc (suc n))) (fetching ref)
      on_waiting :
          (n : ℕ) → s.in_fetch ≡ 0 → AsAtStart s → Course s (suc (suc (suc (suc n)))) (waiting ref)

    -- What the phases of the call up to now have brought about.
    pub record Goes (s u : System) (n : ℕ) : Type 0 where
      pub steps : Reach s u
      pub course : Course u n (u.phase t)
      pub pins : AllPinned u.server
      pub pinned : u.pinned ≡ s.pinned
      pub others : (k : ℕ) → k ≢ t → u.phase k ≡ s.phase k

    my_phase : (f : ℕ → Phase) (x : Phase) → set_phase f t x t ≡ x
    my_phase f x = ground arith

    other_phase : (f : ℕ → Phase) (x : Phase) (k : ℕ) → k ≢ t → set_phase f t x k ≡ f k
    other_phase f x k other = ground arith

    module _ (s : System) (r : Reach (init server) s) (all_pinned : AllPinned s.server) where
      stays-Goes : (n : ℕ) → Course s n (s.phase t) → Goes s s n
      stays-Goes n c = record {
        steps = here;
        course = c;
        pins = all_pinned;
        pinned = refl;
        others = λ k o. refl;
      }

      -- A step of the call that leaves the cache and its map as they are.
      moves-Goes :
          (n : ℕ) (x : Phase) (u : Server) (m : ℕ) (f : List (Text × ℕ))
          → (let v : System = record {
            server = u;
            phase = set_phase s.phase t x;
            in_fetch = m;
            flights = f;
          } in
              Reach s v → Course v n x → AllPinned u → u.pinned ≡ s.pinned → Goes s v n)
      moves-Goes n x u m f steps c pins pinned = record {
        steps = steps;
        course = rw (my_phase s.phase x) c;
        pins = pins;
        pinned = pinned;
        others = other_phase s.phase x;
      }

      attach-Goes :
          (n p : ℕ)
          → s.phase t ≡ fetched ref p
          → s.in_fetch ≡ 0
          → Cached s.server ref p
          → Goes s (advance make t now renamed (fetched ref p) s) n
      unfolding advance
      attach-Goes n p e z c = elim (attach_lease-cases ref p t now s.server) [
        | inl (_, stale) ↦ absurd (stale c)
        | inr (eq, _) ↦
            let only = lease_root-OnlyLeases p t now s.server in
            moves-Goes n _ _ _ _ (next here (attach s t ref p now e))
              (rw eq (on_leased n p z (rw only.roots c)))
              (rw eq (OnlyLeases-AllPinned only all_pinned)) (rw eq only.pinned)
      ]

      install-Goes :
          (n : ℕ) (path : Text)
          → s.phase t ≡ materialized ref path
          → s.in_fetch ≡ 1
          → member ref s.pinned ≡ true
          → Goes s (advance make t now renamed (materialized ref path) s) (suc n)
      unfolding advance
      install-Goes n path e z mine =
          let inv = Reach-Inv o new r in
          let done = install_fetched-Installs renamed ref t path now s.server inv.valid.map in
          let (pins, (p, got)) =
            Installs-pinned renamed ref t path now s.server _ done (has_room o new s r all_pinned)
              mine all_pinned in
          moves-Goes (suc n) _ _ _ _ (next here (install s t ref path renamed now e))
            (rw got (
              on_fetched n p (omega arith)
                (Installs-Cached renamed ref t path now s.server _ p done got)))
            pins (Installs-Keeps renamed ref t path now s.server _ inv.valid done).pinned

      made-Goes :
          (n : ℕ) (q : Result Text × List Text)
          → make ref s.disk ≡ q
          → Makes make t now renamed s.disk q
          → s.phase t ≡ fetching ref
          → s.in_fetch ≡ 1
          → AsAtStart s
          → Goes s (made make t now renamed ref q s) (suc (suc n))
      unfolding made
      made-Goes n (ok path, disk) eq (rest, grown, absent, left) e z a =
          moves-Goes (suc (suc n)) _ _ _ _
            (rw left (
              next (Grown-Reach s t ref e grown)
                (Step.materialize (with_disk rest s) t ref path e absent)))
            (on_materialized n path z) all_pinned refl
      made-Goes n (err x, disk) eq grown e z a =
          moves-Goes (suc (suc n)) _ _ _ _
            (next (Grown-Reach s t ref e grown) (materialize_fails (with_disk disk s) t ref e))
            (on_failed _ (omega arith)
              (a.0, (x, ap (λ d. (make ref d).0) (sym a.1) ∙ ap (λ q. q.0) eq)))
            all_pinned refl

      advance-Goes :
          (n : ℕ) (x : Phase)
          → s.phase t ≡ x
          → Course s (suc n) x
          → member ref s.pinned ≡ true
          → Goes s (advance make t now renamed x s) n
      unfolding advance
      advance-Goes n _ e (on_failed _ z f) mine = stays-Goes n (rw e (on_failed n z f))
      advance-Goes n _ e (on_leased _ p z c) mine = stays-Goes n (rw e (on_leased n p z c))
      advance-Goes n _ e (on_fetched _ p z c) mine = attach-Goes n p e z c
      advance-Goes _ _ e (on_materialized n path z) mine = install-Goes n path e z mine
      advance-Goes _ _ e (on_fetching n z a) mine = made-Goes n _ refl (makes ref s.disk) e z a
      advance-Goes _ _ e (on_waiting n z a) mine =
          moves-Goes (suc (suc (suc n))) _ _ _ _
            (next here (begin_fetch s t ref e (has_slot o new s r z)))
            (on_fetching n (omega arith) a) all_pinned refl

    Goes-trans : {s u v : System} {n m : ℕ} → Goes s u n → Goes u v m → Goes s v m
    Goes-trans g h = record {
      steps = Reach-trans g.steps h.steps;
      course = h.course;
      pins = h.pins;
      pinned = h.pinned ∙ g.pinned;
      others = λ k o. h.others k o ∙ g.others k o;
    }

    advance_all-Goes :
        (n : ℕ) (s : System)
        → Reach (init server) s
        → AllPinned s.server
        → member ref s.pinned ≡ true
        → Course s n (s.phase t)
        → Goes s (advance_all make t now renamed n s) zero
    unfolding advance_all
    advance_all-Goes zero s r all_pinned mine c = stays-Goes s r all_pinned zero c
    advance_all-Goes (suc n) s r all_pinned mine c =
        let g = advance-Goes s r all_pinned n (s.phase t) refl c mine in
        Goes-trans g
          (advance_all-Goes n _ (Reach-trans r g.steps) g.pins (rw g.pinned mine) g.course)

    begin_call-Goes :
        (s : System)
        → Reach (init server) s
        → AllPinned s.server
        → s.phase t ≡ idle
        → s.in_fetch ≡ 0
        → (s.roots ≡ start.roots) × (s.disk ≡ start.disk)
        → Goes s (begin_call make t now renamed ref s) 4
    unfolding begin_call looked_up
    begin_call-Goes s r all_pinned e z at_start =
        elim (acquire_cached_root-cases ref t now s.server) [
          | inl (eq, absent) ↦ rw eq (
              moves-Goes s r all_pinned 4 _ _ _ _
                (subst
                  (λ q.
                    Reach s (record s { server = q; phase = set_phase s.phase t (waiting ref) }))
                  (ap (λ q. q.0) eq) (next here (miss s t ref now e (ap (λ q. q.1) eq))))
                (on_waiting 0 z (subst (λ m. lookup ref m ≡ none) at_start.0 absent, at_start.1))
                all_pinned refl)
          | inr (p, eq, c) ↦ rw eq (
              let only = lease_root-OnlyLeases p t now s.server in
              moves-Goes s r all_pinned 4 _ _ _ _
                (subst
                  (λ q.
                    Reach s (record s { server = q; phase = set_phase s.phase t (leased ref p) }))
                  (ap (λ q. q.0) eq) (next here (hit s t ref p now e (ap (λ q. q.1) eq))))
                (on_leased 4 p z (rw only.roots c)) (OnlyLeases-AllPinned only all_pinned)
                only.pinned)
        ]

    pub acquire_alone-Goes :
        (s : System) (x : Error)
        → Reach (init server) s
        → AllPinned s.server
        → member ref s.pinned ≡ true
        → s.phase t ≡ idle
        → s.in_fetch ≡ 0
        → (s.roots ≡ start.roots) × (s.disk ≡ start.disk)
        → Goes s (acquire_alone make t now renamed x ref s).1 zero
    unfolding acquire_alone
    acquire_alone-Goes s x r all_pinned mine e z at_start =
        let g = begin_call-Goes s r all_pinned e z at_start in
        Goes-trans g
          (advance_all-Goes 4 _ (Reach-trans r g.steps) g.pins (rw g.pinned mine) g.course)
