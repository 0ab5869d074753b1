-- ===== src/Fetcher/System/Slots.antt =====
-- The semaphore of pkg/fetcher/server.go: which calls hold a slot of it.
use bb_action_router.Base.{
  Text, holds, release_token, holds-nil, holds-cons, holds-release_token, ℕ, suc, ◌+◌, ◌-◌, ◌≤◌,
  ◌<◌, ◌≡◌, refl, sym, ap, subst, ◌∙◌, ◌≢◌, inl, inr, Bool, true, false, List, [], ◌∷◌, arith,
  ℕ_discrete, length,
}
use bb_action_router.Fetcher.Options.{Options}
use bb_action_router.Fetcher.Server.{Server, Result, ok, err, new_server}
use bb_action_router.Fetcher.System.{
  Phase, fetching, materialized, set_phase, after_install, after_attach, System, Step, hit, miss,
  begin_fetch, materialize_fails, materialize_leaves, materialize, install, share, share_failure,
  attach, let_go, reap_trash, reap_doomed, Reach, here, next, init,
}
use bb_action_router.Fetcher.System.Pinning.{Reach-KeepsPins}
use bb_action_router.Fetcher.System.Steps.{Reach-Inv}

-- Each number stands once.
abbrev pub IsDistinct : List ℕ → Type 0
IsDistinct [] = Unit
IsDistinct (t ∷ ts) = (holds t ts ≡ false) × IsDistinct ts

-- From the moment that fetchRefSingle has its slot to its return.
abbrev pub holds_slot : Phase → Bool
holds_slot (fetching ref) = true
holds_slot (materialized ref path) = true
holds_slot _ = false

release_token-absent : (t : ℕ) (ts : List ℕ) → holds t ts ≡ false → release_token t ts ≡ ts
unfolding release_token holds
release_token-absent t [] h = refl
release_token-absent t (u ∷ us) h = ground (arith, release_token-absent t us)

length-release_token :
    (t : ℕ) (ts : List ℕ)
    → IsDistinct ts
    → holds t ts ≡ true
    → suc (length (release_token t ts)) ≡ length ts
unfolding release_token holds
length-release_token t [] d h = cc
length-release_token t (u ∷ us) d h = elim (ℕ_discrete u t) [
  | yes self ↦ ground (arith, release_token-absent t us, subst (λ i. holds i us ≡ false) self d.0)
  | no other ↦ ground (arith, length-release_token t us d.1)
]

release_token-IsDistinct : (t : ℕ) (ts : List ℕ) → IsDistinct ts → IsDistinct (release_token t ts)
unfolding release_token
release_token-IsDistinct t [] d = tt
release_token-IsDistinct t (u ∷ us) d =
    ground (arith, release_token-IsDistinct t us d.1, holds-release_token t u us)

-- The calls that hold a slot, which the semaphore has counted.
record Slots (m : ℕ) (s : System) (active : List ℕ) : Type 0 where
  distinct : IsDistinct active
  exact : (t : ℕ) → holds t active ≡ holds_slot (s.phase t)
  counted : s.in_fetch ≡ length active
  bounded : s.in_fetch ≤ m

module _ (m : ℕ) (s : System) (active : List ℕ) (h : Slots m s active) (t : ℕ) (x : Phase)
    (u : Server) (f : List (Text × ℕ)) where
  abbrev moved : ℕ → System
  moved n = record { server = u; phase = set_phase s.phase t x; in_fetch = n; flights = f }

  my_slot : holds_slot (set_phase s.phase t x t) ≡ holds_slot x
  my_slot = ap holds_slot (ground arith)

  other_slot : (k : ℕ) → t ≢ k → holds_slot (set_phase s.phase t x k) ≡ holds_slot (s.phase k)
  other_slot k n = ap holds_slot (ground arith)

  -- Who holds a slot afterwards: the call as its phase says, the others as before.
  by_call :
      (after : List ℕ)
      → holds t after ≡ holds_slot x
      → ((k : ℕ) → t ≢ k → holds k after ≡ holds k active)
      → (k : ℕ) → holds k after ≡ holds_slot (set_phase s.phase t x k)
  by_call after mine others k = elim (ℕ_discrete t k) [
    | yes self ↦
        subst (λ i. holds i after ≡ holds_slot (set_phase s.phase t x i)) self (mine ∙ sym my_slot)
    | no other ↦ others k other ∙ h.exact k ∙ sym (other_slot k other)
  ]

  keeps-Slots :
      {y : Phase} → s.phase t ≡ y → holds_slot y ≡ holds_slot x → Slots m (moved s.in_fetch) active
  keeps-Slots e same_slot = record {
    distinct = h.distinct;
    exact = by_call active (h.exact t ∙ ap holds_slot e ∙ same_slot) (λ k n. refl);
    counted = h.counted;
    bounded = h.bounded;
  }

  takes-Slots :
      {y : Phase}
      → s.phase t ≡ y
      → holds_slot y ≡ false
      → holds_slot x ≡ true
      → s.in_fetch < m
      → Slots m (moved (s.in_fetch + 1)) (t ∷ active)
  takes-Slots e free taken room = record {
    distinct = (h.exact t ∙ ap holds_slot e ∙ free, h.distinct);
    exact =
        by_call (t ∷ active) (ground (arith, holds-cons t t active))
          (λ k n. ground (arith, holds-cons k t active));
    counted = omega (arith, h.counted);
    bounded = omega arith;
  }

  gives-Slots :
      {y : Phase}
      → s.phase t ≡ y
      → holds_slot y ≡ true
      → holds_slot x ≡ false
      → Slots m (moved (s.in_fetch - 1)) (release_token t active)
  gives-Slots e taken free = record {
    distinct = release_token-IsDistinct t active h.distinct;
    exact =
        by_call (release_token t active) (ground (arith, holds-release_token t t active))
          (λ k n. ground (arith, holds-release_token t k active));
    counted = ground (
      arith,
      h.counted,
      length-release_token t active h.distinct (h.exact t ∙ ap holds_slot e ∙ taken),
    );
    bounded = omega (arith, h.bounded);
  }

no_slot : (ref : Text) (r : Result ℕ) → holds_slot (after_install ref r) ≡ false
no_slot ref (ok p) = refl
no_slot ref (err e) = refl

no_slot_attached : (ref : Text) (p : ℕ) (b : Bool) → holds_slot (after_attach ref p b) ≡ false
no_slot_attached ref p true = refl
no_slot_attached ref p false = refl

Step-Slots :
    (m : ℕ) {s u : System}
    → Step s u
    → s.max_concurrent_fetches ≡ m
    → (active : List ℕ) → Slots m s active
    → (after : List ℕ) × Slots m u after
Step-Slots m (hit s t ref p now e got) o a h = (a, keeps-Slots m s a h t _ _ _ e refl)
Step-Slots m (miss s t ref now e got) o a h = (a, keeps-Slots m s a h t _ _ _ e refl)
Step-Slots m (begin_fetch s t ref e room) o a h =
    (t ∷ a, takes-Slots m s a h t _ _ _ e refl refl (omega (arith, room, o)))
Step-Slots m (materialize_fails s t ref e) o a h =
    (release_token t a, gives-Slots m s a h t _ _ _ e refl refl)
Step-Slots m (materialize_leaves s t ref path e absent) o a h =
    (a, record { distinct = h.distinct; exact = h.exact; counted = h.counted; bounded = h.bounded })
Step-Slots m (materialize s t ref path e absent) o a h = (a, keeps-Slots m s a h t _ _ _ e refl)
Step-Slots m (install s t ref path renamed now e) o a h =
    (release_token t a, gives-Slots m s a h t _ _ _ e refl (no_slot ref _))
Step-Slots m (share s t ref p e flown) o a h = (a, keeps-Slots m s a h t _ _ _ e refl)
Step-Slots m (share_failure s t ref e) o a h = (a, keeps-Slots m s a h t _ _ _ e refl)
Step-Slots m (attach s t ref p now e) o a h =
    (a, keeps-Slots m s a h t _ _ _ e (sym (no_slot_attached ref p _)))
Step-Slots m (let_go s t ref p now (inl e)) o a h = (a, keeps-Slots m s a h t _ _ _ e refl)
Step-Slots m (let_go s t ref p now (inr e)) o a h = (a, keeps-Slots m s a h t _ _ _ e refl)
Step-Slots m (reap_trash s removed seq) o a h =
    (a, record { distinct = h.distinct; exact = h.exact; counted = h.counted; bounded = h.bounded })
Step-Slots m (reap_doomed s removed path) o a h =
    (a, record { distinct = h.distinct; exact = h.exact; counted = h.counted; bounded = h.bounded })

module _ (o : Options) {server : Server} (new : new_server o ≡ ok server) where
  Reach-Slots :
      {s : System}
      → Reach (init server) s
      → (active : List ℕ) × Slots server.max_concurrent_fetches s active
  Reach-Slots here = (
    [],
    record { distinct = tt; exact = λ t. holds-nil t; counted = refl; bounded = omega arith },
  )
  Reach-Slots (next r st) =
      let (a, h) = Reach-Slots r in
      let (_, keeps) = Reach-KeepsPins (Reach-Inv o new here) r in
      Step-Slots server.max_concurrent_fetches st (ap (λ q. q.max_concurrent_fetches) keeps.options)
        a h

  -- Never are more calls than max_concurrent_fetches between taking a slot and returning from the
  -- fetch, and the count is exactly that of these calls: each outcome, errors included, gives its
  -- slot back once.
  pub fetches_bounded :
      {s : System}
      → Reach (init server) s
      → (active : List ℕ) × IsDistinct active
        × ((t : ℕ) → holds t active ≡ holds_slot (s.phase t))
        × (s.in_fetch ≡ length active)
        × (length active ≤ server.max_concurrent_fetches)
  fetches_bounded r =
      let (a, h) = Reach-Slots r in
      (a, h.distinct, h.exact, h.counted, omega (arith, h.counted, h.bounded))
