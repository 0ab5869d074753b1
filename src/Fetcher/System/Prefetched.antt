-- ===== src/Fetcher/System/Prefetched.antt =====
-- What PrefetchImages of pkg/fetcher/server.go leaves cached.
use bb_action_router.Base.{
  Text, same_refl, lookup, none, lookup-nil, member, member-cons, ℕ, zero, suc, ◌+◌, ◌≤◌, ◌≡◌, refl,
  sym, subst, ◌∙◌, ◌≢◌, ◌⊎◌, inl, inr, Bool, true, some, List, [], ◌∷◌, arith, ℕ_discrete, length,
  All,
}
use bb_action_router.Status.{Error, Result, err}
use bb_action_router.Fetcher.Options.{Options, with_defaults}
use bb_action_router.Fetcher.Pins.{new_server-IsNew, new_server-IsSane}
use bb_action_router.Fetcher.Server.{
  Server, new_server, lease_root, acquire_cached_root, attach_lease, install_root, install_fetched,
  discard,
}
use bb_action_router.Fetcher.Validity.{release-OnlyLeases}
use bb_action_router.Fetcher.System.{
  Phase, idle, fetched, leased, System, Reach, here, next, let_go, init,
}
use bb_action_router.Fetcher.System.Alone.{Reach-trans, Makes, let_go_call, outcome, acquire_alone}
use bb_action_router.Fetcher.System.Course.{Course, on_failed, on_leased, Goes, acquire_alone-Goes}
use bb_action_router.Fetcher.System.Room.{AllPinned, OnlyLeases-AllPinned}
use bb_action_router.Fetcher.System.Steps.{Reach-Inv}
use bb_action_router.Fetcher.System.Safety.{no_leaked_lease}
use bb_action_router.Fetcher.System.Pinning.{Reach-KeepsPins}
use bb_action_router.Fetcher.System.Prefetch.{prefetched, prefetch_images}

All-members :
    (xs ks : List Text)
    → ((k : Text) → member k xs ≡ true → member k ks ≡ true)
    → All (λ i. member i ks ≡ true) xs
All-members [] ks sub = tt
All-members (x ∷ xs) ks sub = (
  sub x (ground (arith, member-cons x x xs, same_refl x)),
  All-members xs ks (λ k m. sub k (ground (arith, member-cons k x xs))),
)

new_server-prefetch_images :
    (o : Options) (s : Server)
    → new_server o ≡ bb_action_router.Fetcher.Server.Result.ok s
    → s.prefetch_images ≡ o.prefetch_images
unfolding new_server with_defaults
new_server-prefetch_images o s h = ground arith

module _ (make : ℕ → Text → List Text → Result Text × List Text) (now : ℕ → ℕ) (renamed : ℕ → Bool)
    (refusal : Error) where
  -- An image is cached in the end; or it was not when its call came, and Materialize then failed for
  -- it, with the directories that there were.
  abbrev pub Prefetched : System → ℕ → Text → System → Type 0
  Prefetched last t image s =
      ((p : ℕ) × (lookup image last.roots ≡ some p))
      ⊎ ((lookup image s.roots ≡ none) × ((e : Error) × ((make t image s.disk).0 ≡ err e)))

  -- The same for the calls of the images, one after the other.
  abbrev pub AllPrefetched : System → ℕ → List Text → System → Type 0
  AllPrefetched last t [] s = Unit
  AllPrefetched last t (image ∷ images) s =
      Prefetched last t image s
      × AllPrefetched last (suc t) images (
          prefetched make now renamed refusal
            (acquire_alone (make t) t (now t) (renamed t) refusal image s))

  module _ (o : Options) {server : Server}
      (new : new_server o ≡ bb_action_router.Fetcher.Server.Result.ok server)
      (makes : (t : ℕ) (j : Text) (disk : List Text)
        → Makes (make t) t (now t) (renamed t) disk (make t j disk)) where
    abbrev Quiet : Phase → Type 0
    Quiet x = (ref : Text) (p : ℕ) → (x ≢ leased ref p) × (x ≢ fetched ref p)

    -- Between two images.
    record Between (s : System) (t : ℕ) : Type 0 where
      reach : Reach (init server) s
      pins : AllPinned s.server
      none_fetched : s.in_fetch ≡ 0
      later : (k : ℕ) → t ≤ k → s.phase k ≡ idle
      quiet : (k : ℕ) → Quiet (s.phase k)

    init-Between : Between (init server) 0
    init-Between = record {
      reach = here;
      pins = λ k p c. ground (arith, (new_server-IsNew o server new).roots, lookup-nil {V = ℕ} k);
      none_fetched = refl;
      later = λ k l. refl;
      quiet = λ k ref p. (cc, cc);
    }

    -- After the call of an image: it has left the phases of the others alone, and is quiet.
    after_image :
        (s u : System) (t : ℕ)
        → Between s t
        → Reach s u
        → AllPinned u.server
        → u.in_fetch ≡ 0
        → ((k : ℕ) → k ≢ t → u.phase k ≡ s.phase k)
        → Quiet (u.phase t)
        → Between u (suc t)
    after_image s u t b steps pins z others mine = record {
      reach = Reach-trans b.reach steps;
      pins = pins;
      none_fetched = z;
      later = λ k l. others k (λ self. ground arith) ∙ b.later k (omega arith);
      quiet = λ k. elim (ℕ_discrete k t) [
        | yes self ↦ subst (λ i. Quiet (u.phase i)) (sym self) mine
        | no other ↦ subst Quiet (sym (others k other)) (b.quiet k)
      ];
    }

    -- What the call of one image leads to.
    record Leads (s u : System) (t : ℕ) (image : Text) : Type 0 where
      steps : Reach s u
      between : Between u (suc t)
      pinned : u.pinned ≡ s.pinned
      got : Prefetched u t image s

    outcome-Leads :
        (s v : System) (t : ℕ) (image : Text) (x : Phase)
        → Between s t
        → Goes o new (make t) t (now t) (renamed t) image (makes t) s s v zero
        → v.phase t ≡ x
        → Course o new (make t) t (now t) (renamed t) image (makes t) s v zero x
        → Leads s
            (prefetched make now renamed refusal
              (outcome (make t) t (now t) (renamed t) x v refusal, v))
            t
            image
    unfolding outcome let_go_call prefetched
    outcome-Leads s v t image _ b g e (on_failed _ z fails) = record {
      steps = g.steps;
      between = after_image s v t b g.steps g.pins z g.others (λ ref p. rw e (cc, cc));
      pinned = g.pinned;
      got = inr fails;
    }
    outcome-Leads s v t image _ b g e (on_leased _ p z c) =
        let only = release-OnlyLeases p t (now t) v.server in
        let steps = next g.steps (let_go v t image p (now t) (inl e)) in
        record {
          steps = steps;
          between =
              after_image s _ t b steps (OnlyLeases-AllPinned only g.pins) z
                (λ k other. ground (arith, g.others k other))
                (λ ref q. (ground arith, ground arith));
          pinned = only.pinned ∙ g.pinned;
          got = inl (p, rw only.roots c);
        }

    image-Leads :
        (s : System) (t : ℕ) (image : Text)
        → Between s t
        → member image s.pinned ≡ true
        → Leads s
            (prefetched make now renamed refusal
              (acquire_alone (make t) t (now t) (renamed t) refusal image s))
            t
            image
    unfolding acquire_alone
    image-Leads s t image b mine =
        let g =
          acquire_alone-Goes o new (make t) t (now t) (renamed t) image (makes t) s s refusal
            b.reach b.pins mine (b.later t (omega arith)) b.none_fetched (refl, refl) in
        outcome-Leads s _ t image _ b g refl g.course

    -- A prefetched image stays so.
    Prefetched-stays :
        (s u v : System) (t : ℕ) (image : Text)
        → Reach (init server) s
        → Reach s u
        → member image s.pinned ≡ true
        → Prefetched s t image v
        → Prefetched u t image v
    Prefetched-stays s u v t image r steps mine (inr f) = inr f
    Prefetched-stays s u v t image r steps mine (inl (p, c)) =
        let (_, keeps) = Reach-KeepsPins (Reach-Inv o new r) steps in
        inl (p, keeps.entries image p mine c)

    prefetch_images-Leads :
        (images : List Text) (s : System) (t : ℕ)
        → Between s t
        → All (λ i. member i s.pinned ≡ true) images
        → let u = prefetch_images make now renamed refusal t images s in
          Reach s u × Between u (t + length images) × AllPrefetched u t images s
    unfolding prefetch_images
    prefetch_images-Leads [] s t b all = (here, subst (Between s) (omega arith) b, tt)
    prefetch_images-Leads (image ∷ images) s t b all =
        let first = image-Leads s t image b all.0 in
        let u =
          prefetched make now renamed refusal
            (acquire_alone (make t) t (now t) (renamed t) refusal image s) in
        let (steps, between, got) =
          prefetch_images-Leads images u (suc t) first.between (rw first.pinned all.1) in
        (
          Reach-trans first.steps steps,
          subst (Between (prefetch_images make now renamed refusal (suc t) images u)) (omega arith)
              between,
          (
            Prefetched-stays u _ s t image first.between.reach steps (rw first.pinned all.0)
                first.got,
            got,
          ),
        )

    -- PrefetchImages on a new server: every one of its images is then cached, but for one that was
    -- not when its call came, and for which Materialize failed with the directories that there were
    -- then. So none is refused for want of a slot; and no call holds a lease or a slot.
    pub prefetch_images_lem :
        let s = prefetch_images make now renamed refusal 0 server.prefetch_images (init server) in
        AllPrefetched s 0 server.prefetch_images (init server)
        × ((p : ℕ) → (s.server.heap p).leases ≡ [])
        × (s.in_fetch ≡ 0)
    prefetch_images_lem =
        let sane = new_server-IsSane o server new in
        let mine = All-members server.prefetch_images server.pinned (λ k m.
          sane.1 k ∙ subst (λ l. member k l ≡ true) (new_server-prefetch_images o server new) m) in
        let (steps, b, got) =
          prefetch_images-Leads server.prefetch_images (init server) 0 init-Between mine in
        (
          got,
          λ p.
              no_leaked_lease o new b.reach p (λ t ref. (b.quiet t ref p).0)
                (λ t ref. (b.quiet t ref p).1),
          b.none_fetched,
        )
