-- ===== src/Fetcher/System/Handling.antt =====
-- What each section of the server does to the directories on disk: one that is left there belongs to
-- a cached root, or is due to a reaper.
use bb_action_router.Base.{
  Text, same, same_iff, same_refl, lookup, lookup-put, lookup-remove, member, member-cons,
  member-without, ℕ, ◌<◌, ◌≡◌, refl, sym, ap, subst, ◌∙◌, ◌⊎◌, inl, inr, Bool, true, false, none,
  some, arith, Bool-cases,
}
use bb_action_router.Fetcher.Eviction.{Entry}
use bb_action_router.Fetcher.Server.{
  Server, Result, acquire_cached_root, attach_lease, reap_in_place, discard, evict_victim,
  install_root,
}
use bb_action_router.Fetcher.Validity.{Cached, IsValid, OnlyLeases, lease_root-OnlyLeases}
use bb_action_router.Fetcher.Validity.Discarding.{evict_victim-IsValid}
use bb_action_router.Fetcher.Install.{Installs, redundant, superseded, installed, replaced, refused}
use bb_action_router.Fetcher.Install.Keeping.{evict_victim-absent}
use bb_action_router.Fetcher.System.Steps.{acquire_cached_root-cases, attach_lease-cases}

-- A cached root has the directory, or a reaper is to delete it.
abbrev pub Handled : Server → Text → Type 0
Handled s d =
    ((k : Text) × (q : ℕ) × Cached s k q × ((s.heap q).path ≡ d)) ⊎ (member d s.doomed ≡ true)

-- A section that makes no directory, and after which a directory that was handled is so still.
pub record Handles (s u : Server) : Type 0 where
  pub shrinks : (d : Text) → member d u.disk ≡ true → member d s.disk ≡ true
  pub handled : (d : Text) → member d u.disk ≡ true → Handled s d → Handled u d

pub Handles-refl : (s : Server) → Handles s s
Handles-refl s = record { shrinks = λ d m. m; handled = λ d m h. h }

pub OnlyLeases-Handles : {s u : Server} → OnlyLeases s u → Handles s u
OnlyLeases-Handles {s} {u} only = record {
  shrinks = λ d m. rw only.disk at m;
  handled = λ d m h. elim h [
    | inl (k, q, c, e) ↦ inl (k, q, rw only.roots c, only.paths q ∙ e)
    | inr due ↦ inr (rw only.doomed due)
  ];
}

pub acquire-Handles :
    (ref : Text) (t now : ℕ) (s : Server) → Handles s (acquire_cached_root ref t now s).0
acquire-Handles ref t now s = elim (acquire_cached_root-cases ref t now s) [
  | inl (eq, _) ↦ rw eq (Handles-refl s)
  | inr (p, eq, _) ↦ rw eq (OnlyLeases-Handles (lease_root-OnlyLeases p t now s))
]

pub attach-Handles :
    (ref : Text) (p t now : ℕ) (s : Server) → Handles s (attach_lease ref p t now s).0
attach-Handles ref p t now s = elim (attach_lease-cases ref p t now s) [
  | inl (eq, _) ↦ rw eq (Handles-refl s)
  | inr (eq, _) ↦ rw eq (OnlyLeases-Handles (lease_root-OnlyLeases p t now s))
]

pub reap_in_place-Handles : (path : Text) (s : Server) → Handles s (reap_in_place true path s)
unfolding reap_in_place
reap_in_place-Handles path s = elim (Bool-cases (member path s.doomed)) [
  | inr none_due ↦ rw none_due (Handles-refl s)
  | inl due ↦ rw due (record {
    shrinks = λ d m. ground (arith, member-without path d s.disk);
    handled = λ d m h. elim h [
      | inl cached ↦ inl cached
      | inr mine ↦
          inr (ground (arith, member-without path d s.disk, member-without path d s.doomed))
    ];
  })
]

discard-Handles : (renamed : Bool) (path : Text) (s : Server) → Handles s (discard renamed path s)
unfolding discard
discard-Handles true path s = record {
  shrinks = λ d m. ground (arith, member-without path d s.disk);
  handled = λ d m h. h;
}
discard-Handles false path s = record {
  shrinks = λ d m. m;
  handled = λ d m h. elim h [
    | inl cached ↦ inl cached
    | inr due ↦ inr (ground (arith, member-cons d path s.doomed))
  ];
}

-- What has been discarded is off the disk, or due.
discard-Handled :
    (renamed : Bool) (path : Text) (s : Server)
    → member path (discard renamed path s).disk ≡ true
    → Handled (discard renamed path s) path
unfolding discard
discard-Handled true path s m =
    absurd (ground (arith, member-without path path s.disk, same_refl path))
discard-Handled false path s m =
    inr (ground (arith, member-cons path path s.doomed, same_refl path))

-- The root of the victim's image is the victim.
victim_path :
    (s : Server) (v : Entry) (k d : Text) (q : ℕ)
    → Cached s v.0 v.1
    → same v.0 k ≡ true
    → Cached s k q
    → (s.heap q).path ≡ d
    → same (s.heap v.1).path d ≡ true
victim_path s v k d q entry self c e =
    let again = subst (λ i. lookup i s.roots ≡ some q) (sym ((same_iff v.0 k).0 self)) c in
    (same_iff (s.heap v.1).path d).1 (ground (arith, again, entry))

evict_victim-Handles :
    (renamed : Bool) (now : ℕ) (s : Server) (v : Entry)
    → Cached s v.0 v.1
    → Handles s (evict_victim renamed now s v.0 v.1)
unfolding evict_victim discard
evict_victim-Handles true now s v entry =
    let gone = (s.heap v.1).path in
    record {
      shrinks = λ d m. ground (arith, member-without gone d s.disk);
      handled = λ d m h. elim h [
        | inr due ↦ inr due
        | inl (k, q, c, e) ↦ elim (Bool-cases (same v.0 k)) [
          | inl self ↦
              absurd
                (ground (arith, member-without gone d s.disk, victim_path s v k d q entry self c e))
          | inr other ↦ inl (k, q, ground (arith, lookup-remove v.0 k s.roots), e)
        ]
      ];
    }
evict_victim-Handles false now s v entry =
    let gone = (s.heap v.1).path in
    record {
      shrinks = λ d m. m;
      handled = λ d m h. elim h [
        | inr due ↦ inr (ground (arith, member-cons d gone s.doomed))
        | inl (k, q, c, e) ↦ elim (Bool-cases (same v.0 k)) [
          | inl self ↦
              inr
                (ground (arith, member-cons d gone s.doomed, victim_path s v k d q entry self c e))
          | inr other ↦ inl (k, q, ground (arith, lookup-remove v.0 k s.roots), e)
        ]
      ];
    }

install_root-Handles :
    (ref : Text) (token now : ℕ) (path : Text) (s : Server)
    → lookup ref s.roots ≡ none
    → ((k : Text) (q : ℕ) → Cached s k q → q < s.next_root)
    → Handles s (install_root ref token path now s)
unfolding install_root
install_root-Handles ref token now path s absent allocated = record {
  shrinks = λ d m. m;
  handled = λ d m h. elim h [
    | inr due ↦ inr due
    | inl (k, q, c, e) ↦ inl (
      k,
      q,
      ground (
        arith,
        lookup-put ref k s.next_root s.roots,
        same_iff ref k,
        ap (λ i. lookup i s.roots) {x = ref} {y = k},
      ),
      ground (arith, allocated k q c),
    )
  ];
}

install_root-Handled :
    (ref : Text) (token now : ℕ) (path : Text) (s : Server)
    → Handled (install_root ref token path now s) path
unfolding install_root
install_root-Handled ref token now path s = inl (
  ref,
  s.next_root,
  ground (arith, lookup-put ref ref s.next_root s.roots, same_refl ref),
  ground arith,
)

Handles-trans : {s t u : Server} → Handles s t → Handles t u → Handles s u
Handles-trans a b = record {
  shrinks = λ d m. a.shrinks d (b.shrinks d m);
  handled = λ d m h. b.handled d m (a.handled d (b.shrinks d m) h);
}

module _ (renamed : Bool) (ref : Text) (token : ℕ) (path : Text) (now : ℕ) (s : Server)
    (valid : IsValid s) where
  pub Installs-Handles :
      (r : Server × Result ℕ) → Installs renamed ref token path now s r → Handles s r.0
  Installs-Handles r (redundant p c e eq) = rw eq (Handles-refl s)
  Installs-Handles r (superseded p c e eq) = rw eq (discard-Handles renamed path s)
  Installs-Handles r (installed absent room eq) =
      rw eq (install_root-Handles ref token now path s absent valid.allocated)
  Installs-Handles r (replaced v absent full victim eq) = rw eq (
      Handles-trans (evict_victim-Handles renamed now s v victim.entry) (
        install_root-Handles ref token now path _ (evict_victim-absent renamed now s v ref absent)
          (evict_victim-IsValid v.0 v.1 _ s victim.entry valid renamed now refl).allocated))
  Installs-Handles r (refused absent full none_idle eq) = rw eq (discard-Handles renamed path s)

  -- The directory that the fetch brought: whatever the outcome, it is cached, or it is discarded.
  pub Installs-Handled :
      (r : Server × Result ℕ)
      → Installs renamed ref token path now s r
      → member path r.0.disk ≡ true
      → Handled r.0 path
  Installs-Handled r (redundant p c e eq) m = rw eq (inl (ref, p, c, e))
  Installs-Handled r (superseded p c e eq) m = rw eq (discard-Handled renamed path s (rw eq at m))
  Installs-Handled r (installed absent room eq) m =
      rw eq (install_root-Handled ref token now path s)
  Installs-Handled r (replaced v absent full victim eq) m =
      rw eq (install_root-Handled ref token now path (evict_victim renamed now s v.0 v.1))
  Installs-Handled r (refused absent full none_idle eq) m =
      rw eq (discard-Handled renamed path s (rw eq at m))
