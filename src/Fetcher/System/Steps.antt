-- ===== src/Fetcher/System/Steps.antt =====
-- The invariant, step by step.
use bb_action_router.Base.{
  Text, lookup, holds-nil, ℕ, ◌+◌, ◌-◌, ◌≡◌, sym, subst, ◌≢◌, ◌⊎◌, inl, inr, true, false, none,
  some, arith, Bool-cases, Option-cases,
}
use bb_action_router.Fetcher.Options.{Options}
use bb_action_router.Fetcher.Pins.{new_server-IsNew}
use bb_action_router.Fetcher.Server.{
  Server, ok, new_server, reap_moved, points_to, lease_root, acquire_cached_root, attach_lease,
}
use bb_action_router.Fetcher.Validity.{Cached, IsNew-IsValid}
use bb_action_router.Fetcher.Directories.{
  reap_in_place-roots, reap_in_place-heap, reap_in_place-IsValid, reap_in_place-IsFresh,
  reap_moved-IsValid, with_directory-IsValid, with_directory-IsFresh_other,
}
use bb_action_router.Fetcher.Leases.{Held}
use bb_action_router.Fetcher.System.{
  idle, waiting, fetching, materialized, fetched, leased, released, failed, System, Step, hit, miss,
  begin_fetch, materialize_fails, materialize_leaves, materialize, install, share, share_failure,
  attach, let_go, reap_trash, reap_doomed, Reach, here, next, init, after_attach,
}
use bb_action_router.Fetcher.System.Invariant.{Owner, Inv, Moves, Moves-Inv}
use bb_action_router.Fetcher.System.Moves.{
  holds_nothing, quiet-Moves, lease-Moves, release-Moves, materialize-Moves, install-Moves,
}

pub acquire_cached_root-cases :
    (ref : Text) (t now : ℕ) (s : Server)
    → ((acquire_cached_root ref t now s ≡ (s, none)) × (lookup ref s.roots ≡ none))
      ⊎ ((p : ℕ) × (acquire_cached_root ref t now s ≡ (lease_root p t now s, some p))
          × Cached s ref p)
unfolding acquire_cached_root
acquire_cached_root-cases ref t now s = elim (Option-cases (lookup ref s.roots)) [
  | inl e ↦ inl (rw (e, acquire_cached_root), e)
  | inr (p, e) ↦ inr (p, rw (e, acquire_cached_root), e)
]

pub attach_lease-cases :
    (ref : Text) (p t now : ℕ) (s : Server)
    → ((attach_lease ref p t now s ≡ (s, false)) × (lookup ref s.roots ≢ some p))
      ⊎ ((attach_lease ref p t now s ≡ (lease_root p t now s, true)) × Cached s ref p)
unfolding attach_lease
attach_lease-cases ref p t now s = elim (Bool-cases (points_to (lookup ref s.roots) p)) [
  | inl e ↦ inr (rw (e, attach_lease), ground arith)
  | inr e ↦ inl (rw (e, attach_lease), λ c. ground arith)
]

idle_owns_nothing : (q : ℕ) → ¬ Owner idle q
idle_owns_nothing q o = o

module _ (s : System) (inv : Inv s) (t : ℕ) where
  hit-Moves :
      (ref : Text) (p now : ℕ)
      → s.phase t ≡ idle
      → (acquire_cached_root ref t now s.server).1 ≡ some p
      → Moves s t (leased ref p) (acquire_cached_root ref t now s.server).0
  hit-Moves ref p now e got = elim (acquire_cached_root-cases ref t now s.server) [
    | inl (eq, _) ↦ cc (got, eq)
    | inr (q, eq, c) ↦ rw eq (
        subst (λ i. Moves s t (leased ref i) (lease_root q t now s.server)) (ground arith)
          (lease-Moves s inv t ref q now c
            (λ r h. absurd (holds_nothing s inv t idle e idle_owns_nothing r h))))
  ]

  miss-Moves :
      (ref : Text) (now : ℕ)
      → s.phase t ≡ idle
      → (acquire_cached_root ref t now s.server).1 ≡ none
      → Moves s t (waiting ref) (acquire_cached_root ref t now s.server).0
  miss-Moves ref now e got = elim (acquire_cached_root-cases ref t now s.server) [
    | inl (eq, _) ↦ rw eq (
        quiet-Moves s inv t (waiting ref) (holds_nothing s inv t idle e idle_owns_nothing)
          (λ k p q. cc) (λ k p q. cc) (λ k p y _. cc))
    | inr (q, eq, c) ↦ cc (got, eq)
  ]

  attach-Moves :
      (ref : Text) (p now : ℕ)
      → s.phase t ≡ fetched ref p
      → Moves s t
          (after_attach ref p (attach_lease ref p t now s.server).1)
          (attach_lease ref p t now s.server).0
  attach-Moves ref p now e =
      let mine = λ (q : ℕ) (h : Held s.server t q). subst (λ y. Owner y q) e (inv.owned t q h) in
      elim (attach_lease-cases ref p t now s.server) [
        | inr (eq, c) ↦ rw eq (lease-Moves s inv t ref p now c mine)
        | inl (eq, stale) ↦ rw eq (
            quiet-Moves s inv t failed
              (λ q h. stale (inv.leading t ref p e (subst (Held s.server t) (sym (mine q h)) h)))
              (λ k i y. cc) (λ k d y. cc) (λ k i y _. cc))
      ]

-- A step keeps the invariant.
pub Step-Inv : {s u : System} → Step s u → Inv s → Inv u
Step-Inv (hit s t ref p now e got) inv =
    Moves-Inv s t _ _ inv (hit-Moves s inv t ref p now e got) s.in_fetch s.flights
Step-Inv (miss s t ref now e got) inv =
    Moves-Inv s t _ _ inv (miss-Moves s inv t ref now e got) s.in_fetch s.flights
Step-Inv (begin_fetch s t ref e room) inv =
    Moves-Inv s t _ _ inv
      (quiet-Moves s inv t (fetching ref) (holds_nothing s inv t (waiting ref) e (λ q o. o))
        (λ k p y. cc) (λ k d y. cc) (λ k p y _. cc))
      (s.in_fetch + 1) s.flights
Step-Inv (materialize_fails s t ref e) inv =
    Moves-Inv s t _ _ inv
      (quiet-Moves s inv t failed (holds_nothing s inv t (fetching ref) e (λ q o. o)) (λ k p y. cc)
        (λ k d y. cc) (λ k p y _. cc))
      (s.in_fetch - 1) s.flights
Step-Inv (materialize_leaves s t ref path e absent) inv = record {
  valid = with_directory-IsValid path s.server inv.valid;
  held = inv.held;
  owned = inv.owned;
  leading = inv.leading;
  fresh = λ k j d y. with_directory-IsFresh_other path d s.server (inv.fresh k j d y);
  lone = inv.lone;
}
Step-Inv (materialize s t ref path e absent) inv =
    Moves-Inv s t _ _ inv
      (materialize-Moves s inv t ref path (holds_nothing s inv t (fetching ref) e (λ q o. o))
        absent)
      s.in_fetch s.flights
Step-Inv (install s t ref path renamed now e) inv =
    Moves-Inv s t _ _ inv
      (install-Moves s inv t ref path renamed now e
        (holds_nothing s inv t (materialized ref path) e (λ q o. o)))
      (s.in_fetch - 1) _
Step-Inv (share s t ref p e flown) inv =
    Moves-Inv s t _ _ inv
      (quiet-Moves s inv t (fetched ref p)
        (λ q h. absurd (holds_nothing s inv t (waiting ref) e (λ i o. o) q h)) (λ k i y. cc)
        (λ k d y. cc) (λ k i y h. absurd (holds_nothing s inv t (waiting ref) e (λ j o. o) i h)))
      s.in_fetch s.flights
Step-Inv (share_failure s t ref e) inv =
    Moves-Inv s t _ _ inv
      (quiet-Moves s inv t failed (holds_nothing s inv t (waiting ref) e (λ q o. o)) (λ k p y. cc)
        (λ k d y. cc) (λ k p y _. cc))
      s.in_fetch s.flights
Step-Inv (attach s t ref p now e) inv =
    Moves-Inv s t _ _ inv (attach-Moves s inv t ref p now e) s.in_fetch s.flights
Step-Inv (let_go s t ref p now (inl e)) inv =
    Moves-Inv s t _ _ inv
      (release-Moves s inv t ref p now (λ q h. subst (λ y. Owner y q) e (inv.owned t q h)))
      s.in_fetch s.flights
Step-Inv (let_go s t ref p now (inr e)) inv =
    Moves-Inv s t _ _ inv
      (release-Moves s inv t ref p now
        (λ q h. absurd (holds_nothing s inv t (released ref p) e (λ i o. o) q h)))
      s.in_fetch s.flights
Step-Inv (reap_trash s removed seq) inv =
    unfold reap_moved in
    record {
      valid = reap_moved-IsValid removed seq s.server inv.valid;
      held = inv.held;
      owned = inv.owned;
      leading = inv.leading;
      fresh = λ t ref path e.
          let f = inv.fresh t ref path e in
          record { on_disk = f.on_disk; kept = f.kept; unused = f.unused };
      lone = inv.lone;
    }
Step-Inv (reap_doomed s removed path) inv = record {
  valid = reap_in_place-IsValid path s.server inv.valid removed;
  held = λ t ref p e.
      rw (reap_in_place-roots removed path s.server, reap_in_place-heap removed path s.server)
        (inv.held t ref p e);
  owned = λ t q h. inv.owned t q (rw reap_in_place-heap at h);
  leading = λ t ref p e h.
      rw (reap_in_place-roots removed path s.server)
        (inv.leading t ref p e (rw reap_in_place-heap at h));
  fresh = λ t ref d e. reap_in_place-IsFresh removed path d s.server (inv.fresh t ref d e);
  lone = inv.lone;
}

init-Inv : (o : Options) (server : Server) → new_server o ≡ ok server → Inv (init server)
init-Inv o server h =
    let n = new_server-IsNew o server h in
    record {
      valid = IsNew-IsValid server n;
      held = λ t ref p e. cc;
      owned = λ t q e. ground (arith, n.leases q, holds-nil t);
      leading = λ t ref p e. cc;
      fresh = λ t ref path e. cc;
      lone = λ t u ref ref' path e. cc;
    }

-- The invariant holds in every state that the calls can reach on a new server.
pub Reach-Inv :
    (o : Options) {server : Server} {s : System}
    → new_server o ≡ ok server
    → Reach (init server) s
    → Inv s
Reach-Inv o {server} h here = init-Inv o server h
Reach-Inv o h (next r st) = Step-Inv st (Reach-Inv o h r)
