-- ===== src/Fetcher/System/Pinning.antt =====
-- Pinned images in the states that interleaved calls reach.
use bb_action_router.Base.{
  Bool, Text, lookup, member, ℕ, ◌≡◌, refl, ◌∙◌, inl, inr, true, false, some, arith, Bool-cases,
}
use bb_action_router.Fetcher.Options.{Options}
use bb_action_router.Fetcher.Server.{
  Server, ok, new_server, evictable, acquire_cached_root, attach_lease, reap_moved, reap_in_place,
}
use bb_action_router.Fetcher.Pins.{new_server-IsSane}
use bb_action_router.Fetcher.Validity.{
  Cached, OnlyLeases, lease_root-OnlyLeases, release-OnlyLeases,
}
use bb_action_router.Fetcher.Install.{install_fetched-Installs}
use bb_action_router.Fetcher.Install.Keeping.Outcomes.{Installs-Keeps}
use bb_action_router.Fetcher.System.{
  System, Step, hit, miss, begin_fetch, materialize_fails, materialize_leaves, materialize, install,
  share, share_failure, attach, let_go, reap_trash, reap_doomed, Reach, here, next, init,
}
use bb_action_router.Fetcher.System.Invariant.{Inv}
use bb_action_router.Fetcher.System.Steps.{
  Step-Inv, Reach-Inv, acquire_cached_root-cases, attach_lease-cases,
}

-- The options and the set of pins are the same, and so is the root of every pinned image that has one.
pub record KeepsPins (s u : Server) : Type 0 where
  pub options : u.options ≡ s.options
  pub pins : u.pinned ≡ s.pinned
  pub entries : (ref : Text) (p : ℕ) → member ref s.pinned ≡ true → Cached s ref p → Cached u ref p

KeepsPins-refl : (s : Server) → KeepsPins s s
KeepsPins-refl s = record { options = refl; pins = refl; entries = λ ref p m c. c }

OnlyLeases-KeepsPins : {s u : Server} → OnlyLeases s u → KeepsPins s u
OnlyLeases-KeepsPins only = record {
  options = only.options;
  pins = only.pinned;
  entries = λ ref p m c. rw only.roots c;
}

acquire-KeepsPins :
    (ref : Text) (t now : ℕ) (s : Server) → KeepsPins s (acquire_cached_root ref t now s).0
acquire-KeepsPins ref t now s = elim (acquire_cached_root-cases ref t now s) [
  | inl (eq, _) ↦ rw eq (KeepsPins-refl s)
  | inr (p, eq, _) ↦ rw eq (OnlyLeases-KeepsPins (lease_root-OnlyLeases p t now s))
]

attach-KeepsPins :
    (ref : Text) (p t now : ℕ) (s : Server) → KeepsPins s (attach_lease ref p t now s).0
attach-KeepsPins ref p t now s = elim (attach_lease-cases ref p t now s) [
  | inl (eq, _) ↦ rw eq (KeepsPins-refl s)
  | inr (eq, _) ↦ rw eq (OnlyLeases-KeepsPins (lease_root-OnlyLeases p t now s))
]

pinned-not_evictable :
    (s : Server) (ref : Text) (p : ℕ) → member ref s.pinned ≡ true → evictable s ref p ≡ false
unfolding evictable
pinned-not_evictable s ref p m = ground arith

reap_in_place-KeepsPins :
    (removed : Bool) (path : Text) (s : Server) → KeepsPins s (reap_in_place removed path s)
unfolding reap_in_place
reap_in_place-KeepsPins removed path s = elim (Bool-cases (member path s.doomed)) [
  | inl e ↦ rw e (record { options = refl; pins = refl; entries = λ ref p m c. c })
  | inr e ↦ rw e (KeepsPins-refl s)
]

Step-KeepsPins : {s u : System} → Inv s → Step s u → KeepsPins s.server u.server
Step-KeepsPins inv (hit s t ref p now e got) = acquire-KeepsPins ref t now s.server
Step-KeepsPins inv (miss s t ref now e got) = acquire-KeepsPins ref t now s.server
Step-KeepsPins inv (begin_fetch s t ref e room) = KeepsPins-refl s.server
Step-KeepsPins inv (materialize_fails s t ref e) = KeepsPins-refl s.server
Step-KeepsPins inv (materialize_leaves s t ref path e absent) = record {
  options = refl;
  pins = refl;
  entries = λ k p m c. c;
}
Step-KeepsPins inv (materialize s t ref path e absent) = record {
  options = refl;
  pins = refl;
  entries = λ k p m c. c;
}
Step-KeepsPins inv (install s t ref path renamed now e) =
    let keeps =
      Installs-Keeps renamed ref t path now s.server _ inv.valid
        (install_fetched-Installs renamed ref t path now s.server inv.valid.map) in
    record {
      options = keeps.options;
      pins = keeps.pinned;
      entries = λ k p m c. keeps.entries k p c (pinned-not_evictable s.server k p m);
    }
Step-KeepsPins inv (share s t ref p e flown) = KeepsPins-refl s.server
Step-KeepsPins inv (share_failure s t ref e) = KeepsPins-refl s.server
Step-KeepsPins inv (attach s t ref p now e) = attach-KeepsPins ref p t now s.server
Step-KeepsPins inv (let_go s t ref p now e) =
    OnlyLeases-KeepsPins (release-OnlyLeases p t now s.server)
Step-KeepsPins inv (reap_trash s removed seq) =
    unfold reap_moved in record { options = refl; pins = refl; entries = λ k p m c. c }
Step-KeepsPins inv (reap_doomed s removed path) = reap_in_place-KeepsPins removed path s.server

pub Reach-KeepsPins : {s u : System} → Inv s → Reach s u → Inv u × KeepsPins s.server u.server
Reach-KeepsPins {s} inv here = (inv, KeepsPins-refl s.server)
Reach-KeepsPins inv (next r st) =
    let (now, kept) = Reach-KeepsPins inv r in
    let step = Step-KeepsPins now st in
    (
      Step-Inv st now,
      record {
        options = step.options ∙ kept.options;
        pins = step.pins ∙ kept.pins;
        entries = λ ref p m c. step.entries ref p (rw kept.pins m) (kept.entries ref p m c);
      },
    )

-- Once a prefetched image is cached, it keeps its root in every later state, however many other
-- images are acquired, evicted or refused in between.
pub prefetched_root_stays :
    (o : Options) {server : Server} {s u : System}
    → new_server o ≡ ok server
    → Reach (init server) s
    → Reach s u
    → (ref : Text) (p : ℕ) → member ref o.prefetch_images ≡ true
    → lookup ref s.server.roots ≡ some p
    → lookup ref u.server.roots ≡ some p
prefetched_root_stays o {server} made before after ref p m c =
    let start = Reach-KeepsPins (Reach-Inv o made here) before in
    let later = Reach-KeepsPins start.0 after in
    later.1.entries ref p (rw start.1.pins ((new_server-IsSane o server made).1 ref ∙ m)) c
