-- ===== src/Fetcher/System/Room.antt =====
-- While only pinned images are cached, there is a slot for another one.
use bb_action_router.Base.{
  Text, same_iff, same_refl, lookup, lookup-put, IsMap, member, without, member-without, ℕ, ◌≤◌,
  ◌<◌, ◌≡◌, refl, ap, Bool, true, false, some, List, [], ◌∷◌, arith, length,
}
use bb_action_router.Fetcher.Options.{Options}
use bb_action_router.Fetcher.Pins.{new_server-IsSane}
use bb_action_router.Fetcher.Server.{
  Server, new_server, lease_root, acquire_cached_root, attach_lease, install_root, install_fetched,
  discard,
}
use bb_action_router.Fetcher.Validity.{Cached, OnlyLeases}
use bb_action_router.Fetcher.Install.{Installs, redundant, superseded, installed, replaced, refused}
use bb_action_router.Fetcher.System.{System, Reach, here, init}
use bb_action_router.Fetcher.System.Steps.{Reach-Inv}
use bb_action_router.Fetcher.System.Pinning.{Reach-KeepsPins}

length-without-le : (k : Text) (ks : List Text) → length (without k ks) ≤ length ks
unfolding without
length-without-le k [] = omega arith
length-without-le k (j ∷ js) = ground (arith, length-without-le k js)

length-without_lt :
    (k : Text) (ks : List Text) → member k ks ≡ true → length (without k ks) < length ks
unfolding without member
length-without_lt k [] h = ground arith
length-without_lt k (j ∷ js) h = ground (arith, length-without_lt k js, length-without-le k js)

-- A map whose keys are in a set has no more entries than that has elements.
length-keys_le :
    (m : List (Text × ℕ)) (ks : List Text)
    → IsMap m
    → ((k : Text) (p : ℕ) → lookup k m ≡ some p → member k ks ≡ true)
    → length m ≤ length ks
unfolding lookup
length-keys_le [] ks h sub = omega arith
length-keys_le ((j, v) ∷ m) ks h sub =
    let rest = length-keys_le m (without j ks) h.1 (λ k p c. ground (
      arith,
      sub k p,
      member-without j k ks,
      same_iff j k,
      h.0,
      ap (λ i. lookup i m) {x = j} {y = k},
    )) in
    omega (arith, rest, length-without_lt j ks (sub j v (ground (arith, same_refl j))))

-- Only pinned images are cached.
abbrev pub AllPinned : Server → Type 0
AllPinned s = (k : Text) (p : ℕ) → Cached s k p → member k s.pinned ≡ true

pub OnlyLeases-AllPinned : {s u : Server} → OnlyLeases s u → AllPinned s → AllPinned u
OnlyLeases-AllPinned only pins k p c = rw only.pinned (pins k p (rw only.roots at c))

discard-AllPinned :
    (renamed : Bool) (path : Text) (s : Server) → AllPinned s → AllPinned (discard renamed path s)
unfolding discard
discard-AllPinned true path s pins = pins
discard-AllPinned false path s pins = pins

install_root-AllPinned :
    (ref : Text) (token now : ℕ) (path : Text) (s : Server)
    → member ref s.pinned ≡ true
    → AllPinned s
    → AllPinned (install_root ref token path now s)
unfolding install_root
install_root-AllPinned ref token now path s mine pins k p c = ground (
  arith,
  pins k p,
  lookup-put ref k s.next_root s.roots,
  same_iff ref k,
  ap (λ i. member i s.pinned) {x = ref} {y = k},
)

-- With a slot to spare, a fetch of a pinned image ends with that image cached.
pub Installs-pinned :
    (renamed : Bool) (ref : Text) (token : ℕ) (path : Text) (now : ℕ) (s : Server)
    (r : Server × bb_action_router.Fetcher.Server.Result ℕ)
    → Installs renamed ref token path now s r
    → length s.roots < s.max_roots
    → member ref s.pinned ≡ true
    → AllPinned s
    → AllPinned r.0 × ((p : ℕ) × (r.1 ≡ bb_action_router.Fetcher.Server.Result.ok p))
Installs-pinned renamed ref token path now s r (redundant p c e eq) room mine pins =
    rw eq (pins, (p, refl))
Installs-pinned renamed ref token path now s r (superseded p c e eq) room mine pins =
    rw eq (discard-AllPinned renamed path s pins, (p, refl))
Installs-pinned renamed ref token path now s r (installed absent _ eq) room mine pins =
    rw eq (install_root-AllPinned ref token now path s mine pins, (s.next_root, refl))
Installs-pinned renamed ref token path now s r (replaced v absent full victim eq) room mine pins =
    absurd (omega arith)
Installs-pinned renamed ref token path now s r (refused absent full none_idle eq) room mine pins =
    absurd (omega arith)

module _ (o : Options) {server : Server}
    (new : new_server o ≡ bb_action_router.Fetcher.Server.Result.ok server) where
  pub has_room :
      (s : System) → Reach (init server) s → AllPinned s.server → length s.roots < s.max_roots
  has_room s r pins =
      let (inv, keeps) = Reach-KeepsPins (Reach-Inv o new here) r in
      let sane = new_server-IsSane o server new in
      ground (
        arith,
        length-keys_le s.roots s.pinned inv.valid.map pins,
        sane.2,
        keeps.pins,
        keeps.options,
      )

  pub has_slot :
      (s : System) → Reach (init server) s → s.in_fetch ≡ 0 → s.in_fetch < s.max_concurrent_fetches
  has_slot s r z =
      let (inv, keeps) = Reach-KeepsPins (Reach-Inv o new here) r in
      let sane = new_server-IsSane o server new in ground (arith, sane.0.some_fetch, keeps.options)
