-- ===== src/Fetcher/Tests.antt =====
-- The server run on small inputs, and the theorems about it applied there.
mod Prefetch
use bb_action_router.Base.{
  Text, codes, same, text_lt, join_with, strip_prefix, trim_prefix, trim_suffix, same_iff,
  same_refl, same_comm, text_lt_asym, text_lt_irrefl, text_lt_trans, text_lt_total,
  text_lt_neg_trans, Text-set, decimal, digits_value, signed, magnitude, atoi, ℤ, pos, negsuc,
  IsDigit, decimal-All, decimal-ne-nil, atoi-decimal, split_slash, add_byte, join-split,
  join-append, lookup, has, put, remove, keys, lookup-nil, lookup-put, lookup-remove,
  length-remove-le, length-put_new, length-remove_lt, IsMap, put-IsMap, remove-IsMap,
  length-remove_present, All-lookup, IsMap-All, assoc_laws, member, without, holds, release_token,
  member-nil, holds-nil, holds-cons, member-cons, member-without, holds-release_token, insert_by,
  sort_by, IsOrdered, OrderingLaws, sort_by-IsOrdered, sort_by-perm, ℕ, zero, suc, ◌+◌, ◌-◌, ◌*◌,
  ◌/◌, ◌%◌, ◌^◌, ◌≤◌, ◌<◌, ◌≡◌, refl, sym, ap, subst, ◌∙◌, fun_ext, ◌≢◌, ◌↔◌, ◌⊎◌, inl, inr, Bool,
  true, false, not, ◌&&◌, ◌||◌, Option, none, some, List, [], ◌∷◌, ◌++◌, map, reverse, Mem, Perm,
  arith, dec_lt, ℕ_discrete, ltb, leb, ◌==◌, if◌then◌else◌, ltb→lt, lt→ltb, ==_iff, Bool-cases,
  Option-cases, length, length-append, filter, length-filter-le, All, All-append, All-filter,
  All-map,
}
use bb_action_router.Fetcher.Options.{Options, minute, with_defaults, pin_all, too_many_pins}
use bb_action_router.Fetcher.Server.{
  Server, Root, ok, err, slots_in_use, too_many_pinned, new_server, touch, lease_root,
  acquire_cached_root, attach_lease, release, evictable, is_better, pick_victim, install_root,
  install_fetched, root_count, blank_root, discard,
}
use bb_action_router.Fetcher.Eviction.{
  Entry, IsVictim, NoneIdle, pick_victim_lem, pick_victim_any_order,
}
use bb_action_router.Fetcher.System.{
  System, Step, hit, miss, begin_fetch, materialize, install, attach, let_go, Reach, here, next,
  init,
}
use bb_action_router.Fetcher.System.Safety.{
  leased_root_stays, root_count_bounded, no_leaked_lease, refused_iff_full,
}
use bb_action_router.Fetcher.System.Slots.{IsDistinct, holds_slot, fetches_bounded}
use bb_action_router.Fetcher.System.Pinning.{prefetched_root_stays}

abbrev image_a : Text
image_a = codes "a"

abbrev image_b : Text
image_b = codes "b"

abbrev dir_a : Text
dir_a = codes "/roots/1"

abbrev dir_b : Text
dir_b = codes "/roots/2"

-- Three slots, `a` pinned, everything else at its default.
abbrev options : Options
options = record {
  max_roots = 3;
  max_concurrent_fetches = 0;
  acquire_timeout = 0;
  prefetch_images = image_a ∷ [];
  use_boost = 0;
  max_use_boost = 0;
}

abbrev server : Server
unfolding with_defaults
server = record {
  options = with_defaults options;
  pinned = image_a ∷ [];
  roots = [];
  heap = λ _. blank_root;
  next_root = 0;
  trash_seq = 0;
  disk = [];
  trash = [];
  doomed = [];
  roots_gauge = 0;
  eviction_idle = [];
}

server_made : new_server options ≡ ok server
unfolding new_server with_defaults pin_all too_many_pins member same
server_made = refl

-- With half of the slots pinned there is no server.
half_pinned : new_server (record options { max_roots = 2 }) ≡ err too_many_pinned
unfolding new_server with_defaults pin_all too_many_pins member same
half_pinned = refl

abbrev Run : System → Type 0
Run s = (u : System) × Reach s u

abbrev then_step : {s : System} (r : Run s) {u : System} → Step r.0 u → Run s
then_step r {u} st = (u, next r.1 st)

has_room : 0 < server.max_concurrent_fetches
unfolding with_defaults
has_room = omega arith

-- Call 0 fetches image `a` and holds it.
abbrev holding : Run (init server)
unfolding with_defaults acquire_cached_root lookup install_fetched install_root put attach_lease
    lease_root touch holds member same
holding =
    let r0 : Run (init server) = (init server, here) in
    let r1 = then_step r0 (miss _ 0 image_a 100 refl refl) in
    let r2 = then_step r1 (begin_fetch _ 0 image_a refl (omega arith)) in
    let r3 = then_step r2 (materialize _ 0 image_a dir_a refl refl) in
    let r4 = then_step r3 (install _ 0 image_a dir_a true 200 refl) in
    then_step r4 (attach _ 0 image_a 0 300 refl)

-- Then it lets the root go.
abbrev let_go_run : Run (init server)
unfolding holding release release_token
let_go_run = then_step holding (let_go _ 0 image_a 0 400 (inl refl))

-- And call 1 takes it from the cache.
abbrev hit_run : Run let_go_run.0
unfolding let_go_run
hit_run =
    let start : Run let_go_run.0 = (let_go_run.0, here) in
    then_step start (hit _ 1 image_a 0 500 refl refl)

leased_root_stays_example : lookup image_a holding.0.server.roots ≡ some 0
unfolding holding
leased_root_stays_example = (leased_root_stays options server_made holding.1 0 image_a 0 refl).0

root_count_bounded_example : root_count holding.0.server ≤ 3
unfolding holding
root_count_bounded_example = (root_count_bounded options server_made holding.1).0

no_leaked_lease_example : (let_go_run.0.server.heap 0).leases ≡ []
unfolding let_go_run
no_leaked_lease_example =
    no_leaked_lease options server_made let_go_run.1 0 (λ t ref. ground arith)
      (λ t ref. ground arith)

refused_iff_full_example :
    ((install_fetched true image_b 2 dir_b 600 holding.0.server).1 ≡ err slots_in_use) ↔ (
      (lookup image_b holding.0.server.roots ≡ none)
      × (holding.0.server.max_roots ≤ root_count holding.0.server)
      × NoneIdle holding.0.server holding.0.server.roots)
refused_iff_full_example = refused_iff_full options server_made holding.1 true image_b 2 dir_b 600

prefetched_root_stays_example : lookup image_a hit_run.0.server.roots ≡ some 0
unfolding hit_run member
prefetched_root_stays_example =
    prefetched_root_stays options server_made let_go_run.1 hit_run.1 image_a 0 refl refl

-- Calls 0 and 1 miss image `a`; 1 fetches it when 0 has done so, and cannot move its own aside.
abbrev second_fetch : Run (init server)
unfolding with_defaults acquire_cached_root lookup install_fetched install_root put attach_lease
    lease_root touch holds member same discard
second_fetch =
    let r0 : Run (init server) = (init server, here) in
    let r1 = then_step r0 (miss _ 0 image_a 100 refl refl) in
    let r2 = then_step r1 (miss _ 1 image_a 100 refl refl) in
    let r3 = then_step r2 (begin_fetch _ 0 image_a refl has_room) in
    let r4 = then_step r3 (materialize _ 0 image_a dir_a refl refl) in
    let r5 = then_step r4 (install _ 0 image_a dir_a true 200 refl) in
    let r6 = then_step r5 (begin_fetch _ 1 image_a refl has_room) in
    let r7 = then_step r6 (materialize _ 1 image_a dir_b refl refl) in
    then_step r7 (install _ 1 image_a dir_b false 300 refl)

-- Call 0 is in Materialize.
abbrev fetching_a : Run (init server)
unfolding with_defaults acquire_cached_root lookup
fetching_a =
    let r0 : Run (init server) = (init server, here) in
    let r1 = then_step r0 (miss _ 0 image_a 100 refl refl) in
    then_step r1 (begin_fetch _ 0 image_a refl has_room)

fetches_bounded_example :
    (active : List ℕ) × IsDistinct active
    × ((t : ℕ) → holds t active ≡ holds_slot (fetching_a.0.phase t))
    × (fetching_a.0.in_fetch ≡ length active)
    × (length active ≤ server.max_concurrent_fetches)
unfolding fetching_a
fetches_bounded_example = fetches_bounded options server_made fetching_a.1

abbrev root_a : Root
root_a = record { path = dir_a; leases = []; virtual_last_use = 7 * minute; idle_since = minute }

-- Two idle roots, of which `b` has less credit.
abbrev two_roots : Server
two_roots = record server {
  pinned = [];
  roots = (image_a, 0) ∷ (image_b, 1) ∷ [];
  heap = λ p. if p == 0 then root_a else record root_a { path = dir_b; virtual_last_use = minute };
  next_root = 2;
  roots_gauge = 2;
}

abbrev swapped : List Entry
swapped = (image_b, 1) ∷ (image_a, 0) ∷ []

same_map : (k : Text) → lookup k two_roots.roots ≡ lookup k swapped
unfolding lookup
same_map k = ground (arith, same_iff image_a k, same_iff image_b k)

pick_victim_example :
    ((pick_victim two_roots two_roots.roots none ≡ none) × NoneIdle two_roots two_roots.roots)
    ⊎ ((v : Entry) × (pick_victim two_roots two_roots.roots none ≡ some v)
        × IsVictim two_roots two_roots.roots v)
unfolding lookup same
pick_victim_example = pick_victim_lem two_roots two_roots.roots (refl, (refl, tt))

pick_victim_any_order_example :
    pick_victim two_roots two_roots.roots none ≡ pick_victim two_roots swapped none
unfolding lookup same
pick_victim_any_order_example =
    pick_victim_any_order two_roots two_roots.roots swapped (refl, (refl, tt)) (refl, (refl, tt))
      same_map

evicts_b : pick_victim two_roots two_roots.roots none ≡ some (image_b, 1)
unfolding pick_victim evictable is_better member text_lt
evicts_b = refl
