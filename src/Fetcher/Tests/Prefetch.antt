-- ===== src/Fetcher/Tests/Prefetch.antt =====
-- PrefetchImages on a server with one image to prefetch.
use bb_action_router.Base.{
  Text, same, lookup, put, member, holds, release_token, ℕ, ◌≡◌, refl, inl, inr, true, some, List,
  [], ◌∷◌, if◌then◌else◌, Bool-cases,
}
use bb_action_router.Status.{Result, ok, err, external, internal}
use bb_action_router.Fetcher.Options.{with_defaults}
use bb_action_router.Fetcher.Server.{
  acquire_cached_root, install_fetched, install_root, attach_lease, lease_root, touch, release,
}
use bb_action_router.Fetcher.System.{init}
use bb_action_router.Fetcher.System.Alone.{
  Makes, as_before, acquire_alone, advance_all, advance, made, begin_call, looked_up, outcome,
  let_go_call,
}
use bb_action_router.Fetcher.System.Prefetch.{prefetched, prefetch_images}
use bb_action_router.Fetcher.System.Prefetched.{AllPrefetched, prefetch_images_lem}
use bb_action_router.Fetcher.Tests.{image_a, dir_a, options, server, server_made}

-- One directory, which is made when it is not there.
abbrev make_a : ℕ → Text → List Text → Result Text × List Text
make_a t ref disk =
    if member dir_a disk then (err (external internal), disk) else (ok dir_a, dir_a ∷ disk)

make_a-Makes :
    (t : ℕ) (ref : Text) (disk : List Text) → Makes (make_a t) t 100 true disk (make_a t ref disk)
make_a-Makes t ref disk = elim (Bool-cases (member dir_a disk)) [
  | inl there ↦ rw there as_before
  | inr free ↦ rw free (disk, as_before, free, refl)
]

prefetch_images_example :
    let s =
      prefetch_images make_a
        (λ _. 100)
        (λ _. true)
        (external internal)
        0
        (image_a ∷ [])
        (init server) in
    AllPrefetched make_a (λ _. 100) (λ _. true) (external internal) s 0 (image_a ∷ []) (init server)
    × ((p : ℕ) → (s.server.heap p).leases ≡ [])
    × (s.in_fetch ≡ 0)
unfolding server
prefetch_images_example =
    prefetch_images_lem make_a (λ _. 100) (λ _. true) (external internal) options server_made
      make_a-Makes

caches_a :
    lookup image_a
      (prefetch_images make_a
        (λ _. 100)
        (λ _. true)
        (external internal)
        0
        (image_a ∷ [])
        (init server)).roots
    ≡ some 0
unfolding server with_defaults member same acquire_alone advance_all advance made begin_call
    looked_up outcome let_go_call acquire_cached_root lookup install_fetched install_root put
    attach_lease lease_root touch holds release release_token prefetch_images prefetched
caches_a = refl
