-- ===== src/Fetcher/Pins.antt =====
-- NewServer: its options and the pinned images.
use bb_action_router.Base.{
  Text, same_iff, member, ℕ, ◌*◌, ◌≤◌, ◌<◌, ◌≡◌, refl, List, [], ◌∷◌, arith, length,
}
use bb_action_router.Fetcher.Options.{Options, with_defaults, pin_all}
use bb_action_router.Fetcher.Server.{Server, ok, new_server}

pub record IsSane (o : Options) : Type 0 where
  pub some_root : 1 ≤ o.max_roots
  pub some_fetch : 1 ≤ o.max_concurrent_fetches
  pub some_boost : 1 ≤ o.use_boost
  pub boost_fits : o.use_boost ≤ o.max_use_boost

with_defaults-IsSane : (o : Options) → IsSane (with_defaults o)
unfolding with_defaults
with_defaults-IsSane o = ground arith

pub member-pin_all : (k : Text) (images : List Text) → member k (pin_all images) ≡ member k images
unfolding pin_all member
member-pin_all k [] = refl
member-pin_all k (i ∷ is) = ground (arith, member-pin_all k is, member-pin_all i is, same_iff i k)

-- A server that NewServer returns has sane options whatever it was given, pins exactly the
-- prefetched images, and has more than twice as many slots as pinned images; its cache is empty.
pub new_server-IsSane :
    (o : Options) (s : Server)
    → new_server o ≡ ok s
    → IsSane s.options
      × ((k : Text) → member k s.pinned ≡ member k o.prefetch_images)
      × (2 * length s.pinned < s.max_roots)
      × (s.roots ≡ [])
unfolding new_server
new_server-IsSane o s h = (
  ground (arith, with_defaults-IsSane o),
  λ k. ground (arith, member-pin_all k (with_defaults o).prefetch_images),
  ground arith,
  ground arith,
)

-- The rest of the state of a new server.
pub record IsNew (s : Server) : Type 0 where
  pub roots : s.roots ≡ []
  pub leases : (q : ℕ) → (s.heap q).leases ≡ []
  pub gauge : s.roots_gauge ≡ 0
  pub trash : s.trash ≡ []
  pub disk : s.disk ≡ []
  pub doomed : s.doomed ≡ []

pub new_server-IsNew : (o : Options) (s : Server) → new_server o ≡ ok s → IsNew s
unfolding new_server
new_server-IsNew o s h = ground arith
