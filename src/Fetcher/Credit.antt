-- ===== src/Fetcher/Credit.antt =====
-- The use credit of a root: a "last used" time on a clock that runs ahead of the real one.
use bb_action_router.Base.{ℕ, ◌+◌, ◌≤◌, ◌≡◌, ◌<◌, ◌↔◌, arith}
use bb_action_router.Fetcher.Options.{Options}
use bb_action_router.Fetcher.Server.{Root, touch}

-- If a boost is within the cap and the credit of the root is too, a use moves the credit to at
-- least one boost and at most the cap ahead of the clock, never takes credit away, adds a full
-- boost where the cap leaves room for it, and changes nothing else in the root.
pub touch_credit :
    (o : Options) (now : ℕ) (r : Root)
    → o.use_boost ≤ o.max_use_boost
    → r.virtual_last_use ≤ now + o.max_use_boost
    → let t = touch o now r in
      (now + o.use_boost ≤ t.virtual_last_use)
      × (t.virtual_last_use ≤ now + o.max_use_boost)
      × (r.virtual_last_use ≤ t.virtual_last_use)
      × (r.virtual_last_use + o.use_boost ≤ now + o.max_use_boost
          → r.virtual_last_use + o.use_boost ≤ t.virtual_last_use)
      × (t.path ≡ r.path)
      × (t.leases ≡ r.leases)
      × (t.idle_since ≡ r.idle_since)
unfolding touch
touch_credit o now r fits capped = ground arith

-- With a cap equal to the boost the policy is plain LRU: whatever credit two roots had, the one
-- touched earlier on the clock is strictly behind the one touched later, and only then.
pub touch_lru :
    (o : Options) (earlier later : ℕ) (r q : Root)
    → o.max_use_boost ≡ o.use_boost
    → ((touch o earlier r).virtual_last_use < (touch o later q).virtual_last_use)
      ↔ (earlier < later)
unfolding touch
touch_lru o earlier later r q e = (ground arith, ground arith)
