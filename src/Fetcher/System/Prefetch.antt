-- ===== src/Fetcher/System/Prefetch.antt =====
-- PrefetchImages of pkg/fetcher/server.go when no other call comes between its steps. Each image has a
-- call of its own, numbered from the first; its timeout is one of the ways in which Materialize fails.
use bb_action_router.Base.{Text, ℕ, suc, Bool, List, [], ◌∷◌}
use bb_action_router.Status.{Error, Result, ok, err}
use bb_action_router.Fetcher.System.{System}
use bb_action_router.Fetcher.System.Alone.{acquire_alone}

module _ (make : ℕ → Text → List Text → Result Text × List Text) (now : ℕ → ℕ) (renamed : ℕ → Bool)
    (refusal : Error) where
  -- The root is let go at once; an error is only logged.
  unfoldable pub prefetched : Result (Text × (System → System)) × System → System
  prefetched (err e, s) = s
  prefetched (ok (path, release_root), s) = release_root s

  unfoldable pub prefetch_images : ℕ → List Text → System → System
  prefetch_images t [] s = s
  prefetch_images t (image ∷ images) s =
      prefetch_images (suc t) images
        (prefetched (acquire_alone (make t) t (now t) (renamed t) refusal image s))
