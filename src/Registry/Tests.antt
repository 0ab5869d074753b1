-- ===== src/Registry/Tests.antt =====
-- Sizes of images.
use bb_action_router.Base.{◌^◌, ◌≤◌, ◌≡◌, refl, ◌↔◌, [], ◌∷◌, arith}
use bb_action_router.Status.{ok, ◌>>=◌}
use bb_action_router.Registry.Puller.{total_size, validate_image_size}
use bb_action_router.Registry.Sizes.{sum, validate_image_size_lem}

-- The sizes add up to 2 ^ 63, which is negative as an int64.
accepts_sizes_that_wrap : validate_image_size 100 (ok (2 ^ 62 ∷ 2 ^ 62 ∷ [])) ≡ ok tt
unfolding validate_image_size total_size ◌>>=◌
accepts_sizes_that_wrap = refl

validate_image_size_example :
    (validate_image_size 100 (ok (60 ∷ 40 ∷ [])) ≡ ok tt) ↔ (sum (60 ∷ 40 ∷ []) ≤ 100)
unfolding sum
validate_image_size_example =
    validate_image_size_lem 100 (60 ∷ 40 ∷ []) (omega arith) (omega arith) (omega arith)
