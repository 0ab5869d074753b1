-- ===== src/Fetcher/Options.antt =====
-- ServerOptions and the part of NewServer that fills in its defaults and refuses too many pins.
-- Durations are nanoseconds. A negative value acts as 0 in every test, so the fields are natural.
use bb_action_router.Base.{
  ℕ, ◌*◌, Bool, List, [], ◌∷◌, Text, member, ltb, leb, length, if◌then◌else◌,
}

abbrev pub minute : ℕ
minute = 60_000_000_000

abbrev pub default_use_boost : ℕ
default_use_boost = 5 * minute

abbrev pub default_max_use_boost : ℕ
default_max_use_boost = 30 * minute

pub record Options : Type 0 where
  pub max_roots : ℕ
  pub max_concurrent_fetches : ℕ
  pub acquire_timeout : ℕ
  pub prefetch_images : List Text
  pub use_boost : ℕ
  pub max_use_boost : ℕ

-- The `if` statements at the head of NewServer, in their order.
unfoldable pub with_defaults : Options → Options
with_defaults o =
    let boost = if leb o.use_boost 0 then default_use_boost else o.use_boost in
    let ceiling = if leb o.max_use_boost 0 then default_max_use_boost else o.max_use_boost in
    record o {
      max_roots = if ltb o.max_roots 1 then 1 else o.max_roots;
      max_concurrent_fetches =
          if ltb o.max_concurrent_fetches 1 then 1 else o.max_concurrent_fetches;
      use_boost = boost;
      max_use_boost = if ltb ceiling boost then boost else ceiling;
    }

-- The set `pinned`, filled image by image.
unfoldable pub pin_all : List Text → List Text
pin_all [] = []
pin_all (image ∷ images) =
    let rest = pin_all images in if member image rest then rest else image ∷ rest

-- The refusal: the pinned images would take half of the slots or more.
unfoldable pub too_many_pins : Options → List Text → Bool
too_many_pins o pinned = leb o.max_roots (2 * length pinned)
