-- ===== src/Registry/References.antt =====
-- pkg/docker/image_ref.go. Parsing a reference is a parameter.
use bb_action_router.Base.{
  Text, codes, same, strip_prefix, ℕ, Bool, true, ◌&&◌, ◌||◌, Option, none, some, [], ◌∷◌, leb,
  ◌==◌, if◌then◌else◌, length,
}
use bb_action_router.Status.{Result, ok, err, status, unknown, errorf, or_else, ◌>>=◌}

-- What name.ParseReference makes of a reference, as far as it is used.
pub record Reference : Type 0 where
  pub registry : Text

abbrev pub is_hex : ℕ → Bool
is_hex c = (leb b'0' c && leb c b'9') || (leb b'a' c && leb c b'f')

unfoldable pub all_hex : Text → Bool
all_hex [] = true
all_hex (c ∷ s) = is_hex c && all_hex s

abbrev pub digest_mark : Text
digest_mark = codes "@sha256:"

-- The digits of a match of the pattern that begins with the text.
unfoldable pub match_here : Text → Option Text
match_here s =
    let r = strip_prefix digest_mark s in
    if r.0 && (all_hex r.1 && length r.1 == 64) then some r.1 else none

-- A match at the first place where there is one; the pattern ends with the text.
unfoldable pub find_digest : Text → Option Text
find_digest [] = none
find_digest (c ∷ s) = elim (match_here (c ∷ s)) [ some digits ↦ some digits | none ↦ find_digest s ]

module _ (parse_reference : Text → Result Reference) where
  unfoldable pub validate_image_reference : Text → Result (Unit {0})
  validate_image_reference ref =
      if same ref []
      then err (status unknown "image reference cannot be empty")
      else or_else (parse_reference ref) (errorf "invalid image reference: %w") >>= λ parsed.
          elim (find_digest ref) [
            | none ↦ err (
                status unknown
                  "must use SHA256 digest format (e.g., registry/image@sha256:...), got: %s")
            | some digits ↦ ok tt
          ]

  unfoldable pub get_registry_hostname : Text → Result Text
  get_registry_hostname ref =
      or_else (parse_reference ref) (errorf "invalid image reference: %w") >>= λ r. ok r.registry
