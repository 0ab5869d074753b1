-- ===== src/Registry/Puller.antt =====
-- pkg/docker/image_puller.go. The client of the registry is a parameter.
use bb_action_router.Base.{
  Text, lookup, ℕ, ◌+◌, ◌%◌, ◌^◌, Bool, not, Option, none, some, List, [], ◌∷◌, ltb, if◌then◌else◌,
}
use bb_action_router.Status.{
  Result, ok, err, status, wrap, wrap_with_code, invalid_argument, or_else, ◌>>=◌,
}
use bb_action_router.Fetcher.RegistryAuth.{RegistryAuth}
use bb_action_router.Registry.References.{Reference}

pub data Authenticator : Type 0 where
  anonymous_access : Authenticator
  basic : Text → Text → Authenticator

unfoldable pub authenticator : Option RegistryAuth → Authenticator
authenticator none = anonymous_access
authenticator (some auth) =
    if auth.anonymous_token then anonymous_access else basic auth.username auth.password

unfoldable pub get_auth_for_registry : List (Text × RegistryAuth) → Text → Authenticator
get_auth_for_registry auth_config host = authenticator (lookup host auth_config)

-- An int64 is its pattern of 64 bits, and is compared by its value.
abbrev pub int64 : ℕ
int64 = 2 ^ 64

abbrev pub greater : ℕ → ℕ → Bool
greater a b = ltb ((b + 2 ^ 63) % 2 ^ 64) ((a + 2 ^ 63) % 2 ^ 64)

unfoldable pub total_size : List ℕ → ℕ → ℕ
total_size [] total = total
total_size (size ∷ sizes) total = total_size sizes ((total + size) % 2 ^ 64)

-- The sizes of the layers that the manifest lists, against the limit.
unfoldable pub validate_image_size : ℕ → Result (List ℕ) → Result (Unit {0})
validate_image_size maximum manifest =
    if not (greater maximum 0)
    then ok tt
    else or_else manifest (wrap "Failed to get image manifest") >>= λ sizes.
        if greater (total_size sizes 0) maximum
        then err (status invalid_argument "Image size %.2f MB exceeds maximum allowed size %.2f MB")
        else ok tt

-- A context with a deadline holds resources until it is cancelled.
pub data Context : Type 0 where
  background : Context
  with_timeout : ℕ → Context
  cancelled : Context

pub record Registry (Descriptor Image : Type 0) : Type 0 where
  pub parse_reference : Text → Result Reference
  pub get : Reference → Authenticator → Context → Result Descriptor
  pub image : Descriptor → Result Image
  pub manifest : Image → Result (List ℕ)

pub record ImagePuller : Type 0 where
  pub auth_config : List (Text × RegistryAuth)
  pub maximum_image_size_bytes : ℕ
  pub pull_timeout : ℕ

module _ {Descriptor Image : Type 0} (r : Registry Descriptor Image) (p : ImagePuller) where
  unfoldable pub get_image_from_ref_impl : Context → Text → Result Image
  get_image_from_ref_impl ctx ref =
      or_else (r.parse_reference ref)
        (wrap_with_code invalid_argument "Failed to parse image reference")
      >>= λ reference.
          or_else (r.get reference (get_auth_for_registry p.auth_config reference.registry) ctx)
            (wrap "Failed to fetch image descriptor")
          >>= λ desc. or_else (r.image desc) (wrap "Failed to get image from descriptor") >>= λ img.
              validate_image_size p.maximum_image_size_bytes (r.manifest img) >>= λ u. ok img

  abbrev pub pull_context : Context
  pull_context = if greater p.pull_timeout 0 then with_timeout p.pull_timeout else background

  -- What the CancelFunc of GetImageFromRef does, which does nothing without a timeout.
  abbrev pub cancel : Context → Context
  cancel background = background
  cancel (with_timeout t) = cancelled
  cancel cancelled = cancelled

  -- The context that the image is left with. After an error it has been cancelled.
  unfoldable pub get_image_from_ref : Text → Result Image × Context
  get_image_from_ref ref = elim (get_image_from_ref_impl pull_context ref) [
    | err e ↦ (err e, cancel pull_context)
    | ok img ↦ (ok img, pull_context)
  ]
