-- ===== src/Router/Config.antt =====
-- The messages that configure the pipeline, and BuildUserFromProto of build_user.go.
use bb_action_router.Base.{
  Text, codes, same, same_iff, ℕ, ◌≡◌, refl, ◌≢◌, ◌⊎◌, inl, inr, Option, none, some, List, [],
  arith, ◌==◌, if◌then◌else◌, Bool-cases,
}
use bb_action_router.Fetcher.RegistryAuth.{AuthConfig}
use bb_action_router.Status.{Error, Result, ok, err, status, invalid_argument}

pub record BuildUser : Type 0 where
  pub uid : ℕ
  pub gid : ℕ
  pub name : Text

-- blobstore.UnixUser
pub record UnixUser : Type 0 where
  pub uid : ℕ
  pub gid : ℕ
  pub name : Text

pub record AdditionConfig : Type 0 where
  pub name : Text
  pub value : Text

pub record MergeConfig : Type 0 where
  pub image_ref : Text
  pub maximum_image_size_bytes : ℕ
  pub image_pull_timeout : Option ℕ
  pub registry_authentication : List AuthConfig
  pub build_user : Option BuildUser

pub data Kind : Type 0 where
  assert_config : Text → Text → Kind
  map_config : Text → List (Text × Text) → Kind
  edit_platform_config : List Text → List AdditionConfig → Kind
  edit_command_config : List Text → List Text → Kind
  edit_environment_config : List Text → List (Text × Text) → Kind
  merge_config : MergeConfig → Kind

-- An operation whose kind is not set is `none`.
pub record OperationConfig : Type 0 where
  pub kind : Option Kind
  pub condition : Text

pub record PipelineConfig : Type 0 where
  pub condition : Text
  pub operations : List OperationConfig

abbrev pub default_build_user : UnixUser
default_build_user = record { uid = 0; gid = 0; name = codes "root" }

unfoldable pub build_user_from_proto : Option BuildUser → Result UnixUser
build_user_from_proto none = ok default_build_user
build_user_from_proto (some m) =
    if same m.name []
    then if m.uid == 0
      then ok (record { uid = m.uid; gid = m.gid; name = default_build_user.name })
      else err (status invalid_argument "build_user.name must be set for uid %d")
    else ok (record { uid = m.uid; gid = m.gid; name = m.name })

-- A message that is present is refused exactly if it has a user id other than 0 and no name. The
-- user that results has the ids of the message and a name, which is that of the message unless it
-- is empty.
pub build_user_from_proto_lem :
    (b : BuildUser)
    → ((e : Error) × (build_user_from_proto (some b) ≡ err e) × (b.name ≡ []) × (b.uid ≢ 0))
      ⊎ ((u : UnixUser) × (build_user_from_proto (some b) ≡ ok u)
          × (u.uid ≡ b.uid)
          × (u.gid ≡ b.gid)
          × (u.name ≢ [])
          × ((b.name ≡ u.name) ⊎ ((b.name ≡ []) × (b.uid ≡ 0))))
unfolding build_user_from_proto
build_user_from_proto_lem b = elim (Bool-cases (same b.name [])) [
  | inl e ↦ elim (Bool-cases (b.uid == 0)) [
    | inl f ↦ inr (
      record { uid = b.uid; gid = b.gid; name = codes "root" },
      rw (e, f) refl,
      refl,
      refl,
      (λ h. ground arith),
      inr ((same_iff b.name []).0 e, ground arith),
    )
    | inr f ↦ inl (
      status invalid_argument "build_user.name must be set for uid %d",
      rw (e, f) refl,
      (same_iff b.name []).0 e,
      ground arith,
    )
  ]
  | inr e ↦ inr (
    record { uid = b.uid; gid = b.gid; name = b.name },
    rw e refl,
    refl,
    refl,
    (λ h. ground (arith, same_iff b.name [])),
    inl refl,
  )
]
