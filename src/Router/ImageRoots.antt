-- ===== src/Router/ImageRoots.antt =====
-- mergeDockerRootOp.getDirDigest of op_merge.go, and pkg/blobstore/action_cache_ref_store.go: the
-- digest of the tree of an image, from the cache, from the action cache or by an upload. All at
-- one instance name and digest function, so a reference is the key.
use bb_action_router.Base.{
  Text, codes, same, same_iff, decimal, lookup, put, lookup-put, ℕ, suc, ◌≡◌, refl, sym, ap, subst,
  ◌∙◌, ◌⊎◌, inl, inr, Option, none, some, List, [], ◌∷◌, ◌++◌, arith, if◌then◌else◌, Bool-cases,
  Option-cases,
}
use bb_action_router.Status.{
  Error, Result, ok, err, status, wrap, internal, not_found, or_else, code_of, is_not_found,
  Result-cases, bind-ok, or_else-ok, ok-injective, ◌>>=◌,
}
use bb_action_router.Reapi.{Digest, Property}
use bb_action_router.Router.Config.{UnixUser}

-- The part of an ActionResult that is used: StderrDigest, which may be nil.
pub record ActionResult : Type 0 where
  pub stderr_digest : Option Digest

-- The user of the store, the marshalling of an action with these fields, the generator of digests,
-- the action cache, the check of a tree in storage, and the upload of an image.
pub record Services : Type 0 where
  pub build_user : UnixUser
  pub marshal_action : Digest → List Property → Result (List ℕ)
  pub generate_digest : List ℕ → Result Digest
  pub action_cache_get : Digest → Result ActionResult
  pub action_cache_put : Digest → ActionResult → Result (Unit {0})
  pub verify : Digest → Result (Unit {0})
  pub upload_image_to_cas : Text → Result Digest

abbrev pub output_of : ActionResult → Result Digest
output_of r = elim r.stderr_digest [
  | none ↦ err (status internal "Cache entry for ref %s has no output directory")
  | some d ↦ ok d
]

abbrev pub get_error : Error → Error
get_error e =
    if is_not_found (code_of e)
    then status not_found "Cache entry not found for ref %s"
    else wrap "Failed to get action result" e

-- UnixUser.String
unfoldable pub user_string : UnixUser → Text
user_string u =
    u.name
    ++ (codes ":x:"
        ++ (decimal (suc u.uid) u.uid [] ++ (codes ":" ++ decimal (suc u.gid) u.gid [])))

abbrev pub cache_key_command : Digest
cache_key_command = record {
  hash = codes "d0c4e70ac0000000000000000000000000000000000000000000000000000000";
  size_bytes = 0;
}

abbrev pub cache_key_properties : UnixUser → Text → List Property
cache_key_properties user ref =
    record { name = codes "container-image"; value = ref }
    ∷ record { name = codes "build-user"; value = user_string user }
    ∷ []

module _ (s : Services) where
  -- computeCacheKeyDigest
  unfoldable pub compute_cache_key : Text → Result Digest
  compute_cache_key ref =
      or_else (s.marshal_action cache_key_command (cache_key_properties s.build_user ref))
        (wrap "Failed to marshal cache key")
      >>= λ bytes. or_else (s.generate_digest bytes) (wrap "Failed to generate cache key digest")

  -- ActionCacheRefStore.Get
  unfoldable pub ref_store_get : Text → Result Digest
  ref_store_get ref = compute_cache_key ref >>= λ key.
      or_else (s.action_cache_get key) get_error >>= λ r. output_of r

  -- ActionCacheRefStore.Put
  unfoldable pub ref_store_put : Text → Digest → Result (Unit {0})
  ref_store_put ref root = compute_cache_key ref >>= λ key.
      or_else (s.action_cache_put key (record { stderr_digest = some root }))
        (wrap "Failed to store action result")

  unfoldable pub get_verified_from_ref_store : Text → Result Digest
  get_verified_from_ref_store ref = ref_store_get ref >>= λ root. s.verify root >>= λ _. ok root

  unfoldable pub upload_image : Text → Result Digest
  upload_image ref = s.upload_image_to_cas ref >>= λ root.
      or_else (ref_store_put ref root) (wrap "Error associating digest with ref") >>= λ _. ok root

  -- The function that the singleflight group runs, without the write to the cache.
  unfoldable pub fetch_dir_digest : Text → Result Digest
  fetch_dir_digest ref = elim (get_verified_from_ref_store ref) [
    | ok root ↦ ok root
    | err e ↦
        if is_not_found (code_of e)
        then upload_image ref
        else err (wrap "Error reading from action cache docker ref store" e)
  ]

  -- The result, and the cache afterwards.
  unfoldable pub get_dir_digest : Text → List (Text × Digest) → Result Digest × List (Text × Digest)
  get_dir_digest ref cache = elim (lookup ref cache) [
    | some root ↦ (ok root, cache)
    | none ↦ elim (fetch_dir_digest ref) [
      | ok root ↦ (ok root, put ref root cache)
      | err e ↦ (err e, cache)
    ]
  ]

  -- Every cached root was found verified in the action cache or was uploaded and stored there.
  pub data Known (ref : Text) (root : Digest) : Type 0 where
    verified : ref_store_get ref ≡ ok root → s.verify root ≡ ok tt → Known ref root
    uploaded : s.upload_image_to_cas ref ≡ ok root → ref_store_put ref root ≡ ok tt → Known ref root

  abbrev pub AllKnown : List (Text × Digest) → Type 0
  AllKnown cache = (ref : Text) (root : Digest) → lookup ref cache ≡ some root → Known ref root

  get_verified-Known :
      (ref : Text) (root : Digest) → get_verified_from_ref_store ref ≡ ok root → Known ref root
  unfolding get_verified_from_ref_store
  get_verified-Known ref root e =
      let (d, stored, e₁) = bind-ok _ _ root e in
      let (u, checked, e₂) = bind-ok _ _ root e₁ in
      let same_root = ok-injective e₂ in
      verified (stored ∙ ap ok same_root) (ap s.verify (sym same_root) ∙ checked)

  upload_image-Known : (ref : Text) (root : Digest) → upload_image ref ≡ ok root → Known ref root
  unfolding upload_image
  upload_image-Known ref root e =
      let (d, sent, e₁) = bind-ok _ _ root e in
      let (u, stored, e₂) = bind-ok _ _ root e₁ in
      let same_root = ok-injective e₂ in
      uploaded (sent ∙ ap ok same_root)
        (ap (ref_store_put ref) (sym same_root) ∙ or_else-ok (ref_store_put ref d) _ u stored)

  fetch_dir_digest-Known :
      (ref : Text) (root : Digest) → fetch_dir_digest ref ≡ ok root → Known ref root
  unfolding fetch_dir_digest
  fetch_dir_digest-Known ref root e = elim (Result-cases (get_verified_from_ref_store ref)) [
    | inl (r, f) ↦
        let found : fetch_dir_digest ref ≡ ok r = rw (f, fetch_dir_digest) refl in
        get_verified-Known ref root (f ∙ (sym found ∙ e))
    | inr (x, f) ↦ elim (Bool-cases (is_not_found (code_of x))) [
      | inl g ↦
          let next : fetch_dir_digest ref ≡ upload_image ref = rw (f, fetch_dir_digest, g) refl in
          upload_image-Known ref root (sym next ∙ e)
      | inr g ↦
          let fails : fetch_dir_digest ref
              ≡ err (wrap "Error reading from action cache docker ref store" x) =
            rw (f, fetch_dir_digest, g) refl in
          cc (fails, e)
    ]
  ]

  put-AllKnown :
      (ref : Text) (root : Digest) (cache : List (Text × Digest))
      → Known ref root
      → AllKnown cache
      → AllKnown (put ref root cache)
  put-AllKnown ref root cache k known asked d e = elim (Bool-cases (same ref asked)) [
    | inl f ↦
        let same_root : some root ≡ some d =
          sym (lookup-put ref asked root cache ∙ rw f refl) ∙ e in
        subst (λ j. Known j d) ((same_iff ref asked).0 f) (subst (Known ref) (ground arith) k)
    | inr f ↦ known asked d (ground (arith, lookup-put ref asked root cache))
  ]

  lookup-same :
      (ref asked : Text) (root : Digest) (cache : List (Text × Digest))
      → lookup ref cache ≡ some root
      → lookup asked cache ≡ (if same ref asked then some root else lookup asked cache)
  lookup-same ref asked root cache e = elim (Bool-cases (same ref asked)) [
    | inl f ↦ rw f (ap (λ j. lookup j cache) (sym ((same_iff ref asked).0 f)) ∙ e)
    | inr f ↦ rw f refl
  ]

  get_dir_digest-hit :
      (ref : Text) (cache : List (Text × Digest)) (root : Digest)
      → lookup ref cache ≡ some root
      → get_dir_digest ref cache ≡ (ok root, cache)
  unfolding get_dir_digest
  get_dir_digest-hit ref cache root e = rw (e, get_dir_digest) refl

  get_dir_digest-ok :
      (ref : Text) (cache : List (Text × Digest)) (root : Digest)
      → lookup ref cache ≡ none
      → fetch_dir_digest ref ≡ ok root
      → get_dir_digest ref cache ≡ (ok root, put ref root cache)
  unfolding get_dir_digest
  get_dir_digest-ok ref cache root e f = rw (e, f, get_dir_digest) refl

  get_dir_digest-err :
      (ref : Text) (cache : List (Text × Digest)) (x : Error)
      → lookup ref cache ≡ none
      → fetch_dir_digest ref ≡ err x
      → get_dir_digest ref cache ≡ (err x, cache)
  unfolding get_dir_digest
  get_dir_digest-err ref cache x e f = rw (e, f, get_dir_digest) refl

  -- A known digest that the cache now has beside its other entries, or an error and the old cache.
  abbrev pub Answers : Text → List (Text × Digest) → Result Digest × List (Text × Digest) → Type 0
  Answers ref cache r =
      AllKnown r.1
      × (((root : Digest) × (r.0 ≡ ok root)
            × Known ref root
            × ((k : Text) → lookup k r.1 ≡ (if same ref k then some root else lookup k cache)))
          ⊎ ((x : Error) × (r.0 ≡ err x) × (r.1 ≡ cache)))

  -- If every root in the cache was once verified or uploaded, then so is every root afterwards,
  -- and so is the digest that is returned. On success the cache has that digest and has kept its
  -- other entries, and on failure the cache is as it was.
  pub get_dir_digest-Answers :
      (ref : Text) (cache : List (Text × Digest))
      → AllKnown cache
      → Answers ref cache (get_dir_digest ref cache)
  get_dir_digest-Answers ref cache known = elim (Option-cases (lookup ref cache)) [
    | inr (root, e) ↦
        subst (Answers ref cache) (sym (get_dir_digest-hit ref cache root e))
          (known, inl (root, refl, known ref root e, λ k. lookup-same ref k root cache e))
    | inl e ↦ elim (Result-cases (fetch_dir_digest ref)) [
      | inl (root, f) ↦
          let k = fetch_dir_digest-Known ref root f in
          subst (Answers ref cache) (sym (get_dir_digest-ok ref cache root e f)) (
            put-AllKnown ref root cache k known,
            inl (root, refl, k, λ asked. lookup-put ref asked root cache),
          )
      | inr (x, f) ↦
          subst (Answers ref cache) (sym (get_dir_digest-err ref cache x e f))
            (known, inr (x, refl, refl))
    ]
  ]
