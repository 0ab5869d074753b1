-- ===== src/Fetcher/Credentials.antt =====
-- Which credentials a registry gets from ParseRegistryAuth.
use bb_action_router.Base.{
  Text, same, same_iff, lookup, put, lookup-nil, lookup-put, IsMap, put-IsMap, ℕ, ◌≡◌, refl, sym,
  ap, subst, ◌∙◌, Option, none, some, List, [], ◌∷◌, arith, if◌then◌else◌,
}
use bb_action_router.Status.{Result, ok, err, bind-ok, or_else-ok, ok-injective}
use bb_action_router.Fetcher.RegistryAuth.{
  RegistryAuth, Credentials, AuthConfig, anonymous, inline, credentials_json_path, unset,
  anonymous_auth, login, put_all, load_credentials_from_file, add_all, add_config, add_configs,
  parse_registry_auth,
}

abbrev pub first_of : Option RegistryAuth → Option RegistryAuth → Option RegistryAuth
first_of none o = o
first_of (some v) o = some v

-- The credentials of one registry, if the text names it.
abbrev only : Text → RegistryAuth → Text → Option RegistryAuth
only registry auth asked =
    if same registry [] then none else if same registry asked then some auth else none

abbrev from_file : Result (List (Text × RegistryAuth)) → Text → Option RegistryAuth
from_file (ok m) asked = lookup asked m
from_file (err e) asked = none

put_all-IsMap :
    (entries : List (Text × Credentials)) (m : List (Text × RegistryAuth))
    → IsMap m
    → IsMap (put_all entries m)
unfolding put_all
put_all-IsMap [] m h = h
put_all-IsMap ((registry, creds) ∷ entries) m h =
    put_all-IsMap entries (put registry (login creds) m) (put-IsMap registry (login creds) m h)

first_of_assoc :
    (a b d : Option RegistryAuth) → first_of a (first_of b d) ≡ first_of (first_of a b) d
first_of_assoc none b d = refl
first_of_assoc (some v) b d = refl

first_of-none : (a : Option RegistryAuth) → first_of a none ≡ a
first_of-none none = refl
first_of-none (some v) = refl

lookup-only :
    (registry asked : Text) (auth : RegistryAuth) (m next : List (Text × RegistryAuth))
    → (if same registry [] then m else put registry auth m) ≡ next
    → lookup asked next ≡ first_of (only registry auth asked) (lookup asked m)
lookup-only registry asked auth m next e =
    ap (lookup asked) (sym e) ∙ ground (arith, lookup-put registry asked auth m)

module _ (read_file : Text → Result (List ℕ))
    (parse_json : List ℕ → Result (List (Text × Credentials))) where
  abbrev load : Text → Result (List (Text × RegistryAuth))
  load = load_credentials_from_file read_file parse_json

  -- What one configuration says of a registry.
  abbrev says : AuthConfig → Text → Option RegistryAuth
  says (anonymous registry) asked = only registry anonymous_auth asked
  says (inline registry creds) asked = only registry (login creds) asked
  says (credentials_json_path path) asked = from_file (load path) asked
  says unset asked = none

  -- What the last configuration that says anything says of it.
  unfoldable pub last_word : List AuthConfig → Text → Option RegistryAuth
  last_word [] asked = none
  last_word (config ∷ configs) asked = first_of (last_word configs asked) (says config asked)

  load-IsMap : (path : Text) (m : List (Text × RegistryAuth)) → load path ≡ ok m → IsMap m
  unfolding load_credentials_from_file
  load-IsMap path m e =
      let (text, _, e₁) = bind-ok _ _ m e in
      let (auths, _, e₂) = bind-ok _ _ m e₁ in
      subst IsMap (ok-injective e₂) (put_all-IsMap auths [] tt)

  lookup-add_all :
      (entries m : List (Text × RegistryAuth)) (asked : Text)
      → IsMap entries
      → lookup asked (add_all read_file parse_json entries m)
        ≡ first_of (lookup asked entries) (lookup asked m)
  unfolding add_all lookup
  lookup-add_all [] m asked h = refl
  lookup-add_all ((k, v) ∷ entries) m asked h =
      lookup-add_all entries (put k v m) asked h.1
      ∙ ground (arith, lookup-put k asked v m, same_iff k asked, h.0)

  lookup-add_config :
      (config : AuthConfig) (m next : List (Text × RegistryAuth)) (asked : Text)
      → add_config read_file parse_json config m ≡ ok next
      → lookup asked next ≡ first_of (says config asked) (lookup asked m)
  unfolding add_config
  lookup-add_config (anonymous registry) m next asked e =
      lookup-only registry asked anonymous_auth m next (ok-injective e)
  lookup-add_config (inline registry creds) m next asked e =
      lookup-only registry asked (login creds) m next (ok-injective e)
  lookup-add_config (credentials_json_path path) m next asked e =
      let (file, loaded, e₁) = bind-ok _ _ next e in
      let read = or_else-ok (load path) _ file loaded in
      ap (lookup asked) (sym (ok-injective e₁))
      ∙ (lookup-add_all file m asked (load-IsMap path file read)
          ∙ ap (λ r. first_of (from_file r asked) (lookup asked m)) (sym read))
  lookup-add_config unset m next asked e = ap (lookup asked) (sym (ok-injective e))

  lookup-add_configs :
      (configs : List AuthConfig) (m next : List (Text × RegistryAuth)) (asked : Text)
      → add_configs read_file parse_json configs m ≡ ok next
      → lookup asked next ≡ first_of (last_word configs asked) (lookup asked m)
  unfolding add_configs last_word
  lookup-add_configs [] m next asked e = ap (lookup asked) (sym (ok-injective e))
  lookup-add_configs (config ∷ configs) m next asked e =
      let (between, added, e₁) = bind-ok _ _ next e in
      rw
        (
          lookup-add_configs configs between next asked e₁,
          lookup-add_config config m between asked added,
        )
        (first_of_assoc (last_word configs asked) (says config asked) (lookup asked m))

  -- If the configuration is accepted, each registry has the credentials of the last entry that
  -- gives it any: an entry for that registry with or without a login, or a file that lists it.
  pub parse_registry_auth_lem :
      (configs : List AuthConfig) (m : List (Text × RegistryAuth)) (asked : Text)
      → parse_registry_auth read_file parse_json configs ≡ ok m
      → lookup asked m ≡ last_word configs asked
  unfolding parse_registry_auth
  parse_registry_auth_lem configs m asked e =
      lookup-add_configs configs [] m asked e
      ∙ rw (lookup-nil {V = RegistryAuth} asked) (first_of-none (last_word configs asked))
