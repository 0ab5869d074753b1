-- ===== src/Fetcher/RegistryAuth.antt =====
-- pkg/fetcher/registry_auth.go: the credentials of the registries. Reading a file and parsing its
-- JSON are parameters.
use bb_action_router.Base.{Text, same, put, ℕ, Bool, true, false, List, [], ◌∷◌, if◌then◌else◌}
use bb_action_router.Status.{Result, ok, errorf, or_else, ◌>>=◌}

-- docker.RegistryAuth
pub record RegistryAuth : Type 0 where
  pub anonymous_token : Bool
  pub username : Text
  pub password : Text

-- An entry of dockerAuthConfig.
pub record Credentials : Type 0 where
  pub username : Text
  pub password : Text

pub data AuthConfig : Type 0 where
  anonymous : Text → AuthConfig
  inline : Text → Credentials → AuthConfig
  credentials_json_path : Text → AuthConfig
  -- The oneof is not set.
  unset : AuthConfig

abbrev pub anonymous_auth : RegistryAuth
anonymous_auth = record { anonymous_token = true; username = []; password = [] }

abbrev pub login : Credentials → RegistryAuth
login creds = record {
  anonymous_token = false;
  username = creds.username;
  password = creds.password;
}

-- The loop that writes the entries of a file into a map.
unfoldable pub put_all :
    List (Text × Credentials) → List (Text × RegistryAuth) → List (Text × RegistryAuth)
put_all [] m = m
put_all ((registry, creds) ∷ entries) m = put_all entries (put registry (login creds) m)

module _ (read_file : Text → Result (List ℕ))
    (parse_json : List ℕ → Result (List (Text × Credentials))) where
  unfoldable pub load_credentials_from_file : Text → Result (List (Text × RegistryAuth))
  load_credentials_from_file path =
      read_file path >>= λ data_. parse_json data_ >>= λ auths. ok (put_all auths [])

  -- The loop that overwrites what is in the map by what a file says.
  unfoldable pub add_all :
      List (Text × RegistryAuth) → List (Text × RegistryAuth) → List (Text × RegistryAuth)
  add_all [] m = m
  add_all ((registry, auth) ∷ entries) m = add_all entries (put registry auth m)

  unfoldable pub add_config :
      AuthConfig → List (Text × RegistryAuth) → Result (List (Text × RegistryAuth))
  add_config (anonymous registry) m =
      ok (if same registry [] then m else put registry anonymous_auth m)
  add_config (inline registry creds) m =
      ok (if same registry [] then m else put registry (login creds) m)
  add_config (credentials_json_path path) m =
      or_else (load_credentials_from_file path) (errorf "failed to load credentials from %s: %w")
      >>= λ file. ok (add_all file m)
  add_config unset m = ok m

  unfoldable pub add_configs :
      List AuthConfig → List (Text × RegistryAuth) → Result (List (Text × RegistryAuth))
  add_configs [] m = ok m
  add_configs (config ∷ configs) m = add_config config m >>= λ next. add_configs configs next

  unfoldable pub parse_registry_auth : List AuthConfig → Result (List (Text × RegistryAuth))
  parse_registry_auth configs = add_configs configs []
