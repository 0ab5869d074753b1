-- ===== src/Router/ConfigTests.antt =====
-- Configurations that are accepted or refused, and the theorems on them.
use bb_action_router.Base.{
  decimal, Text, codes, same, lookup, put, ℕ, ◌≡◌, refl, false, none, some, List, [], ◌∷◌, length,
  All,
}
use bb_action_router.Status.{
  Error, Result, ok, err, status, not_found, code_of, is_not_found, ◌>>=◌,
}
use bb_action_router.Status
use bb_action_router.Fetcher.RegistryAuth.{
  RegistryAuth, Credentials, AuthConfig, anonymous, credentials_json_path, put_all,
  load_credentials_from_file, add_all, add_config, add_configs, parse_registry_auth,
}
use bb_action_router.Fetcher.Credentials.{last_word, parse_registry_auth_lem}
use bb_action_router.Reapi.{Digest}
use bb_action_router.Router.Template.{output}
use bb_action_router.Router.Operations.{assert_platform_property, edit_command, conditional}
use bb_action_router.Router.Pipeline.{Pipeline}
use bb_action_router.Router.Config.{
  BuildUser, assert_config, edit_command_config, PipelineConfig, build_user_from_proto,
}
use bb_action_router.Router.Build.{
  Compilers, parse_template, new_assert_op, parse_argument_templates, new_edit_command_op,
  build_operation, parse_condition, build_conditional, build_operations, new_pipeline,
}
use bb_action_router.Router.Sound.{IsSound, new_pipeline-IsSound}
use bb_action_router.Router.ImageRoots.{
  Services, AllKnown, Answers, get_dir_digest, user_string, get_dir_digest-Answers,
}

abbrev nobody : BuildUser
nobody = record { uid = 7; gid = 8; name = [] }

nobody_is_refused :
    build_user_from_proto (some nobody)
    ≡ err (status Status.invalid_argument "build_user.name must be set for uid %d")
unfolding build_user_from_proto same
nobody_is_refused = refl

abbrev alice : Credentials
alice = record { username = codes "alice"; password = codes "a" }

abbrev read_file : Text → Result (List ℕ)
read_file path = ok path

abbrev parse_json : List ℕ → Result (List (Text × Credentials))
parse_json text = ok ((codes "ghcr.io", alice) ∷ [])

abbrev configs : List AuthConfig
configs = anonymous (codes "ghcr.io") ∷ credentials_json_path (codes "auth.json") ∷ []

abbrev auths : List (Text × RegistryAuth)
auths =
    (
      codes "ghcr.io",
      record { anonymous_token = false; username = codes "alice"; password = codes "a" },
    )
    ∷ []

auths_parsed : parse_registry_auth read_file parse_json configs ≡ ok auths
unfolding parse_registry_auth add_configs add_config load_credentials_from_file put_all add_all put
    same ◌>>=◌
auths_parsed = refl

parse_registry_auth_example :
    lookup (codes "ghcr.io") auths ≡ last_word read_file parse_json configs (codes "ghcr.io")
parse_registry_auth_example =
    parse_registry_auth_lem read_file parse_json configs auths (codes "ghcr.io") auths_parsed

abbrev compilers : Compilers
compilers = record {
  compile_regex = λ regex. some (same regex);
  compile_template = λ text. some (output text);
  read_file = read_file;
  parse_json = parse_json;
}

abbrev config : PipelineConfig
config = record {
  condition = [];
  operations =
      record { kind = some (assert_config (codes "os") (codes "linux")); condition = codes "1" }
      ∷ record { kind = some (edit_command_config (codes "env" ∷ []) []); condition = [] }
      ∷ [];
}

abbrev built : Pipeline
built = record {
  condition = none;
  operations =
      conditional (output (codes "1"))
        (assert_platform_property (codes "os") (same (codes "linux")))
      ∷ edit_command (output (codes "env") ∷ []) []
      ∷ [];
}

pipeline_built : new_pipeline compilers (some config) ≡ ok built
unfolding new_pipeline build_operations build_conditional build_operation new_assert_op
    new_edit_command_op parse_argument_templates parse_condition parse_template same ◌>>=◌
pipeline_built = refl

new_pipeline-IsSound_example : All IsSound built.operations × (length built.operations ≡ 2)
new_pipeline-IsSound_example = new_pipeline-IsSound compilers config built pipeline_built

abbrev root : Digest
root = record { hash = codes "r"; size_bytes = 1 }

-- The action cache knows nothing, so the image is uploaded.
abbrev services : Services
services = record {
  build_user = record { uid = 10; gid = 0; name = codes "bob" };
  marshal_action = λ d ps. ok [];
  generate_digest = λ bytes. ok root;
  action_cache_get = λ key. err (status not_found "");
  action_cache_put = λ key r. ok tt;
  verify = λ d. ok tt;
  upload_image_to_cas = λ ref. ok root;
}

prints_user : user_string services.build_user ≡ codes "bob:x:10:0"
unfolding user_string decimal
prints_user = refl

nothing_cached : AllKnown services []
unfolding lookup
nothing_cached ref d e = cc e

get_dir_digest-Answers_example :
    Answers services (codes "img") [] (get_dir_digest services (codes "img") [])
get_dir_digest-Answers_example = get_dir_digest-Answers services (codes "img") [] nothing_cached
