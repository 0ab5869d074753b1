-- ===== src/Router/Build.antt =====
-- NewPipeline, buildOperation and the constructors of the operations.
use Prim.Native.String.{String}
use bb_action_router.Base.{
  Text, same, ℕ, ◌*◌, Bool, true, false, ◌&&◌, Option, none, some, List, [], ◌∷◌, ◌==◌,
  if◌then◌else◌,
}
use bb_action_router.Status.{Result, ok, err, status, wrap, invalid_argument, ◌>>=◌, or_else}
use bb_action_router.Fetcher.RegistryAuth.{Credentials, RegistryAuth, parse_registry_auth}
use bb_action_router.Router.Template.{Template}
use bb_action_router.Router.Operations.{
  Addition, Operation, assert_platform_property, map_platform_property, edit_platform_property,
  edit_command, edit_environment, merge_docker_root, conditional,
}
use bb_action_router.Router.Pipeline.{Pipeline}
use bb_action_router.Router.Config.{
  UnixUser, AdditionConfig, MergeConfig, Kind, assert_config, map_config, edit_platform_config,
  edit_command_config, edit_environment_config, merge_config, OperationConfig, PipelineConfig,
  build_user_from_proto,
}

-- The compilers of regular expressions and templates, and the reader and parser of a file of
-- registry credentials.
pub record Compilers : Type 0 where
  pub compile_regex : Text → Option (Text → Bool)
  pub compile_template : Text → Option Template
  pub read_file : Text → Result (List ℕ)
  pub parse_json : List ℕ → Result (List (Text × Credentials))

-- 10 GiB, and 5 minutes in nanoseconds
abbrev pub default_maximum_image_size_bytes : ℕ
default_maximum_image_size_bytes = 10 * 1024 * 1024 * 1024

abbrev pub default_image_pull_timeout : ℕ
default_image_pull_timeout = 5 * 60_000_000_000

-- What newMergeDockerRootOp hands to the image puller and the uploader.
pub record MergeSetup : Type 0 where
  pub image_ref : Template
  pub maximum_image_size_bytes : ℕ
  pub image_pull_timeout : ℕ
  pub build_user : UnixUser
  pub auth_config : List (Text × RegistryAuth)

abbrev pub is_empty {ℓ} : {A : Type ℓ} → List A → Bool
is_empty [] = true
is_empty (x ∷ xs) = false

abbrev pub or_default : Option ℕ → ℕ → ℕ
or_default none d = d
or_default (some n) d = n

abbrev pub required : Bool → String → Result (Unit {0})
required missing message = if missing then err (status invalid_argument message) else ok tt

abbrev pub found {ℓ} : {A : Type ℓ} → Option A → String → Result A
found none message = err (status invalid_argument message)
found (some a) message = ok a

module _ (c : Compilers) where
  unfoldable pub parse_template : Text → Result Template
  parse_template text = found (c.compile_template text) "Invalid %s template %q: %v"

  unfoldable pub new_assert_op : Text → Text → Result Operation
  new_assert_op property regex =
      required (same property []) "assert_platform_property.property must be set" >>= λ _.
      required (same regex []) "assert_platform_property.regex must be set" >>= λ _.
      found (c.compile_regex regex) "Invalid assert_platform_property.regex %q: %v" >>= λ test.
      ok (assert_platform_property property test)

  unfoldable pub new_map_op : Text → List (Text × Text) → Result Operation
  new_map_op property replacements =
      required (same property []) "map_platform_property.property must be set" >>= λ _.
      ok (map_platform_property property replacements)

  unfoldable pub parse_additions : List AdditionConfig → Result (List Addition)
  parse_additions [] = ok []
  parse_additions (a ∷ additions) =
      required (same a.name []) "edit_platform_property.add.name must be set" >>= λ _.
      parse_template a.value >>= λ value.
      parse_additions additions >>= λ rest. ok (record { name = a.name; value = value } ∷ rest)

  unfoldable pub new_edit_platform_op : List Text → List AdditionConfig → Result Operation
  new_edit_platform_op removed additions =
      parse_additions additions >>= λ parsed. ok (edit_platform_property removed parsed)

  unfoldable pub parse_argument_templates : List Text → Result (List Template)
  parse_argument_templates [] = ok []
  parse_argument_templates (text ∷ texts) =
      parse_template text >>= λ t. parse_argument_templates texts >>= λ rest. ok (t ∷ rest)

  unfoldable pub new_edit_command_op : List Text → List Text → Result Operation
  new_edit_command_op prepended appended =
      required (is_empty prepended && is_empty appended)
        "edit_command must set prepend_arguments and/or append_arguments"
      >>= λ _. parse_argument_templates prepended >>= λ front.
          parse_argument_templates appended >>= λ back. ok (edit_command front back)

  -- The loop over the variables to set, in the order of `range`.
  unfoldable pub parse_settings : List (Text × Text) → Result (List (Text × Template))
  parse_settings [] = ok []
  parse_settings ((name, value) ∷ settings) =
      required (same name []) "edit_environment.set keys must not be empty" >>= λ _.
      parse_template value >>= λ t. parse_settings settings >>= λ rest. ok ((name, t) ∷ rest)

  unfoldable pub new_edit_environment_op : List Text → List (Text × Text) → Result Operation
  new_edit_environment_op removed settings =
      parse_settings settings >>= λ parsed. ok (edit_environment removed parsed)

  unfoldable pub new_merge_setup : MergeConfig → Result MergeSetup
  new_merge_setup m =
      required (same m.image_ref []) "merge_docker_root.image_ref must be set" >>= λ _.
      parse_template m.image_ref >>= λ image_ref.
      or_else (parse_registry_auth c.read_file c.parse_json m.registry_authentication)
        (wrap "Failed to parse registry authentication")
      >>= λ auth_config.
          or_else (build_user_from_proto m.build_user) (wrap "Invalid merge_docker_root.build_user")
          >>= λ build_user. ok (record {
            image_ref = image_ref;
            maximum_image_size_bytes =
                if m.maximum_image_size_bytes == 0
                then default_maximum_image_size_bytes
                else m.maximum_image_size_bytes;
            image_pull_timeout = or_default m.image_pull_timeout default_image_pull_timeout;
            build_user = build_user;
            auth_config = auth_config;
          })

  unfoldable pub new_merge_op : MergeConfig → Result Operation
  new_merge_op m = new_merge_setup m >>= λ setup. ok (merge_docker_root setup.image_ref)

  unfoldable pub build_operation : Option Kind → Result Operation
  build_operation none = err (status invalid_argument "operation kind must be set")
  build_operation (some (assert_config property regex)) = new_assert_op property regex
  build_operation (some (map_config property replacements)) = new_map_op property replacements
  build_operation (some (edit_platform_config removed added)) = new_edit_platform_op removed added
  build_operation (some (edit_command_config front back)) = new_edit_command_op front back
  build_operation (some (edit_environment_config removed settings)) =
      new_edit_environment_op removed settings
  build_operation (some (merge_config m)) = new_merge_op m

  -- An optional condition: the empty text is none.
  unfoldable pub parse_condition : Text → Result (Option Template)
  parse_condition text = if same text [] then ok none else parse_template text >>= λ t. ok (some t)

  abbrev pub with_condition : Operation → Option Template → Operation
  with_condition op none = op
  with_condition op (some t) = conditional t op

  -- The body of the loop of NewPipeline.
  unfoldable pub build_conditional : OperationConfig → Result Operation
  build_conditional config =
      or_else
        (build_operation config.kind >>= λ op.
          parse_condition config.condition >>= λ condition. ok (with_condition op condition))
        (wrap "Operation %d")

  unfoldable pub build_operations : List OperationConfig → Result (List Operation)
  build_operations [] = ok []
  build_operations (config ∷ configs) =
      build_conditional config >>= λ op. build_operations configs >>= λ ops. ok (op ∷ ops)

  unfoldable pub new_pipeline : Option PipelineConfig → Result Pipeline
  new_pipeline none = err (status invalid_argument "pipeline must be set")
  new_pipeline (some config) = parse_condition config.condition >>= λ condition.
      build_operations config.operations >>= λ operations.
      ok (record { condition = condition; operations = operations })
