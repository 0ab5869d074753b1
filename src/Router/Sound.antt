-- ===== src/Router/Sound.antt =====
-- NewPipeline and the constructors: the checks of their arguments.
use Prim.Native.String.{String}
use bb_action_router.Base.{
  Text, same, same_iff, suc, ◌+◌, ◌<◌, ◌≡◌, refl, sym, ap, subst, ◌∙◌, ◌≢◌, Bool, true, false, ◌&&◌,
  Option, none, some, List, [], ◌∷◌, arith, length, All,
}
use bb_action_router.Status.{◌>>=◌, ok, bind-ok, or_else-ok, ok-injective}
use bb_action_router.Router.Template.{Template}
use bb_action_router.Router.Operations.{
  Addition, Operation, assert_platform_property, map_platform_property, edit_platform_property,
  edit_command, edit_environment, merge_docker_root, conditional,
}
use bb_action_router.Router.Pipeline.{Pipeline}
use bb_action_router.Router.Config.{
  AdditionConfig, Kind, assert_config, map_config, edit_platform_config, edit_command_config,
  edit_environment_config, merge_config, OperationConfig, PipelineConfig,
}
use bb_action_router.Router.Build.{
  Compilers, is_empty, required, parse_template, new_assert_op, new_map_op, parse_additions,
  new_edit_platform_op, parse_argument_templates, new_edit_command_op, parse_settings,
  new_edit_environment_op, new_merge_op, build_operation, parse_condition, with_condition,
  build_conditional, build_operations, new_pipeline,
}

-- An operation names its property, each addition and each variable that it sets, and one that
-- edits the command has an argument to add.
abbrev pub IsSound : Operation → Type 0
IsSound (assert_platform_property property test) = property ≢ []
IsSound (map_platform_property property table) = property ≢ []
IsSound (edit_platform_property removed additions) = All (λ a. a.name ≢ []) additions
IsSound (edit_command front back) = 0 < length front + length back
IsSound (edit_environment removed settings) = All (λ e. e.0 ≢ []) settings
IsSound (merge_docker_root image_ref) = Unit
IsSound (conditional condition op) = IsSound op

required-ok : (b : Bool) (message : String) (u : Unit {0}) → required b message ≡ ok u → b ≡ false
required-ok true message u e = cc e
required-ok false message u e = refl

not_same : (s : Text) → same s [] ≡ false → s ≢ []
not_same s e h = ground (arith, same_iff s [])

any_argument :
    (front back : List Text) (xs ys : List Template)
    → (is_empty front && is_empty back) ≡ false
    → length xs ≡ length front
    → length ys ≡ length back
    → 0 < length xs + length ys
any_argument [] [] xs ys e f g = cc e
any_argument [] (b ∷ back) xs ys e f g = omega (arith, f, g)
any_argument (a ∷ front) back xs ys e f g = omega (arith, f, g)

with_condition-IsSound :
    (c : Compilers) (op : Operation) (o : Option Template)
    → IsSound op
    → IsSound (with_condition c op o)
with_condition-IsSound c op none h = h
with_condition-IsSound c op (some t) h = h

module _ (c : Compilers) where
  parse_additions-named :
      (configs : List AdditionConfig) (additions : List Addition)
      → parse_additions c configs ≡ ok additions
      → All (λ a. a.name ≢ []) additions
  unfolding parse_additions
  parse_additions-named [] additions e = subst (All (λ a. a.name ≢ [])) (ok-injective e) tt
  parse_additions-named (a ∷ configs) additions e =
      let (u, named, e₁) = bind-ok _ _ additions e in
      let (value, _, e₂) = bind-ok _ _ additions e₁ in
      let (rest, parsed, e₃) = bind-ok _ _ additions e₂ in
      subst (All (λ a. a.name ≢ [])) {x = record { name = a.name; value = value } ∷ rest}
        (ok-injective e₃)
        (not_same a.name (required-ok _ _ u named), parse_additions-named configs rest parsed)

  parse_settings-named :
      (configs : List (Text × Text)) (settings : List (Text × Template))
      → parse_settings c configs ≡ ok settings
      → All (λ e. e.0 ≢ []) settings
  unfolding parse_settings
  parse_settings-named [] settings e = subst (All (λ e. e.0 ≢ [])) (ok-injective e) tt
  parse_settings-named ((name, value) ∷ configs) settings e =
      let (u, named, e₁) = bind-ok _ _ settings e in
      let (t, _, e₂) = bind-ok _ _ settings e₁ in
      let (rest, parsed, e₃) = bind-ok _ _ settings e₂ in
      subst (All (λ e. e.0 ≢ [])) {x = (name, t) ∷ rest} (ok-injective e₃)
        (not_same name (required-ok _ _ u named), parse_settings-named configs rest parsed)

  parse_argument_templates-length :
      (texts : List Text) (ts : List Template)
      → parse_argument_templates c texts ≡ ok ts
      → length ts ≡ length texts
  unfolding parse_argument_templates
  parse_argument_templates-length [] ts e = ap length (sym (ok-injective e))
  parse_argument_templates-length (text ∷ texts) ts e =
      let (t, _, e₁) =
        bind-ok (parse_template c text)
          (λ t. parse_argument_templates c texts >>= λ rest. ok (t ∷ rest)) ts e in
      let (rest, parsed, e₂) =
        bind-ok (parse_argument_templates c texts) (λ rest. ok (t ∷ rest)) ts e₁ in
      ap length (sym (ok-injective e₂)) ∙ ap suc (parse_argument_templates-length texts rest parsed)

  build_operation-IsSound :
      (kind : Option Kind) (op : Operation) → build_operation c kind ≡ ok op → IsSound op
  unfolding build_operation new_assert_op new_map_op new_edit_platform_op new_edit_command_op
      new_edit_environment_op new_merge_op
  build_operation-IsSound none op e = cc e
  build_operation-IsSound (some (assert_config property regex)) op e =
      let (u, named, e₁) = bind-ok _ _ op e in
      let (_, _, e₂) = bind-ok _ _ op e₁ in
      let (test, _, e₃) = bind-ok _ _ op e₂ in
      subst IsSound (ok-injective e₃) (not_same property (required-ok _ _ u named))
  build_operation-IsSound (some (map_config property table)) op e =
      let (u, named, e₁) = bind-ok _ _ op e in
      subst IsSound (ok-injective e₁) (not_same property (required-ok _ _ u named))
  build_operation-IsSound (some (edit_platform_config removed added)) op e =
      let (additions, parsed, e₁) = bind-ok _ _ op e in
      subst IsSound (ok-injective e₁) (parse_additions-named added additions parsed)
  build_operation-IsSound (some (edit_command_config front back)) op e =
      let (u, some_argument, e₁) = bind-ok _ _ op e in
      let (xs, first, e₂) = bind-ok _ _ op e₁ in
      let (ys, second, e₃) = bind-ok _ _ op e₂ in
      subst IsSound (ok-injective e₃) (
        any_argument front back xs ys (required-ok _ _ u some_argument)
          (parse_argument_templates-length front xs first)
          (parse_argument_templates-length back ys second))
  build_operation-IsSound (some (edit_environment_config removed configs)) op e =
      let (settings, parsed, e₁) = bind-ok _ _ op e in
      subst IsSound (ok-injective e₁) (parse_settings-named configs settings parsed)
  build_operation-IsSound (some (merge_config m)) op e =
      let (setup, _, e₁) = bind-ok _ _ op e in subst IsSound (ok-injective e₁) tt

  build_conditional-IsSound :
      (config : OperationConfig) (op : Operation) → build_conditional c config ≡ ok op → IsSound op
  unfolding build_conditional
  build_conditional-IsSound config op e =
      let (plain, built, e₁) = bind-ok _ _ op (or_else-ok _ _ op e) in
      let (condition, _, e₂) = bind-ok _ _ op e₁ in
      subst IsSound (ok-injective e₂)
        (with_condition-IsSound c plain condition (build_operation-IsSound config.kind plain built))

  build_operations-IsSound :
      (configs : List OperationConfig) (ops : List Operation)
      → build_operations c configs ≡ ok ops
      → All IsSound ops × (length ops ≡ length configs)
  unfolding build_operations
  build_operations-IsSound [] ops e =
      subst (λ xs. All IsSound xs × (length xs ≡ 0)) {x = []} (ok-injective e) (tt, refl)
  build_operations-IsSound (config ∷ configs) ops e =
      let (op, built, e₁) = bind-ok _ _ ops e in
      let (rest, others, e₂) = bind-ok _ _ ops e₁ in
      let sound = build_operations-IsSound configs rest others in
      subst (λ xs. All IsSound xs × (length xs ≡ length (config ∷ configs))) {x = op ∷ rest}
        (ok-injective e₂) ((build_conditional-IsSound config op built, sound.0), ap suc sound.1)

  -- A pipeline that is built from a configuration has an operation for each one configured, in
  -- which every property, addition and variable has a name, and every edit of the command has an
  -- argument to add.
  pub new_pipeline-IsSound :
      (config : PipelineConfig) (p : Pipeline)
      → new_pipeline c (some config) ≡ ok p
      → All IsSound p.operations × (length p.operations ≡ length config.operations)
  unfolding new_pipeline
  new_pipeline-IsSound config p e =
      let (condition, _, e₁) =
        bind-ok (parse_condition c config.condition)
          (λ condition. build_operations c config.operations >>= λ ops.
            ok (record { condition = condition; operations = ops }))
          p e in
      let (ops, built, e₂) =
        bind-ok (build_operations c config.operations)
          (λ ops. ok (record { condition = condition; operations = ops })) p e₁ in
      subst (λ q. All IsSound q.operations × (length q.operations ≡ length config.operations))
        (ok-injective e₂) (build_operations-IsSound config.operations ops built)
