-- ===== src/Router/Operations.antt =====
-- operations.go and conditionalOp of pipeline.go: the operations of the pipeline.
use bb_action_router.Base.{
  Text, same, lookup, has, member, Bool, true, false, not, ◌&&◌, ◌||◌, Option, none, some, List, [],
  ◌∷◌, ◌++◌, if◌then◌else◌, filter,
}
use bb_action_router.Status.{ok, err, status, wrap, invalid_argument, internal}
use bb_action_router.Reapi.{Property, Variable, Command}
use bb_action_router.Router.State.{
  World, State, Exec, pure, modify, ◌>>=◌, ◌>>◌, on_error, get_command, set_command,
}
use bb_action_router.Router.Template.{Template, properties, property_value, render, truthy}
use bb_action_router.Router.Merge.{apply_merge}

pub record Addition : Type 0 where
  pub name : Text
  pub value : Template

-- A compiled regular expression is the test that MatchString makes.
pub data Operation : Type 0 where
  assert_platform_property : Text → (Text → Bool) → Operation
  map_platform_property : Text → List (Text × Text) → Operation
  edit_platform_property : List Text → List Addition → Operation
  edit_command : List Template → List Template → Operation
  edit_environment : List Text → List (Text × Template) → Operation
  merge_docker_root : Template → Operation
  conditional : Template → Operation → Operation

-- assertPlatformPropertyOp.apply
unfoldable pub apply_assert : Text → (Text → Bool) → Exec (Unit {0})
apply_assert property regex s =
    let value = property_value property (properties s.action.platform) in
    if regex value
    then (ok tt, s)
    else (err (status invalid_argument "Platform property %q value %q does not match %q"), s)

-- The replacement of one property, if it is named so and its value is in the table.
unfoldable pub replacement : Text → List (Text × Text) → Property → Option Text
replacement property table p = if same p.name property then lookup p.value table else none

abbrev pub replace_value : Option Text → Property → Property
replace_value none p = p
replace_value (some v) p = record p { value = v }

abbrev pub is_some {ℓ} : {A : Type ℓ} → Option A → Bool
is_some none = false
is_some (some a) = true

-- The loop of mapPlatformPropertyOp.apply: the properties, and whether one was replaced.
unfoldable pub map_properties : Text → List (Text × Text) → List Property → List Property × Bool
map_properties property table [] = ([], false)
map_properties property table (p ∷ ps) =
    let found = replacement property table p in
    let rest = map_properties property table ps in
    (replace_value found p ∷ rest.0, is_some found || rest.1)

-- A nil platform has no properties to visit.
unfoldable pub apply_map : Text → List (Text × Text) → Exec (Unit {0})
apply_map property table s = elim s.action.platform [
  | none ↦ (ok tt, s)
  | some ps ↦
      let r = map_properties property table ps in
      (
        ok tt,
        record s {
          action = record s.action { platform = some r.0 };
          platform_changed = s.platform_changed || r.1;
        },
      )
]

abbrev pub set_platform : List Property → State → State
set_platform ps s = record s { action = record s.action { platform = some ps } }

module _ (w : World) where
  -- The additions of editPlatformPropertyOp.apply, each of which sees those before it.
  unfoldable pub add_properties : List Addition → Exec (Unit {0})
  add_properties [] = pure tt
  add_properties (a ∷ additions) = do
    value ←
        on_error (λ e. status internal "Failed to render property %q value: %v") (render w a.value)
    modify (λ s.
        set_platform (properties s.action.platform ++ record { name = a.name; value = value } ∷ [])
          s)
    add_properties additions

  unfoldable pub apply_edit_platform : List Text → List Addition → Exec (Unit {0})
  apply_edit_platform removed additions = do
    modify (λ s. set_platform (properties s.action.platform) s)
    modify (λ s.
        set_platform (filter (λ p. not (member p.name removed)) (properties s.action.platform)) s)
    add_properties additions
    modify (λ s. record s { platform_changed = true })

  -- renderArguments: what renders to the empty string is dropped.
  unfoldable pub render_arguments : List Template → Exec (List Text)
  render_arguments [] = pure []
  render_arguments (t ∷ templates) = do
    value ← on_error (λ e. status internal "Failed to render command argument: %v") (render w t)
    rest ← render_arguments templates
    pure (if same value [] then rest else value ∷ rest)

  unfoldable pub apply_edit_command : List Template → List Template → Exec (Unit {0})
  apply_edit_command prepended appended = do
    command ← get_command w
    front ← render_arguments prepended
    back ← render_arguments appended
    set_command (record command { arguments = front ++ (command.arguments ++ back) })
    modify (λ s. record s { command_changed = true })

  -- The loop of editEnvironmentOp.apply over the variables to set, in the order of `range`.
  unfoldable pub set_variables : Command → List (Text × Template) → Exec (Unit {0})
  set_variables command [] = pure tt
  set_variables command ((name, template) ∷ variables) = do
    value ←
        on_error (λ e. status internal "Failed to render environment variable %q: %v")
          (render w template)
    let added : Variable = record { name = name; value = value }
    let next : Command = record command {
      environment_variables = command.environment_variables ++ added ∷ [];
    }
    set_command next
    set_variables next variables

  unfoldable pub apply_edit_environment : List Text → List (Text × Template) → Exec (Unit {0})
  apply_edit_environment removed variables = do
    command ← get_command w
    let kept : Command = record command {
      environment_variables =
          filter (λ v. not (member v.name removed) && not (has v.name variables))
            command.environment_variables;
    }
    set_command kept
    set_variables kept variables
    modify (λ s. record s { command_changed = true })

  -- `apply` of each kind of operation.
  unfoldable pub apply : Operation → Exec (Unit {0})
  apply (assert_platform_property property regex) = apply_assert property regex
  apply (map_platform_property property table) = apply_map property table
  apply (edit_platform_property removed additions) = apply_edit_platform removed additions
  apply (edit_command prepended appended) = apply_edit_command prepended appended
  apply (edit_environment removed variables) = apply_edit_environment removed variables
  apply (merge_docker_root image_ref) = apply_merge w image_ref
  apply (conditional condition op) = do
    out ← on_error (wrap "Failed to evaluate operation condition") (render w condition)
    let rest = apply op
    if truthy out then rest else pure tt
