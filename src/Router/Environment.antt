-- ===== src/Router/Environment.antt =====
-- What editEnvironmentOp.apply does to the variables of the command.
use bb_action_router.Base.{
  Text, ◌≡◌, refl, ap, ◌∙◌, true, some, List, [], ◌∷◌, ◌++◌, map, All, All-map,
}
use mathlib.Core.List.{append-nil, append_assoc}
use bb_action_router.Status.{ok}
use bb_action_router.Reapi.{Command, Variable}
use bb_action_router.Router.State.{World, State, get_command, set_command}
use bb_action_router.Router.Template.{Template, render}
use bb_action_router.Router.Operations.{set_variables, apply_edit_environment}
use bb_action_router.Router.Variables.{
  setting, kept, variable_value, set_value, edited, variable_value-edited,
}
use bb_action_router.Router.Loading.{
  loaded, get_command-loaded, get_command-some, render-stays, render-Alike, Alike,
}

abbrev pub with_environment : List Variable → Command → Command
with_environment vs c = record c { environment_variables = vs }

abbrev pub with_command : Command → State → State
with_command c s = record s { command = some (ok c) }

module _ (w : World) where
  abbrev pub SettingsRenderTo : State → (Template → Text) → List (Text × Template) → Type 0
  SettingsRenderTo s value = All (λ e. (render w e.1 s).0 ≡ ok (value e.1))

  with_environment-Alike :
      (s : State) (c d : Command)
      → c.working_directory ≡ d.working_directory
      → Alike w (with_command c s) (with_command d s)
  with_environment-Alike s c d e = record {
    platform = refl;
    metadata = refl;
    directory =
        rw
          (
            get_command-some w (with_command c s) (ok c) refl,
            get_command-some w (with_command d s) (ok d) refl,
          )
          (ap ok e);
  }

  relabelled-Alike :
      (s : State) (c d : Command)
      → (get_command w s).0 ≡ ok c
      → d.working_directory ≡ c.working_directory
      → Alike w (with_command d (loaded w s)) (loaded w s)
  relabelled-Alike s c d e f = record {
    platform = refl;
    metadata = refl;
    directory =
        rw (get_command-some w (with_command d (loaded w s)) (ok d) refl, get_command-loaded w s, e)
          (ap ok f);
  }

  set_variables-RenderTo :
      (value : Template → Text) (settings : List (Text × Template)) (s : State) (c : Command)
      → SettingsRenderTo (with_command c s) value settings
      → set_variables w c settings (with_command c s) ≡ (
        ok tt,
        with_command
            (with_environment (c.environment_variables ++ map (setting value) settings) c)
            s,
      )
  unfolding set_variables set_command
  set_variables-RenderTo value [] s c all = rw (append-nil c.environment_variables) refl
  set_variables-RenderTo value ((name, t) ∷ settings) s c all =
      let d = with_environment (c.environment_variables ++ setting value (name, t) ∷ []) c in
      let ih = set_variables-RenderTo value settings s d (
        All-map
          (λ e p.
            render-Alike w e.1 (with_command d s) (with_command c s)
              (with_environment-Alike s d c refl)
            ∙ p)
          settings all.1) in
      rw
        (
          all.0,
          render-stays w t (with_command c s) (ok c) refl,
          ih,
          append_assoc c.environment_variables (setting value (name, t) ∷ [])
              (map (setting value) settings),
        )
        refl

  -- The environment that the edit leaves, with the variables that are set in the order of the map.
  abbrev pub edited_environment :
      (Template → Text) → List Text → List (Text × Template) → Command → List Variable
  edited_environment value removed settings c =
      kept removed settings c.environment_variables ++ map (setting value) settings

  pub apply_edit_environment-edited :
      (s : State) (c : Command) (value : Template → Text) (removed : List Text)
      (settings : List (Text × Template))
      → (get_command w s).0 ≡ ok c
      → SettingsRenderTo (loaded w s) value settings
      → apply_edit_environment w removed settings s ≡ (
        ok tt,
        record (with_command
            (with_environment (edited_environment value removed settings c) c)
            (loaded w s)) { command_changed = true },
      )
  unfolding apply_edit_environment set_command
  apply_edit_environment-edited s c value removed settings e all =
      let u = loaded w s in
      let left = with_environment (kept removed settings c.environment_variables) c in
      let rest = set_variables-RenderTo value settings u left (
        All-map
          (λ p r. render-Alike w p.1 (with_command left u) u (relabelled-Alike s c left e refl) ∙ r)
          settings all) in
      rw (e, rest) refl

  -- If the command loads as `c` and the template of every variable to set renders in that state,
  -- the edit succeeds, and only the environment and the mark of the change differ from the loaded
  -- state. Each variable then has the value that was set, in whatever order the map of settings
  -- was visited; without one, it has none if it was to be removed, and else its old value.
  pub apply_edit_environment_lem :
      (s : State) (c : Command) (value : Template → Text) (removed : List Text)
      (settings : List (Text × Template))
      → (get_command w s).0 ≡ ok c
      → SettingsRenderTo (loaded w s) value settings
      → (vs : List Variable) × (apply_edit_environment w removed settings s ≡ (
        ok tt,
        record (with_command (with_environment vs c) (loaded w s)) { command_changed = true },
      ))
        × ((name : Text)
            → variable_value name vs
              ≡ edited removed
                  (set_value value name settings)
                  name
                  (variable_value name c.environment_variables))
  apply_edit_environment_lem s c value removed settings e all = (
    edited_environment value removed settings c,
    apply_edit_environment-edited s c value removed settings e all,
    λ name. variable_value-edited value name removed settings c.environment_variables,
  )
