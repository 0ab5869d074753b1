-- ===== src/Router/Tracking.antt =====
-- What the marks commandChanged and platformChanged mean, and the maps of properties.
pub mod Steps
use bb_action_router.Base.{
  Text, member, ◌≡◌, refl, sym, ap, subst, ◌∙◌, inl, inr, Bool, true, false, not, ◌||◌, none, some,
  List, [], ◌∷◌, arith, Bool-cases, Option-cases, filter,
}
use mathlib.Core.Bool.{true≢false}
use bb_action_router.Status.{Result-cases, ok}
use bb_action_router.Reapi.{Action, Command, Directory, Property}
use bb_action_router.Router.State.{World, State, get_command, set_command}
use bb_action_router.Router.Template.{properties, Template, truthy}
use bb_action_router.Router.Merge.{
  load_directory, assert_directory_doesnt_contain_name, bazel_input_root_directory_name,
  put_directory, with_input_root, merge_image, apply_merge,
}
use bb_action_router.Router.Operations.{
  set_platform, Operation, assert_platform_property, map_platform_property, edit_platform_property,
  edit_command, edit_environment, merge_docker_root, conditional, Addition, apply_assert,
  map_properties, apply_map, add_properties, apply_edit_platform, render_arguments,
  apply_edit_command, set_variables, apply_edit_environment, apply,
}
use bb_action_router.Router.Pipeline.{run_operations}
use bb_action_router.Router.Loading.{loaded}
use bb_action_router.Router.Merging.{merge_image-ok, merge_image-err}
use bb_action_router.Router.Triples.{
  Ensures, Ensures-bind, Ensures-pure, Ensures-lift, Ensures-modify, Ensures-on_error,
  Ensures-get_command, Ensures-render,
}

-- The parts of the action that do not belong to its platform.
pub record TracksCommand (a : Action) (s : State) : Type 0 where
  pub digest : s.action.command_digest ≡ a.command_digest
  pub input_root : s.command_changed ≡ false → s.action.input_root_digest ≡ a.input_root_digest

pub record Tracks (a : Action) (s : State) : Type 0 where
  pub command : TracksCommand a s
  pub platform : s.platform_changed ≡ false → s.action.platform ≡ a.platform

map_properties-unchanged :
    (property : Text) (table : List (Text × Text)) (ps : List Property)
    → (map_properties property table ps).1 ≡ false
    → (map_properties property table ps).0 ≡ ps
unfolding map_properties
map_properties-unchanged property table [] h = refl
map_properties-unchanged property table (p ∷ ps) h =
    ground (arith, map_properties-unchanged property table ps)

apply_map-none :
    (property : Text) (table : List (Text × Text)) (s : State)
    → s.action.platform ≡ none
    → apply_map property table s ≡ (ok tt, s)
unfolding apply_map
apply_map-none property table s f = rw f refl

apply_map-some :
    (property : Text) (table : List (Text × Text)) (s : State) (ps : List Property)
    → s.action.platform ≡ some ps
    → apply_map property table s ≡ (
      ok tt,
      record s {
        action = record s.action { platform = some (map_properties property table ps).0 };
        platform_changed = s.platform_changed || (map_properties property table ps).1;
      },
    )
unfolding apply_map
apply_map-some property table s ps f = rw f refl
