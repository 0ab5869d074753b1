-- ===== src/Router/Tests.antt =====
-- Runs of the pipeline, and the theorems at concrete actions.
mod Merged
use mathlib.Core.List.Perm
use bb_action_router.Base.{
  Text, codes, same, text_lt, strip_prefix, same_iff, lookup, has, member, insert_by, sort_by, ℕ,
  ◌≡◌, refl, ap, false, none, some, List, [], ◌∷◌, arith,
}
use bb_action_router.Status.{ok}
use bb_action_router.Reapi.{Digest, Action, Variable, Command, Directory}
use bb_action_router.Router.State.{World, State, get_command, set_command, load_command, ◌>>◌}
use bb_action_router.Router.Template.{
  Template, output, platform_get, working_directory, property_value, render, trim_space, strip_one,
  trim_left,
}
use bb_action_router.Router.Merge.{
  has_name, assert_directory_doesnt_contain_name, sort_directory, load_directory, put_directory,
  merge_image, apply_merge,
}
use bb_action_router.Router.Operations.{
  Operation, assert_platform_property, edit_command, edit_environment, edit_platform_property,
  merge_docker_root, Addition, add_properties, apply_edit_platform, render_arguments,
  apply_edit_command, set_variables, apply_edit_environment, apply,
}
use bb_action_router.Router.Pipeline.{
  Pipeline, start, check_condition, run_operations, put_command, finish_platform, finish_command,
  finish, run_pipeline, handle_action, sort_platform, sort_environment,
}
use bb_action_router.Router.Variables.{variable_value, set_value}
use bb_action_router.Router.Environment.{apply_edit_environment_lem}
use bb_action_router.Router.AnyOrder.{apply_edit_environment_any_order}
use bb_action_router.Router.Canonical.{IsCanonical}
use bb_action_router.Router.Outcome.{handle_action-IsCanonical}

abbrev digest : ℕ → Digest
digest n = record { hash = n ∷ []; size_bytes = n }

abbrev image : Directory
image = record {
  files = record { name = codes "passwd"; digest = digest 9; is_executable = false } ∷ [];
  directories = record { name = codes "usr"; digest = digest 8 } ∷ [];
  symlinks = [];
}

abbrev command : Command
command = record {
  arguments = codes "cc" ∷ [];
  environment_variables =
      record { name = codes "PATH"; value = codes "/bin" }
      ∷ record { name = codes "HOME"; value = codes "/" }
      ∷ [];
  working_directory = codes "work";
}

abbrev world : World
world = record {
  new_digest_from_proto = λ d. ok d;
  read_command = λ d. ok command;
  read_directory = λ d. ok image;
  put_command = λ c. ok (digest 3);
  put_directory = λ d. ok (digest 4);
  get_dir_digest = λ ref. ok (digest 5);
  arrange = λ vs. vs;
  arrange-Perm = λ vs. Perm.refl vs;
}

abbrev action : Action
action = record {
  command_digest = digest 1;
  input_root_digest = digest 2;
  platform = some (
      record { name = codes "os"; value = codes "linux" }
      ∷ record { name = codes "arch"; value = codes "x" }
      ∷ []);
}

abbrev begin : State
begin = record {
  action = action;
  command = none;
  request_metadata = none;
  command_changed = false;
  platform_changed = false;
}

abbrev in_directory : Template
in_directory = working_directory (λ d. output d)

abbrev text_of : Template → Text
text_of t = codes "work"

abbrev settings : List (Text × Template)
settings = (codes "HOME", in_directory) ∷ []

apply_edit_environment_example :
    (vs : List Variable) × (variable_value (codes "HOME") vs ≡ some (codes "work"))
    × (variable_value (codes "PATH") vs ≡ none)
unfolding get_command load_command render lookup member same variable_value set_value
apply_edit_environment_example =
    let done =
      apply_edit_environment_lem world begin command text_of (codes "PATH" ∷ []) settings refl
        (refl, tt) in
    (done.0, done.2 (codes "HOME"), done.2 (codes "PATH"))

abbrev two_settings : List (Text × Template)
two_settings = (codes "HOME", in_directory) ∷ (codes "A", in_directory) ∷ []

abbrev other_order : List (Text × Template)
other_order = (codes "A", in_directory) ∷ (codes "HOME", in_directory) ∷ []

same_settings : (k : Text) → lookup k two_settings ≡ lookup k other_order
unfolding lookup
same_settings k = ground (arith, same_iff (codes "A") k, same_iff (codes "HOME") k)

apply_edit_environment_any_order_example :
    (do apply_edit_environment world [] two_settings; finish world) begin
    ≡ (do apply_edit_environment world [] other_order; finish world) begin
unfolding get_command load_command render lookup same
apply_edit_environment_any_order_example =
    apply_edit_environment_any_order world begin command text_of [] two_settings other_order refl
      ((refl, tt), (tt, tt)) (refl, (refl, tt))
      ((refl, (refl, tt)), (refl, (refl, tt)), same_settings)

abbrev additions : List Addition
additions = record { name = codes "pool"; value = platform_get (codes "os") (λ t. output t) } ∷ []

abbrev operations : List Operation
operations =
    edit_platform_property (codes "arch" ∷ []) additions
    ∷ edit_command (in_directory ∷ []) []
    ∷ edit_environment (codes "PATH" ∷ []) settings
    ∷ merge_docker_root (output (codes "img"))
    ∷ []

abbrev pipeline : Pipeline
pipeline = record { condition = none; operations = operations }

abbrev routed : Action
routed = record {
  command_digest = digest 3;
  input_root_digest = digest 4;
  platform = some (
      record { name = codes "os"; value = codes "linux" }
      ∷ record { name = codes "pool"; value = codes "linux" }
      ∷ []);
}

routes : (handle_action world pipeline action none).0 ≡ ok routed
unfolding handle_action run_pipeline check_condition run_operations apply apply_edit_platform
    add_properties render apply_edit_command get_command load_command render_arguments set_command
    apply_edit_environment set_variables apply_merge load_directory put_directory merge_image
    assert_directory_doesnt_contain_name has_name finish finish_platform finish_command
    sort_platform sort_environment put_command start property_value sort_directory same member has
    text_lt insert_by sort_by
routes = refl

handle_action-IsCanonical_example :
    IsCanonical world action (handle_action world pipeline action none).1
handle_action-IsCanonical_example =
    (handle_action-IsCanonical world pipeline action routed none routes).1

abbrev checks : Pipeline
checks = record {
  condition = none;
  operations = assert_platform_property (codes "os") (λ v. same v (codes "linux")) ∷ [];
}

trims : trim_space (codes " x ") ≡ codes "x"
unfolding trim_space trim_left strip_one strip_prefix
trims = refl
