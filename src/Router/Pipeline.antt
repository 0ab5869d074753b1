-- ===== src/Router/Pipeline.antt =====
-- Pipeline.HandleAction of pipeline.go.
use bb_action_router.Base.{
  same, text_lt, sort_by, Bool, true, false, ◌&&◌, ◌||◌, Option, none, some, List, [], ◌∷◌,
  if◌then◌else◌,
}
use bb_action_router.Status.{Result, ok, status, wrap, internal, or_else}
use bb_action_router.Reapi.{Digest, Property, Variable, Action, Command, RequestMetadata}
use bb_action_router.Router.State.{
  World, State, Exec, pure, lift, modify, ◌>>=◌, ◌>>◌, on_error, get_command, set_command,
}
use bb_action_router.Router.Template.{Template, render, truthy}
use bb_action_router.Router.Operations.{Operation, apply}

pub record Pipeline : Type 0 where
  pub condition : Option Template
  pub operations : List Operation

-- The comparison of sortPlatform: by name, then by value.
abbrev pub property_lt : Property → Property → Bool
property_lt a b = text_lt a.name b.name || same a.name b.name && text_lt a.value b.value

abbrev pub variable_lt : Variable → Variable → Bool
variable_lt a b = text_lt a.name b.name

unfoldable pub sort_platform : Option (List Property) → Option (List Property)
sort_platform none = none
sort_platform (some ps) = some (sort_by property_lt ps)

unfoldable pub sort_environment : World → Command → Command
sort_environment w c = record c {
  environment_variables = sort_by variable_lt (w.arrange c.environment_variables);
}

unfoldable pub start : Action → Option RequestMetadata → State
start action metadata = record {
  action = action;
  command = none;
  request_metadata = metadata;
  command_changed = false;
  platform_changed = false;
}

module _ (w : World) where
  -- Whether the pipeline runs.
  unfoldable pub check_condition : Option Template → Exec Bool
  check_condition none = pure true
  check_condition (some condition) = do
    out ← on_error (wrap "Failed to evaluate pipeline condition") (render w condition)
    pure (truthy out)

  unfoldable pub run_operations : List Operation → Exec (Unit {0})
  run_operations [] = pure tt
  run_operations (op ∷ ops) = do apply w op; run_operations ops

  unfoldable pub put_command : Command → Result Digest
  put_command command =
      or_else (w.put_command command) (λ _. status internal "Failed to store Command to CAS: %v")

  unfoldable pub finish_platform : Exec (Unit {0})
  finish_platform s =
      if s.platform_changed
      then (
        ok tt,
        record s { action = record s.action { platform = sort_platform s.action.platform } },
      )
      else (ok tt, s)

  unfoldable pub finish_command : Exec (Unit {0})
  finish_command = do
    command ← get_command w
    let sorted : Command = sort_environment w command
    set_command sorted
    digest ← lift (put_command sorted)
    modify (λ s. record s { action = record s.action { command_digest = digest } })

  -- What follows the loop over the operations.
  unfoldable pub finish : Exec Action
  finish = do
    finish_platform
    λ s.
        (if s.command_changed then finish_command >> (λ t. (ok t.action, t)) else λ t.
        (ok t.action, t))
          s

  unfoldable pub run_pipeline : Pipeline → Exec Action
  run_pipeline p = do
    runs ← check_condition p.condition
    if runs then (do run_operations p.operations; finish) else λ s. (ok s.action, s)

  -- HandleAction: the result, and the state in which it leaves the caller's action.
  unfoldable pub handle_action : Pipeline → Action → Option RequestMetadata → Result Action × State
  handle_action p action metadata = run_pipeline p (start action metadata)
