-- ===== src/Router/ServiceTests.antt =====
-- A request to the service, with and without an action.
use mathlib.Core.List.Perm
use bb_action_router.Base.{Text, codes, ◌≡◌, refl, Option, none, some, [], ◌∷◌}
use bb_action_router.Status.{ok, err, status, invalid_argument}
use bb_action_router.Reapi.{Digest, Action, RequestMetadata}
use bb_action_router.Router.State.{World}
use bb_action_router.Router.Service.{
  RouteActionRequest, RouteActionResponse, Service, route, route_action_impl,
}

abbrev digest : Digest
digest = record { hash = codes "d"; size_bytes = 1 }

abbrev world : World
world = record {
  new_digest_from_proto = λ d. ok d;
  read_command =
      λ d. ok (record { arguments = []; environment_variables = []; working_directory = [] });
  read_directory = λ d. ok (record { files = []; directories = []; symlinks = [] });
  put_command = λ c. ok digest;
  put_directory = λ d. ok digest;
  get_dir_digest = λ ref. ok digest;
  arrange = λ vs. vs;
  arrange-Perm = λ vs. Perm.refl vs;
}

-- The key of the user, or packed metadata.
abbrev service : Service Text Text (Option RequestMetadata)
service = record {
  new_instance_name = λ name. ok name;
  get_digest_function = λ name n. ok name;
  world = λ function. world;
  pipeline = record { condition = none; operations = [] };
  pack_authentication = ok none;
  pack_metadata = λ metadata. ok (some metadata);
}

abbrev action : Action
action = record { command_digest = digest; input_root_digest = digest; platform = none }

abbrev metadata : Text → Text → RequestMetadata
metadata invocation target = record {
  tool_invocation_id = invocation;
  target_id = target;
  action_mnemonic = [];
  configuration_id = [];
  correlated_invocations_id = [];
}

abbrev request : Text → RouteActionRequest
request target = record {
  action = some action;
  instance_name = [];
  digest_function = 1;
  request_metadata = some (metadata (codes "build") target);
}

abbrev response : RouteActionResponse (Option RequestMetadata)
response = record {
  action = action;
  invocation_keys = none ∷ some (metadata (codes "build") []) ∷ [];
}

refuses_nothing :
    route_action_impl service (record (request []) { action = none })
    ≡ err (status invalid_argument "Action cannot be nil")
unfolding route
refuses_nothing = refl
