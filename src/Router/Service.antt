-- ===== src/Router/Service.antt =====
-- routeActionImpl and extractInvocationKeys of cmd/bb_docker_action_router/main.go. Digest
-- functions, the storage at each of them, and packing a message into an Any are parameters.
use bb_action_router.Base.{Text, ℕ, Option, none, some, List, [], ◌∷◌}
use bb_action_router.Status.{Result, ok, err, status, invalid_argument, wrap, or_else, ◌>>=◌}
use bb_action_router.Reapi.{Action, RequestMetadata}
use bb_action_router.Router.State.{World}
use bb_action_router.Router.Pipeline.{Pipeline, handle_action}

pub record RouteActionRequest : Type 0 where
  pub action : Option Action
  pub instance_name : Text
  pub digest_function : ℕ
  pub request_metadata : Option RequestMetadata

pub record RouteActionResponse (Any : Type 0) : Type 0 where
  pub action : Action
  pub invocation_keys : List Any

pub record Service (Name Function Any : Type 0) : Type 0 where
  pub new_instance_name : Text → Result Name
  pub get_digest_function : Name → ℕ → Result Function
  pub world : Function → World
  pub pipeline : Pipeline
  -- anypb.New of who made the request, and of its metadata.
  pub pack_authentication : Result Any
  pub pack_metadata : RequestMetadata → Result Any

module _ {Name Function Any : Type 0} (s : Service Name Function Any) where
  abbrev pub only_invocation : RequestMetadata → RequestMetadata
  only_invocation metadata = record {
    tool_invocation_id = metadata.tool_invocation_id;
    target_id = [];
    action_mnemonic = [];
    configuration_id = [];
    correlated_invocations_id = [];
  }

  unfoldable pub add_invocation_key : Any → Option RequestMetadata → Result (List Any)
  add_invocation_key auth_key none = ok (auth_key ∷ [])
  add_invocation_key auth_key (some metadata) =
      or_else (s.pack_metadata (only_invocation metadata))
        (wrap "Failed to create tool invocation ID key")
      >>= λ key. ok (auth_key ∷ key ∷ [])

  unfoldable pub extract_invocation_keys : Option RequestMetadata → Result (List Any)
  extract_invocation_keys metadata =
      or_else s.pack_authentication (wrap "Failed to create authentication metadata key")
      >>= λ auth_key. add_invocation_key auth_key metadata

  abbrev pub function_of_request : RouteActionRequest → Result Function
  function_of_request request =
      or_else (s.new_instance_name request.instance_name) (wrap "Failed to parse instance name")
      >>= λ name.
          or_else (s.get_digest_function name request.digest_function)
            (wrap "Failed to create digest function")

  abbrev pub handled : Action → RouteActionRequest → Function → Result Action
  handled action request function =
      or_else (handle_action (s.world function) s.pipeline action request.request_metadata).0
        (wrap "Failed to handle Docker action")

  abbrev pub keys_of : RouteActionRequest → Result (List Any)
  keys_of request =
      or_else (extract_invocation_keys request.request_metadata)
        (wrap "Failed to extract invocation keys")

  unfoldable pub route : Option Action → RouteActionRequest → Result (RouteActionResponse Any)
  route none request = err (status invalid_argument "Action cannot be nil")
  route (some action) request = function_of_request request >>= λ function.
      handled action request function >>= λ updated. keys_of request >>= λ invocation_keys.
      ok (record { action = updated; invocation_keys = invocation_keys })

  abbrev pub route_action_impl : RouteActionRequest → Result (RouteActionResponse Any)
  route_action_impl request = route request.action request
