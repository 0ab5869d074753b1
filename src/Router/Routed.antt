-- ===== src/Router/Routed.antt =====
-- What a response of the service says.
use bb_action_router.Base.{Text, ◌≡◌, Option, none, some, List, [], ◌∷◌}
use bb_action_router.Status.{ok}
use bb_action_router.Reapi.{Action, RequestMetadata}
use bb_action_router.Router.Pipeline.{handle_action}
use bb_action_router.Router.Canonical.{IsCanonical}
use bb_action_router.Router.Service.{
  RouteActionRequest, RouteActionResponse, Service, only_invocation, function_of_request,
}

-- The tool invocation that metadata name.
abbrev pub invocation_of : Option RequestMetadata → Option Text
invocation_of none = none
invocation_of (some metadata) = some metadata.tool_invocation_id

module _ {Name Function Any : Type 0} (s : Service Name Function Any) where
  -- The keys that metadata give: that of who made the request, and that of the invocation.
  pub data Keys : Option RequestMetadata → List Any → Type 0 where
    by_user : (auth_key : Any) → s.pack_authentication ≡ ok auth_key → Keys none (auth_key ∷ [])
    by_invocation :
        (auth_key key : Any) (metadata : RequestMetadata)
        → s.pack_authentication ≡ ok auth_key
        → s.pack_metadata (only_invocation s metadata) ≡ ok key
        → Keys (some metadata) (auth_key ∷ key ∷ [])

  pub record Routed (request : RouteActionRequest) (response : RouteActionResponse Any)
      : Type 0 where
    pub action : Action
    pub function : Function
    pub given : request.action ≡ some action
    pub function_of : function_of_request s request ≡ ok function
    pub handled_by :
        (handle_action (s.world function) s.pipeline action request.request_metadata).0
        ≡ ok response.action
    pub canonical :
        IsCanonical
          (s.world function)
          action
          (handle_action (s.world function) s.pipeline action request.request_metadata).1
    pub keyed : Keys request.request_metadata response.invocation_keys
