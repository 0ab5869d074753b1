-- ===== src/Router/Template.antt =====
-- Templates (text/template), and what they may ask of the state. A parsed template is the tree of
-- the accessor calls that it makes: each node names an accessor of templateData, and the template
-- goes on by the text that it is given, until it ends with its output or fails. The functions
-- trimPrefix and trimSuffix act within a node.
use bb_action_router.Base.{
  Text, codes, same, strip_prefix, ℕ, zero, suc, ◌+◌, Bool, not, ◌&&◌, ◌||◌, Option, none, some,
  List, [], ◌∷◌, map, reverse, leb, if◌then◌else◌, length,
}
use bb_action_router.Status.{ok, err, exec_error, external, unknown}
use bb_action_router.Reapi.{Property, RequestMetadata}
use bb_action_router.Router.State.{World, Exec, get_command}

pub data Field : Type 0 where
  invocation_id target_label action_mnemonic configuration_id correlated_invocations_id : Field

pub data Template : Type 0 where
  output : Text → Template
  fails : Template
  platform_get : Text → (Text → Template) → Template
  working_directory : (Text → Template) → Template
  metadata : Field → (Text → Template) → Template

-- platformView.Get: the value of the first property of that name, or "".
unfoldable pub property_value : Text → List Property → Text
property_value name [] = []
property_value name (p ∷ ps) = if same p.name name then p.value else property_value name ps

abbrev pub properties : Option (List Property) → List Property
properties none = []
properties (some ps) = ps

-- The accessors of the request metadata, which are "" where there is none.
unfoldable pub metadata_field : Field → Option RequestMetadata → Text
metadata_field f none = []
metadata_field invocation_id (some m) = m.tool_invocation_id
metadata_field target_label (some m) = m.target_id
metadata_field action_mnemonic (some m) = m.action_mnemonic
metadata_field configuration_id (some m) = m.configuration_id
metadata_field correlated_invocations_id (some m) = m.correlated_invocations_id

module _ (w : World) where
  -- render
  unfoldable pub render : Template → Exec Text
  render (output text) s = (ok text, s)
  render fails s = (err (external unknown), s)
  render (platform_get name k) s = render (k (property_value name (properties s.action.platform))) s
  render (working_directory k) s =
      let r = get_command w s in
      elim r.0 [
        | err e ↦ (err (exec_error e), r.1)
        | ok command ↦ render (k command.working_directory) r.1
      ]
  render (metadata f k) s = render (k (metadata_field f s.request_metadata)) s

-- The white space that strings.TrimSpace trims, in UTF-8.
abbrev pub spaces : List Text
spaces =
    (9 ∷ [])
    ∷ (10 ∷ [])
    ∷ (11 ∷ [])
    ∷ (12 ∷ [])
    ∷ (13 ∷ [])
    ∷ (32 ∷ [])
    ∷ (194 ∷ 133 ∷ [])
    ∷ (194 ∷ 160 ∷ [])
    ∷ (225 ∷ 154 ∷ 128 ∷ [])
    ∷ (226 ∷ 128 ∷ 128 ∷ [])
    ∷ (226 ∷ 128 ∷ 129 ∷ [])
    ∷ (226 ∷ 128 ∷ 130 ∷ [])
    ∷ (226 ∷ 128 ∷ 131 ∷ [])
    ∷ (226 ∷ 128 ∷ 132 ∷ [])
    ∷ (226 ∷ 128 ∷ 133 ∷ [])
    ∷ (226 ∷ 128 ∷ 134 ∷ [])
    ∷ (226 ∷ 128 ∷ 135 ∷ [])
    ∷ (226 ∷ 128 ∷ 136 ∷ [])
    ∷ (226 ∷ 128 ∷ 137 ∷ [])
    ∷ (226 ∷ 128 ∷ 138 ∷ [])
    ∷ (226 ∷ 128 ∷ 168 ∷ [])
    ∷ (226 ∷ 128 ∷ 169 ∷ [])
    ∷ (226 ∷ 128 ∷ 175 ∷ [])
    ∷ (226 ∷ 129 ∷ 159 ∷ [])
    ∷ (227 ∷ 128 ∷ 128 ∷ [])
    ∷ []

-- The text behind the first of the prefixes that it begins with.
unfoldable pub strip_one : List Text → Text → Option Text
strip_one [] s = none
strip_one (p ∷ ps) s =
    let r = strip_prefix p s in let rest = strip_one ps s in if r.0 then some r.1 else rest

unfoldable pub trim_left : List Text → ℕ → Text → Text
trim_left prefixes zero s = s
trim_left prefixes (suc fuel) s = elim (strip_one prefixes s) [
  | none ↦ s
  | some rest ↦ trim_left prefixes fuel rest
]

-- strings.TrimSpace
unfoldable pub trim_space : Text → Text
trim_space s =
    let front = trim_left spaces (length s) s in
    reverse (trim_left (map reverse spaces) (length front) (reverse front))

unfoldable pub lower : ℕ → ℕ
lower c = if leb b'A' c && leb c b'Z' then c + 32 else c

-- truthy. strings.ToLower on ASCII letters; no other letter has one of those of "false" for its
-- lower case.
unfoldable pub truthy : Text → Bool
truthy s =
    let t = map lower (trim_space s) in
    not (same t [] || same t (codes "false") || same t (codes "0"))
