-- ===== src/Router/Variables.antt =====
-- Lists of environment variables: the value of a name, and what an edit makes of it.
use bb_action_router.Base.{
  Text, same, same_iff, lookup, has, member, ◌≡◌, refl, ◌∙◌, ◌⊎◌, inl, inr, true, false, not, ◌&&◌,
  ◌||◌, Option, none, some, List, [], ◌∷◌, ◌++◌, map, arith, if◌then◌else◌, Bool-cases, filter,
}
use bb_action_router.Reapi.{Variable}
use bb_action_router.Router.Template.{Template}

-- A variable of the list `settings`, with what its template renders to.
abbrev pub setting : (Template → Text) → Text × Template → Variable
setting value (name, t) = record { name = name; value = value t }

-- The variables that the edit leaves: neither removed nor set.
abbrev pub kept : List Text → List (Text × Template) → List Variable → List Variable
kept removed settings = filter (λ v. not (member v.name removed) && not (has v.name settings))

-- The value of a variable: that of its first entry.
unfoldable pub variable_value : Text → List Variable → Option Text
variable_value name [] = none
variable_value name (v ∷ vs) = if same v.name name then some v.value else variable_value name vs

first_of : Option Text → Option Text → Option Text
first_of none o = o
first_of (some v) o = some v

variable_value-append :
    (name : Text) (xs ys : List Variable)
    → variable_value name (xs ++ ys) ≡ first_of (variable_value name xs) (variable_value name ys)
unfolding variable_value first_of
variable_value-append name [] ys = refl
variable_value-append name (x ∷ xs) ys = ground (arith, variable_value-append name xs ys)

variable_value-kept :
    (name : Text) (removed : List Text) (settings : List (Text × Template)) (vs : List Variable)
    → variable_value name (kept removed settings vs)
      ≡ (if member name removed || has name settings then none else variable_value name vs)
unfolding variable_value
variable_value-kept name removed settings [] = ground arith
variable_value-kept name removed settings (v ∷ vs) =
    ground (arith, variable_value-kept name removed settings vs, same_iff v.name name)

unfoldable pub set_value : (Template → Text) → Text → List (Text × Template) → Option Text
set_value value name settings = elim (lookup name settings) [
  | none ↦ none
  | some t ↦ some (value t)
]

variable_value-settings :
    (value : Template → Text) (name : Text) (settings : List (Text × Template))
    → variable_value name (map (setting value) settings) ≡ set_value value name settings
unfolding variable_value set_value lookup
variable_value-settings value name [] = refl
variable_value-settings value name ((k, t) ∷ settings) =
    ground (arith, variable_value-settings value name settings)

has-set_value :
    (value : Template → Text) (name : Text) (settings : List (Text × Template))
    → ((has name settings ≡ false) × (set_value value name settings ≡ none))
      ⊎ ((v : Text) × (has name settings ≡ true) × (set_value value name settings ≡ some v))
unfolding set_value lookup has
has-set_value value name [] = inl (refl, refl)
has-set_value value name ((k, t) ∷ settings) = elim (Bool-cases (same k name)) [
  | inl e ↦ inr (value t, ground arith, ground arith)
  | inr e ↦
      let step : set_value value name ((k, t) ∷ settings) ≡ set_value value name settings =
        ground arith in
      elim (has-set_value value name settings) [
        | inl (f, g) ↦ inl (rw e f, step ∙ g)
        | inr (v, f, g) ↦ inr (v, rw e f, step ∙ g)
      ]
]

-- What the edit makes of the value of a variable.
abbrev pub edited : List Text → Option Text → Text → Option Text → Option Text
edited removed (some v) name old = some v
edited removed none name old = if member name removed then none else old

pub variable_value-edited :
    (value : Template → Text) (name : Text) (removed : List Text)
    (settings : List (Text × Template)) (vs : List Variable)
    → variable_value name (kept removed settings vs ++ map (setting value) settings)
      ≡ edited removed (set_value value name settings) name (variable_value name vs)
unfolding first_of
variable_value-edited value name removed settings vs =
    variable_value-append name (kept removed settings vs) (map (setting value) settings)
    ∙ rw (variable_value-kept name removed settings vs, variable_value-settings value name settings)
        (elim (has-set_value value name settings) [
          | inl (e, f) ↦ rw (e, f) (ground arith)
          | inr (v, e, f) ↦ rw (e, f) (ground arith)
        ])
