-- ===== src/Router/Platform.antt =====
-- What the operations on platform properties do to the values of the properties.
use bb_action_router.Base.{
  Text, same, same_iff, lookup, member, ◌≡◌, refl, sym, ap, subst, ◌∙◌, inl, inr, true, not, Option,
  none, some, List, [], ◌∷◌, ◌++◌, map, arith, if◌then◌else◌, Option-cases, filter,
}
use mathlib.Core.List.{append-nil, append_assoc}
use bb_action_router.Status.{status, internal, Result-cases, ok, err}
use bb_action_router.Reapi.{Property}
use bb_action_router.Router.State.{World, State}
use bb_action_router.Router.Template.{Template, properties, render}
use bb_action_router.Router.Operations.{
  Addition, replacement, replace_value, map_properties, apply_map, set_platform, add_properties,
  apply_edit_platform,
}
use bb_action_router.Router.Loading.{loaded-action, loaded-command_changed, render-AtMostLoads}

-- The value of the first property of a name.
unfoldable pub find_property : Text → List Property → Option Text
find_property name [] = none
find_property name (p ∷ ps) = if same p.name name then some p.value else find_property name ps

abbrev pub or_old : Option Text → Text → Text
or_old none v = v
or_old (some x) v = x

-- What the table makes of a value of the property called `name`.
abbrev pub mapped : Text → List (Text × Text) → Text → Text → Text
mapped property table name v = if same name property then or_old (lookup v table) v else v

abbrev pub map_option : (Text → Text) → Option Text → Option Text
map_option f none = none
map_option f (some v) = some (f v)

replaced-name : (o : Option Text) (p : Property) → (replace_value o p).name ≡ p.name
replaced-name none p = refl
replaced-name (some v) p = refl

replaced-value : (o : Option Text) (p : Property) → (replace_value o p).value ≡ or_old o p.value
replaced-value none p = refl
replaced-value (some v) p = refl

replacement-mapped :
    (property : Text) (table : List (Text × Text)) (p : Property)
    → or_old (replacement property table p) p.value ≡ mapped property table p.name p.value
unfolding replacement
replacement-mapped property table p = ground arith

find_property-map :
    (property : Text) (table : List (Text × Text)) (ps : List Property) (name : Text)
    → find_property name (map_properties property table ps).0
      ≡ map_option (mapped property table name) (find_property name ps)
unfolding find_property map_properties
find_property-map property table [] name = refl
find_property-map property table (p ∷ ps) name =
    let found = replacement property table p in
    rw
      (
        replaced-name found p,
        replaced-value found p,
        replacement-mapped property table p,
        find_property-map property table ps name,
      )
      (ground (arith, same_iff p.name name))

map_properties-names :
    (property : Text) (table : List (Text × Text)) (ps : List Property)
    → map (λ p. p.name) (map_properties property table ps).0 ≡ map (λ p. p.name) ps
unfolding map_properties
map_properties-names property table [] = refl
map_properties-names property table (p ∷ ps) =
    rw (replaced-name (replacement property table p) p, map_properties-names property table ps) refl

-- A mapping of platform properties succeeds and keeps the list of the names. It replaces the value
-- of the property that it names, if that value is in its table, and no other value: for any name,
-- the first property of that name has the old value or the one from the table.
pub apply_map_lem :
    (property : Text) (table : List (Text × Text)) (s : State)
    → let r = apply_map property table s in
      (r.0 ≡ ok tt)
      × (map (λ p. p.name) (properties r.1.action.platform)
          ≡ map (λ p. p.name) (properties s.action.platform))
      × ((name : Text)
          → find_property name (properties r.1.action.platform)
            ≡ map_option
                (mapped property table name)
                (find_property name (properties s.action.platform)))
unfolding apply_map find_property
apply_map_lem property table s = elim (Option-cases s.action.platform) [
  | inl e ↦ rw e (refl, refl, λ name. refl)
  | inr (ps, e) ↦
      rw e (refl, map_properties-names property table ps, find_property-map property table ps)
]

abbrev pub first_of : Option Text → Option Text → Option Text
first_of none o = o
first_of (some v) o = some v

find_property-append :
    (name : Text) (xs ys : List Property)
    → find_property name (xs ++ ys) ≡ first_of (find_property name xs) (find_property name ys)
unfolding find_property
find_property-append name [] ys = refl
find_property-append name (x ∷ xs) ys = ground (arith, find_property-append name xs ys)

abbrev left : List Text → List Property → List Property
left removed = filter (λ p. not (member p.name removed))

find_property-left :
    (name : Text) (removed : List Text) (ps : List Property)
    → find_property name (left removed ps)
      ≡ (if member name removed then none else find_property name ps)
unfolding find_property
find_property-left name removed [] = ground arith
find_property-left name removed (p ∷ ps) =
    ground (arith, find_property-left name removed ps, same_iff p.name name)

module _ (w : World) where
  -- The platform after a run that added these properties to `ps`.
  record Adds (additions : List Addition) (ps : List Property) (s u : State) : Type 0 where
    added : List Property
    names : map (λ p. p.name) added ≡ map (λ a. a.name) additions
    platform : u.action.platform ≡ some (ps ++ added)
    command : u.command_changed ≡ s.command_changed

  rendered-rest :
      (t : Template) (s : State)
      → ((render w t s).1.action ≡ s.action)
        × ((render w t s).1.command_changed ≡ s.command_changed)
  rendered-rest t s = elim (render-AtMostLoads w t s) [
    | inl e ↦ (ap (λ u. u.action) e, ap (λ u. u.command_changed) e)
    | inr e ↦ (
      ap (λ u. u.action) e ∙ loaded-action w s,
      ap (λ u. u.command_changed) e ∙ loaded-command_changed w s,
    )
  ]

  add_properties-Adds :
      (additions : List Addition) (ps : List Property) (s : State)
      → s.action.platform ≡ some ps
      → (add_properties w additions s).0 ≡ ok tt
      → Adds additions ps s (add_properties w additions s).1
  unfolding add_properties
  add_properties-Adds [] ps s h e = record {
    added = [];
    names = refl;
    platform = h ∙ ap some (sym (append-nil ps));
    command = refl;
  }
  add_properties-Adds (a ∷ additions) ps s h e = elim (Result-cases (render w a.value s).0) [
    | inr (x, f) ↦
        let fails : (add_properties w (a ∷ additions) s).0
            ≡ err (status internal "Failed to render property %q value: %v") =
          rw f refl in
        cc (fails, e)
    | inl (v, f) ↦
        let r = (render w a.value s).1 in
        let kept = rendered-rest a.value s in
        let p : Property = record { name = a.name; value = v } in
        let u = set_platform (properties r.action.platform ++ p ∷ []) r in
        let step : add_properties w (a ∷ additions) s ≡ add_properties w additions u = rw f refl in
        let old : r.action.platform ≡ some ps = ap (λ x. x.platform) kept.0 ∙ h in
        let rest =
          add_properties-Adds additions (ps ++ p ∷ []) u
            (ap (λ o. some (properties o ++ p ∷ [])) old) (ap (λ q. q.0) (sym step) ∙ e) in
        subst (λ q. Adds (a ∷ additions) ps s q.1) (sym step)
          (record {
            added = p ∷ rest.added;
            names = ap (λ ns. a.name ∷ ns) rest.names;
            platform = rest.platform ∙ ap some (append_assoc ps (p ∷ []) rest.added);
            command = rest.command ∙ kept.1;
          })
  ]

  -- If an edit of the platform succeeds, the platform is marked as changed and the command is not
  -- marked anew. What was added has the names of the additions, in their order, and for any name
  -- the first property of that name is the old one, unless that was to be removed, and else the
  -- first that was added.
  pub apply_edit_platform_lem :
      (removed : List Text) (additions : List Addition) (s : State)
      → (apply_edit_platform w removed additions s).0 ≡ ok tt
      → let u = (apply_edit_platform w removed additions s).1 in
        (u.platform_changed ≡ true)
        × (u.command_changed ≡ s.command_changed)
        × (added : List Property) × (map (λ p. p.name) added ≡ map (λ a. a.name) additions)
        × ((name : Text)
            → find_property name (properties u.action.platform)
              ≡ first_of
                  (if member name removed
                    then none
                    else find_property name (properties s.action.platform))
                  (find_property name added))
  unfolding apply_edit_platform
  apply_edit_platform_lem removed additions s e =
      let old = properties s.action.platform in
      let start = set_platform (left removed old) s in
      elim (Result-cases (add_properties w additions start).0) [
        | inr (x, f) ↦
            let fails : (apply_edit_platform w removed additions s).0 ≡ err x = rw f refl in
            cc (fails, e)
        | inl (v, f) ↦
            let done = add_properties-Adds additions (left removed old) start refl f in
            let u = record (add_properties w additions start).1 { platform_changed = true } in
            let step : apply_edit_platform w removed additions s ≡ (ok tt, u) = rw f refl in
            (
              ap (λ q. q.1.platform_changed) step,
              ap (λ q. q.1.command_changed) step ∙ done.command,
              done.added,
              done.names,
              λ name.
                  ap (λ q. find_property name (properties q.1.action.platform)) step
                  ∙ (ap (λ o. find_property name (properties o)) done.platform
                      ∙ (find_property-append name (left removed old) done.added
                          ∙ ap (λ o. first_of o (find_property name done.added))
                              (find_property-left name removed old))),
            )
      ]
