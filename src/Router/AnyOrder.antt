-- ===== src/Router/AnyOrder.antt =====
-- editEnvironmentOp.apply ranges over a Go map. What the pipeline makes of the command in the end does
-- not depend on the order.
use bb_action_router.Base.{
  Text, same, same_iff, same_refl, lookup, has, remove, lookup-remove, IsMap, remove-IsMap,
  All-lookup, IsMap-All, insert_by, sort_by, ◌≡◌, refl, sym, ap, subst, ◌∙◌, inl, inr, Bool, true,
  false, Option, none, some, List, [], ◌∷◌, ◌++◌, map, arith, Bool-cases, All, All-map, same_comm,
}
use mathlib.Core.List.Perm
use bb_action_router.Status.{ok}
use bb_action_router.Reapi.{Command, Variable}
use bb_action_router.Router.State.{World, State, get_command, set_command, ◌>>◌}
use bb_action_router.Router.Template.{Template, render}
use bb_action_router.Router.Operations.{apply_edit_environment}
use bb_action_router.Router.Pipeline.{
  variable_lt, sort_environment, finish_platform, finish_command, finish,
}
use bb_action_router.Router.NamesOnce.{
  insert_by-commutes, NamesOnce, sort-Perm, NamesOnce-append, NamesOnce-filter,
}
use bb_action_router.Router.Variables.{setting, kept}
use bb_action_router.Router.Loading.{loaded}
use bb_action_router.Router.Environment.{
  with_environment, with_command, SettingsRenderTo, edited_environment,
  apply_edit_environment-edited,
}

abbrev sorted_settings : (Template → Text) → List (Text × Template) → List Variable
sorted_settings value m = sort_by variable_lt (map (setting value) m)

remove-absent : (k : Text) (m : List (Text × Template)) → lookup k m ≡ none → remove k m ≡ m
unfolding remove lookup
remove-absent k [] h = refl
remove-absent k ((j, u) ∷ m) h = ground (arith, remove-absent k m)

-- Any entry of a map may be sorted in last.
sort-extract :
    (value : Template → Text) (k : Text) (t : Template) (m : List (Text × Template))
    → IsMap m
    → lookup k m ≡ some t
    → sorted_settings value m
      ≡ insert_by variable_lt (setting value (k, t)) (sorted_settings value (remove k m))
unfolding sort_by lookup remove
sort-extract value k t [] h e = absurd (ground arith)
sort-extract value k t ((j, u) ∷ m) h e = elim (Bool-cases (same j k)) [
  | inl self ↦
      let gone = subst (λ i. lookup i m ≡ none) ((same_iff j k).0 self) h.0 in
      rw (self, remove-absent k m gone)
        (ap (λ v. insert_by variable_lt v (sorted_settings value m))
          (ap (setting value) (ground (arith, same_iff j k))))
  | inr other ↦
      rw (other, sort-extract value k t m h.1 (ground arith))
        (insert_by-commutes (setting value (j, u)) (setting value (k, t))
          (sorted_settings value (remove k m)) other)
]

-- Two orders of one map.
abbrev pub SameMap : List (Text × Template) → List (Text × Template) → Type 0
SameMap xs ys = IsMap xs × IsMap ys × ((k : Text) → lookup k xs ≡ lookup k ys)

first_found :
    (k : Text) (t : Template) (xs : List (Text × Template)) → lookup k ((k, t) ∷ xs) ≡ some t
unfolding lookup
first_found k t xs = ground (arith, same_refl k)

sort-SameMap :
    (value : Template → Text) (xs ys : List (Text × Template))
    → SameMap xs ys
    → sorted_settings value xs ≡ sorted_settings value ys
unfolding sort_by lookup
sort-SameMap value [] [] m = refl
sort-SameMap value [] ((k, t) ∷ ys) (mx, my, e) = absurd (ground (arith, e k, same_refl k))
sort-SameMap value ((k, t) ∷ xs) ys (mx, my, e) =
    let found = sym (e k) ∙ first_found k t xs in
    let rest = sort-SameMap value xs (remove k ys) (
      mx.1,
      remove-IsMap k ys my,
      λ j. ground (
        arith,
        e j,
        lookup-remove k j ys,
        mx.0,
        same_iff k j,
        ap (λ i. lookup i xs) {x = k} {y = j},
      ),
    ) in
    ap (insert_by variable_lt (setting value (k, t))) rest
    ∙ sym (sort-extract value k t ys my found)

sort-append :
    (vs xs ys : List Variable)
    → sort_by variable_lt xs ≡ sort_by variable_lt ys
    → sort_by variable_lt (vs ++ xs) ≡ sort_by variable_lt (vs ++ ys)
unfolding sort_by
sort-append [] xs ys e = e
sort-append (v ∷ vs) xs ys e = ap (insert_by variable_lt v) (sort-append vs xs ys e)

abbrev is_some : Option Template → Bool
is_some none = false
is_some (some t) = true

has-is_some : (k : Text) (m : List (Text × Template)) → has k m ≡ is_some (lookup k m)
unfolding has lookup
has-is_some k [] = refl
has-is_some k ((j, t) ∷ m) = ground (arith, has-is_some k m)

has-lookup :
    (k : Text) (xs ys : List (Text × Template)) → lookup k xs ≡ lookup k ys → has k xs ≡ has k ys
has-lookup k xs ys e = has-is_some k xs ∙ ap is_some e ∙ sym (has-is_some k ys)

kept-SameMap :
    (removed : List Text) (xs ys : List (Text × Template)) (vs : List Variable)
    → ((k : Text) → lookup k xs ≡ lookup k ys)
    → kept removed xs vs ≡ kept removed ys vs
kept-SameMap removed xs ys [] e = refl
kept-SameMap removed xs ys (v ∷ vs) e =
    rw (has-lookup v.name xs ys (e v.name), kept-SameMap removed xs ys vs e) refl

settings-apart :
    (value : Template → Text) (k : Text) (m : List (Text × Template))
    → has k m ≡ false
    → All (λ u. same k u.name ≡ false) (map (setting value) m)
unfolding has
settings-apart value k [] h = tt
settings-apart value k ((j, t) ∷ m) h =
    (ground (arith, same_comm k j), settings-apart value k m (ground arith))

settings-NamesOnce :
    (value : Template → Text) (m : List (Text × Template))
    → IsMap m
    → NamesOnce (map (setting value) m)
settings-NamesOnce value [] h = tt
settings-NamesOnce value ((k, t) ∷ m) h =
    (settings-apart value k m (has-is_some k m ∙ ap is_some h.0), settings-NamesOnce value m h.1)

kept-not_set :
    (removed : List Text) (m : List (Text × Template)) (vs : List Variable)
    → All (λ v. has v.name m ≡ false) (kept removed m vs)
kept-not_set removed m [] = tt
kept-not_set removed m (v ∷ vs) = ground (arith, kept-not_set removed m vs)

edited-NamesOnce :
    (value : Template → Text) (removed : List Text) (m : List (Text × Template))
    (vs : List Variable)
    → IsMap m
    → NamesOnce vs
    → NamesOnce (kept removed m vs ++ map (setting value) m)
edited-NamesOnce value removed m vs one h =
    NamesOnce-append (kept removed m vs) (map (setting value) m) (NamesOnce-filter _ vs h)
      (settings-NamesOnce value m one)
      (All-map (λ v f. settings-apart value v.name m f) (kept removed m vs)
        (kept-not_set removed m vs))

module _ (w : World) where
  -- The end of the pipeline reads the environment only in its order.
  finish-sorted :
      (s : State) (c d : Command)
      → sort_environment w c ≡ sort_environment w d
      → finish w (record (with_command c s) { command_changed = true })
        ≡ finish w (record (with_command d s) { command_changed = true })
  unfolding finish finish_platform finish_command get_command set_command
  finish-sorted s c d e = elim (Bool-cases s.platform_changed) [
    | inl t ↦ rw (t, e) refl
    | inr f ↦ rw (f, e) refl
  ]

  edited_environment-sorted :
      (value : Template → Text) (removed : List Text) (xs ys : List (Text × Template)) (c : Command)
      → NamesOnce c.environment_variables
      → SameMap xs ys
      → sort_environment w (with_environment (edited_environment w value removed xs c) c)
        ≡ sort_environment w (with_environment (edited_environment w value removed ys c) c)
  unfolding sort_environment
  edited_environment-sorted value removed xs ys c once m =
      let vs = c.environment_variables in
      let left = kept removed ys vs in
      let one = edited-NamesOnce value removed xs vs m.0 once in
      let other = edited-NamesOnce value removed ys vs m.1 once in
      ap (λ us. with_environment us c)
        (sym (sort-Perm (Perm.symm (w.arrange-Perm _)) one)
          ∙ ap (λ us. sort_by variable_lt (us ++ map (setting value) xs))
              (kept-SameMap removed xs ys vs m.2)
          ∙ sort-append left (map (setting value) xs) (map (setting value) ys)
              (sort-SameMap value xs ys m)
          ∙ sort-Perm (Perm.symm (w.arrange-Perm _)) other)

  renders-SameMap :
      (s : State) (value : Template → Text) (xs ys : List (Text × Template))
      → SameMap xs ys
      → SettingsRenderTo w s value xs
      → SettingsRenderTo w s value ys
  renders-SameMap s value xs ys (mx, my, e) all =
      All-map
        (λ p found.
          All-lookup (λ q. (render w q.1 s).0 ≡ ok (value q.1)) p.0 p.1 xs all (e p.0 ∙ found))
        ys (IsMap-All ys my)

  -- If the command loads, has each variable once, and the templates of the variables to set render,
  -- the edit and what follows the operations give the same result and the same state, the written command included,
  -- in whatever order the map of variables is visited.
  pub apply_edit_environment_any_order :
      (s : State) (c : Command) (value : Template → Text) (removed : List Text)
      (xs ys : List (Text × Template))
      → (get_command w s).0 ≡ ok c
      → NamesOnce c.environment_variables
      → SettingsRenderTo w (loaded w s) value xs
      → SameMap xs ys
      → (do apply_edit_environment w removed xs; finish w) s
        ≡ (do apply_edit_environment w removed ys; finish w) s
  apply_edit_environment_any_order s c value removed xs ys load once all m =
      let one = apply_edit_environment-edited w s c value removed xs load all in
      let other =
        apply_edit_environment-edited w s c value removed ys load
          (renders-SameMap (loaded w s) value xs ys m all) in
      rw (one, other)
        (finish-sorted (loaded w s) (with_environment (edited_environment w value removed xs c) c)
          (with_environment (edited_environment w value removed ys c) c)
          (edited_environment-sorted value removed xs ys c once m))
