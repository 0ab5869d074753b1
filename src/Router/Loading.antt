-- ===== src/Router/Loading.antt =====
-- What render and getCommand do to the state.
use bb_action_router.Base.{Text, ◌≡◌, refl, sym, ap, ◌∙◌, ◌⊎◌, inl, inr, some, arith, Option-cases}
use mathlib.Core.Path.{ap₂}
use bb_action_router.Status.{Result, Result-cases, ok, err, exec_error}
use bb_action_router.Reapi.{Command}
use bb_action_router.Router.State.{World, State, get_command}
use bb_action_router.Router.Template.{
  Template, output, fails, platform_get, working_directory, metadata, property_value, properties,
  metadata_field, render,
}

module _ (w : World) where
  -- The state with its command loaded.
  abbrev pub loaded : State → State
  loaded s = (get_command w s).1

  -- Rendering leaves the state as it was, or with its command loaded.
  abbrev pub AtMostLoads : State → State → Type 0
  AtMostLoads s u = (u ≡ s) ⊎ (u ≡ loaded s)

  pub get_command-some :
      (s : State) (r : Result Command) → s.command ≡ some r → get_command w s ≡ (r, s)
  unfolding get_command
  get_command-some s r e = rw e refl

  pub loaded-command : (s : State) → (loaded s).command ≡ some (get_command w s).0
  unfolding get_command
  loaded-command s = elim (Option-cases s.command) [
    | inl e ↦ ground (arith, e)
    | inr (r, e) ↦ ground (arith, e)
  ]

  pub get_command-loaded : (s : State) → get_command w (loaded s) ≡ get_command w s
  get_command-loaded s = get_command-some (loaded s) (get_command w s).0 (loaded-command s)

  AtMostLoads-loaded : {s u : State} → AtMostLoads (loaded s) u → AtMostLoads s u
  AtMostLoads-loaded {s} (inl e) = inr e
  AtMostLoads-loaded {s} (inr e) = inr (e ∙ ap (λ r. r.1) (get_command-loaded s))

  pub render-AtMostLoads : (t : Template) (s : State) → AtMostLoads s (render w t s).1
  unfolding render
  render-AtMostLoads (output text) s = inl refl
  render-AtMostLoads fails s = inl refl
  render-AtMostLoads (platform_get name k) s =
      render-AtMostLoads (k (property_value name (properties s.action.platform))) s
  render-AtMostLoads (metadata f k) s =
      render-AtMostLoads (k (metadata_field f s.request_metadata)) s
  render-AtMostLoads (working_directory k) s = elim (Result-cases (get_command w s).0) [
    | inl (c, e) ↦
        rw (e, render) (AtMostLoads-loaded (render-AtMostLoads (k c.working_directory) (loaded s)))
    | inr (x, e) ↦ rw (e, render) (inr refl)
  ]

  pub loaded-action : (s : State) → (loaded s).action ≡ s.action
  unfolding get_command
  loaded-action s = elim (Option-cases s.command) [
    | inl e ↦ ground (arith, e)
    | inr (r, e) ↦ ground (arith, e)
  ]

  pub loaded-request_metadata : (s : State) → (loaded s).request_metadata ≡ s.request_metadata
  unfolding get_command
  loaded-request_metadata s = elim (Option-cases s.command) [
    | inl e ↦ ground (arith, e)
    | inr (r, e) ↦ ground (arith, e)
  ]

  pub loaded-command_changed : (s : State) → (loaded s).command_changed ≡ s.command_changed
  unfolding get_command
  loaded-command_changed s = elim (Option-cases s.command) [
    | inl e ↦ ground (arith, e)
    | inr (r, e) ↦ ground (arith, e)
  ]

  pub render-stays :
      (t : Template) (s : State) (r : Result Command) → s.command ≡ some r → (render w t s).1 ≡ s
  render-stays t s r h = elim (render-AtMostLoads t s) [
    | inl e ↦ e
    | inr e ↦ e ∙ ap (λ x. x.1) (get_command-some s r h)
  ]

  abbrev directory_of : Result Command → Result Text
  directory_of (ok c) = ok c.working_directory
  directory_of (err e) = err e

  -- Two states that a template cannot tell apart.
  pub record Alike (s u : State) : Type 0 where
    pub platform : s.action.platform ≡ u.action.platform
    pub metadata : s.request_metadata ≡ u.request_metadata
    pub directory : directory_of (get_command w s).0 ≡ directory_of (get_command w u).0

  loaded-Alike : (s u : State) → Alike s u → Alike (loaded s) (loaded u)
  loaded-Alike s u h = record {
    platform =
        ap (λ a. a.platform) (loaded-action s)
        ∙ (h.platform ∙ sym (ap (λ a. a.platform) (loaded-action u)));
    metadata = loaded-request_metadata s ∙ (h.metadata ∙ sym (loaded-request_metadata u));
    directory =
        ap (λ r. directory_of r.0) (get_command-loaded s)
        ∙ (h.directory ∙ sym (ap (λ r. directory_of r.0) (get_command-loaded u)));
  }

  enter : (Text → Template) → Result Text → State → Result Text
  enter k (ok d) s = (render w (k d) s).0
  enter k (err e) s = err (exec_error e)

  render-directory :
      (k : Text → Template) (s : State)
      → (render w (working_directory k) s).0 ≡ enter k (directory_of (get_command w s).0) (loaded s)
  unfolding render enter
  render-directory k s = elim (Result-cases (get_command w s).0) [
    | inl (c, e) ↦ rw (e, render) refl
    | inr (x, e) ↦ rw (e, render) refl
  ]

  pub render-Alike : (t : Template) (s u : State) → Alike s u → (render w t s).0 ≡ (render w t u).0
  unfolding render enter
  render-Alike (output text) s u h = refl
  render-Alike fails s u h = refl
  render-Alike (platform_get name k) s u h =
      ap (λ p. (render w (k (property_value name (properties p))) s).0) h.platform
      ∙ (render-Alike (k (property_value name (properties u.action.platform))) s u h)
  render-Alike (metadata f k) s u h =
      ap (λ m. (render w (k (metadata_field f m)) s).0) h.metadata
      ∙ (render-Alike (k (metadata_field f u.request_metadata)) s u h)
  render-Alike (working_directory k) s u h =
      render-directory k s
      ∙ (ap (λ d. enter k d (loaded s)) h.directory
          ∙ (elim (Result-cases (directory_of (get_command w u).0)) [
            | inl (d, e) ↦ rw e (render-Alike (k d) (loaded s) (loaded u) (loaded-Alike s u h))
            | inr (x, e) ↦ rw e refl
          ]
              ∙ sym (render-directory k u)))

  pub loaded-is_Alike : (s : State) → Alike (loaded s) s
  loaded-is_Alike s = record {
    platform = ap (λ a. a.platform) (loaded-action s);
    metadata = loaded-request_metadata s;
    directory = ap (λ r. directory_of r.0) (get_command-loaded s);
  }

  -- Rendering a template a second time gives what it gave the first time, and changes nothing.
  pub render_again : (t : Template) (s : State) → render w t (render w t s).1 ≡ render w t s
  render_again t s = elim (render-AtMostLoads t s) [
    | inl e ↦ ap (render w t) e
    | inr e ↦
        let again = render-stays t (loaded s) (get_command w s).0 (loaded-command s) in
        ap (render w t) e
        ∙ ap₂ (λ r u. (r, u)) (render-Alike t (loaded s) s (loaded-is_Alike s)) (again ∙ sym e)
  ]
