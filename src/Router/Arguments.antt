-- ===== src/Router/Arguments.antt =====
-- What editCommandOp.apply does to the arguments of the command.
use bb_action_router.Base.{
  Text, same, ◌≡◌, refl, ap, ◌∙◌, ◌≢◌, inl, inr, true, not, some, List, [], ◌∷◌, ◌++◌, map,
  Bool-cases, filter, All,
}
use bb_action_router.Status.{Result, Result-cases, ok}
use bb_action_router.Reapi.{Command}
use bb_action_router.Router.State.{World, State, get_command, set_command}
use bb_action_router.Router.Template.{Template, render}
use bb_action_router.Router.Operations.{render_arguments, apply_edit_command}
use bb_action_router.Router.Loading.{loaded, loaded-command, render-stays}

module _ (w : World) where
  -- The templates render to these texts.
  abbrev pub RenderTo : State → (Template → Text) → List Template → Type 0
  RenderTo s value = All (λ t. (render w t s).0 ≡ ok (value t))

  abbrev pub non_empty : List Text → List Text
  non_empty = filter (λ x. not (same x []))

  render_arguments-stays :
      (s : State) (r : Result Command) (ts : List Template)
      → s.command ≡ some r
      → (render_arguments w ts s).1 ≡ s
  unfolding render_arguments
  render_arguments-stays s r [] h = refl
  render_arguments-stays s r (t ∷ ts) h =
      let ih = render_arguments-stays s r ts h in
      let here = render-stays w t s r h in
      elim (Result-cases (render w t s).0) [
        | inl (x, e) ↦ elim (Result-cases (render_arguments w ts s).0) [
          | inl (xs, f) ↦ rw (e, here, f) ih
          | inr (x, f) ↦ rw (e, here, f) ih
        ]
        | inr (x, e) ↦ rw e here
      ]

  render_arguments-RenderTo :
      (s : State) (r : Result Command) (value : Template → Text) (ts : List Template)
      → s.command ≡ some r
      → RenderTo s value ts
      → (render_arguments w ts s).0 ≡ ok (non_empty (map value ts))
  unfolding render_arguments
  render_arguments-RenderTo s r value [] h all = refl
  render_arguments-RenderTo s r value (t ∷ ts) h all =
      let ih = render_arguments-RenderTo s r value ts h all.1 in
      let here = render-stays w t s r h in
      elim (Bool-cases (same (value t) [])) [
        | inl e ↦ rw (all.0, here, ih, e) refl
        | inr e ↦ rw (all.0, here, ih, e) refl
      ]

  -- If the command loads as `c` and every template renders in that state, the edit succeeds, and
  -- the arguments become what the prepended templates render to, then the old ones, then what the
  -- appended templates render to, without the texts that are empty; only the arguments and the
  -- mark of the change differ from the loaded state.
  pub apply_edit_command_lem :
      (s : State) (c : Command) (value : Template → Text) (front back : List Template)
      → (get_command w s).0 ≡ ok c
      → RenderTo (loaded w s) value front
      → RenderTo (loaded w s) value back
      → apply_edit_command w front back s ≡ (
        ok tt,
        record (loaded w s) {
          command = some (
              ok (record c {
                arguments =
                    non_empty (map value front) ++ (c.arguments ++ non_empty (map value back));
              }));
          command_changed = true;
        },
      )
  unfolding apply_edit_command set_command
  apply_edit_command_lem s c value front back e f b =
      let u = loaded w s in
      let held = loaded-command w s ∙ ap some e in
      rw
        (
          e,
          render_arguments-stays u (ok c) front held,
          render_arguments-RenderTo u (ok c) value front held f,
          render_arguments-stays u (ok c) back held,
          render_arguments-RenderTo u (ok c) value back held b,
        )
        refl

  -- If the edit fails, nothing of the state has changed, except that the command may have been
  -- loaded.
  pub apply_edit_command_fails :
      (s : State) (front back : List Template)
      → (apply_edit_command w front back s).0 ≢ ok tt
      → (apply_edit_command w front back s).1 ≡ loaded w s
  unfolding apply_edit_command set_command
  apply_edit_command_fails s front back e =
      let u = loaded w s in
      let stays = λ (ts : List Template) (r : Result Command) (h : u.command ≡ some r).
        render_arguments-stays u r ts h in
      elim (Result-cases (get_command w s).0) [
        | inr (x, f) ↦ rw f refl
        | inl (c, f) ↦
            let held = loaded-command w s ∙ ap some f in
            elim (Result-cases (render_arguments w front u).0) [
              | inr (x, g) ↦ rw (f, g) (stays front (ok c) held)
              | inl (xs, g) ↦ elim (Result-cases (render_arguments w back u).0) [
                | inr (x, h) ↦ rw (f, g, stays front (ok c) held, h) (stays back (ok c) held)
                | inl (ys, h) ↦ absurd (e (rw (f, g, stays front (ok c) held, h) refl))
              ]
            ]
      ]
