-- ===== src/Router/Tracking/Steps.antt =====
-- The marks that each operation, and the loop over the operations, leave.
use bb_action_router.Base.{
  Text, member, sym, ap, subst, ◌∙◌, inl, inr, Bool, true, not, some, List, [], ◌∷◌, arith,
  Bool-cases, Option-cases, filter,
}
use mathlib.Core.Bool.{true≢false}
use bb_action_router.Status.{Result-cases}
use bb_action_router.Reapi.{Action, Command, Directory}
use bb_action_router.Router.State.{World, State, get_command, set_command}
use bb_action_router.Router.Template.{properties, Template, truthy}
use bb_action_router.Router.Merge.{
  load_directory, assert_directory_doesnt_contain_name, bazel_input_root_directory_name,
  put_directory, with_input_root, merge_image, apply_merge,
}
use bb_action_router.Router.Operations.{
  set_platform, Operation, assert_platform_property, map_platform_property, edit_platform_property,
  edit_command, edit_environment, merge_docker_root, conditional, Addition, apply_assert, apply_map,
  add_properties, apply_edit_platform, render_arguments, apply_edit_command, set_variables,
  apply_edit_environment, apply,
}
use bb_action_router.Router.Pipeline.{run_operations}
use bb_action_router.Router.Loading.{loaded}
use bb_action_router.Router.Merging.{merge_image-ok, merge_image-err}
use bb_action_router.Router.Triples.{
  Ensures, Ensures-bind, Ensures-pure, Ensures-lift, Ensures-modify, Ensures-on_error,
  Ensures-get_command, Ensures-render,
}
use bb_action_router.Router.Tracking.{
  TracksCommand, Tracks, map_properties-unchanged, apply_map-none, apply_map-some,
}

module _ (w : World) (a : Action) where
  TracksCommand-loaded : (s : State) → TracksCommand a s → TracksCommand a (loaded w s)
  unfolding get_command
  TracksCommand-loaded s h = elim (Option-cases s.command) [
    | inl e ↦ ground (arith, e)
    | inr (r, e) ↦ ground (arith, e)
  ]

  pub Tracks-loaded : (s : State) → Tracks a s → Tracks a (loaded w s)
  unfolding get_command
  Tracks-loaded s h = elim (Option-cases s.command) [
    | inl e ↦ ground (arith, e)
    | inr (r, e) ↦ ground (arith, e)
  ]

  apply_assert-Tracks :
      (property : Text) (regex : Text → Bool)
      → Ensures (Tracks a) (apply_assert property regex) (Tracks a)
  unfolding apply_assert
  apply_assert-Tracks property regex = record { after = λ s p v e. ground arith }

  apply_map-Tracks :
      (property : Text) (table : List (Text × Text))
      → Ensures (Tracks a) (apply_map property table) (Tracks a)
  unfolding apply_map
  apply_map-Tracks property table = record {
    after = λ s p v e. elim (Option-cases s.action.platform) [
      | inl f ↦ subst (λ r. Tracks a r.1) (sym (apply_map-none property table s f)) p
      | inr (ps, f) ↦
          subst (λ r. Tracks a r.1) (sym (apply_map-some property table s ps f))
            (record {
              command = record { digest = p.command.digest; input_root = p.command.input_root };
              platform = λ unchanged.
                  ap some (map_properties-unchanged property table ps (ground arith))
                  ∙ (sym f ∙ p.platform (ground arith));
            })
    ];
  }

  set_command-Tracks : (c : Command) → Ensures (Tracks a) (set_command c) (Tracks a)
  unfolding set_command
  set_command-Tracks c = record {
    after = λ s p v e. record {
      command = record { digest = p.command.digest; input_root = p.command.input_root };
      platform = p.platform;
    };
  }

  add_properties-Tracks :
      (additions : List Addition)
      → Ensures (TracksCommand a) (add_properties w additions) (TracksCommand a)
  unfolding add_properties
  add_properties-Tracks [] = Ensures-pure tt
  add_properties-Tracks (x ∷ additions) =
      Ensures-bind (Ensures-on_error _ (Ensures-render w TracksCommand-loaded x.value)) λ value.
        Ensures-bind
          (Ensures-modify _ (λ s h. record { digest = h.digest; input_root = h.input_root }))
          λ _. add_properties-Tracks additions

  apply_edit_platform-Tracks :
      (removed : List Text) (additions : List Addition)
      → Ensures (Tracks a) (apply_edit_platform w removed additions) (Tracks a)
  unfolding apply_edit_platform
  apply_edit_platform-Tracks removed additions =
      Ensures-bind {R = TracksCommand a}
        (Ensures-modify (λ s. set_platform (properties s.action.platform) s)
          (λ s h. record { digest = h.command.digest; input_root = h.command.input_root }))
        λ _.
          Ensures-bind {R = TracksCommand a}
            (Ensures-modify
              (λ s.
                set_platform
                  (filter (λ p. not (member p.name removed)) (properties s.action.platform)) s)
              (λ s h. record { digest = h.digest; input_root = h.input_root }))
            λ _. Ensures-bind (add_properties-Tracks additions) λ _.
              Ensures-modify (λ s. record s { platform_changed = true })
                (λ s h. record {
                  command = record { digest = h.digest; input_root = h.input_root };
                  platform = λ f. absurd (true≢false f);
                })

  render_arguments-Tracks :
      (ts : List Template) → Ensures (Tracks a) (render_arguments w ts) (Tracks a)
  unfolding render_arguments
  render_arguments-Tracks [] = Ensures-pure []
  render_arguments-Tracks (t ∷ ts) =
      Ensures-bind (Ensures-on_error _ (Ensures-render w Tracks-loaded t))
        λ value. Ensures-bind (render_arguments-Tracks ts) λ rest. Ensures-pure _

  change-Tracks : (s : State) → Tracks a s → Tracks a (record s { command_changed = true })
  change-Tracks s h = record {
    command = record { digest = h.command.digest; input_root = λ f. ground arith };
    platform = h.platform;
  }

  apply_edit_command-Tracks :
      (front back : List Template) → Ensures (Tracks a) (apply_edit_command w front back) (Tracks a)
  unfolding apply_edit_command
  apply_edit_command-Tracks front back = Ensures-bind (Ensures-get_command w Tracks-loaded) λ c.
      Ensures-bind (render_arguments-Tracks front) λ xs.
        Ensures-bind (render_arguments-Tracks back)
          λ ys. Ensures-bind (set_command-Tracks _) λ _. Ensures-modify _ change-Tracks

  set_variables-Tracks :
      (c : Command) (settings : List (Text × Template))
      → Ensures (Tracks a) (set_variables w c settings) (Tracks a)
  unfolding set_variables
  set_variables-Tracks c [] = Ensures-pure tt
  set_variables-Tracks c ((name, t) ∷ settings) =
      Ensures-bind (Ensures-on_error _ (Ensures-render w Tracks-loaded t))
        λ value. Ensures-bind (set_command-Tracks _) λ _. set_variables-Tracks _ settings

  apply_edit_environment-Tracks :
      (removed : List Text) (settings : List (Text × Template))
      → Ensures (Tracks a) (apply_edit_environment w removed settings) (Tracks a)
  unfolding apply_edit_environment
  apply_edit_environment-Tracks removed settings =
      Ensures-bind (Ensures-get_command w Tracks-loaded) λ c.
        Ensures-bind (set_command-Tracks _)
          λ _. Ensures-bind (set_variables-Tracks _ settings) λ _. Ensures-modify _ change-Tracks

  merge_image-Tracks :
      (image : Directory) (c : Command) → Ensures (Tracks a) (merge_image w image c) (Tracks a)
  unfolding merge_image
  merge_image-Tracks image c = record {
    after = λ s p v e.
        elim (Result-cases (put_directory w (with_input_root s.action.input_root_digest image))) [
          | inl (d, f) ↦
              subst (λ r. Tracks a r.1) (sym (merge_image-ok w image c s d f))
                (record {
                  command = record {
                    digest = p.command.digest;
                    input_root = λ f. absurd (true≢false f);
                  };
                  platform = p.platform;
                })
          | inr (x, f) ↦ subst (λ r. Tracks a r.1) (sym (merge_image-err w image c s x f)) p
        ];
  }

  apply_merge-Tracks :
      (image_ref : Template) → Ensures (Tracks a) (apply_merge w image_ref) (Tracks a)
  unfolding apply_merge
  apply_merge-Tracks image_ref =
      Ensures-bind (Ensures-on_error _ (Ensures-render w Tracks-loaded image_ref)) λ ref.
        Ensures-bind (Ensures-lift _) λ _. Ensures-bind (Ensures-get_command w Tracks-loaded) λ c.
          Ensures-bind (Ensures-lift (w.get_dir_digest ref)) λ root.
            Ensures-bind (Ensures-lift (load_directory w root)) λ image.
              Ensures-bind
                (Ensures-lift
                  (assert_directory_doesnt_contain_name image bazel_input_root_directory_name))
                λ _. merge_image-Tracks image c

  pub apply-Tracks : (op : Operation) → Ensures (Tracks a) (apply w op) (Tracks a)
  unfolding apply
  apply-Tracks (assert_platform_property property regex) = apply_assert-Tracks property regex
  apply-Tracks (map_platform_property property table) = apply_map-Tracks property table
  apply-Tracks (edit_platform_property removed additions) =
      apply_edit_platform-Tracks removed additions
  apply-Tracks (edit_command front back) = apply_edit_command-Tracks front back
  apply-Tracks (edit_environment removed settings) = apply_edit_environment-Tracks removed settings
  apply-Tracks (merge_docker_root image_ref) = apply_merge-Tracks image_ref
  apply-Tracks (conditional condition op) =
      Ensures-bind (Ensures-on_error _ (Ensures-render w Tracks-loaded condition)) λ out.
        elim (Bool-cases (truthy out)) [
          | inl e ↦ rw e (apply-Tracks op)
          | inr e ↦ rw e (Ensures-pure tt)
        ]

  pub run_operations-Tracks :
      (ops : List Operation) → Ensures (Tracks a) (run_operations w ops) (Tracks a)
  unfolding run_operations
  run_operations-Tracks [] = Ensures-pure tt
  run_operations-Tracks (op ∷ ops) = Ensures-bind (apply-Tracks op) λ _. run_operations-Tracks ops
