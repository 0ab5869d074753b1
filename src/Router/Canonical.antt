-- ===== src/Router/Canonical.antt =====
-- The order in which HandleAction leaves properties and variables, and what it stores.
use bb_action_router.Base.{
  put, IsOrdered, ◌≡◌, refl, sym, ap, subst, ◌∙◌, ◌≢◌, inl, inr, true, false, Option, none, some,
  arith, if◌then◌else◌, Bool-cases, Option-cases,
}
use mathlib.Core.Bool.{true≢false}
use bb_action_router.Status.{Error, Result, Result-cases, ok, err}
use bb_action_router.Reapi.{Action, Command, Digest}
use bb_action_router.Router.State.{World, State, Exec, get_command, set_command, continue, ◌>>◌}
use bb_action_router.Router.Template.{Template, properties}
use bb_action_router.Router.Pipeline.{
  Pipeline, property_lt, variable_lt, sort_platform, sort_environment, check_condition, put_command,
  finish_platform, finish_command, finish, run_pipeline,
}
use bb_action_router.Router.Ordering.{sort_platform-IsOrdered, sort_environment-IsOrdered}
use bb_action_router.Router.Loading.{loaded}
use bb_action_router.Router.Triples.{
  Ensures, Ensures-bind, Ensures-pure, Ensures-on_error, Ensures-render,
}
use bb_action_router.Router.Tracking.{TracksCommand, Tracks}
use bb_action_router.Router.Tracking.Steps.{Tracks-loaded, run_operations-Tracks}

abbrev pub give : Exec Action
give s = (ok s.action, s)

pub record PlatformDone (a : Action) (s : State) : Type 0 where
  pub sorted : s.platform_changed ≡ true → IsOrdered property_lt (properties s.action.platform)
  pub kept : s.platform_changed ≡ false → s.action.platform ≡ a.platform

-- The command is stored with its variables in order, under the digest that the action names.
pub record Stored (w : World) (s : State) : Type 0 where
  pub command : Command
  pub held : s.command ≡ some (ok command)
  pub sorted : IsOrdered variable_lt command.environment_variables
  pub named : put_command w command ≡ ok s.action.command_digest

pub record IsCanonical (w : World) (a : Action) (s : State) : Type 0 where
  pub platform : PlatformDone a s
  pub stored : s.command_changed ≡ true → Stored w s
  pub kept :
      s.command_changed ≡ false
      → (s.action.command_digest ≡ a.command_digest)
        × (s.action.input_root_digest ≡ a.input_root_digest)

err≢ok : {A : Type 0} {x : Error} {v : A} → Result.err x ≢ ok v
err≢ok e = ground arith

module _ (w : World) (a : Action) where
  finish_platform-true :
      (s : State)
      → s.platform_changed ≡ true
      → finish_platform w s ≡ (
        ok tt,
        record s { action = record s.action { platform = sort_platform s.action.platform } },
      )
  unfolding finish_platform
  finish_platform-true s f = rw f refl

  finish_platform-false :
      (s : State) → s.platform_changed ≡ false → finish_platform w s ≡ (ok tt, s)
  unfolding finish_platform
  finish_platform-false s f = rw f refl

  finish_platform-done :
      Ensures (Tracks a) (finish_platform w) (λ s. PlatformDone a s × TracksCommand a s)
  unfolding finish_platform
  finish_platform-done = record {
    after = λ s p v e. elim (Bool-cases s.platform_changed) [
      | inl f ↦
          subst (λ r. PlatformDone a r.1 × TracksCommand a r.1) (sym (finish_platform-true s f))
            (
              record {
                sorted = λ _. sort_platform-IsOrdered s.action.platform;
                kept = λ g. absurd (true≢false (sym f ∙ g));
              },
              record { digest = p.command.digest; input_root = p.command.input_root },
            )
      | inr f ↦
          subst (λ r. PlatformDone a r.1 × TracksCommand a r.1) (sym (finish_platform-false s f))
            (record { sorted = λ g. absurd (true≢false (sym g ∙ f)); kept = p.platform }, p.command)
    ];
  }

  -- The state after finish_command, if the command is `c` and is stored under `d`.
  abbrev Finished : State → Command → Digest → State
  Finished s c d = record (loaded w s) {
    command = some (ok (sort_environment w c));
    action = record (loaded w s).action { command_digest = d };
  }

  finish_command-cases :
      (s : State) (v : Unit {0})
      → (finish_command w s).0 ≡ ok v
      → (c : Command) × (d : Digest) × (put_command w (sort_environment w c) ≡ ok d)
        × (finish_command w s ≡ (ok tt, Finished s c d))
  unfolding finish_command set_command
  finish_command-cases s v e = elim (Result-cases (get_command w s).0) [
    | inr (x, f) ↦
        let fails : (finish_command w s).0 ≡ err x = rw f refl in absurd (err≢ok (sym fails ∙ e))
    | inl (c, f) ↦ elim (Result-cases (put_command w (sort_environment w c))) [
      | inr (x, g) ↦
          let fails : (finish_command w s).0 ≡ err x = rw (f, g) refl in
          absurd (err≢ok (sym fails ∙ e))
      | inl (d, g) ↦ (c, d, g, rw (f, g) refl)
    ]
  ]

  loaded-flags :
      (s : State)
      → ((loaded w s).action ≡ s.action)
        × ((loaded w s).platform_changed ≡ s.platform_changed)
        × ((loaded w s).command_changed ≡ s.command_changed)
  unfolding get_command
  loaded-flags s = elim (Option-cases s.command) [
    | inl e ↦ ground (arith, e)
    | inr (r, e) ↦ ground (arith, e)
  ]

  -- What finish does after finish_platform.
  abbrev pub Rest : Exec Action
  Rest s = (if s.command_changed then finish_command w >> give else give) s

  Rest-finished :
      (s t : State)
      → s.command_changed ≡ true
      → finish_command w s ≡ (ok tt, t)
      → Rest s ≡ (ok t.action, t)
  Rest-finished s t f done =
      ap (λ b. (if b then finish_command w >> give else give) s) f
      ∙ ap (λ r. continue r.0 (λ (_ : Unit {0}). give) r.1) done

  Rest-failed :
      (s : State) (x : Error)
      → s.command_changed ≡ true
      → (finish_command w s).0 ≡ err x
      → (Rest s).0 ≡ err x
  Rest-failed s x f fails =
      ap (λ b. ((if b then finish_command w >> give else give) s).0) f
      ∙ ap (λ r. (continue r (λ (_ : Unit {0}). give) (finish_command w s).1).0) fails

  pub Rest-cases :
      (s : State) (b : Action) → (Rest s).0 ≡ ok b → (t : State) × (Rest s ≡ (ok t.action, t))
  Rest-cases s b e = elim (Bool-cases s.command_changed) [
    | inr f ↦ (s, ap (λ x. (if x then finish_command w >> give else give) s) f)
    | inl f ↦ elim (Result-cases (finish_command w s).0) [
      | inr (x, g) ↦ absurd (err≢ok (sym (Rest-failed s x f g) ∙ e))
      | inl (u, g) ↦
          let (c, d, put, done) = finish_command-cases s u g in
          (Finished s c d, Rest-finished s (Finished s c d) f done)
    ]
  ]

  rest-IsCanonical : Ensures (λ s. PlatformDone a s × TracksCommand a s) Rest (IsCanonical w a)
  rest-IsCanonical = record {
    after = λ s p v e. elim (Bool-cases s.command_changed) [
      | inr f ↦
          let same_state : Rest s ≡ (ok s.action, s) =
            ap (λ b. (if b then finish_command w >> give else give) s) f in
          subst (λ r. IsCanonical w a r.1) (sym same_state)
            (record {
              platform = p.0;
              stored = λ g. absurd (true≢false (sym g ∙ f));
              kept = λ _. (p.1.digest, p.1.input_root f);
            })
      | inl f ↦ elim (Result-cases (finish_command w s).0) [
        | inr (x, g) ↦ absurd (err≢ok (sym (Rest-failed s x f g) ∙ e))
        | inl (u, g) ↦
            let (c, d, put, done) = finish_command-cases s u g in
            let ends : Rest s ≡ (ok (Finished s c d).action, Finished s c d) =
              Rest-finished s (Finished s c d) f done in
            let flags = loaded-flags s in
            subst (λ r. IsCanonical w a r.1) (sym ends)
              (record {
                platform = record {
                  sorted = λ h.
                      subst (λ x. IsOrdered property_lt (properties x.platform)) (sym flags.0)
                        (p.0.sorted (sym flags.1 ∙ h));
                  kept = λ h. ap (λ x. x.platform) flags.0 ∙ p.0.kept (sym flags.1 ∙ h);
                };
                stored = λ _. record {
                  command = sort_environment w c;
                  held = refl;
                  sorted = sort_environment-IsOrdered w c;
                  named = put;
                };
                kept = λ h. absurd (true≢false (sym (flags.2 ∙ f) ∙ h));
              })
      ]
    ];
  }

  finish-IsCanonical : Ensures (Tracks a) (finish w) (IsCanonical w a)
  unfolding finish
  finish-IsCanonical = Ensures-bind finish_platform-done λ _. rest-IsCanonical

  -- Before the first operation.
  abbrev pub Fresh : State → Type 0
  Fresh s = Tracks a s × (s.platform_changed ≡ false) × (s.command_changed ≡ false)

  Fresh-loaded : (s : State) → Fresh s → Fresh (loaded w s)
  Fresh-loaded s h =
      let flags = loaded-flags s in (Tracks-loaded w a s h.0, flags.1 ∙ h.1, flags.2 ∙ h.2)

  Fresh-IsCanonical : (s : State) → Fresh s → IsCanonical w a s
  Fresh-IsCanonical s h = record {
    platform = record { sorted = λ g. absurd (true≢false (sym g ∙ h.1)); kept = h.0.platform };
    stored = λ g. absurd (true≢false (sym g ∙ h.2));
    kept = λ g. (h.0.command.digest, h.0.command.input_root g);
  }

  check_condition-Fresh : (c : Option Template) → Ensures Fresh (check_condition w c) Fresh
  unfolding check_condition
  check_condition-Fresh none = Ensures-pure true
  check_condition-Fresh (some c) =
      Ensures-bind (Ensures-on_error _ (Ensures-render w Fresh-loaded c)) λ out. Ensures-pure _

  pub run_pipeline-IsCanonical : (p : Pipeline) → Ensures Fresh (run_pipeline w p) (IsCanonical w a)
  unfolding run_pipeline
  run_pipeline-IsCanonical p = Ensures-bind (check_condition-Fresh p.condition) λ runs.
      elim (Bool-cases runs) [
        | inl e ↦ rw e (
            Ensures-bind {P = Fresh} {R = Tracks a}
              (record {
                after = λ s h v f. (run_operations-Tracks w a p.operations).after s h.0 v f;
              })
              λ _. finish-IsCanonical)
        | inr e ↦ rw e (record { after = λ s h v f. Fresh-IsCanonical s h })
      ]
