-- ===== src/Router/Outcome.antt =====
-- What HandleAction returns.
use bb_action_router.Base.{
  Text, same, ◌≡◌, refl, sym, ap, subst, ◌∙◌, inl, inr, Bool, true, false, Option, some, List, [],
  ◌∷◌, ◌++◌, arith, if◌then◌else◌,
}
use bb_action_router.Status.{Result, Result-cases, ok}
use bb_action_router.Reapi.{Action, RequestMetadata}
use bb_action_router.Router.State.{World, State, Exec, continue, ◌>>=◌, ◌>>◌}
use bb_action_router.Router.Template.{Template, render, truthy}
use bb_action_router.Router.Operations.{Operation, apply}
use bb_action_router.Router.Pipeline.{
  Pipeline, start, check_condition, run_operations, finish_platform, finish, run_pipeline,
  handle_action,
}
use bb_action_router.Router.Loading.{loaded-action, AtMostLoads, render-AtMostLoads}
use bb_action_router.Router.Canonical.{
  IsCanonical, run_pipeline-IsCanonical, give, Rest, Rest-cases,
}

-- What is returned is the action of the state.
record Returns (m : Exec Action) : Type 0 where
  result : (s : State) (b : Action) → (m s).0 ≡ ok b → b ≡ (m s).1.action

Returns-bind :
    {A : Type 0} (m : Exec A) (f : A → Exec Action) → ((x : A) → Returns (f x)) → Returns (m >>= f)
Returns-bind m f h = record {
  result = λ s b e. elim (Result-cases (m s).0) [
    | inl (x, r) ↦ rw r ((h x).result (m s).1 b (subst (λ z. (continue z f (m s).1).0 ≡ ok b) r e))
    | inr (x, r) ↦ cc (r, e)
  ];
}

ok-injective : {a b : Action} → Result.ok a ≡ ok b → a ≡ b
ok-injective e = ground arith

given :
    (r : Result Action × State) (t : State) (b : Action)
    → r ≡ (ok t.action, t)
    → r.0 ≡ ok b
    → b ≡ r.1.action
given r t b eq = subst (λ q. q.0 ≡ ok b → b ≡ q.1.action) (sym eq) (λ e. sym (ok-injective e))

Returns-give : Returns give
Returns-give = record { result = λ s b e. sym (ok-injective e) }

start-action : (a : Action) (m : Option RequestMetadata) → (start a m).action ≡ a
unfolding start
start-action a m = refl

module _ (w : World) where
  rest-Returns : (a : Action) → Returns (Rest w a)
  rest-Returns a = record {
    result = λ s b e. let (t, eq) = Rest-cases w a s b e in given (Rest w a s) t b eq e;
  }

  finish-Returns : Action → Returns (finish w)
  unfolding finish
  finish-Returns a = Returns-bind (finish_platform w) (λ _. Rest w a) λ _. rest-Returns a

  if-Returns : (b : Bool) (m n : Exec Action) → Returns m → Returns n → Returns (if b then m else n)
  if-Returns true m n h k = h
  if-Returns false m n h k = k

  run_pipeline-Returns : Action → (p : Pipeline) → Returns (run_pipeline w p)
  unfolding run_pipeline
  run_pipeline-Returns a p =
      let run : Exec Action = run_operations w p.operations >> finish w in
      Returns-bind (check_condition w p.condition) (λ runs. if runs then run else give)
        λ runs.
          if-Returns runs run give
            (Returns-bind (run_operations w p.operations) (λ _. finish w) (λ _. finish-Returns a))
            Returns-give

  -- If HandleAction succeeds, it returns the action that it was given, as the operations left it.
  -- If an operation marked the platform as changed, its properties are sorted by name and then
  -- value, else the platform is the one received. If one marked the command as changed, the
  -- action names the digest under which a command with sorted variables was stored, else the
  -- command digest and the input root are those received.
  pub handle_action-IsCanonical :
      (p : Pipeline) (a b : Action) (metadata : Option RequestMetadata)
      → (handle_action w p a metadata).0 ≡ ok b
      → (b ≡ (handle_action w p a metadata).1.action)
        × IsCanonical w a (handle_action w p a metadata).1
  unfolding handle_action start
  handle_action-IsCanonical p a b metadata e = (
    (run_pipeline-Returns a p).result _ b e,
    (run_pipeline-IsCanonical w a p).after _
        (
          record {
            command = record { digest = refl; input_root = λ _. refl };
            platform = λ _. refl;
          },
          refl,
          refl,
        )
        b e,
  )

  -- If HandleAction succeeds and no operation marked a change, the action is returned exactly as
  -- it was received.
  pub handle_action-unmarked :
      (p : Pipeline) (a b : Action) (metadata : Option RequestMetadata)
      → (handle_action w p a metadata).0 ≡ ok b
      → (handle_action w p a metadata).1.platform_changed ≡ false
      → (handle_action w p a metadata).1.command_changed ≡ false
      → b ≡ a
  handle_action-unmarked p a b metadata e f g =
      let (same, canonical) = handle_action-IsCanonical p a b metadata e in
      let (digest, root) = canonical.kept g in
      let platform = canonical.platform.kept f in ground (arith, same, digest, root, platform)

  -- If the condition of a pipeline renders to a falsy text, the action is returned as it was
  -- received, whatever the operations, and nothing happens but that the command may be loaded.
  pub handle_action-skipped :
      (c : Template) (ops : List Operation) (a : Action) (metadata : Option RequestMetadata)
      (out : Text)
      → (render w c (start a metadata)).0 ≡ ok out
      → truthy out ≡ false
      → let r = handle_action w (record { condition = some c; operations = ops }) a metadata in
        (r.0 ≡ ok a) × (r.1.action ≡ a) × AtMostLoads w (start a metadata) r.1
  unfolding handle_action run_pipeline check_condition
  handle_action-skipped c ops a metadata out e f =
      let s = start a metadata in
      let same = start-action a metadata in
      elim (render-AtMostLoads w c s) [
        | inl g ↦ (rw (e, f, g) (ap ok same), rw (e, f, g) same, inl (rw (e, f, g) refl))
        | inr g ↦
            let kept = loaded-action w s ∙ same in
            (rw (e, f, g) (ap ok kept), rw (e, f, g) kept, inr (rw (e, f, g) refl))
      ]

  -- Running one list of operations and then another runs the joined list: the second list runs in
  -- the state that the first leaves, and not at all if the first fails.
  pub run_operations-append :
      (xs ys : List Operation) (s : State)
      → run_operations w (xs ++ ys) s ≡ (run_operations w xs >> run_operations w ys) s
  unfolding run_operations
  run_operations-append [] ys s = refl
  run_operations-append (x ∷ xs) ys s = elim (Result-cases (apply w x s).0) [
    | inl (u, e) ↦ rw e (run_operations-append xs ys (apply w x s).1)
    | inr (y, e) ↦ rw e refl
  ]
