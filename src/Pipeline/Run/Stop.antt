-- ===== src/Pipeline/Run/Stop.antt =====
-- pipeline.go: which actions `execute` runs, and when it provisions.
use k8s_controller_lib.Prelude.{
  ℕ, ◌≡◌, refl, sym, ap, ◌∙◌, ◌⊎◌, inl, inr, true, false, Option, none, some, List, [], ◌∷◌, ◌++◌,
  Bool-cases,
}
use mathlib.Core.List.{append-nil, append_assoc}
use k8s_controller_lib.Conditions.Api.{MetaApi}
use k8s_controller_lib.Runtime.Errors.{GoError, is_stop_error}
use k8s_controller_lib.Runtime.Exec.{Result, ok, err}
use k8s_controller_lib.Runtime.Api.{ClusterApi}
use k8s_controller_lib.Reconciler.Types.{Context}
use k8s_controller_lib.Pipeline.Options.{ActionFunc, Options, Run}
use k8s_controller_lib.Pipeline.Steps.Actions.{after_action, run_actions}
use k8s_controller_lib.Pipeline.Run.{provision, execute}

module _ {W : Type 0} (ctx : Context) where
  -- Each of the actions was called once, in their order, from `s` on; none returned a `StopError`, and
  -- the errors that they returned are the list.
  pub data Ran : List (ActionFunc W) → Run W → List GoError → Run W → Type 0 where
    done : {s : Run W} → Ran [] s [] s
    passed :
        {a : ActionFunc W} {acts : List (ActionFunc W)} {s s1 s2 : Run W} {errs : List GoError}
        → a ctx s ≡ (none, s1)
        → Ran acts s1 errs s2
        → Ran (a ∷ acts) s errs s2
    failed :
        {a : ActionFunc W} {acts : List (ActionFunc W)} {s s1 s2 : Run W} {errs : List GoError}
        (e : GoError)
        → a ctx s ≡ (some e, s1)
        → is_stop_error e ≡ false
        → Ran acts s1 errs s2
        → Ran (a ∷ acts) s (e ∷ errs) s2

  abbrev RunsAll :
      List (ActionFunc W) → List GoError → Run W → Result (List GoError) × Run W → Type 0
  RunsAll acts errs s o =
      (new : List GoError) × (s1 : Run W) × Ran acts s new s1 × (o ≡ (ok (errs ++ new), s1))

  abbrev pub Stops : List (ActionFunc W) → Run W → GoError → Run W → Type 0
  Stops acts s e s2 =
      (before : List (ActionFunc W)) × (a : ActionFunc W) × (after : List (ActionFunc W))
      × (errs : List GoError) × (s1 : Run W) × (acts ≡ before ++ a ∷ after)
      × Ran before s errs s1
      × (a ctx s1 ≡ (some e, s2))
      × (is_stop_error e ≡ true)

  abbrev RunsTo :
      List (ActionFunc W) → List GoError → Run W → Result (List GoError) × Run W → Type 0
  RunsTo acts errs s o =
      RunsAll acts errs s o ⊎ ((e : GoError) × (s2 : Run W) × Stops acts s e s2 × (o ≡ (err e, s2)))

  RunsTo-passed :
      (a : ActionFunc W) (acts : List (ActionFunc W)) (errs : List GoError) (s s1 : Run W)
      (o : Result (List GoError) × Run W)
      → a ctx s ≡ (none, s1)
      → RunsTo acts errs s1 o
      → RunsTo (a ∷ acts) errs s o
  RunsTo-passed a acts errs s s1 o h (inl (new, s2, ran, e)) = inl (new, s2, passed h ran, e)
  RunsTo-passed a acts errs s s1 o h (inr (x, s2, (b, c, d, es, s3, eq, ran, call, stop), e)) =
      inr (x, s2, (a ∷ b, c, d, es, s3, ap (λ l. a ∷ l) eq, passed h ran, call, stop), e)

  RunsTo-failed :
      (a : ActionFunc W) (acts : List (ActionFunc W)) (errs : List GoError) (s s1 : Run W)
      (o : Result (List GoError) × Run W) (x : GoError)
      → a ctx s ≡ (some x, s1)
      → is_stop_error x ≡ false
      → RunsTo acts (errs ++ x ∷ []) s1 o
      → RunsTo (a ∷ acts) errs s o
  RunsTo-failed a acts errs s s1 o x h plain (inl (new, s2, ran, e)) =
      inl (
        x ∷ new,
        s2,
        failed x h plain ran,
        e ∙ ap (λ l. (ok l, s2)) (append_assoc errs (x ∷ []) new),
      )
  RunsTo-failed a acts errs s s1 o x h plain
        (inr (y, s2, (b, c, d, es, s3, eq, ran, call, stop), e)) =
      inr
        (y, s2, (a ∷ b, c, d, x ∷ es, s3, ap (λ l. a ∷ l) eq, failed x h plain ran, call, stop), e)

  round-RunsTo :
      (a : ActionFunc W) (acts : List (ActionFunc W)) (errs : List GoError) (s s1 : Run W)
      (r : Option GoError)
      → a ctx s ≡ (r, s1)
      → ((es : List GoError) (t : Run W) → RunsTo acts es t (run_actions ctx acts es t))
      → RunsTo (a ∷ acts) errs s (after_action r (run_actions ctx acts) errs s1)
  unfolding after_action
  round-RunsTo a acts errs s s1 none h rest = RunsTo-passed a acts errs s s1 _ h (rest errs s1)
  round-RunsTo a acts errs s s1 (some x) h rest = elim (Bool-cases (is_stop_error x)) [
    | inl stop ↦ rw stop (inr (x, s1, ([], a, acts, [], s, refl, done, h, stop), refl))
    | inr plain ↦ rw plain (RunsTo-failed a acts errs s s1 _ x h plain (rest (errs ++ x ∷ []) s1))
  ]

  run_actions-RunsTo :
      (acts : List (ActionFunc W)) (errs : List GoError) (s : Run W)
      → RunsTo acts errs s (run_actions ctx acts errs s)
  unfolding run_actions
  run_actions-RunsTo [] errs s = inl ([], s, done, ap (λ l. (ok l, s)) (sym (append-nil errs)))
  run_actions-RunsTo (a ∷ acts) errs s =
      let (r, s1) = a ctx s in
      round-RunsTo a acts errs s s1 r refl (λ es t. run_actions-RunsTo acts es t)

module _ {W U : Type 0} (api : ClusterApi W U) (meta : MetaApi) (now : ℕ) (opts : Options W)
    (ctx : Context) where
  -- `execute` calls the actions in their order. Either one of them returns an error that is or wraps a
  -- `StopError`: then `execute` returns that error, with everything as this action left it, so no later
  -- action, no hook and no apply has run. Or none does: then every action was called once, whatever
  -- errors others returned, and `execute` goes on to provision with the list of these errors.
  pub execute-Stops :
      (s : Run W)
      → ((e : GoError) × (s2 : Run W) × Stops ctx opts.actions s e s2
          × (execute api meta now opts ctx s ≡ (err e, s2)))
        ⊎ ((errs : List GoError) × (s1 : Run W) × Ran ctx opts.actions s errs s1
            × (execute api meta now opts ctx s ≡ provision api meta now opts ctx errs s1))
  unfolding execute
  execute-Stops s = elim (run_actions-RunsTo ctx opts.actions [] s) [
    | inl (errs, s1, ran, e) ↦ inr (errs, s1, ran, rw e)
    | inr (x, s2, stops, e) ↦ inl (x, s2, stops, rw e)
  ]
