-- ===== src/Builder/Controller/Complete/Outcomes.antt =====
-- builder.go: what `Complete` does, as a whole.
use k8s_controller_lib.Prelude.{
  ◌≡◌, ◌≢◌, refl, ap, ◌∙◌, ◌⊎◌, inl, inr, true, false, Bool-cases, List, [], ◌∷◌, ◌++◌, ◌==◌,
  eq_iff,
}
use k8s_controller_lib.Runtime.Errors.{GoError, plain, wrap}
use k8s_controller_lib.Runtime.Exec.{Result, ok, err}
use k8s_controller_lib.Runtime.Api.{ClusterApi}
use k8s_controller_lib.Reconciler.Adapter.{TypedReconciler}
use k8s_controller_lib.Builder.Controller.State.{Builder, DeclareApi}
use k8s_controller_lib.Builder.Controller.Complete.{
  CompleteApi, non_empty, inject_dependencies, configure, report, complete_created, complete,
}
use k8s_controller_lib.Builder.Controller.Complete.Attempts.{
  Registered, with_errors, register_all-Registered,
}

non_empty_lem :
    (errs : List GoError)
    → ((non_empty errs ≡ true) × (errs ≢ [])) ⊎ ((non_empty errs ≡ false) × (errs ≡ []))
non_empty_lem [] = inr (refl, refl)
non_empty_lem (e ∷ es) = inl (refl, λ p. cc p)

module _ {U S K L R : Type 0} where
  -- The builder that has its controller
  abbrev pub created : Builder U S K L R → Builder U S K L R
  created b = record b { ctrl = true }

  -- Why `Complete` does nothing
  abbrev pub NotReady : Builder U S K L R → Type 0
  NotReady b = (b.for_set ≡ false) ⊎ ((b.name ≡ "") ⊎ (b.errors ≢ []))

  abbrev pub Ready : Builder U S K L R → Type 0
  Ready b = (b.for_set ≡ true) × (b.name ≢ "") × (b.errors ≡ [])

module _ {W U S K L R : Type 0} (api : ClusterApi W U) (declare : DeclareApi U S)
    (complete_api : CompleteApi W U S K L R) where
  -- No error if the watches left none, and else all of them, joined.
  abbrev pub Ends : List GoError → Result (Unit {0}) → Type 0
  Ends es r =
      ((es ≡ []) × (r ≡ ok tt))
      ⊎ ((es ≢ []) × (r ≡ err (wrap "failed to register watches" (complete_api.join es))))

  report-Ends :
      (b : Builder U S K L R) (w : W)
      → Ends b.errors (report api declare complete_api (b, w)).0
        × ((report api declare complete_api (b, w)).1 ≡ (b, w))
  unfolding report
  report-Ends b w = elim (non_empty_lem b.errors) [
    | inl (some_, errors) ↦ rw some_ (inr (errors, refl), refl)
    | inr (none_, clean) ↦ rw none_ (inl (clean, refl), refl)
  ]

  -- What `Complete` did, by the answer of `controller.New`.
  abbrev pub Completed :
      Builder U S K L R
      → Result (Unit {0}) × W
      → Result (Unit {0}) × (Builder U S K L R × W)
      → Type 0
  Completed b answer result =
      ((e : GoError) × (w1 : W) × (answer ≡ (err e, w1))
        × (result ≡ (err (wrap "failed to create controller" e), (b, w1))))
      ⊎ ((w1 : W) × (es : List GoError) × (w2 : W) × (answer ≡ (ok tt, w1))
          × Registered api declare complete_api (created b) b.watches
              (inject_dependencies api declare complete_api b w1) es w2
          × Ends es result.0
          × (result.1 ≡ (with_errors (created b) es, w2)))

  complete_created-Completed :
      (b : Builder U S K L R)
      → b.errors ≡ []
      → (answer : Result (Unit {0}) × W)
      → Completed b answer (complete_created api declare complete_api b answer)
  unfolding complete_created inject_dependencies
  complete_created-Completed b clean (err e, w1) = inl (e, w1, refl, refl)
  complete_created-Completed b clean (ok tt, w1) =
      let (es, w2, registered, computes) =
        register_all-Registered api declare complete_api (created b) b.watches
          (inject_dependencies api declare complete_api b w1) b.errors in
      let (ends, kept) = report-Ends (with_errors (created b) es) w2 in
      rw (computes ∙ ap (λ es1. (with_errors (created b) (es1 ++ es), w2)) clean)
        (inr (w1, es, w2, refl, registered, ends, kept))

  complete_unset :
      (typed_reconciler : TypedReconciler W) (b : Builder U S K L R) (w : W)
      → b.for_set ≡ false
      → complete api declare complete_api typed_reconciler (b, w)
        ≡ (err (plain "For() must be called before Complete()"), (b, w))
  unfolding complete
  complete_unset typed_reconciler b w missing = rw missing refl

  complete_unnamed :
      (typed_reconciler : TypedReconciler W) (b : Builder U S K L R) (w : W)
      → b.for_set ≡ true
      → (b.name == "") ≡ true
      → complete api declare complete_api typed_reconciler (b, w)
        ≡ (err (plain "controller name is required: call For() or provide WithName()"), (b, w))
  unfolding complete
  complete_unnamed typed_reconciler b w set unnamed = rw (set, unnamed) refl

  complete_with_errors :
      (typed_reconciler : TypedReconciler W) (b : Builder U S K L R) (w : W)
      → b.for_set ≡ true
      → (b.name == "") ≡ false
      → non_empty b.errors ≡ true
      → complete api declare complete_api typed_reconciler (b, w)
        ≡ (err (wrap "builder has errors" (complete_api.join b.errors)), (b, w))
  unfolding complete
  complete_with_errors typed_reconciler b w set named some_ = rw (set, named, some_) refl

  complete_ready :
      (typed_reconciler : TypedReconciler W) (b : Builder U S K L R) (w : W)
      → b.for_set ≡ true
      → (b.name == "") ≡ false
      → non_empty b.errors ≡ false
      → complete api declare complete_api typed_reconciler (b, w)
        ≡ complete_created api declare complete_api b (
            complete_api.new_controller b.name
              (configure api declare complete_api typed_reconciler b)
              w)
  unfolding complete
  complete_ready typed_reconciler b w set named none_ = rw (set, named, none_) refl

  -- `Complete` does one of two things. Where `For` was not called, the name is empty or a declaration left
  -- an error, it returns an error and the builder and the world are unchanged. Else it creates the
  -- controller: where that fails it returns the error and registers nothing; where that succeeds, it
  -- attempts each watch once, in the order of the declarations, whatever the ones before came to, and keeps
  -- the errors of all of them: it returns no error if there are none, and else an error that wraps the join
  -- of all of them.
  pub complete_attempts :
      (typed_reconciler : TypedReconciler W) (b : Builder U S K L R) (w : W)
      → (NotReady b
          × (e : GoError) × (complete api declare complete_api typed_reconciler (b, w)
              ≡ (err e, (b, w))))
        ⊎ (Ready b
            × Completed b
                (complete_api.new_controller b.name
                  (configure api declare complete_api typed_reconciler b)
                  w)
                (complete api declare complete_api typed_reconciler (b, w)))
  complete_attempts typed_reconciler b w = elim (Bool-cases b.for_set) [
    | inr missing ↦ inl (inl missing, _, complete_unset typed_reconciler b w missing)
    | inl set ↦ elim (Bool-cases (b.name == "")) [
      | inl unnamed ↦ inl (
        inr (inl ((eq_iff b.name "").0 unnamed)),
        _,
        complete_unnamed typed_reconciler b w set unnamed,
      )
      | inr named ↦ elim (non_empty_lem b.errors) [
        | inl (some_, errors) ↦
            inl (inr (inr errors), _, complete_with_errors typed_reconciler b w set named some_)
        | inr (none_, clean) ↦ inr (
          (set, (λ e. cc (named, (eq_iff b.name "").1 e)), clean),
          rw (complete_ready typed_reconciler b w set named none_) (
              complete_created-Completed b clean (
                complete_api.new_controller b.name
                  (configure api declare complete_api typed_reconciler b) w)),
        )
      ]
    ]
  ]
