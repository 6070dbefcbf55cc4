-- ===== src/Pipeline/Run/Guard.antt =====
-- pipeline.go: the finalizer's part in `run`.
use k8s_controller_lib.Prelude.{
  ℕ, String, ◌≡◌, ◌≢◌, refl, ap, sym, ◌∙◌, ◌⊎◌, inl, inr, true, false, List, Bool-cases,
  eq_false_of_ne,
}
use mathlib.Core.Path.{subst}
use k8s_controller_lib.Conditions.Api.{MetaApi}
use k8s_controller_lib.Runtime.Errors.{GoError, wrap}
use k8s_controller_lib.Runtime.Exec.{Result, ok, err}
use k8s_controller_lib.Runtime.Objects.{is_deleted}
use k8s_controller_lib.Runtime.Api.{ClusterApi, FinalizerLaws}
use k8s_controller_lib.Reconciler.Types.{Context}
use k8s_controller_lib.Reconciler.Adapter.{Target}
use k8s_controller_lib.Pipeline.Options.{Options, Run}
use k8s_controller_lib.Pipeline.Steps.Cleanup.{finalizers_of, update_object, cleanup}
use k8s_controller_lib.Pipeline.Run.{
  on_target, add_finalizer, ensure_finalizer, execute_and_conclude, run,
}
use k8s_controller_lib.Pipeline.Run.Finalizer.{with_finalizers}

-- "Update updates the given obj": an update that succeeds leaves the finalizers as they were sent.
pub record UpdateKeeps {W U : Type 0} (api : ClusterApi W U) : Type 0 where
  pub finalizers :
      (t : Target W)
      → (api.update (t.object, t.world)).0 ≡ ok tt
      → (api.update (t.object, t.world)).1.0.object.finalizers ≡ finalizers_of t

module _ {W U : Type 0} (api : ClusterApi W U) (meta : MetaApi) (now : ℕ) (opts : Options W)
    (ctx : Context) where
  -- How `run` may go on an object, in the order of its steps.
  abbrev pub IsDeleted : Run W → Type 0
  IsDeleted s = is_deleted s.target.object.object.deletion_timestamp ≡ true

  abbrev pub IsLive : Run W → Type 0
  IsLive s = is_deleted s.target.object.object.deletion_timestamp ≡ false

  abbrev pub OnlyCleansUp : Run W → Type 0
  OnlyCleansUp s =
      IsDeleted s
      × (run api meta now opts ctx s ≡ (
        (cleanup api opts ctx s.target).0,
        record s { target = (cleanup api opts ctx s.target).1 },
      ))

  -- The one update that adds the finalizer: the list that `AddFinalizer` gives, in the object as it was.
  abbrev pub AddsWith : Target W → Result (Unit {0}) → Target W → Type 0
  AddsWith t r t1 =
      (fs : List String) × (api.add_finalizer t.object.object.finalizers opts.finalizer
        ≡ (true, fs))
      × (api.contains_finalizer fs opts.finalizer ≡ true)
      × (api.update ((with_finalizers api fs t).object, t.world) ≡ (r, (t1.object, t1.world)))

  abbrev pub Unguarded : Run W → Type 0
  Unguarded s =
      IsLive s
      × (e : GoError) × (t1 : Target W) × AddsWith s.target (err e) t1
      × (run api meta now opts ctx s
          ≡ (err (wrap "failed to add finalizer" e), record s { target = t1 }))

  abbrev pub Guarded : Run W → Type 0
  Guarded s =
      IsLive s
      × (t1 : Target W) × (AddsWith s.target (ok tt) t1 ⊎ (t1 ≡ s.target))
      × (api.contains_finalizer t1.object.object.finalizers opts.finalizer ≡ true)
      × (run api meta now opts ctx s
          ≡ execute_and_conclude api meta now opts ctx (record s { target = t1 }))

  abbrev Adds : Target W → Result (Unit {0}) × Target W → Type 0
  Adds t o =
      ((e : GoError) × (t1 : Target W) × AddsWith t (err e) t1
        × (o ≡ (err (wrap "failed to add finalizer" e), t1)))
      ⊎ ((t1 : Target W) × (AddsWith t (ok tt) t1 ⊎ (t1 ≡ t))
          × (api.contains_finalizer t1.object.object.finalizers opts.finalizer ≡ true)
          × (o ≡ (ok tt, t1)))

  update_object-Adds :
      (t : Target W) (fs : List String) (r : Result (Unit {0}))
      → UpdateKeeps api
      → api.add_finalizer (finalizers_of t) opts.finalizer ≡ (true, fs)
      → api.contains_finalizer fs opts.finalizer ≡ true
      → (api.update ((with_finalizers api fs t).object, t.world)).0 ≡ r
      → Adds t (update_object api "failed to add finalizer" (with_finalizers api fs t))
  unfolding update_object
  update_object-Adds t fs (ok tt) keeps adds there e =
      let answer = (api.update ((with_finalizers api fs t).object, t.world)).1 in
      inr (
        record { world = answer.1; object = answer.0 },
        inl (fs, adds, there, ap (λ r. (r, answer)) e),
        ap (λ l. api.contains_finalizer l opts.finalizer)
              (keeps.finalizers (with_finalizers api fs t) e)
            ∙ there,
        rw e refl,
      )
  update_object-Adds t fs (err x) keeps adds there e =
      let answer = (api.update ((with_finalizers api fs t).object, t.world)).1 in
      inl (
        x,
        record { world = answer.1; object = answer.0 },
        (fs, adds, there, ap (λ r. (r, answer)) e),
        rw e refl,
      )

  add_finalizer_changed :
      (t : Target W)
      → (api.add_finalizer (finalizers_of t) opts.finalizer).0 ≡ true
      → add_finalizer api meta now opts ctx t
        ≡ update_object api "failed to add finalizer"
            (with_finalizers api (api.add_finalizer (finalizers_of t) opts.finalizer).1 t)
  unfolding add_finalizer
  add_finalizer_changed t e = rw e refl

  add_finalizer_same :
      (t : Target W)
      → (api.add_finalizer (finalizers_of t) opts.finalizer).0 ≡ false
      → add_finalizer api meta now opts ctx t
        ≡ (ok tt, with_finalizers api (api.add_finalizer (finalizers_of t) opts.finalizer).1 t)
  unfolding add_finalizer
  add_finalizer_same t e = rw e refl

  add_finalizer-Adds :
      (t : Target W)
      → FinalizerLaws api
      → UpdateKeeps api
      → Adds t (add_finalizer api meta now opts ctx t)
  add_finalizer-Adds t laws keeps =
      let (changed, fs) = api.add_finalizer (finalizers_of t) opts.finalizer in
      let there = laws.contains-add (finalizers_of t) opts.finalizer in
      elim (Bool-cases changed) [
        | inl yes_changed ↦
            subst (Adds t) (sym (add_finalizer_changed t yes_changed))
              (update_object-Adds t fs _ keeps (ap (λ b. (b, fs)) yes_changed) there refl)
        | inr same ↦
            let unchanged = laws.add_unchanged (finalizers_of t) opts.finalizer same in
            inr (
              t,
              inr refl,
              ap (λ l. api.contains_finalizer l opts.finalizer) (sym unchanged) ∙ there,
              add_finalizer_same t same ∙ ap (λ l. (ok tt, with_finalizers api l t)) unchanged,
            )
      ]

  -- An object that is being deleted is only cleaned up: `run` ends as `cleanup` does, and the response is
  -- as it was. On an object that is not being deleted, with a finalizer configured, the finalizer comes
  -- first: where `AddFinalizer` changes the object's list, the object with that list is sent in one update.
  -- If the update fails, `run` returns that error and ends in the state that the update left; else `run`
  -- goes on with `execute` and the status update, from the state that the update left, or from the
  -- unchanged one where there was nothing to add, with the response as it was and the finalizer on the
  -- object.
  pub run-Guarded :
      (s : Run W)
      → FinalizerLaws api
      → UpdateKeeps api
      → opts.finalizer ≢ ""
      → OnlyCleansUp s ⊎ (Unguarded s ⊎ Guarded s)
  unfolding run ensure_finalizer on_target
  run-Guarded s laws keeps named =
      elim (Bool-cases (is_deleted s.target.object.object.deletion_timestamp)) [
        | inl deleted ↦ rw deleted (inl (refl, refl))
        | inr live ↦
            rw (live, eq_false_of_ne opts.finalizer "" named)
              (elim (add_finalizer-Adds s.target laws keeps) [
                | inl (e, t1, sent, fails) ↦ rw fails (inr (inl (refl, e, t1, sent, refl)))
                | inr (t1, from, there, fine) ↦ rw fine (inr (inr (refl, t1, from, there, refl)))
              ])
      ]
