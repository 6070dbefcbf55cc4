-- ===== src/Pipeline/Run/Aggregate.antt =====
-- pipeline.go: what the errors of the actions do to the rest of `execute`.
use k8s_controller_lib.Prelude.{ℕ, ◌≡◌, refl, ◌⊎◌, inl, inr, some, List, [], ◌∷◌}
use k8s_controller_lib.Conditions.Api.{MetaApi}
use k8s_controller_lib.Runtime.Errors.{GoError}
use k8s_controller_lib.Runtime.Exec.{ok, err, Result-cases}
use k8s_controller_lib.Runtime.Api.{ClusterApi, AggregateLaws}
use k8s_controller_lib.Reconciler.Types.{Context}
use k8s_controller_lib.Pipeline.Options.{Options, Run}
use k8s_controller_lib.Pipeline.Run.{provision_objects, provision}

module _ {W U : Type 0} (api : ClusterApi W U) (meta : MetaApi) (now : ℕ) (opts : Options W)
    (ctx : Context) where
  -- Errors of the actions keep nothing from being provisioned: the objects, the cluster and the
  -- response end as they would with no such errors. If provisioning fails, its error alone is
  -- returned, and the errors of the actions are lost; if it succeeds, the result is the aggregate
  -- of the actions' errors, which is an error just if there is one.
  pub provision_errors :
      (e : GoError) (errs : List GoError) (s : Run W)
      → AggregateLaws api
      → ((provision api meta now opts ctx (e ∷ errs) s).1
          ≡ (provision api meta now opts ctx [] s).1)
        × (((failure : GoError) × ((provision api meta now opts ctx [] s).0 ≡ err failure)
              × ((provision api meta now opts ctx (e ∷ errs) s).0 ≡ err failure))
            ⊎ ((combined : GoError) × (api.new_aggregate (e ∷ errs) ≡ some combined)
                × ((provision api meta now opts ctx [] s).0 ≡ ok tt)
                × ((provision api meta now opts ctx (e ∷ errs) s).0 ≡ err combined)))
  unfolding provision
  provision_errors e errs s laws =
      let (combined, some_error) = laws.aggregate_some e errs in
      elim (Result-cases (provision_objects api meta now opts ctx s).0) [
        | inl (x, fine) ↦
            rw (fine, laws.aggregate_empty, some_error) (refl, inr (combined, refl, refl, refl))
        | inr (failure, fails) ↦ rw fails (refl, inl (failure, refl, refl))
      ]
