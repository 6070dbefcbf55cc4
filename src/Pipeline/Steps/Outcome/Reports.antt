-- ===== src/Pipeline/Steps/Outcome/Reports.antt =====
-- pipeline.go: what `updateStatus` sends to the cluster.
use k8s_controller_lib.Prelude.{ℕ, String, ◌≡◌, refl, ◌⊎◌, inl, inr, false, some, ◌==◌}
use k8s_controller_lib.Prelude.Int.{ℤ}
use k8s_controller_lib.Util.{apply_options}
use k8s_controller_lib.Conditions.Api.{
  MetaApi, Condition, ConditionStatus, condition_true, condition_false,
}
use k8s_controller_lib.Conditions.Options.{ConditionOptions}
use k8s_controller_lib.Conditions.Accessors.{Status, status_accessor, status_accessor-IsLawful}
use k8s_controller_lib.Conditions.Find.{get}
use k8s_controller_lib.Conditions.Laws.{Reports, get-set}
use k8s_controller_lib.Runtime.Errors.{GoError, error_text, wrap}
use k8s_controller_lib.Runtime.Exec.{Result, ok, err, wrap_result}
use k8s_controller_lib.Runtime.Objects.{Gvk, Object, ManagedObject}
use k8s_controller_lib.Resources.Util.{get_gvk_for_object, ensure_gvk}
use k8s_controller_lib.Runtime.Api.{ClusterApi}
use k8s_controller_lib.Reconciler.Types.{Context}
use k8s_controller_lib.Reconciler.Adapter.{Target}
use k8s_controller_lib.Pipeline.Options.{Options}
use k8s_controller_lib.Pipeline.Steps.Outcome.{
  field_owner_for, provisioning_succeeded, outcome_status, send_status, publish, put_status,
  record_outcome, update_status,
}

-- What the condition says of the end of a run.
abbrev pub status_of : Result (Unit {0}) → ConditionStatus
status_of (ok x) = condition_true
status_of (err e) = condition_false

abbrev pub details : ℤ → Result (Unit {0}) → ConditionOptions
details generation (ok x) = record {
  reason = "ReconciliationSucceeded";
  message = "";
  observed_generation = generation;
}
details generation (err e) = record {
  reason = "ReconciliationFailed";
  message = error_text e;
  observed_generation = generation;
}

-- The status that is written for a run that ended so, in place of `st`, and as to one other type.
abbrev pub Records : MetaApi → ℤ → Result (Unit {0}) → String → Status → Status → Type 0
Records meta generation r u st st1 =
    (st1.observed_generation ≡ generation)
    × ((found : Condition) × (get meta status_accessor st1 provisioning_succeeded ≡ some found)
        × Reports found provisioning_succeeded (status_of r) (details generation r))
    × (get meta status_accessor st1 u ≡ get meta status_accessor st u)

outcome_status-Records :
    (meta : MetaApi) (now : ℕ) (generation : ℤ) (r : Result (Unit {0})) (u : String) (st : Status)
    → (provisioning_succeeded == u) ≡ false
    → Records meta generation r u st (outcome_status meta now generation r st)
unfolding outcome_status get apply_options
outcome_status-Records meta now generation (ok x) u st other =
    let base : Status = record st { observed_generation = generation } in
    let (found, same) =
      get-set meta status_accessor now base (status_accessor-IsLawful base) provisioning_succeeded
        condition_true _ u other in
    (refl, found, same)
outcome_status-Records meta now generation (err e) u st other =
    let base : Status = record st { observed_generation = generation } in
    let (found, same) =
      get-set meta status_accessor now base (status_accessor-IsLawful base) provisioning_succeeded
        condition_false _ u other in
    (refl, found, same)

module _ {W U : Type 0} (api : ClusterApi W U) where
  -- The object with this status and kind, and the one call of the client's `Status().Update` for it.
  abbrev pub PublishesAs : Status → Gvk → Target W → Result (Unit {0}) × Target W → Type 0
  PublishesAs st gvk t o =
      (r : Result (Unit {0})) × (obj : ManagedObject) × (w : W) × (api.status_update
          (record { object = record t.object.object { gvk = gvk }; status = some st }, t.world)
        ≡ (r, (obj, w)))
      × (o ≡ (wrap_result "failed to update status" r, record { world = w; object = obj }))

  -- The object gets its kind and is sent with this status; or its kind cannot be told, and nothing is sent.
  abbrev pub Publishes : Status → Target W → Result (Unit {0}) × Target W → Type 0
  Publishes st t o =
      ((gvk : Gvk) × (get_gvk_for_object api t.object.object ≡ ok gvk) × PublishesAs st gvk t o)
      ⊎ ((e : GoError) × (get_gvk_for_object api t.object.object ≡ err e)
          × (o ≡ (
            err (wrap "failed to ensure GVK on object" e),
            record t { object = record t.object { status = some st } },
          )))

  ensure_gvk_lem :
      (obj : Object) (kind : Result Gvk)
      → get_gvk_for_object api obj ≡ kind
      → ensure_gvk api obj
        ≡ elim kind [ err e ↦ (err e, obj) | ok gvk ↦ (ok tt, record obj { gvk = gvk }) ]
  unfolding ensure_gvk
  ensure_gvk_lem obj kind e = rw (e, ensure_gvk) refl

  publish-Publishes :
      (st : Status) (t : Target W) (kind : Result Gvk)
      → get_gvk_for_object api t.object.object ≡ kind
      → Publishes st t (publish api (put_status api st t))
  unfolding publish send_status
  publish-Publishes st t (ok gvk) e =
      rw (ensure_gvk_lem t.object.object (ok gvk) e) (inl (gvk, e, (_, _, _, refl, refl)))
  publish-Publishes st t (err x) e =
      rw (ensure_gvk_lem t.object.object (err x) e) (inr (x, e, refl))

module _ {W U : Type 0} (api : ClusterApi W U) (meta : MetaApi) (now : ℕ) (opts : Options W)
    (ctx : Context) where
  -- Where the object has a status and a field owner is known, `updateStatus` sends the object to the
  -- cluster in one status update, with its kind set and else only its status changed, and ends with the
  -- outcome of that call; if the kind cannot be told, it returns that error and sends nothing. In the
  -- status the observed generation is the object's, and the condition
  -- `ProvisioningSucceeded` of that generation is True if the run went well, and else False with the
  -- text of its error. A condition of another type `u` is as it was.
  pub update_status-Records :
      (r : Result (Unit {0})) (t : Target W) (st : Status) (name u : String)
      → t.object.status ≡ some st
      → field_owner_for opts ctx ≡ some name
      → (provisioning_succeeded == u) ≡ false
      → (st1 : Status) × Records meta t.object.object.generation r u st st1
        × Publishes api st1 t (update_status api meta now opts ctx r t)
  unfolding update_status record_outcome
  update_status-Records r t st name u has_status owner other = (
    outcome_status meta now t.object.object.generation r st,
    outcome_status-Records meta now t.object.object.generation r u st other,
    rw (has_status, owner) (publish-Publishes api _ t _ refl),
  )
