-- ===== src/Pipeline/Steps/Outcome.antt =====
-- pipeline.go: `updateStatus`, and the field owner that it shares with `execute`.
pub mod Reports
use k8s_controller_lib.Prelude.{
  ℕ, String, ◌≡◌, refl, Bool, true, false, Option, none, some, List, [], ◌∷◌, if◌then◌else◌, ◌==◌,
}
use k8s_controller_lib.Prelude.Int.{ℤ}
use k8s_controller_lib.Conditions.Api.{MetaApi}
use k8s_controller_lib.Conditions.Options.{with_reason, with_message, with_observed_generation}
use k8s_controller_lib.Conditions.Accessors.{Status, status_accessor}
use k8s_controller_lib.Conditions.Set.{mark_true, mark_false}
use k8s_controller_lib.Runtime.Errors.{GoError, plain, wrap, error_text}
use k8s_controller_lib.Runtime.Exec.{Result, ok, err, Exec, wrap_result}
use k8s_controller_lib.Runtime.Objects.{Object, ManagedObject}
use k8s_controller_lib.Runtime.Api.{ClusterApi}
use k8s_controller_lib.Reconciler.Types.{Context, controller_name_from_context}
use k8s_controller_lib.Reconciler.Adapter.{Target}
use k8s_controller_lib.Resources.Util.{ensure_gvk}
use k8s_controller_lib.Pipeline.Options.{Options}

-- The configured field owner, or else the controller's name; `none` if there is neither.
unfoldable pub field_owner_for : {W : Type 0} → Options W → Context → Option String
unfolding controller_name_from_context
field_owner_for opts ctx =
    if opts.field_owner == ""
    then controller_name_from_context (some ctx)
    else some opts.field_owner

abbrev pub provisioning_succeeded : String
provisioning_succeeded = "ProvisioningSucceeded"

-- The status after a run, with the object's generation and a condition that says how the run ended.
unfoldable pub outcome_status : MetaApi → ℕ → ℤ → Result (Unit {0}) → Status → Status
unfolding mark_true mark_false
outcome_status meta now generation (err e) st =
    mark_false meta status_accessor now (record st { observed_generation = generation })
      provisioning_succeeded
      (with_reason "ReconciliationFailed"
        ∷ with_message (error_text e)
        ∷ with_observed_generation generation
        ∷ [])
outcome_status meta now generation (ok x) st =
    mark_true meta status_accessor now (record st { observed_generation = generation })
      provisioning_succeeded
      (with_reason "ReconciliationSucceeded" ∷ with_observed_generation generation ∷ [])

module _ {W U : Type 0} (api : ClusterApi W U) where
  -- The status update, once the object's kind is set.
  unfoldable pub send_status : Result (Unit {0}) → Exec (Target W) (Unit {0})
  send_status (err e) t = (err (wrap "failed to ensure GVK on object" e), t)
  send_status (ok x) t =
      let (r, (obj, w)) = api.status_update (t.object, t.world) in
      (wrap_result "failed to update status" r, record { world = w; object = obj })

  unfoldable pub publish : Exec (Target W) (Unit {0})
  unfolding send_status ensure_gvk
  publish t =
      let (r, obj) = ensure_gvk api t.object.object in
      send_status r (record t { object = record t.object { object = obj } })

  abbrev pub put_status : Status → Target W → Target W
  put_status st t = record t { object = record t.object { status = some st } }

  -- `updateStatus`, for the status that `GetStatus` gives and the field owner
  unfoldable pub record_outcome :
      MetaApi → ℕ → Result (Unit {0}) → Option Status → Option String → Exec (Target W) (Unit {0})
  unfolding publish outcome_status
  record_outcome meta now r none owner t = (ok tt, t)
  record_outcome meta now r (some st) none t = (ok tt, t)
  record_outcome meta now r (some st) (some name) t =
      publish (put_status (outcome_status meta now t.object.object.generation r st) t)

  unfoldable pub update_status :
      MetaApi → ℕ → Options W → Context → Result (Unit {0}) → Exec (Target W) (Unit {0})
  unfolding record_outcome
  update_status meta now opts ctx r t =
      record_outcome meta now r t.object.status (field_owner_for opts ctx) t
