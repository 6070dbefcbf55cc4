-- ===== src/Pipeline/Run.antt =====
-- pipeline.go: `execute`, `run` and `Reconcile`, and typed.go. The options do not change while a run
-- goes on, so the client that `Reconcile` got is the one that every step gets.
pub mod Stop
pub mod Finalizer
pub mod Guard
pub mod Aggregate
use k8s_controller_lib.Prelude.{
  ℕ, String, ◌≡◌, refl, Bool, true, false, not, ◌&&◌, Option, none, some, List, [], ◌∷◌,
  if◌then◌else◌, ◌==◌,
}
use k8s_controller_lib.Conditions.Api.{MetaApi}
use k8s_controller_lib.Runtime.Errors.{GoError, plain, wrap}
use k8s_controller_lib.Runtime.Exec.{
  Result, ok, err, Exec, ◌>>=◌, ◌>>◌, pure, fail, of_error, wrap_result,
}
use k8s_controller_lib.Runtime.Objects.{Object, is_deleted}
use k8s_controller_lib.Runtime.Api.{ClusterApi}
use k8s_controller_lib.Reconciler.Types.{
  Context, ObjectEntry, Response, new_response, get_objects, get_entries, should_requeue,
}
use k8s_controller_lib.Reconciler.Adapter.{
  Target, Outcome, returned, panicked, ReconcileResult, empty_result, response_from_result,
}
use k8s_controller_lib.Pipeline.Options.{ApplyHookFunc, Options, Run}
use k8s_controller_lib.Pipeline.Steps.Actions.{run_actions, run_hooks}
use k8s_controller_lib.Pipeline.Steps.Entries.{put_object, process_entries}
use k8s_controller_lib.Pipeline.Steps.Cleanup.{
  update_object, cleanup, finalizers_of, put_finalizers,
}
use k8s_controller_lib.Pipeline.Steps.Outcome.{field_owner_for, update_status}

-- The entries hold the same objects as the slice that the hooks got.
unfoldable pub with_objects : List ObjectEntry → List Object → List ObjectEntry
with_objects [] objs = []
with_objects (entry ∷ rest) [] = entry ∷ rest
with_objects (entry ∷ rest) (obj ∷ objs) = put_object obj entry ∷ with_objects rest objs

abbrev pub error_of : Result (Unit {0}) → Option GoError
error_of (ok x) = none
error_of (err e) = some e

module _ {W : Type 0} where
  -- One stage of hooks, on the objects of the response.
  unfoldable pub hook_stage : String → Context → List (ApplyHookFunc W) → Exec (Run W) (Unit {0})
  unfolding run_hooks with_objects get_objects
  hook_stage text ctx hooks s =
      let (r, (t, objs)) = run_hooks text ctx hooks (s.target, get_objects s.response) in
      (
        r,
        record {
          target = t;
          response = record s.response { entries = with_objects s.response.entries objs };
        },
      )

  -- A call on the target alone.
  unfoldable pub on_target : {A : Type 0} → Exec (Target W) A → Exec (Run W) A
  on_target m s = let (r, t) = m s.target in (r, record s { target = t })

  -- `fieldOwner` of `execute`
  unfoldable pub require_field_owner : Option String → Exec (Run W) String
  require_field_owner none =
      fail (plain "field owner not configured and controller name not in context")
  require_field_owner (some name) = pure name

module _ {W U : Type 0} (api : ClusterApi W U) (meta : MetaApi) (now : ℕ) (opts : Options W)
    (ctx : Context) where
  -- `processEntries`, on the entries of the response
  unfoldable pub entry_stage : String → Exec (Run W) (Unit {0})
  unfolding process_entries get_entries
  entry_stage field_owner s =
      let (r, (entries, w)) =
        process_entries api opts s.target.object.object field_owner (get_entries s.response)
          s.target.world in
      (
        r,
        record {
          target = record s.target { world = w };
          response = record s.response { entries = entries };
        },
      )

  -- What `execute` does when the actions are done, but for its last line.
  unfoldable pub provision_objects : Exec (Run W) (Unit {0})
  unfolding require_field_owner hook_stage entry_stage field_owner_for
  provision_objects = do
    field_owner ← require_field_owner (field_owner_for opts ctx)
    hook_stage "pre-apply hook failed" ctx opts.pre_apply
    entry_stage field_owner
    hook_stage "post-apply hook failed" ctx opts.post_apply

  unfoldable pub provision : List GoError → Exec (Run W) (Unit {0})
  unfolding provision_objects
  provision errs = do provision_objects; λ s. (of_error (api.new_aggregate errs), s)

  -- `execute`
  unfoldable pub execute : Exec (Run W) (Unit {0})
  unfolding run_actions provision
  execute = do errs ← run_actions ctx opts.actions []; provision errs

  -- `controllerutil.AddFinalizer` and, if it changed the object, the update of it
  unfoldable pub add_finalizer : Exec (Target W) (Unit {0})
  unfolding update_object
  add_finalizer t =
      let (changed, fs) = api.add_finalizer (finalizers_of t) opts.finalizer in
      if changed
      then update_object api "failed to add finalizer" (put_finalizers fs t)
      else (ok tt, put_finalizers fs t)

  unfoldable pub ensure_finalizer : Exec (Run W) (Unit {0})
  unfolding on_target add_finalizer
  ensure_finalizer = if opts.finalizer == "" then (λ s. (ok tt, s)) else on_target add_finalizer

  -- The status update after `execute`: its own error hides the one of `execute`.
  unfoldable pub conclude : Result (Unit {0}) → Exec (Run W) (Unit {0})
  unfolding on_target update_status
  conclude outcome = do on_target (update_status api meta now opts ctx outcome); λ s. (outcome, s)

  unfoldable pub execute_and_conclude : Exec (Run W) (Unit {0})
  unfolding execute conclude
  execute_and_conclude s = let (outcome, s') = execute s in conclude outcome s'

  -- `run`
  unfoldable pub run : Exec (Run W) (Unit {0})
  unfolding on_target cleanup ensure_finalizer execute_and_conclude
  run s =
      if is_deleted s.target.object.object.deletion_timestamp
      then on_target (cleanup api opts ctx) s
      else (ensure_finalizer >> execute_and_conclude) s

  -- `Reconcile`: without a client, `getClient` panics. Otherwise a response is there, so its requeue time
  -- is the result's, beside an error too.
  unfoldable pub reconcile : Target W → Outcome ReconcileResult × Target W
  unfolding run should_requeue
  reconcile t =
      if opts.client
      then (let (r, s) = run (record { target = t; response = new_response }) in
          (
            returned (record { requeue = false; requeue_after = should_requeue s.response })
                (error_of r),
            s.target,
          ))
      else (panicked, t)

  unfoldable pub response_of : Outcome ReconcileResult → Outcome Response
  unfolding response_from_result
  response_of (returned result e) = returned (response_from_result result) e
  response_of panicked = panicked

  -- `TypedPipeline.Reconcile`
  unfoldable pub typed_reconcile : Target W → Outcome Response × Target W
  unfolding reconcile response_of
  typed_reconcile t = let (o, t') = reconcile t in (response_of o, t')
