-- ===== src/Pipeline/Run/Finalizer.antt =====
-- pipeline.go: the finalizer's part in `cleanup`.
use k8s_controller_lib.Prelude.{String, ◌≡◌, ◌⊎◌, true, false, some, List, [], ◌∷◌, reverse}
use k8s_controller_lib.Runtime.Errors.{GoError, wrap}
use k8s_controller_lib.Runtime.Exec.{Result, ok, err, wrap_result}
use k8s_controller_lib.Runtime.Objects.{ManagedObject}
use k8s_controller_lib.Runtime.Api.{ClusterApi}
use k8s_controller_lib.Reconciler.Types.{Context}
use k8s_controller_lib.Reconciler.Adapter.{Target}
use k8s_controller_lib.Pipeline.Options.{Options}
use k8s_controller_lib.Pipeline.Steps.Cleanup.{finalizers_of, remove_finalizer}
use k8s_controller_lib.Pipeline.Steps.Cleanup.Reverse.{Cleaned}

module _ {W U : Type 0} (api : ClusterApi W U) where
  -- The object with these finalizers, and what the cluster's `Update` of it comes to.
  abbrev pub with_finalizers : List String → Target W → Target W
  with_finalizers fs t = record {
    world = t.world;
    object = record t.object { object = record t.object.object { finalizers = fs } };
  }

  abbrev pub Sends : String → Target W → Result (Unit {0}) × Target W → Type 0
  Sends text t o =
      (r : Result (Unit {0})) × (obj : ManagedObject) × (w : W) × (api.update (t.object, t.world)
        ≡ (r, (obj, w)))
      × (o ≡ (wrap_result text r, record { world = w; object = obj }))

  -- `RemoveFinalizer` took the finalizer from the object's list, and the object with that list, which has
  -- no such finalizer any more, is sent; or there was nothing to take, and nothing is sent.
  abbrev pub Released : String → Target W → Result (Unit {0}) × Target W → Type 0
  Released finalizer t1 o =
      ((fs : List String) × (api.remove_finalizer t1.object.object.finalizers finalizer
          ≡ (true, fs))
        × (api.contains_finalizer fs finalizer ≡ false)
        × Sends "failed to remove finalizer" (with_finalizers fs t1) o)
      ⊎ ((api.contains_finalizer t1.object.object.finalizers finalizer ≡ false) × (o ≡ (ok tt, t1)))

  module _ (opts : Options W) (ctx : Context) where
    -- How `cleanup` may end.
    abbrev pub NoFinalizer : Target W → Result (Unit {0}) × Target W → Type 0
    NoFinalizer t o =
        ((opts.finalizer ≡ "") ⊎ (api.contains_finalizer (finalizers_of t) opts.finalizer ≡ false))
        × (o ≡ (ok tt, t))

    abbrev pub CleanupFailed : Target W → Result (Unit {0}) × Target W → Type 0
    CleanupFailed t o =
        (e : GoError) × (errs : List GoError) × (combined : GoError) × (t1 : Target W) × Cleaned ctx
          (reverse opts.cleanup_actions) t (e ∷ errs) t1
        × (api.new_aggregate (e ∷ errs) ≡ some combined)
        × (o ≡ (err (wrap "cleanup failed" combined), t1))

    abbrev pub CleanupDone : Target W → Result (Unit {0}) × Target W → Type 0
    CleanupDone t o =
        (t1 : Target W) × Cleaned ctx (reverse opts.cleanup_actions) t [] t1
        × Released opts.finalizer t1 o
