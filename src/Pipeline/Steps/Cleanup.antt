-- ===== src/Pipeline/Steps/Cleanup.antt =====
-- pipeline.go: `cleanup`.
pub mod Reverse
use k8s_controller_lib.Prelude.{
  ℕ, zero, suc, String, ◌≡◌, refl, Bool, true, false, not, ◌||◌, Option, none, some, List, [], ◌∷◌,
  ◌++◌, length, get_elem?, if◌then◌else◌, ◌==◌,
}
use k8s_controller_lib.Runtime.Errors.{GoError, wrap}
use k8s_controller_lib.Runtime.Exec.{Result, ok, err, Exec, wrap_result}
use k8s_controller_lib.Runtime.Objects.{Object, ManagedObject}
use k8s_controller_lib.Runtime.Api.{ClusterApi}
use k8s_controller_lib.Reconciler.Types.{Context}
use k8s_controller_lib.Reconciler.Adapter.{Target}
use k8s_controller_lib.Pipeline.Options.{CleanupFunc, Options}

-- `errs = append(errs, err)` for an error that is not nil
abbrev pub append_error : List GoError → Option GoError → List GoError
append_error errs none = errs
append_error errs (some e) = errs ++ e ∷ []

module _ {W : Type 0} where
  -- One round: `none` is an index out of range, at which Go panics.
  unfoldable pub cleanup_round :
      Context → Option (CleanupFunc W) → List GoError × Target W → List GoError × Target W
  cleanup_round ctx none s = s
  cleanup_round ctx (some action) (errs, t) =
      let (e, t') = action ctx t in (append_error errs e, t')

  -- `for i := n - 1; i >= 0; i--` over the cleanup actions.
  unfoldable pub cleanup_loop :
      Context → List (CleanupFunc W) → ℕ → List GoError × Target W → List GoError × Target W
  unfolding cleanup_round
  cleanup_loop ctx actions zero s = s
  cleanup_loop ctx actions (suc i) s =
      cleanup_loop ctx actions i (cleanup_round ctx (get_elem? actions i) s)

abbrev pub finalizers_of : {W : Type 0} → Target W → List String
finalizers_of t = t.object.object.finalizers

abbrev pub put_finalizers : {W : Type 0} → List String → Target W → Target W
put_finalizers fs t = record t {
  object = record t.object { object = record t.object.object { finalizers = fs } };
}

module _ {W U : Type 0} (api : ClusterApi W U) where
  -- `cli.Update(ctx, req.Object)`, with the text of its error
  unfoldable pub update_object : String → Exec (Target W) (Unit {0})
  update_object text t =
      let (r, (obj, w)) = api.update (t.object, t.world) in
      (wrap_result text r, record { world = w; object = obj })

  -- The end of `cleanup`: the finalizer is removed, if it is still there.
  unfoldable pub remove_finalizer : String → Exec (Target W) (Unit {0})
  unfolding update_object
  remove_finalizer finalizer t =
      let (changed, fs) = api.remove_finalizer (finalizers_of t) finalizer in
      if changed
      then update_object "failed to remove finalizer" (put_finalizers fs t)
      else (ok tt, put_finalizers fs t)

  unfoldable pub finish_cleanup : String → Option GoError → Exec (Target W) (Unit {0})
  unfolding remove_finalizer
  finish_cleanup finalizer (some e) t = (err (wrap "cleanup failed" e), t)
  finish_cleanup finalizer none t = remove_finalizer finalizer t

  -- `cleanup`
  unfoldable pub cleanup : Options W → Context → Exec (Target W) (Unit {0})
  unfolding cleanup_loop finish_cleanup
  cleanup opts ctx t =
      if opts.finalizer == "" || not (api.contains_finalizer (finalizers_of t) opts.finalizer)
      then (ok tt, t)
      else let (errs, t') =
          cleanup_loop ctx opts.cleanup_actions (length opts.cleanup_actions) ([], t) in
        finish_cleanup opts.finalizer (api.new_aggregate errs) t'
