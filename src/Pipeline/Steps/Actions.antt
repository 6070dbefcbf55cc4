-- ===== src/Pipeline/Steps/Actions.antt =====
-- pipeline.go: the loops of `execute` over the actions and over the hooks.
use k8s_controller_lib.Prelude.{String, Option, none, some, List, [], ◌∷◌, ◌++◌, if◌then◌else◌}
use k8s_controller_lib.Runtime.Errors.{GoError, wrap, is_stop_error}
use k8s_controller_lib.Runtime.Exec.{ok, err, Exec}
use k8s_controller_lib.Runtime.Objects.{Object}
use k8s_controller_lib.Reconciler.Types.{Context}
use k8s_controller_lib.Reconciler.Adapter.{Target}
use k8s_controller_lib.Pipeline.Options.{ActionFunc, ApplyHookFunc, Run}

module _ {W : Type 0} where
  -- The body of the loop over the actions, after the call: a `StopError` ends `execute`, any other error
  -- is kept for the end.
  unfoldable pub after_action :
      Option GoError
      → (List GoError → Exec (Run W) (List GoError))
      → List GoError
      → Exec (Run W) (List GoError)
  after_action none next errs s = next errs s
  after_action (some e) next errs s =
      if is_stop_error e then (err e, s) else next (errs ++ e ∷ []) s

  unfoldable pub run_actions :
      Context → List (ActionFunc W) → List GoError → Exec (Run W) (List GoError)
  unfolding after_action
  run_actions ctx [] errs s = (ok errs, s)
  run_actions ctx (action ∷ rest) errs s =
      let (e, s') = action ctx s in after_action e (run_actions ctx rest) errs s'

  -- The loop over the hooks of one stage; the first error ends it.
  unfoldable pub after_hook :
      String
      → Option GoError
      → Exec (Target W × List Object) (Unit {0})
      → Exec (Target W × List Object) (Unit {0})
  after_hook text none next s = next s
  after_hook text (some e) next s = (err (wrap text e), s)

  unfoldable pub run_hooks :
      String → Context → List (ApplyHookFunc W) → Exec (Target W × List Object) (Unit {0})
  unfolding after_hook
  run_hooks text ctx [] s = (ok tt, s)
  run_hooks text ctx (hook ∷ rest) s =
      let (e, s') = hook ctx s in after_hook text e (run_hooks text ctx rest) s'
