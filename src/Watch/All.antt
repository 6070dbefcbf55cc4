-- ===== src/Watch/All.antt =====
-- watch.go: `All`, the hook that watches the kinds of the objects that were applied.
pub mod Settled
use k8s_controller_lib.Prelude.{String, true, Option, none, some, List, [], ◌∷◌}
use k8s_controller_lib.Runtime.Exec.{Result, ok, err}
use k8s_controller_lib.Runtime.Objects.{Gvk}
use k8s_controller_lib.Watch.Watcher.{Watcher, Registered, Answers, watch}

-- An object that was applied: its kind by the scheme, and what the call of `Watch` for it meets.
pub record Applied : Type 0 where
  pub kind_text : String
  pub gvk : Result Gvk
  pub answers : Answers

module _ {P H : Type 0} where
  -- `if err := w.Watch(…); err != nil { return err }`
  unfoldable pub after_watch :
      Registered P H × Watcher P H
      → (Watcher P H → Result (Unit {0}) × Watcher P H)
      → Result (Unit {0}) × Watcher P H
  after_watch (err e, w) next = (err e, w)
  after_watch (ok src, w) next = next w

  -- `All`, whose calls have no options; a nil object is passed by. `default` is the default predicate.
  unfoldable pub watch_all :
      P → List (Option Applied) → Watcher P H → Result (Unit {0}) × Watcher P H
  unfolding after_watch watch
  watch_all default [] w = (ok tt, w)
  watch_all default (none ∷ objs) w = watch_all default objs w
  watch_all default (some obj ∷ objs) w =
      after_watch (watch default obj.kind_text true obj.gvk [] obj.answers w)
        (watch_all default objs)
