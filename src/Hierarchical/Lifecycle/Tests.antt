-- ===== src/Hierarchical/Lifecycle/Tests.antt =====
-- The lifecycle on concrete runs.
use k8s_controller_lib.Prelude.{◌≤◌, ◌≡◌, refl, ◌⊎◌, true, false, some}
use k8s_controller_lib.Hierarchical.Lifecycle.{
  Lifecycle, controller_group, cache_group, begin, begin_group, join, make_channel, end, stop,
  stop_first, is_stopped,
}
use k8s_controller_lib.Hierarchical.Lifecycle.Steps.{
  System, init, enter_controller, enter_cache, call_stop, Reach, here, next,
}
use k8s_controller_lib.Hierarchical.Lifecycle.Stopped.{stopped_for_good}
use k8s_controller_lib.Hierarchical.Lifecycle.Shutdown.{
  shutdown_order, end_never_panics, shutdown_can_finish,
}

-- A controller and a cache run, and then `stop` is called.
abbrev with_controller : System
with_controller = record init {
  lifecycle = (begin controller_group init.lifecycle).1;
  running_controllers = 1;
}

abbrev with_cache : System
with_cache = record with_controller {
  lifecycle = (begin cache_group with_controller.lifecycle).1;
  running_caches = 1;
}

abbrev stopping : System
stopping = record with_cache {
  waiter = (stop with_cache.waiter with_cache.lifecycle).0;
  lifecycle = (stop with_cache.waiter with_cache.lifecycle).1;
}

let_in_controller : (begin controller_group init.lifecycle).0 ≡ true
unfolding begin
let_in_controller = refl

let_in_cache : (begin cache_group with_controller.lifecycle).0 ≡ true
unfolding begin begin_group join make_channel
let_in_cache = refl

is_stopping : stopping.lifecycle.stopped ≡ true
unfolding stop stop_first begin begin_group join make_channel
is_stopping = refl

run_of_stopping : Reach init stopping
run_of_stopping =
    next
      (next (next here (enter_controller let_in_controller refl)) (enter_cache let_in_cache refl))
      (call_stop refl)

shutdown_order_example :
    ((stopping.lifecycle.cache_cancelled ≡ false)
      ⊎ ((stopping.lifecycle.stopped ≡ true) × (stopping.running_controllers ≡ 0)))
    × ((stopping.lifecycle.done ≡ false)
        ⊎ ((stopping.lifecycle.cache_cancelled ≡ true)
            × (stopping.running_controllers ≡ 0)
            × (stopping.running_caches ≡ 0)))
shutdown_order_example = shutdown_order stopping run_of_stopping

end_never_panics_example :
    ((stopping.running_controllers ≡ 0)
      ⊎ ((l : Lifecycle) × (end controller_group stopping.lifecycle ≡ some l)))
    × ((stopping.running_caches ≡ 0)
        ⊎ ((l : Lifecycle) × (end cache_group stopping.lifecycle ≡ some l)))
end_never_panics_example = end_never_panics stopping run_of_stopping

shutdown_can_finish_example : (t : System) × Reach stopping t × (t.lifecycle.done ≡ true)
shutdown_can_finish_example = shutdown_can_finish stopping run_of_stopping

stopped_for_good_example :
    (is_stopped stopping.lifecycle ≡ true)
    × (begin controller_group stopping.lifecycle ≡ (false, stopping.lifecycle))
    × (stopping.running_controllers ≤ stopping.running_controllers)
    × (stopping.running_caches ≤ stopping.running_caches)
stopped_for_good_example = stopped_for_good stopping stopping controller_group is_stopping here
