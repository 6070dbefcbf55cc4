-- ===== src/Reconciler/Tests.antt =====
-- Responses and results on concrete values.
use k8s_controller_lib.Prelude.{◌≡◌, refl, true, List, [], ◌∷◌, ◌++◌, map}
use k8s_controller_lib.Prelude.Int.{pos}
use k8s_controller_lib.Runtime.Objects.{Object}
use k8s_controller_lib.Runtime.Sample.{config_map}
use k8s_controller_lib.Reconciler.Types.{
  Response, default_entry, objects, requeue, get_objects, get_entries, should_requeue, objects_lem,
}
use k8s_controller_lib.Reconciler.Adapter.{
  ReconcileResult, result_from_response, response_from_result, without_flag, second,
  requeue_round_trip,
}

abbrev waiting : Response
waiting = record { entries = []; requeue_after = pos 30 }

abbrev flagged : ReconcileResult
flagged = record { requeue = true; requeue_after = pos 0 }

flag_waits : should_requeue (response_from_result flagged) ≡ second
unfolding response_from_result should_requeue requeue
flag_waits = refl

requeue_round_trip_example :
    (should_requeue (response_from_result (result_from_response waiting)) ≡ pos 30)
    × (result_from_response (response_from_result flagged) ≡ without_flag flagged)
requeue_round_trip_example = requeue_round_trip waiting flagged

abbrev two : List Object
two = config_map "ns" "a" ∷ config_map "ns" "b" ∷ []

objects_lem_example :
    (get_objects (objects waiting two) ≡ get_objects waiting ++ two)
    × (get_entries (objects waiting two) ≡ get_entries waiting ++ map default_entry two)
    × (should_requeue (objects waiting two) ≡ should_requeue waiting)
objects_lem_example = objects_lem waiting two
