-- ===== src/Pipeline/Tests.antt =====
-- The pipeline on a concrete object, with a cluster that records its calls.
use k8s_controller_lib.Prelude.{
  String, ◌≡◌, ◌≢◌, refl, ◌⊎◌, true, none, some, List, [], ◌∷◌, length, reverse,
}
use k8s_controller_lib.Prelude.Int.{pos}
use k8s_controller_lib.Conditions.Accessors.{Status}
use k8s_controller_lib.Conditions.Sample.{listed}
use k8s_controller_lib.Runtime.Errors.{GoError, plain, stop}
use k8s_controller_lib.Runtime.Exec.{ok, err}
use k8s_controller_lib.Runtime.Sample.{
  Log, recorder, recorder_finalizers, recorder_aggregate, config_map,
}
use k8s_controller_lib.Reconciler.Types.{Context, new_response}
use k8s_controller_lib.Reconciler.Adapter.{Target}
use k8s_controller_lib.Pipeline.Options.{ActionFunc, CleanupFunc, Options, Run, no_options}
use k8s_controller_lib.Pipeline.Steps.Cleanup.{cleanup_loop}
use k8s_controller_lib.Pipeline.Steps.Cleanup.Reverse.{Cleaned, cleanup_loop-Cleaned}
use k8s_controller_lib.Pipeline.Steps.Outcome.{field_owner_for, update_status}
use k8s_controller_lib.Pipeline.Steps.Outcome.Reports.{Records, Publishes, update_status-Records}
use k8s_controller_lib.Pipeline.Run.{provision, execute}
use k8s_controller_lib.Pipeline.Run.Stop.{Ran, Stops, execute-Stops}
use k8s_controller_lib.Pipeline.Run.Aggregate.{provision_errors}
use k8s_controller_lib.Pipeline.Run.Guard.{
  OnlyCleansUp, Unguarded, Guarded, UpdateKeeps, run-Guarded,
}

-- An action that notes its name, one that stops the pipeline, and one that fails.
abbrev note : String → ActionFunc Log
note name ctx s = (none, record s { target = record s.target { world = name ∷ s.target.world } })

abbrev stops : ActionFunc Log
stops ctx s = (some (stop none), s)

abbrev fails : CleanupFunc Log
fails ctx t = (some (plain "busy"), t)

abbrev releases : CleanupFunc Log
releases ctx t = (none, record t { world = "release" ∷ t.world })

abbrev opts : Options Log
opts = record no_options {
  actions = note "first" ∷ stops ∷ note "last" ∷ [];
  cleanup_actions = releases ∷ fails ∷ [];
  finalizer = "example/finalizer";
  client = true;
}

abbrev ctx : Context
ctx = record { controller_name = some "example" }

abbrev status : Status
status = record { observed_generation = pos 2; conditions = [] }

abbrev target : Target Log
target = record {
  world = [];
  object = record { object = config_map "ns" "a"; status = some status };
}

abbrev start : Run Log
start = record { target = target; response = new_response }

execute-Stops_example :
    ((e : GoError) × (s2 : Run Log) × Stops ctx opts.actions start e s2
      × (execute recorder listed 7 opts ctx start ≡ (err e, s2)))
    ⊎ ((errs : List GoError) × (s1 : Run Log) × Ran ctx opts.actions start errs s1
        × (execute recorder listed 7 opts ctx start ≡ provision recorder listed 7 opts ctx errs s1))
execute-Stops_example = execute-Stops recorder listed 7 opts ctx start

provision_errors_example :
    ((provision recorder listed 7 opts ctx (plain "slow" ∷ []) start).1
      ≡ (provision recorder listed 7 opts ctx [] start).1)
    × (((failure : GoError) × ((provision recorder listed 7 opts ctx [] start).0 ≡ err failure)
          × ((provision recorder listed 7 opts ctx (plain "slow" ∷ []) start).0 ≡ err failure))
        ⊎ ((combined : GoError) × (recorder.new_aggregate (plain "slow" ∷ []) ≡ some combined)
            × ((provision recorder listed 7 opts ctx [] start).0 ≡ ok tt)
            × ((provision recorder listed 7 opts ctx (plain "slow" ∷ []) start).0 ≡ err combined)))
provision_errors_example =
    provision_errors recorder listed 7 opts ctx (plain "slow") [] start recorder_aggregate

cleanup_loop-Cleaned_example :
    (errs : List GoError) × (t : Target Log) × Cleaned ctx
      (reverse opts.cleanup_actions)
      target
      errs
      t
    × (cleanup_loop ctx opts.cleanup_actions (length opts.cleanup_actions) ([], target) ≡ (errs, t))
cleanup_loop-Cleaned_example = cleanup_loop-Cleaned ctx opts.cleanup_actions target

recorder_keeps : UpdateKeeps recorder
recorder_keeps = record { finalizers = λ t e. refl }

named : opts.finalizer ≢ ""
named e = cc e

run-Guarded_example :
    OnlyCleansUp recorder listed 7 opts ctx start
    ⊎ (Unguarded recorder listed 7 opts ctx start ⊎ Guarded recorder listed 7 opts ctx start)
run-Guarded_example =
    run-Guarded recorder listed 7 opts ctx start recorder_finalizers recorder_keeps named

known_owner : field_owner_for opts ctx ≡ some "example"
unfolding field_owner_for
known_owner = refl

update_status-Records_example :
    (st1 : Status) × Records listed (pos 3) (err (plain "quota")) "Ready" status st1
    × Publishes recorder st1 target
        (update_status recorder listed 7 opts ctx (err (plain "quota")) target)
update_status-Records_example =
    update_status-Records recorder listed 7 opts ctx (err (plain "quota")) target status "example"
      "Ready" refl known_owner refl
