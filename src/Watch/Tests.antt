-- ===== src/Watch/Tests.antt =====
-- The watcher and its handler on concrete values.
use k8s_controller_lib.Prelude.{
  ℕ, String, ◌≡◌, ◌≢◌, refl, ◌⊎◌, ◌+◌, ◌≤◌, true, false, Option, none, some, List, [], ◌∷◌,
}
use k8s_controller_lib.Runtime.Exec.{ok}
use k8s_controller_lib.Runtime.Errors.{GoError, plain}
use k8s_controller_lib.Runtime.Objects.{Object}
use k8s_controller_lib.Runtime.Sample.{Log, recorder, config_map}
use k8s_controller_lib.Runtime.StringMap.{lookup}
use k8s_controller_lib.Pipeline.Options.{Options, no_options}
use k8s_controller_lib.Watch.Handler.{get_owner_from_references, find_reference, handle, created}
use k8s_controller_lib.Pipeline.Steps.Ownership.{label_owner_name, label_owner_namespace}
use k8s_controller_lib.Watch.Handler.Tracking.{
  requests, tracked, of_created, key_of, owner_namespace_of, handle-add_owner_tracking,
  cluster_owner_missed,
}
use k8s_controller_lib.Util.{apply_options}
use k8s_controller_lib.Runtime.Objects.{gvk_eq}
use k8s_controller_lib.Watch.All.{Applied, after_watch, watch_all}
use k8s_controller_lib.Watch.All.Settled.{IsWatched, AllWatched, watch_all-AllWatched}
use k8s_controller_lib.Watch.Watcher.{
  lookup_state, put_state, Watcher, watch, watch_object, locked_watch, try_register, register,
  setup_source, mark_watched, already_settled, state_or_new, ready,
}
use k8s_controller_lib.Watch.Watcher.Once.{Call, run, registrations, watched_bit, registrations_lem}

abbrev labelled : Options Log
labelled = record no_options { label_non_owned_objects = true }

abbrev owner : Object
owner = config_map "team" "app"

abbrev obj : Object
obj = config_map "ns" "settings"

abbrev parse_group : String → Option String
parse_group text = some ""

no_reference : get_owner_from_references parse_group (ok owner.gvk) true obj ≡ none
unfolding get_owner_from_references find_reference
no_reference = refl

owner_named : owner.name ≢ ""
owner_named e = cc e

owner_namespaced : owner.namespace ≢ ""
owner_namespaced e = cc e

obj_namespaced : obj.namespace ≢ ""
obj_namespaced e = cc e

handle-add_owner_tracking_example :
    handle parse_group
      (ok owner.gvk)
      true
      label_owner_name
      label_owner_namespace
      (created (some (tracked recorder labelled owner.gvk owner obj refl refl owner_named)))
    ≡ key_of owner ∷ []
handle-add_owner_tracking_example =
    handle-add_owner_tracking recorder labelled owner.gvk owner obj refl refl owner_named
      parse_group (ok owner.gvk) true no_reference
      (created (some (tracked recorder labelled owner.gvk owner obj refl refl owner_named)))
      of_created owner_namespaced

abbrev cluster_owner : Object
cluster_owner = config_map "" "app"

unset_label : owner_namespace_of obj ≡ ""
unfolding lookup
unset_label = refl

cluster_owner_missed_example :
    (requests recorder labelled owner.gvk cluster_owner obj refl refl owner_named parse_group
        (ok owner.gvk)
        true
        none
        no_reference
      ≡ record { namespace = "ns"; name = "app" } ∷ [])
    × (requests recorder labelled owner.gvk cluster_owner obj refl refl owner_named parse_group
          (ok owner.gvk)
          true
          none
          no_reference
        ≢ key_of cluster_owner ∷ [])
cluster_owner_missed_example =
    cluster_owner_missed recorder labelled owner.gvk cluster_owner obj refl refl owner_named
      parse_group (ok owner.gvk) true none no_reference refl unset_label obj_namespaced

-- The same kind twice, where the controller refuses the first watch, and once more.
abbrev call : Option GoError → Call ℕ ℕ
call answer = record {
  gvk = owner.gvk;
  kind_text = "ConfigMap";
  opts = [];
  answers = record { is_partial_object = false; to_partial = none; watch = answer };
}

abbrev calls : List (Call ℕ ℕ)
calls = call (some (plain "no such kind")) ∷ call none ∷ call none ∷ []

registrations_lem_example :
    (registrations 0 owner.gvk calls [] + watched_bit {P = ℕ} {H = ℕ} (lookup_state owner.gvk [])
      ≡ watched_bit (lookup_state owner.gvk (run 0 calls [])))
    × (registrations 0 owner.gvk calls [] ≤ 1)
registrations_lem_example = registrations_lem 0 owner.gvk calls []

-- A watcher with no states, and two objects of one kind with a nil object between them
abbrev ready_watcher : Watcher ℕ ℕ
ready_watcher = record { controller = true; cache = true; client = true; states = [] }

abbrev applied : Applied
applied = record { kind_text = "ConfigMap"; gvk = ok owner.gvk; answers = (call none).answers }

all_succeeds : (watch_all 0 (some applied ∷ none ∷ some applied ∷ []) ready_watcher).0 ≡ ok tt
unfolding watch_all after_watch watch watch_object locked_watch lookup_state put_state try_register
    register setup_source mark_watched already_settled state_or_new ready gvk_eq apply_options
all_succeeds = refl

watcher_ready : ready ready_watcher ≡ true
unfolding ready
watcher_ready = refl

watch_all-AllWatched_example :
    AllWatched
      (some applied ∷ none ∷ some applied ∷ [])
      (watch_all 0 (some applied ∷ none ∷ some applied ∷ []) ready_watcher).1.states
    × ((¬ IsWatched owner.gvk ready_watcher.states)
        ⊎ IsWatched owner.gvk
            (watch_all 0 (some applied ∷ none ∷ some applied ∷ []) ready_watcher).1.states)
watch_all-AllWatched_example =
    watch_all-AllWatched 0 (some applied ∷ none ∷ some applied ∷ []) ready_watcher owner.gvk
      watcher_ready all_succeeds
