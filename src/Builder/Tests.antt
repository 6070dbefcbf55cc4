-- ===== src/Builder/Tests.antt =====
-- The builder on concrete values.
use k8s_controller_lib.Prelude.{
  ℕ, String, ◌≡◌, refl, ◌+◌, ◌≤◌, ◌⊎◌, true, false, none, some, List, [], ◌∷◌,
}
use k8s_controller_lib.Prelude.Int.{pos}
use k8s_controller_lib.Prelude.{length}
use k8s_controller_lib.Runtime.Errors.{GoError, plain}
use k8s_controller_lib.Runtime.Exec.{ok, err}
use k8s_controller_lib.Runtime.Objects.{Object}
use k8s_controller_lib.Runtime.Sample.{Log, Content, recorder, config_map}
use k8s_controller_lib.Reconciler.Adapter.{TypedReconciler}
use k8s_controller_lib.Builder.Events.Convert.{unstructured, typed, create_event, Event, NewObject}
use k8s_controller_lib.Builder.Events.Wrap.{
  EventState, EventHandler, Predicate, when_all, when_passed, new_converting_handler,
  wrap_predicates, wrap_handler,
}
use k8s_controller_lib.Builder.Events.Wrap.Once.{DispatchLaws, converting_handler_once}
use k8s_controller_lib.Builder.Events.Mapper.{concrete_type}
use k8s_controller_lib.Builder.Options.{typed_predicate, with_handler}
use k8s_controller_lib.Builder.Controller.{for_}
use k8s_controller_lib.Builder.Controller.State.{Builder, DeclareApi}
use k8s_controller_lib.Builder.Controller.Names.{GoType}
use k8s_controller_lib.Builder.Controller.Calls.{
  Call, call_for, call_owns, call_watches, call_all, for_calls, calls_counted,
}
use k8s_controller_lib.Builder.Controller.Primary.{for_-typed_predicate}
use k8s_controller_lib.Builder.Controller.Complete.{CompleteApi, complete, configure}
use k8s_controller_lib.Builder.Controller.Complete.Outcomes.{
  NotReady, Ready, Completed, complete_attempts,
}

abbrev app : Object
app = config_map "team" "app"

abbrev content : Content
content = record { object = app; fields = λ p. true }

abbrev known : NewObject
known = λ gvk. ok (some app)

-- controller-runtime's order of calls
abbrev dispatch : List (Predicate Content Log) → EventHandler Content Log → EventHandler Content Log
dispatch ps h e s = when_all recorder ps e (h e) s

dispatch_laws : DispatchLaws dispatch
unfolding when_all when_passed
dispatch_laws = record {
  dispatch_nil = λ h e s. refl;
  dispatch_pass = λ p ps h e s s1 passes. rw passes refl;
  dispatch_drop = λ p ps h e s s1 drops. rw drops refl;
}

abbrev log_event : String → EventState Log → EventState Log
log_event text s = record s { user = text ∷ s.user }

abbrev handle : EventHandler Content Log
handle e s = log_event "handled" s

abbrev pass : Predicate Content Log
pass e s = (true, log_event "passed" s)

abbrev created_event : Event Content
created_event = create_event (some (unstructured content))

abbrev no_events : EventState Log
no_events = record { counter = []; user = [] }

converting_handler_once_example :
    dispatch []
      (new_converting_handler recorder known handle (pass ∷ []) "app")
      created_event
      no_events
    ≡ dispatch
        (wrap_predicates recorder known (pass ∷ []) true "app")
        (wrap_handler recorder known handle true "app")
        created_event
        no_events
converting_handler_once_example =
    converting_handler_once recorder dispatch dispatch_laws known "app" handle pass [] created_event
      no_events

abbrev outside : DeclareApi Content Log
outside = record {
  unstructured_of = λ gvk. record content { object = record app { gvk = gvk } };
  partial_of = λ gvk. record app { gvk = gvk };
  enqueue_for_object = handle;
  owner_handler = some handle;
}

abbrev app_type : GoType
app_type = record { is_pointer = true; own_name = ""; elem_name = "TestApp" }

abbrev empty_builder : Builder Content Log ℕ ℕ ℕ
empty_builder = record {
  ctrl = false;
  scheme_new = known;
  cache = 1;
  client = 2;
  errors = [];
  for_set = false;
  name = "";
  options = record {
    name = "";
    cache = none;
    client = none;
    max_concurrent_reconciles = pos 0;
    rate_limiter = none;
  };
  watches = [];
}

abbrev some_calls : List (Call Content Log)
some_calls =
    call_for (typed app) app_type []
    ∷ call_owns app.gvk []
    ∷ call_for (typed app) app_type []
    ∷ call_watches app.gvk []
    ∷ []

calls_counted_example :
    (length (call_all outside some_calls empty_builder).errors
        + length (call_all outside some_calls empty_builder).watches
      ≡ length some_calls)
    × ((for_calls some_calls ≤ 1) ⊎ (1 ≤ length (call_all outside some_calls empty_builder).errors))
calls_counted_example = calls_counted outside some_calls empty_builder refl refl

for_-typed_predicate_example :
    for_ outside
      (typed app)
      app_type
      (with_handler none
        ∷ typed_predicate recorder (λ obj. "App") (concrete_type "App") (λ obj s. (false, s))
        ∷ [])
      empty_builder
    ≡ for_ outside (typed app) app_type (with_handler none ∷ []) empty_builder
for_-typed_predicate_example =
    for_-typed_predicate recorder outside (λ obj. "App") (concrete_type "App") (λ obj s. (false, s))
      (typed app) app_type (with_handler none ∷ []) empty_builder

abbrev complete_api : CompleteApi Log Content Log ℕ ℕ ℕ
complete_api = record {
  get = λ client key w. (err (plain "not found"), "get" ∷ w);
  new_controller = λ name config w. (ok tt, "new" ∷ w);
  watch = λ source w. (err (plain "no such kind"), "watch" ∷ w);
  set_static_watched = λ name gvk w. "count" ∷ w;
  join = λ errs. plain "joined";
  set_controller = none;
  set_client = none;
  set_cache = none;
}

abbrev reconciler : TypedReconciler Log
reconciler ctx target = ((none, none), target)

abbrev ready_builder : Builder Content Log ℕ ℕ ℕ
ready_builder = record empty_builder {
  for_set = true;
  name = "app";
  watches =
      record { obj = typed app; handler = some handle; predicates = pass ∷ []; as_partial = false }
      ∷ [];
}

complete_attempts_example :
    (NotReady ready_builder
      × (e : GoError) × (complete recorder outside complete_api reconciler (ready_builder, [])
          ≡ (err e, (ready_builder, []))))
    ⊎ (Ready ready_builder
        × Completed recorder outside complete_api ready_builder
            (complete_api.new_controller ready_builder.name
              (configure recorder outside complete_api reconciler ready_builder)
              [])
            (complete recorder outside complete_api reconciler (ready_builder, [])))
complete_attempts_example =
    complete_attempts recorder outside complete_api reconciler ready_builder []
