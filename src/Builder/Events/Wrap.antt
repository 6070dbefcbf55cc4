-- ===== src/Builder/Events/Wrap.antt =====
-- builder_conversion.go: predicates and handlers that convert before they call the user's.
pub mod Once
use k8s_controller_lib.Prelude.{
  String, Bool, true, false, not, Option, none, some, List, [], ◌∷◌, map, if◌then◌else◌,
}
use k8s_controller_lib.Runtime.Api.{ClusterApi}
use k8s_controller_lib.Builder.Events.Convert.{
  AnyObject, Event, Counter, NewObject, Converter, convert_event,
}

-- What an event meets: the counter, and the state `S` of the user's code and of the queue.
pub record EventState (S : Type 0) : Type 0 where
  pub counter : Counter
  pub user : S

-- `predicate.Predicate` and `handler.EventHandler`, whose methods may do anything to the user's state.
abbrev pub Predicate : Type 0 → Type 0 → Type 0
Predicate U S = Event U → EventState S → Bool × EventState S

abbrev pub EventHandler : Type 0 → Type 0 → Type 0
EventHandler U S = Event U → EventState S → EventState S

module _ {W U S : Type 0} (api : ClusterApi W U) where
  -- The methods of `predicateWrapper`
  unfoldable pub call_predicate :
      Predicate U S → S → Option (Event U) × Counter → Bool × EventState S
  call_predicate p user (none, counter) = (false, record { counter = counter; user = user })
  call_predicate p user (some e, counter) = p e (record { counter = counter; user = user })

  unfoldable pub wrap_predicate : Converter → Predicate U S → Predicate U S
  unfolding call_predicate convert_event
  wrap_predicate converter p e s = call_predicate p s.user (convert_event api converter e s.counter)

  -- `wrapPredicates`
  unfoldable pub wrap_predicates :
      NewObject → List (Predicate U S) → Bool → String → List (Predicate U S)
  unfolding wrap_predicate
  wrap_predicates scheme_new predicates needs_conversion controller_name =
      if not needs_conversion
      then predicates
      else map
          (wrap_predicate (record { scheme_new = scheme_new; controller_name = controller_name }))
          predicates

  -- The methods of `handlerWrapper`
  unfoldable pub call_handler : EventHandler U S → S → Option (Event U) × Counter → EventState S
  call_handler h user (none, counter) = record { counter = counter; user = user }
  call_handler h user (some e, counter) = h e (record { counter = counter; user = user })

  unfoldable pub handler_wrapper : Converter → EventHandler U S → EventHandler U S
  unfolding call_handler convert_event
  handler_wrapper converter h e s = call_handler h s.user (convert_event api converter e s.counter)

  -- `wrapHandler`
  unfoldable pub wrap_handler : NewObject → EventHandler U S → Bool → String → EventHandler U S
  unfolding handler_wrapper
  wrap_handler scheme_new h needs_conversion controller_name =
      if not needs_conversion
      then h
      else handler_wrapper (record { scheme_new = scheme_new; controller_name = controller_name }) h

  unfoldable pub when_passed : (EventState S → EventState S) → Bool × EventState S → EventState S
  when_passed next (true, s) = next s
  when_passed next (false, s) = s

  -- `for _, p := range predicates { if !p(e) { return } }`, and then the rest
  unfoldable pub when_all :
      List (Predicate U S) → Event U → (EventState S → EventState S) → EventState S → EventState S
  unfolding when_passed
  when_all [] e next s = next s
  when_all (p ∷ ps) e next s = when_passed (when_all ps e next) (p e s)

  -- The methods of `convertingHandler`
  unfoldable pub call_converting :
      EventHandler U S → List (Predicate U S) → S → Option (Event U) × Counter → EventState S
  unfolding when_all
  call_converting h predicates user (none, counter) = record { counter = counter; user = user }
  call_converting h predicates user (some e, counter) =
      when_all predicates e (h e) (record { counter = counter; user = user })

  -- `newConvertingHandler`
  unfoldable pub new_converting_handler :
      NewObject → EventHandler U S → List (Predicate U S) → String → EventHandler U S
  unfolding call_converting convert_event
  new_converting_handler scheme_new h predicates controller_name e s =
      call_converting h predicates s.user (
        convert_event api (record { scheme_new = scheme_new; controller_name = controller_name }) e
          s.counter)
