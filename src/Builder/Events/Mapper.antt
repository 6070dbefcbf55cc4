-- ===== src/Builder/Events/Mapper.antt =====
-- builder_conversion.go: handlers and predicates made from functions on objects of one Go type.
use k8s_controller_lib.Prelude.{
  String, Bool, true, false, ◌||◌, Option, none, some, List, [], ◌∷◌, if◌then◌else◌, ◌==◌,
}
use k8s_controller_lib.Runtime.Exec.{Result, ok, err}
use k8s_controller_lib.Runtime.Objects.{Object, NamespacedName}
use k8s_controller_lib.Runtime.Api.{ClusterApi}
use k8s_controller_lib.Builder.Events.Convert.{
  AnyObject, unstructured, partial_metadata, typed, Event, create_event, update_event, delete_event,
  generic_event, Counter, NewObject, Converter, convert,
}
use k8s_controller_lib.Builder.Events.Wrap.{EventState, Predicate, EventHandler}

-- The type parameter `O`, as the code tells the types apart: two are known to it, one is the interface
-- `client.Object`, and any other is given by its name.
pub data ObjectType : Type 0 where
  unstructured_type partial_type client_object_type : ObjectType
  concrete_type : String → ObjectType

pub data MapperExpectation : Type 0 where
  expects_unstructured expects_partial expects_client_object expects_typed : MapperExpectation

-- `getMapperExpectation`
unfoldable pub get_mapper_expectation : ObjectType → MapperExpectation
get_mapper_expectation unstructured_type = expects_unstructured
get_mapper_expectation partial_type = expects_partial
get_mapper_expectation client_object_type = expects_client_object
get_mapper_expectation (concrete_type t) = expects_typed

-- `typeRequiresConversion`
unfoldable pub type_requires_conversion : ObjectType → Bool
type_requires_conversion unstructured_type = false
type_requires_conversion partial_type = false
type_requires_conversion client_object_type = false
type_requires_conversion (concrete_type t) = true

-- `expectation == MapperExpectsTyped`
abbrev pub is_typed : MapperExpectation → Bool
is_typed expects_unstructured = false
is_typed expects_partial = false
is_typed expects_client_object = false
is_typed expects_typed = true

-- `go_type` is the name of a typed object's Go type.
module _ {U : Type 0} (go_type : Object → String) where
  -- Whether the type assertion `obj.(O)` holds; it never does of nil.
  unfoldable pub has_type : ObjectType → AnyObject U → Bool
  has_type client_object_type obj = true
  has_type unstructured_type (unstructured u) = true
  has_type unstructured_type (partial_metadata p) = false
  has_type unstructured_type (typed obj) = false
  has_type partial_type (unstructured u) = false
  has_type partial_type (partial_metadata p) = true
  has_type partial_type (typed obj) = false
  has_type (concrete_type t) (unstructured u) = false
  has_type (concrete_type t) (partial_metadata p) = false
  has_type (concrete_type t) (typed obj) = go_type obj == t

  unfoldable pub assert_type : ObjectType → Option (AnyObject U) → Option (AnyObject U)
  unfolding has_type
  assert_type type none = none
  assert_type type (some obj) = if has_type type obj then some obj else none

module _ {W U : Type 0} (api : ClusterApi W U) (go_type : Object → String) (type : ObjectType) where
  -- The end of `getTypedObject`, by the outcome of the conversion
  unfoldable pub assert_converted :
      Result (Option (AnyObject U)) × Counter → Option (AnyObject U) × Counter
  unfolding assert_type
  assert_converted (err e, counter) = (none, counter)
  assert_converted (ok obj, counter) = (assert_type go_type type obj, counter)

  -- `getTypedObject`, of the mapper and of the predicate; the converter may be nil.
  unfoldable pub get_typed_object :
      Option Converter → Option (AnyObject U) → Counter → Option (AnyObject U) × Counter
  unfolding assert_converted convert
  get_typed_object none obj counter = assert_converted (ok obj, counter)
  get_typed_object (some converter) obj counter =
      assert_converted (convert api converter obj counter)

-- The object of an event that counts, which is the new one of an update.
abbrev pub subject : {U : Type 0} → Event U → Option (AnyObject U)
subject (create_event obj) = obj
subject (update_event object_old object_new) = object_new
subject (delete_event obj unknown) = obj
subject (generic_event obj) = obj

abbrev pub converter_if : Bool → NewObject → String → Option Converter
converter_if needed scheme_new controller_name =
    if needed
    then some (record { scheme_new = scheme_new; controller_name = controller_name })
    else none

-- `TypedPredicateFactory`
abbrev pub PredicateFactory : Type 0 → Type 0 → Type 0
PredicateFactory U S = NewObject → String → Predicate U S

-- What `processCreateEvent` and its like give: the object and the converted event, or nothing.
abbrev pub Processed : Type 0 → Type 0
Processed U = Option (AnyObject U × Event U)

-- A mapper, which may change the user's state.
abbrev pub Mapper : Type 0 → Type 0 → Type 0
Mapper U S = AnyObject U → S → List NamespacedName × S

-- `MapperFactory`
pub record MapperFactory (U S : Type 0) : Type 0 where
  pub expectation : MapperExpectation
  pub create : NewObject → Bool → String → List (Predicate U S) → EventHandler U S

module _ {W U S : Type 0} (api : ClusterApi W U) (go_type : Object → String) where
  -- The methods of `typedPredicateWrapper`, once the object is there or not
  unfoldable pub call_filter :
      (AnyObject U → S → Bool × S) → S → Option (AnyObject U) × Counter → Bool × EventState S
  call_filter filter user (none, counter) = (false, record { counter = counter; user = user })
  call_filter filter user (some obj, counter) =
      let (pass, user1) = filter obj user in (pass, record { counter = counter; user = user1 })

  -- `CreateTypedPredicate`
  unfoldable pub create_typed_predicate :
      ObjectType → (AnyObject U → S → Bool × S) → PredicateFactory U S
  unfolding call_filter get_typed_object type_requires_conversion
  create_typed_predicate type filter scheme_new controller_name e s = call_filter filter s.user (
      get_typed_object api go_type type
        (converter_if (type_requires_conversion type) scheme_new controller_name) (subject e)
        s.counter)

  -- `for _, p := range predicates { if !p(e) { return … false } }`
  unfoldable pub all_pass : List (Predicate U S) → Event U → EventState S → Bool × EventState S
  all_pass [] e s = (true, s)
  all_pass (p ∷ ps) e s =
      let (pass, s1) = p e s in let rest = all_pass ps e s1 in if pass then rest else (false, s1)

  -- The predicates, on the converted event
  unfoldable pub filter_event :
      List (Predicate U S)
      → (AnyObject U → Event U)
      → S
      → Option (AnyObject U) × Counter
      → Processed U × EventState S
  unfolding all_pass
  filter_event predicates make user (none, counter) =
      (none, record { counter = counter; user = user })
  filter_event predicates make user (some obj, counter) =
      let (pass, s1) = all_pass predicates (make obj) (record { counter = counter; user = user }) in
      (if pass then some (obj, make obj) else none, s1)

  module _ (type : ObjectType) (converter : Option Converter)
      (predicates : List (Predicate U S)) where
    abbrev pub typed_object : Option (AnyObject U) → Counter → Option (AnyObject U) × Counter
    typed_object obj counter = get_typed_object api go_type type converter obj counter

    -- The part of `processUpdateEvent` on the new object, by what the old one gave
    unfoldable pub process_new :
        Option (AnyObject U) → S → Option (AnyObject U) × Counter → Processed U × EventState S
    unfolding filter_event get_typed_object
    process_new object_new user (none, counter) = (none, record { counter = counter; user = user })
    process_new object_new user (some object_old, counter) =
        filter_event predicates (λ obj. update_event (some object_old) (some obj)) user
          (typed_object object_new counter)

    -- `processCreateEvent`, `processUpdateEvent`, `processDeleteEvent` and `processGenericEvent`; the old
    -- object of an update may be nil.
    unfoldable pub process_event : Event U → EventState S → Processed U × EventState S
    unfolding process_new filter_event get_typed_object
    process_event (create_event obj) s =
        filter_event predicates (λ o. create_event (some o)) s.user (typed_object obj s.counter)
    process_event (update_event none object_new) s =
        filter_event predicates (λ o. update_event none (some o)) s.user
          (typed_object object_new s.counter)
    process_event (update_event (some object_old) object_new) s =
        process_new object_new s.user (typed_object (some object_old) s.counter)
    process_event (delete_event obj unknown) s =
        filter_event predicates (λ o. delete_event (some o) unknown) s.user
          (typed_object obj s.counter)
    process_event (generic_event obj) s =
        filter_event predicates (λ o. generic_event (some o)) s.user (typed_object obj s.counter)

  -- `q.Add` for each request; `add` acts on the queue in the user's state.
  unfoldable pub add_all : (NamespacedName → S → S) → List NamespacedName → S → S
  add_all add [] user = user
  add_all add (req ∷ reqs) user = add_all add reqs (add req user)

  unfoldable pub call_mapper :
      (NamespacedName → S → S) → Mapper U S → Processed U × EventState S → EventState S
  unfolding add_all
  call_mapper add mapper (none, s) = s
  call_mapper add mapper (some (obj, e), s) =
      let (reqs, user1) = mapper obj s.user in record s { user = add_all add reqs user1 }

  -- `CreateTypedMapperHandler`, with the methods of `typedMapperHandler`
  unfoldable pub create_typed_mapper_handler :
      (NamespacedName → S → S) → ObjectType → Mapper U S → MapperFactory U S
  unfolding call_mapper process_event get_mapper_expectation
  create_typed_mapper_handler add type mapper =
      let expectation = get_mapper_expectation type in
      record {
        expectation = expectation;
        create = λ scheme_new needs_conversion controller_name predicates e s.
            call_mapper add mapper (
              process_event type
                (converter_if (needs_conversion || is_typed expectation) scheme_new controller_name)
                predicates e s);
      }
