-- ===== src/Builder/Events/Convert.antt =====
-- builder_conversion.go: the converter. The four methods of a predicate and of a handler are one function
-- on the four kinds of event.
use k8s_controller_lib.Prelude.{String, Bool, Option, none, some, List, [], ◌∷◌, ◌++◌}
use k8s_controller_lib.Runtime.Errors.{GoError, plain, wrap}
use k8s_controller_lib.Runtime.Exec.{Result, ok, err, Exec}
use k8s_controller_lib.Runtime.Objects.{Gvk, Object}
use k8s_controller_lib.Runtime.Api.{ClusterApi}
use k8s_controller_lib.Resources.Util.{from_unstructured}

-- A `client.Object` that is not nil, by the type switches of the package. Of a `PartialObjectMetadata`
-- the model keeps the kind and the metadata, as an object with no content.
pub data AnyObject (U : Type 0) : Type 0 where
  unstructured : U → AnyObject U
  partial_metadata : Object → AnyObject U
  typed : Object → AnyObject U

-- `event.TypedCreateEvent`, `TypedUpdateEvent`, `TypedDeleteEvent` and `TypedGenericEvent`; an object may
-- be nil. The flag is `DeleteStateUnknown`.
pub data Event (U : Type 0) : Type 0 where
  create_event : Option (AnyObject U) → Event U
  update_event : (object_old object_new : Option (AnyObject U)) → Event U
  delete_event : Option (AnyObject U) → Bool → Event U
  generic_event : Option (AnyObject U) → Event U

-- The labels of `ConversionErrorsTotal`, of builder_metrics.go
pub data FailureReason : Type 0 where
  type_not_in_scheme not_client_object conversion_failed : FailureReason

pub record ConversionFailure : Type 0 where
  pub controller_name : String
  pub gvk : Gvk
  pub reason : FailureReason

-- The counter: the increments, in their order.
abbrev pub Counter : Type 0
Counter = List ConversionFailure

-- What `scheme.New` makes of a kind, if it knows it: a zero object, or a value that is no `client.Object`.
abbrev pub NewObject : Type 0
NewObject = Gvk → Result (Option Object)

-- `converter`
pub record Converter : Type 0 where
  pub scheme_new : NewObject
  pub controller_name : String

-- What the converter does next to the counter that it may increase.
abbrev pub Converts : Type 0 → Type 0 → Type 0
Converts A B = A → Exec Counter B

module _ {W U : Type 0} (api : ClusterApi W U) (converter : Converter) where
  -- `ConversionErrorsTotal.WithLabelValues(…).Inc()`, and the error that is returned
  unfoldable pub count_failure : {A : Type 0} → Gvk → FailureReason → GoError → Exec Counter A
  count_failure gvk reason e counter = (
    err e,
    counter
        ++ record { controller_name = converter.controller_name; gvk = gvk; reason = reason } ∷ [],
  )

  -- The outcome of `FromUnstructured` into the new object
  unfoldable pub converted : Gvk → Result (Unit {0}) × Object → Exec Counter (AnyObject U)
  unfolding count_failure
  converted gvk (ok x, target) counter = (ok (typed target), counter)
  converted gvk (err e, target) counter =
      count_failure gvk conversion_failed (wrap "failed to convert from unstructured" e) counter

  -- The case of an unstructured object, by the answer of `scheme.New`
  unfoldable pub convert_into : Gvk → U → Result (Option Object) → Exec Counter (AnyObject U)
  unfolding converted count_failure from_unstructured
  convert_into gvk u (err e) counter =
      count_failure gvk type_not_in_scheme (wrap "failed to create target type from scheme" e)
        counter
  convert_into gvk u (ok none) counter =
      count_failure gvk not_client_object (plain "target type does not implement client.Object")
        counter
  convert_into gvk u (ok (some target)) counter =
      converted gvk (from_unstructured api u target) counter

  unfoldable pub present : Result (AnyObject U) × Counter → Result (Option (AnyObject U)) × Counter
  present (ok obj, counter) = (ok (some obj), counter)
  present (err e, counter) = (err e, counter)

  -- `Convert`; nil is no unstructured object, and is returned as it is.
  unfoldable pub convert : Option (AnyObject U) → Exec Counter (Option (AnyObject U))
  unfolding convert_into present
  convert none counter = (ok none, counter)
  convert (some (unstructured u)) counter =
      let gvk = api.unstructured_gvk u in
      present (convert_into gvk u (converter.scheme_new gvk) counter)
  convert (some (partial_metadata p)) counter = (ok (some (partial_metadata p)), counter)
  convert (some (typed obj)) counter = (ok (some (typed obj)), counter)

  -- How each method of the wrappers begins: the event with its objects converted, or nothing if one of
  -- them cannot be.
  unfoldable pub converted_event :
      (Option (AnyObject U) → Event U)
      → Result (Option (AnyObject U)) × Counter
      → Option (Event U) × Counter
  converted_event make (ok obj, counter) = (some (make obj), counter)
  converted_event make (err e, counter) = (none, counter)

  unfoldable pub convert_update :
      Option (AnyObject U) → Result (Option (AnyObject U)) × Counter → Option (Event U) × Counter
  unfolding convert converted_event
  convert_update object_new (err e, counter) = (none, counter)
  convert_update object_new (ok object_old, counter) =
      converted_event (update_event object_old) (convert object_new counter)

  unfoldable pub convert_event : Event U → Counter → Option (Event U) × Counter
  unfolding convert converted_event convert_update
  convert_event (create_event obj) counter = converted_event create_event (convert obj counter)
  convert_event (update_event object_old object_new) counter =
      convert_update object_new (convert object_old counter)
  convert_event (delete_event obj unknown) counter =
      converted_event (λ o. delete_event o unknown) (convert obj counter)
  convert_event (generic_event obj) counter = converted_event generic_event (convert obj counter)
