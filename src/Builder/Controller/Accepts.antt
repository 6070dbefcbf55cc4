-- ===== src/Builder/Controller/Accepts.antt =====
-- builder.go and builder_conversion.go: the mappers that `Watches` accepts, and the events that reach them.
use k8s_controller_lib.Prelude.{
  String, ◌≡◌, ◌≢◌, ◌⊎◌, Bool, true, false, Option, none, some, [], ◌∷◌, ◌++◌,
}
use k8s_controller_lib.Runtime.Exec.{Result, ok}
use k8s_controller_lib.Runtime.Objects.{Object}
use k8s_controller_lib.Runtime.Api.{ClusterApi}
use k8s_controller_lib.Resources.Util.{from_unstructured}
use k8s_controller_lib.Builder.Events.Convert.{
  AnyObject, unstructured, partial_metadata, typed, Counter, NewObject, Converter, FailureReason,
  present,
}
use k8s_controller_lib.Builder.Events.Mapper.{
  ObjectType, concrete_type, get_mapper_expectation, is_typed, assert_converted, get_typed_object,
  converter_if,
}

-- An object as the informer of a watch delivers it: metadata alone for a partial watch, and else the whole
-- object, unstructured.
pub data Delivers {U : Type 0} : Bool → AnyObject U → Type 0 where
  whole : (u : U) → Delivers false (unstructured u)
  metadata : (p : Object) → Delivers true (partial_metadata p)

module _ {W U : Type 0} (api : ClusterApi W U) (go_type : Object → String) (scheme_new : NewObject)
    (controller_name : String) where
  -- What the handler of a mapper makes of an object
  abbrev pub seen : ObjectType → AnyObject U → Counter → Option (AnyObject U) × Counter
  seen type obj counter =
      get_typed_object api go_type type
        (converter_if (is_typed (get_mapper_expectation type)) scheme_new controller_name)
        (some obj) counter

  -- What becomes of an unstructured object that is converted: the mapper sees the converted object, if it
  -- has the mapper's type; it sees nothing, with no failure counted, if the type is another; or the
  -- conversion failed, and it sees nothing and one failure was counted.
  abbrev pub ConvertsTo : U → String → Counter → Option (AnyObject U) × Counter → Type 0
  ConvertsTo u t counter result =
      ((target obj : Object) × (scheme_new (api.unstructured_gvk u) ≡ ok (some target))
        × (from_unstructured api u target ≡ (ok tt, obj))
        × (((go_type obj ≡ t) × (result ≡ (some (typed obj), counter)))
            ⊎ ((go_type obj ≢ t) × (result ≡ (none, counter)))))
      ⊎ ((reason : FailureReason) × (result ≡ (
        none,
        counter
            ++ record {
              controller_name = controller_name;
              gvk = api.unstructured_gvk u;
              reason = reason;
            }
              ∷ [],
      )))

  module _ (u : U) (t : String) (counter : Counter) where
    abbrev the_converter : Converter
    the_converter = record { scheme_new = scheme_new; controller_name = controller_name }

    abbrev pub asserted : Result (AnyObject U) × Counter → Option (AnyObject U) × Counter
    asserted outcome =
        assert_converted api go_type (concrete_type t) (present api the_converter outcome)

  -- What a mapper that was accepted sees: the object itself, or what an unstructured one converts to.
  abbrev pub Sees : ObjectType → AnyObject U → Counter → Type 0
  Sees type obj counter =
      (seen type obj counter ≡ (some obj, counter))
      ⊎ ((u : U) × (t : String) × (obj ≡ unstructured u)
          × (type ≡ concrete_type t)
          × ConvertsTo u t counter (seen type obj counter))
