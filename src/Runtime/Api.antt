-- ===== src/Runtime/Api.antt =====
-- What the library calls of controller-runtime and apimachinery on objects: the client, the scheme, the
-- unstructured converter and the controller utilities. `W` is the state of the cluster that the client
-- talks to, `U` the type `unstructured.Unstructured`. Each field is a call, with its results as values;
-- the laws are in the records below it, and each theorem asks for those that it needs.
use k8s_controller_lib.Prelude.{String, ◌≡◌, Bool, true, false, List, [], ◌∷◌, Option, none, some}
use k8s_controller_lib.Runtime.Errors.{GoError}
use k8s_controller_lib.Runtime.Exec.{Result, Exec}
use k8s_controller_lib.Runtime.Objects.{Gvk, Object, ManagedObject, NamespacedName}

pub record ClusterApi (W U : Type 0) : Type 0 where
  -- `gvk.String()`
  pub gvk_string : Gvk → String
  -- `apiutil.GVKForObject(obj, scheme)`
  pub gvk_for_object : Object → Result Gvk
  -- `controllerutil.SetControllerReference(owner, obj, scheme)`
  pub set_controller_reference : Object → Exec Object (Unit {0})
  -- `controllerutil.ContainsFinalizer`, `AddFinalizer` and `RemoveFinalizer`, on the list of finalizers
  pub contains_finalizer : List String → String → Bool
  pub add_finalizer : List String → String → Bool × List String
  pub remove_finalizer : List String → String → Bool × List String
  -- `utilerrors.NewAggregate`
  pub new_aggregate : List GoError → Option GoError
  -- `cli.Update` and `cli.Status().Update`, which write the server's answer back into the object
  pub update : Exec (ManagedObject × W) (Unit {0})
  pub status_update : Exec (ManagedObject × W) (Unit {0})
  -- `runtime.DefaultUnstructuredConverter`
  pub to_unstructured : Object → Result U
  pub from_unstructured : U → Exec Object (Unit {0})
  -- an unstructured object's kind, its scheme lookup, its key and the fields of its content
  pub unstructured_gvk : U → Gvk
  pub set_unstructured_gvk : Gvk → U → U
  pub gvk_for_unstructured : U → Result Gvk
  pub unstructured_key : U → NamespacedName
  pub has_nested_field : U → List String → Bool
  pub remove_nested_field : U → List String → U
  -- `cli.Apply` and `cli.Status().Apply` with a field owner; the answer is written into the argument
  pub apply : String → Exec (U × W) (Unit {0})
  pub apply_status : String → Exec (U × W) (Unit {0})
  -- `k8serr.IsNotFound`
  pub is_not_found : GoError → Bool

module _ {W U : Type 0} (api : ClusterApi W U) where
  -- "RemoveNestedField removes the nested field": nothing else of the content changes, so a path that
  -- begins with another field, or leads to another field of the same map, is there as before.
  pub record RemovesFields : Type 0 where
    pub has-remove_self :
        (u : U) (path : List String)
        → api.has_nested_field (api.remove_nested_field u path) path ≡ false
    pub has-remove_sibling :
        (u : U) (path other : List String)
        → api.has_nested_field u other ≡ false
        → api.has_nested_field (api.remove_nested_field u path) other ≡ false
    pub has-remove_metadata :
        (u : U) (field : String)
        → api.has_nested_field (api.remove_nested_field u ("metadata" ∷ field ∷ [])) ("status" ∷ [])
          ≡ api.has_nested_field u ("status" ∷ [])

  -- "AddFinalizer … returns an indication of whether it updated the object's list of finalizers", and
  -- "RemoveFinalizer" the same.
  pub record FinalizerLaws : Type 0 where
    pub contains-add :
        (fs : List String) (f : String)
        → api.contains_finalizer ((api.add_finalizer fs f).1) f ≡ true
    pub add_unchanged :
        (fs : List String) (f : String)
        → (api.add_finalizer fs f).0 ≡ false
        → (api.add_finalizer fs f).1 ≡ fs
    pub contains-remove :
        (fs : List String) (f : String)
        → api.contains_finalizer ((api.remove_finalizer fs f).1) f ≡ false
    pub remove_unchanged :
        (fs : List String) (f : String)
        → (api.remove_finalizer fs f).0 ≡ false
        → (api.remove_finalizer fs f).1 ≡ fs

  -- "If the errors list is empty, this returns nil."
  pub record AggregateLaws : Type 0 where
    pub aggregate_empty : api.new_aggregate [] ≡ none
    pub aggregate_some :
        (e : GoError) (es : List GoError)
        → (combined : GoError) × (api.new_aggregate (e ∷ es) ≡ some combined)
