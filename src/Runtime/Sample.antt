-- ===== src/Runtime/Sample.antt =====
-- A value of `ClusterApi`, for the tests: the cluster is the list of the calls that it got. It shows that
-- the laws of Runtime.Api can hold together.
use k8s_controller_lib.Prelude.{
  String, ◌≡◌, refl, Bool, true, false, ◌&&◌, ◌||◌, none, some, List, [], ◌∷◌, ◌++◌, arith,
  if◌then◌else◌, ◌==◌, eq_refl,
}
use k8s_controller_lib.Prelude.Int.{pos}
use k8s_controller_lib.Runtime.Errors.{plain}
use k8s_controller_lib.Runtime.Exec.{ok, err}
use k8s_controller_lib.Runtime.Objects.{Gvk, Object}
use k8s_controller_lib.Runtime.Api.{ClusterApi, RemovesFields, FinalizerLaws, AggregateLaws}

abbrev pub Log : Type 0
Log = List String

-- Unstructured content: the object, and which paths are set.
pub record Content : Type 0 where
  pub object : Object
  pub fields : List String → Bool

abbrev pub same_path : List String → List String → Bool
same_path [] [] = true
same_path [] (x ∷ xs) = false
same_path (x ∷ xs) [] = false
same_path (x ∷ xs) (y ∷ ys) = x == y && same_path xs ys

same_path_refl : (p : List String) → same_path p p ≡ true
same_path_refl [] = refl
same_path_refl (x ∷ xs) = ground (arith, eq_refl x, same_path_refl xs)

abbrev pub holds : List String → String → Bool
holds [] f = false
holds (x ∷ xs) f = x == f || holds xs f

abbrev pub drop_all : List String → String → List String
drop_all [] f = []
drop_all (x ∷ xs) f = let rest = drop_all xs f in if x == f then rest else x ∷ rest

holds-drop_all : (fs : List String) (f : String) → holds (drop_all fs f) f ≡ false
holds-drop_all [] f = refl
holds-drop_all (x ∷ xs) f = ground (arith, holds-drop_all xs f)

drop_all_absent : (fs : List String) (f : String) → holds fs f ≡ false → drop_all fs f ≡ fs
drop_all_absent [] f h = refl
drop_all_absent (x ∷ xs) f h = ground (arith, drop_all_absent xs f)

holds-append : (fs : List String) (f : String) → holds (fs ++ f ∷ []) f ≡ true
holds-append [] f = ground (arith, eq_refl f)
holds-append (x ∷ xs) f = ground (arith, holds-append xs f)

abbrev pub add_once : List String → String → Bool × List String
add_once fs f = if holds fs f then (false, fs) else (true, fs ++ f ∷ [])

abbrev pub gvk_of : Object → Gvk
gvk_of obj = obj.gvk

abbrev pub recorder : ClusterApi Log Content
recorder = record {
  gvk_string = λ g. g.kind;
  gvk_for_object = λ obj. ok (gvk_of obj);
  set_controller_reference = λ owner obj. (ok tt, obj);
  contains_finalizer = holds;
  add_finalizer = add_once;
  remove_finalizer = λ fs f. (holds fs f, drop_all fs f);
  new_aggregate = λ errs. elim errs [ [] ↦ none | e ∷ rest ↦ some e ];
  update = λ (obj, w). (ok tt, (obj, "update" ∷ w));
  status_update = λ (obj, w). (ok tt, (obj, "status update" ∷ w));
  to_unstructured = λ obj. ok (record { object = obj; fields = λ p. true });
  from_unstructured = λ u obj. (ok tt, u.object);
  unstructured_gvk = λ u. u.object.gvk;
  set_unstructured_gvk = λ g u. record u { object = record u.object { gvk = g } };
  gvk_for_unstructured = λ u. ok u.object.gvk;
  unstructured_key = λ u. record { namespace = u.object.namespace; name = u.object.name };
  has_nested_field = λ u p. u.fields p;
  remove_nested_field =
      λ u path. record u { fields = λ p. if same_path path p then false else u.fields p };
  apply = λ field_owner (u, w). (ok tt, (u, "apply" ∷ w));
  apply_status = λ field_owner (u, w). (err (plain "not found"), (u, "apply status" ∷ w));
  is_not_found = λ e. true;
}

pub recorder_fields : RemovesFields recorder
recorder_fields = record {
  has-remove_self = λ u path. ground (arith, same_path_refl path);
  has-remove_sibling = λ u path other h. ground (arith, h);
  has-remove_metadata = λ u field. refl;
}

pub recorder_finalizers : FinalizerLaws recorder
recorder_finalizers = record {
  contains-add = λ fs f. ground (arith, holds-append fs f);
  add_unchanged = λ fs f h. ground (arith, h);
  contains-remove = holds-drop_all;
  remove_unchanged = drop_all_absent;
}

pub recorder_aggregate : AggregateLaws recorder
recorder_aggregate = record { aggregate_empty = refl; aggregate_some = λ e es. (e, refl) }

-- An object `name` in the namespace `namespace`, with one finalizer.
abbrev pub config_map : String → String → Object
config_map namespace name = record {
  gvk = record { group = ""; version = "v1"; kind = "ConfigMap" };
  name = name;
  namespace = namespace;
  uid = "1";
  resource_version = "1";
  generation = pos 3;
  deletion_timestamp = none;
  labels = none;
  annotations = none;
  owner_references = [];
  finalizers = "example/finalizer" ∷ [];
  content = "";
}
