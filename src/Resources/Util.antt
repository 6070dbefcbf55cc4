-- ===== src/Resources/Util.antt =====
-- pkg/resources/util.go: kinds of objects, references to them, and the unstructured form. The texts of
-- errors leave out the Go type of the object (`%T`). A nil object, which these functions refuse, is not
-- a value of the model.
use k8s_controller_lib.Prelude.{
  String, concat, Bool, not, ◌&&◌, Option, none, some, if◌then◌else◌, ◌==◌,
}
use k8s_controller_lib.Runtime.Errors.{plain, wrap}
use k8s_controller_lib.Runtime.Exec.{Result, ok, err, Exec, wrap_result}
use k8s_controller_lib.Runtime.Objects.{Gvk, Object, NamespacedName, gvk_eq}
use k8s_controller_lib.Runtime.Api.{ClusterApi}

-- `FormatNamespacedName`
unfoldable pub format_namespaced_name : NamespacedName → String
format_namespaced_name nn =
    if nn.namespace == "" then nn.name else concat nn.namespace (concat "/" nn.name)

-- `NamespacedNameFromObject`
unfoldable pub namespaced_name_from_object : Object → NamespacedName
namespaced_name_from_object obj = record { namespace = obj.namespace; name = obj.name }

-- `Version != "" && Kind != ""`
abbrev pub has_gvk : Gvk → Bool
has_gvk gvk = not (gvk.version == "") && not (gvk.kind == "")

-- The outcome of `GetGroupVersionKindForObject` from the object's own kind and the scheme's answer.
unfoldable pub resolve_gvk : Gvk → Result Gvk → Result Gvk
resolve_gvk own from_scheme =
    if has_gvk own then ok own else wrap_result "failed to get GVK" from_scheme

module _ {W U : Type 0} (api : ClusterApi W U) where
  -- `FormatObjectReference`, of an object's kind and key
  unfoldable pub format_reference : Gvk → NamespacedName → String
  format_reference gvk nn =
      if nn.namespace == ""
      then concat (api.gvk_string gvk) (concat " " nn.name)
      else concat (api.gvk_string gvk) (concat " " (concat nn.namespace (concat "/" nn.name)))

  unfoldable pub format_object_reference : Object → String
  unfolding format_reference
  format_object_reference obj =
      format_reference obj.gvk (record { namespace = obj.namespace; name = obj.name })

  unfoldable pub format_unstructured_reference : U → String
  unfolding format_reference
  format_unstructured_reference u =
      format_reference (api.unstructured_gvk u) (api.unstructured_key u)

  -- `GetGroupVersionKindForObject`, for an object and for an unstructured one
  unfoldable pub get_gvk_for_object : Object → Result Gvk
  unfolding resolve_gvk
  get_gvk_for_object obj = resolve_gvk obj.gvk (api.gvk_for_object obj)

  unfoldable pub get_gvk_for_unstructured : U → Result Gvk
  unfolding resolve_gvk
  get_gvk_for_unstructured u = resolve_gvk (api.unstructured_gvk u) (api.gvk_for_unstructured u)

  -- `EnsureGroupVersionKind`
  unfoldable pub ensure_gvk : Exec Object (Unit {0})
  unfolding get_gvk_for_object
  ensure_gvk obj = elim (get_gvk_for_object obj) [
    | err e ↦ (err e, obj)
    | ok gvk ↦ (ok tt, record obj { gvk = gvk })
  ]

  unfoldable pub ensure_unstructured_gvk : U → Result U
  unfolding get_gvk_for_unstructured
  ensure_unstructured_gvk u = elim (get_gvk_for_unstructured u) [
    | err e ↦ err e
    | ok gvk ↦ ok (api.set_unstructured_gvk gvk u)
  ]

  -- `ToUnstructured`, which sets the kind of its argument too
  unfoldable pub to_unstructured : Exec Object U
  unfolding ensure_gvk ensure_unstructured_gvk
  to_unstructured obj =
      let (r, obj1) = ensure_gvk obj in
      elim r [
        | err e ↦ (err (wrap "failed to ensure GroupVersionKind" e), obj1)
        | ok _ ↦ elim (api.to_unstructured obj1) [
          | err e ↦ (err (wrap "unable to convert object to unstructured" e), obj1)
          | ok u ↦
              (wrap_result "failed to ensure GroupVersionKind" (ensure_unstructured_gvk u), obj1)
        ]
      ]

  -- The test of `FromUnstructured`, with the text of its error: both kinds are known and they differ.
  unfoldable pub mismatch : Result Gvk → Result Gvk → Option String
  mismatch (ok a) (ok b) =
      if gvk_eq a b
      then none
      else some (
          concat "incompatible types: cannot convert "
            (concat (api.gvk_string a) (concat " to " (api.gvk_string b))))
  mismatch (ok a) (err e) = none
  mismatch (err e) r = none

  -- `FromUnstructured`
  unfoldable pub from_unstructured : U → Exec Object (Unit {0})
  unfolding mismatch get_gvk_for_object get_gvk_for_unstructured
  from_unstructured u into =
      elim (mismatch (get_gvk_for_unstructured u) (get_gvk_for_object into)) [
        | some text ↦ (err (plain text), into)
        | none ↦
            let (r, into1) = api.from_unstructured u into in
            (wrap_result "unable to convert unstructured object" r, into1)
      ]
