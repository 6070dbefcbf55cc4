-- ===== src/Resources/Apply.antt =====
-- pkg/resources/apply.go: server-side apply of an object and of its status.
pub mod Sends
use k8s_controller_lib.Prelude.{
  String, concat, ◌≡◌, refl, ◌⊎◌, inl, inr, Bool, true, false, Option, none, some, List, [], ◌∷◌,
  arith, if◌then◌else◌,
}
use k8s_controller_lib.Runtime.Errors.{GoError, wrap}
use k8s_controller_lib.Runtime.Exec.{Result, ok, err, Exec, wrap_result}
use k8s_controller_lib.Runtime.Objects.{Object}
use k8s_controller_lib.Runtime.Api.{ClusterApi, RemovesFields}
use k8s_controller_lib.Resources.Util.{
  format_unstructured_reference, to_unstructured, from_unstructured,
}

abbrev pub managed_fields : List String
managed_fields = "metadata" ∷ "managedFields" ∷ []

abbrev pub resource_version : List String
resource_version = "metadata" ∷ "resourceVersion" ∷ []

abbrev pub status : List String
status = "status" ∷ []

module _ {W U : Type 0} (api : ClusterApi W U) where
  -- The copy of the object that `Apply` sends, and the one that `ApplyStatus` sends. `DeepCopy` is the
  -- identity on values.
  unfoldable pub strip_for_status : U → U
  strip_for_status u =
      api.remove_nested_field (api.remove_nested_field u managed_fields) resource_version

  unfoldable pub strip_for_apply : U → U
  unfolding strip_for_status
  strip_for_apply u = api.remove_nested_field (strip_for_status u) status

  -- The end of both functions: the server's answer is written back into the input.
  unfoldable pub write_back : U → Exec (Object × W) (Unit {0})
  write_back u (obj, w) =
      let (r, obj1) = from_unstructured api u obj in
      (wrap_result "failed to write modified object" r, (obj1, w))

  -- What `Apply` does after the call of `cli.Apply`.
  unfoldable pub finish_apply : Result (Unit {0}) → U → Exec (Object × W) (Unit {0})
  unfolding write_back
  finish_apply (err e) u s =
      (err (wrap (concat "unable to apply " (format_unstructured_reference api u)) e), s)
  finish_apply (ok x) u s = write_back u s

  -- What `ApplyStatus` does after the call of `cli.Status().Apply`.
  unfoldable pub finish_apply_status : Result (Unit {0}) → U → Exec (Object × W) (Unit {0})
  unfolding write_back
  finish_apply_status (err e) u s = if api.is_not_found e then (ok tt, s) else (
    err (
        wrap (concat "unable to apply " (concat (format_unstructured_reference api u) " status"))
          e),
    s,
  )
  finish_apply_status (ok x) u s = write_back u s

  -- The call of `cli.Apply` in `Apply`, and what comes after it, once the object is converted.
  unfoldable pub send_apply : String → Result U → Exec (Object × W) (Unit {0})
  unfolding strip_for_apply finish_apply
  send_apply field_owner (err e) s = (err (wrap "failed to convert resource to unstructured" e), s)
  send_apply field_owner (ok u) (obj, w) =
      let (r, (u1, w1)) = api.apply field_owner (strip_for_apply u, w) in
      finish_apply r u1 (obj, w1)

  -- `Apply`, with the field owner of its options
  unfoldable pub apply : String → Exec (Object × W) (Unit {0})
  unfolding send_apply
  apply field_owner (obj, w) =
      let (r, obj1) = to_unstructured api obj in send_apply field_owner r (obj1, w)

  -- The same for `ApplyStatus`.
  unfoldable pub send_apply_status : String → Result U → Exec (Object × W) (Unit {0})
  unfolding strip_for_status finish_apply_status
  send_apply_status field_owner (err e) s =
      (err (wrap "failed to convert resource to unstructured" e), s)
  send_apply_status field_owner (ok u) (obj, w) =
      let (r, (u1, w1)) = api.apply_status field_owner (strip_for_status u, w) in
      finish_apply_status r u1 (obj, w1)

  unfoldable pub apply_status : String → Exec (Object × W) (Unit {0})
  unfolding send_apply_status
  apply_status field_owner (obj, w) =
      let (r, obj1) = to_unstructured api obj in send_apply_status field_owner r (obj1, w)
