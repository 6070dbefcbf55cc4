-- ===== src/Resources/Apply/Sends.antt =====
-- apply.go: what the two functions send to the server.
use k8s_controller_lib.Prelude.{String, ◌≡◌, refl, ◌∙◌, ◌⊎◌, inl, inr, true, false, Bool-cases}
use k8s_controller_lib.Runtime.Errors.{GoError, wrap}
use k8s_controller_lib.Runtime.Exec.{Result, ok, err}
use k8s_controller_lib.Runtime.Objects.{Object}
use k8s_controller_lib.Runtime.Api.{ClusterApi, RemovesFields}
use k8s_controller_lib.Resources.Util.{to_unstructured}
use k8s_controller_lib.Resources.Apply.{
  managed_fields, resource_version, status, strip_for_status, strip_for_apply, write_back,
  finish_apply, finish_apply_status, send_apply, send_apply_status, apply, apply_status,
}

module _ {W U : Type 0} (api : ClusterApi W U) where
  -- The call failed before it reached the server.
  abbrev pub NotSent : W → Result (Unit {0}) × (Object × W) → Type 0
  NotSent w (r, (obj, w1)) = ((e : GoError) × (r ≡ err e)) × (w1 ≡ w)

  -- The content that a server-side apply of the object must not hold.
  abbrev pub IsStripped : U → Type 0
  IsStripped sent =
      (api.has_nested_field sent managed_fields ≡ false)
      × (api.has_nested_field sent resource_version ≡ false)

  -- The server got `sent`; the call succeeded only if the server accepted it.
  abbrev pub Sent : Result (Unit {0}) × (U × W) → Result (Unit {0}) × (Object × W) → Type 0
  Sent (answer, (u, w1)) (r, (obj, w2)) =
      (w2 ≡ w1) × (((e : GoError) × (r ≡ err e)) ⊎ (answer ≡ ok tt))

  write_back_world : (u : U) (obj : Object) (w : W) → (write_back api u (obj, w)).1.1 ≡ w
  unfolding write_back
  write_back_world u obj w = refl

  finish_apply-Sent :
      (r : Result (Unit {0})) (u : U) (obj : Object) (w : W)
      → Sent (r, (u, w)) (finish_apply api r u (obj, w))
  unfolding finish_apply
  finish_apply-Sent (ok x) u obj w = (write_back_world u obj w, inr refl)
  finish_apply-Sent (err e) u obj w = (refl, inl (_, refl))

  module _ (fields : RemovesFields api) where
    strip_for_status-IsStripped : (u : U) → IsStripped (strip_for_status api u)
    unfolding strip_for_status
    strip_for_status-IsStripped u = (
      fields.has-remove_sibling _ resource_version managed_fields
          (fields.has-remove_self u managed_fields),
      fields.has-remove_self _ resource_version,
    )

    strip_for_status_keeps :
        (u : U)
        → api.has_nested_field (strip_for_status api u) status ≡ api.has_nested_field u status
    unfolding strip_for_status
    strip_for_status_keeps u =
        fields.has-remove_metadata _ "resourceVersion"
        ∙ fields.has-remove_metadata u "managedFields"

    strip_for_apply-IsStripped :
        (u : U)
        → IsStripped (strip_for_apply api u)
          × (api.has_nested_field (strip_for_apply api u) status ≡ false)
    unfolding strip_for_apply
    strip_for_apply-IsStripped u =
        let (m, v) = strip_for_status-IsStripped u in
        (
          (
            fields.has-remove_sibling _ status managed_fields m,
            fields.has-remove_sibling _ status resource_version v,
          ),
          fields.has-remove_self _ status,
        )

    send_apply-Sent :
        (field_owner : String) (r : Result U) (obj : Object) (w : W)
        → NotSent w (send_apply api field_owner r (obj, w))
          ⊎ ((sent : U) × (IsStripped sent × (api.has_nested_field sent status ≡ false))
              × Sent (api.apply field_owner (sent, w)) (send_apply api field_owner r (obj, w)))
    unfolding send_apply
    send_apply-Sent field_owner (err e) obj w = inl ((_, refl), refl)
    send_apply-Sent field_owner (ok u) obj w =
        let sent : U = strip_for_apply api u in
        let (r, (u1, w1)) = api.apply field_owner (sent, w) in
        inr (sent, strip_for_apply-IsStripped u, finish_apply-Sent r u1 obj w1)

    -- `Apply` fails without reaching the server, or it sends one apply request, which holds neither
    -- managed fields nor a resource version nor a status, and it succeeds only if the server accepts.
    pub apply-Sent :
        (field_owner : String) (obj : Object) (w : W)
        → NotSent w (apply api field_owner (obj, w))
          ⊎ ((sent : U) × (IsStripped sent × (api.has_nested_field sent status ≡ false))
              × Sent (api.apply field_owner (sent, w)) (apply api field_owner (obj, w)))
    unfolding apply
    apply-Sent field_owner obj w =
        let (r, obj1) = to_unstructured api obj in send_apply-Sent field_owner r obj1 w

    -- The status call: an object that the server does not have counts as success.
    abbrev pub StatusSent : Result (Unit {0}) × (U × W) → Result (Unit {0}) × (Object × W) → Type 0
    StatusSent (answer, (u, w1)) (r, (obj, w2)) =
        (w2 ≡ w1)
        × ((answer ≡ ok tt)
            ⊎ ((e : GoError) × (answer ≡ err e)
                × (((api.is_not_found e ≡ true) × (r ≡ ok tt))
                    ⊎ ((api.is_not_found e ≡ false) × (text : String) × (r ≡ err (wrap text e))))))

    finish_apply_status-StatusSent :
        (r : Result (Unit {0})) (u : U) (obj : Object) (w : W)
        → StatusSent (r, (u, w)) (finish_apply_status api r u (obj, w))
    unfolding finish_apply_status
    finish_apply_status-StatusSent (ok x) u obj w = (write_back_world u obj w, inl refl)
    finish_apply_status-StatusSent (err e) u obj w = elim (Bool-cases (api.is_not_found e)) [
      | inl gone ↦ rw gone (refl, inr (e, refl, inl (gone, refl)))
      | inr other ↦ rw other (refl, inr (e, refl, inr (other, _, refl)))
    ]

    send_apply_status-StatusSent :
        (field_owner : String) (r : Result U) (obj : Object) (w : W)
        → NotSent w (send_apply_status api field_owner r (obj, w))
          ⊎ ((u sent : U) × (r ≡ ok u)
              × IsStripped sent
              × (api.has_nested_field sent status ≡ api.has_nested_field u status)
              × StatusSent
                  (api.apply_status field_owner (sent, w))
                  (send_apply_status api field_owner r (obj, w)))
    unfolding send_apply_status
    send_apply_status-StatusSent field_owner (err e) obj w = inl ((_, refl), refl)
    send_apply_status-StatusSent field_owner (ok u) obj w =
        let sent : U = strip_for_status api u in
        let (r, (u1, w1)) = api.apply_status field_owner (sent, w) in
        inr (
          u,
          sent,
          refl,
          strip_for_status-IsStripped u,
          strip_for_status_keeps u,
          finish_apply_status-StatusSent r u1 obj w1,
        )

    -- `ApplyStatus` fails without reaching the server, or it sends one request for the status, which
    -- holds neither managed fields nor a resource version, and a status just if the converted object
    -- has one. If the server refuses, the call succeeds just if the object is not found.
    pub apply_status-StatusSent :
        (field_owner : String) (obj : Object) (w : W)
        → NotSent w (apply_status api field_owner (obj, w))
          ⊎ ((u sent : U) × ((to_unstructured api obj).0 ≡ ok u)
              × IsStripped sent
              × (api.has_nested_field sent status ≡ api.has_nested_field u status)
              × StatusSent
                  (api.apply_status field_owner (sent, w))
                  (apply_status api field_owner (obj, w)))
    unfolding apply_status
    apply_status-StatusSent field_owner obj w =
        let (r, obj1) = to_unstructured api obj in send_apply_status-StatusSent field_owner r obj1 w
