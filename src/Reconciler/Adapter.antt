-- ===== src/Reconciler/Adapter.antt =====
-- pkg/reconciler/adapter.go
use k8s_controller_lib.Prelude.{
  zero, suc, String, ◌≡◌, refl, Bool, true, false, Option, none, some, arith, if◌then◌else◌,
}
use k8s_controller_lib.Prelude.Int.{ℤ, pos, negsuc, ltb_ℤ}
use k8s_controller_lib.Runtime.Errors.{GoError, wrap}
use k8s_controller_lib.Runtime.Exec.{Result, ok, err}
use k8s_controller_lib.Runtime.Objects.{ManagedObject, NamespacedName}
use k8s_controller_lib.Reconciler.Types.{
  Context, Response, new_response, with_controller_name, requeue, should_requeue,
}

-- `reconcile.Result`
pub record ReconcileResult : Type 0 where
  pub requeue : Bool
  pub requeue_after : ℤ

abbrev pub empty_result : ReconcileResult
empty_result = record { requeue = false; requeue_after = pos 0 }

-- `ResultFromResponse`
unfoldable pub result_from_response : Response → ReconcileResult
unfolding should_requeue
result_from_response resp =
    if ltb_ℤ (pos 0) (should_requeue resp)
    then record { requeue = false; requeue_after = should_requeue resp }
    else empty_result

-- `1 * time.Second`
abbrev pub second : ℤ
second = pos 1000000000

-- `ResponseFromResult`
unfoldable pub response_from_result : ReconcileResult → Response
unfolding requeue
response_from_result result =
    if ltb_ℤ (pos 0) result.requeue_after
    then requeue new_response result.requeue_after
    else if result.requeue
    then requeue new_response second
    else new_response

-- What a reconcile call leaves: it returns a result and an error, or it panics.
pub data Outcome (A : Type 0) : Type 0 where
  returned : A → Option GoError → Outcome A
  panicked : Outcome A

-- The cluster and the object that the request points at.
pub record Target (W : Type 0) : Type 0 where
  pub world : W
  pub object : ManagedObject

-- `TypedReconciler[T]`; the response may be nil.
abbrev pub TypedReconciler : Type 0 → Type 0
TypedReconciler W = Context → Target W → (Option Response × Option GoError) × Target W

-- The end of `Reconcile`: what the reconciler returned becomes a result. `ShouldRequeue` of a nil
-- response is a nil dereference.
unfoldable pub convert_response : Option Response → Option GoError → Outcome ReconcileResult
unfolding result_from_response
convert_response resp (some e) = returned empty_result (some (wrap "reconciler failed" e))
convert_response none none = panicked
convert_response (some resp) none = returned (result_from_response resp) none

-- `Reconcile` of `typedReconcilerAdapter`, after `AsReconciler`; `get` is the client's `Get` into a
-- fresh object of the type.
unfoldable pub reconcile :
    {W : Type 0} (get : NamespacedName → W → Result ManagedObject × W) (controller_name : String)
    (typed : TypedReconciler W)
    → Context
    → NamespacedName
    → W
    → Outcome ReconcileResult × W
unfolding convert_response with_controller_name
reconcile get controller_name typed ctx req w =
    let (found, w1) = get req w in
    elim found [
      | err e ↦ (returned empty_result (some (wrap "failed to get object" e)), w1)
      | ok obj ↦
          let ((resp, e), t) =
            typed (with_controller_name ctx controller_name)
              (record { world = w1; object = obj }) in
          (convert_response resp e, t.world)
    ]

-- A duration that is not positive means that nothing is requeued.
abbrev pub non_negative : ℤ → ℤ
non_negative (pos n) = pos n
non_negative (negsuc n) = pos 0

response_round_trip :
    (resp : Response) (d : ℤ)
    → resp.requeue_after ≡ d
    → should_requeue (response_from_result (result_from_response resp)) ≡ non_negative d
unfolding result_from_response response_from_result requeue should_requeue
response_round_trip resp (pos zero) e = rw e
response_round_trip resp (pos (suc n)) e = rw e (ground arith)
response_round_trip resp (negsuc n) e = rw e (ground arith)

abbrev with_flag : ℤ → Bool → ReconcileResult
with_flag d flag = record { requeue = flag; requeue_after = d }

-- The result of a response, as a result: what has only the flag set waits one second.
abbrev pub without_flag : ReconcileResult → ReconcileResult
without_flag result = record {
  requeue = false;
  requeue_after =
      if ltb_ℤ (pos 0) result.requeue_after
      then result.requeue_after
      else if result.requeue
      then second
      else pos 0;
}

result_round_trip :
    (d : ℤ) (flag : Bool)
    → result_from_response (response_from_result (with_flag d flag))
      ≡ without_flag (with_flag d flag)
unfolding result_from_response response_from_result requeue should_requeue
result_round_trip (pos zero) true = refl
result_round_trip (pos zero) false = refl
result_round_trip (pos (suc n)) flag = ground arith
result_round_trip (negsuc n) true = ground arith
result_round_trip (negsuc n) false = ground arith

-- From a response to a result and back the requeue time is kept, but for a negative one, which becomes
-- 0. From a result to a response and back a positive time is kept, and a result that has only the flag
-- comes back with one second in place of the flag.
pub requeue_round_trip :
    (resp : Response) (result : ReconcileResult)
    → (should_requeue (response_from_result (result_from_response resp))
        ≡ non_negative resp.requeue_after)
      × (result_from_response (response_from_result result) ≡ without_flag result)
requeue_round_trip resp result = (
  response_round_trip resp resp.requeue_after refl,
  result_round_trip result.requeue_after result.requeue,
)
