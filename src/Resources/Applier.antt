-- ===== src/Resources/Applier.antt =====
-- pkg/resources/applier.go: `CachingApplier`, which skips an apply for a resource version that it knows.
pub mod Skips
use k8s_controller_lib.Prelude.{
  String, concat, ◌≡◌, ◌⊎◌, Bool, true, false, Option, none, some, if◌then◌else◌, ◌==◌,
}
use k8s_controller_lib.Runtime.Errors.{GoError, plain, wrap}
use k8s_controller_lib.Runtime.Exec.{Result, ok, err, Exec, wrap_result}
use k8s_controller_lib.Runtime.Objects.{Object}
use k8s_controller_lib.Runtime.Api.{ClusterApi}
use k8s_controller_lib.Resources.Util.{
  format_object_reference, format_unstructured_reference, from_unstructured,
}

-- `ErrObjectTerminating`
abbrev pub object_terminating : GoError
object_terminating = plain "object is being deleted"

-- What `Apply` of the `CachingApplier` uses beside the client of Runtime.Api: `cli.Get` with the kind and
-- the key of an object, three fields of what it gets, `Apply` of the inner applier, and the methods of
-- `LRUExpireCache`, over its state `K`; a look-up may change the order of the entries.
pub record ApplierApi (W U K : Type 0) : Type 0 where
  pub get_existing : Object → Exec W U
  pub is_terminating : U → Bool
  pub uid : U → String
  pub resource_version : U → String
  pub inner_apply : Exec (Object × W) (Unit {0})
  pub cache_get : String → K → Option String × K
  pub cache_add : String → String → K → K

-- The object, the cluster and the cache.
pub record ApplierState (W K : Type 0) : Type 0 where
  pub object : Object
  pub world : W
  pub cache : K

abbrev pub is_same : Option String → String → Bool
is_same none rv = false
is_same (some cached) rv = cached == rv

module _ {W U K : Type 0} (api : ClusterApi W U) (applier : ApplierApi W U K) where
  -- `isCached`
  unfoldable pub is_cached : String → String → K → Bool × K
  is_cached uid rv cache =
      let (found, cache1) = applier.cache_get uid cache in (is_same found rv, cache1)

  -- `writeBack`
  unfoldable pub write_back_existing : U → Exec (ApplierState W K) (Unit {0})
  write_back_existing existing s =
      let (r, obj) = from_unstructured api existing s.object in
      (wrap_result "failed to write cached object state" r, record s { object = obj })

  -- The end of `Apply`, by the result of the inner applier.
  unfoldable pub remember : Result (Unit {0}) → Exec (ApplierState W K) (Unit {0})
  remember (err e) s =
      (err (wrap (concat "inner apply for " (format_object_reference api s.object)) e), s)
  remember (ok x) s =
      (ok tt, record s { cache = applier.cache_add s.object.uid s.object.resource_version s.cache })

  unfoldable pub delegate : Exec (ApplierState W K) (Unit {0})
  unfolding remember
  delegate s =
      let (r, (obj, w)) = applier.inner_apply (s.object, s.world) in
      remember r (record { object = obj; world = w; cache = s.cache })

  -- The default case of the switch: the object is there.
  unfoldable pub on_existing : U → Exec (ApplierState W K) (Unit {0})
  unfolding is_cached write_back_existing delegate
  on_existing existing s =
      if applier.is_terminating existing
      then (
        err (
            wrap (concat "cannot apply " (format_unstructured_reference api existing))
              object_terminating),
        s,
      )
      else let (known, cache1) =
          is_cached (applier.uid existing) (applier.resource_version existing) s.cache in
        let s1 : ApplierState W K = record s { cache = cache1 } in
        (if known then write_back_existing existing s1 else delegate s1)

  -- The switch of `Apply` on what `cli.Get` answered
  unfoldable pub on_answer : Result U → Exec (ApplierState W K) (Unit {0})
  unfolding on_existing delegate
  on_answer (err e) s = if api.is_not_found e then delegate s else (
    err (wrap (concat "failed to get existing object " (format_object_reference api s.object)) e),
    s,
  )
  on_answer (ok existing) s = on_existing existing s

  -- `Apply` of `CachingApplier`
  unfoldable pub caching_apply : Exec (ApplierState W K) (Unit {0})
  unfolding on_answer
  caching_apply s =
      let (answer, w) = applier.get_existing s.object s.world in
      on_answer answer (record s { world = w })
