-- ===== src/Builder/Controller/Complete.antt =====
-- builder.go: `Complete`, which creates the controller and registers the watches.

pub mod Attempts
pub mod Outcomes
use k8s_controller_lib.Prelude.{
  String, Bool, true, false, not, ◌&&◌, Option, none, some, List, [], ◌∷◌, ◌++◌, if◌then◌else◌,
  ◌==◌,
}
use k8s_controller_lib.Prelude.Int.{ℤ, pos, ltb_ℤ}
use k8s_controller_lib.Runtime.Errors.{GoError, plain, wrap}
use k8s_controller_lib.Runtime.Exec.{Result, ok, err, Exec}
use k8s_controller_lib.Runtime.Objects.{Gvk, Object, ManagedObject, NamespacedName}
use k8s_controller_lib.Runtime.Api.{ClusterApi}
use k8s_controller_lib.Resources.Util.{get_gvk_for_object}
use k8s_controller_lib.Reconciler.Types.{Context}
use k8s_controller_lib.Reconciler.Adapter.{ReconcileResult, Outcome, TypedReconciler, reconcile}
use k8s_controller_lib.Builder.Events.Convert.{
  AnyObject, unstructured, partial_metadata, typed, NewObject,
}
use k8s_controller_lib.Builder.Events.Wrap.{
  Predicate, EventHandler, wrap_predicates, wrap_handler, new_converting_handler,
}
use k8s_controller_lib.Builder.Options.{is_set}
use k8s_controller_lib.Builder.Controller.State.{WatchRegistration, Builder, DeclareApi, add_error}

-- `controller.Options`
pub record ControllerConfig (W R : Type 0) : Type 0 where
  pub reconciler : Context → NamespacedName → W → Outcome ReconcileResult × W
  pub max_concurrent_reconciles : ℤ
  pub rate_limiter : Option R

-- What `source.Kind` is given, next to the cache.
pub record Source (U S K : Type 0) : Type 0 where
  pub cache : K
  pub obj : AnyObject U
  pub handler : Option (EventHandler U S)
  pub predicates : List (Predicate U S)

-- What `Complete` uses of outside: `client.Get` into a new object, `controller.New`, the `Watch` of the
-- controller, the gauge `StaticWatchedResourcesTotal`, `errors.Join`, and the setters of the reconciler
-- where it has them.
pub record CompleteApi (W U S K L R : Type 0) : Type 0 where
  pub get : L → NamespacedName → W → Result ManagedObject × W
  pub new_controller : String → ControllerConfig W R → Exec W (Unit {0})
  pub watch : Source U S K → Exec W (Unit {0})
  pub set_static_watched : String → Gvk → W → W
  pub join : List GoError → GoError
  pub set_controller : Option (W → W)
  pub set_client : Option (L → W → W)
  pub set_cache : Option (K → W → W)

-- `if ca, ok := r.(…); ok { ca.Set…(…) }`
abbrev pub inject : {W : Type 0} → Option (W → W) → W → W
inject none w = w
inject (some f) w = f w

abbrev pub inject_value : {A W : Type 0} → Option (A → W → W) → A → W → W
inject_value none a w = w
inject_value (some f) a w = f a w

module _ {W U : Type 0} (api : ClusterApi W U) where
  -- The kind of any object
  unfoldable pub kind_of : AnyObject U → Gvk
  kind_of (unstructured u) = api.unstructured_gvk u
  kind_of (partial_metadata p) = p.gvk
  kind_of (typed obj) = obj.gvk

  module _ (unstructured_of : Gvk → U) (partial_of : Gvk → Object) where
    -- `processObject` of a typed object, by its kind
    unfoldable pub process_typed : Bool → Result Gvk → Result (AnyObject U × Bool)
    process_typed as_partial (err e) = err (wrap "failed to get GVK for object type" e)
    process_typed as_partial (ok gvk) = ok (
      if as_partial then partial_metadata (partial_of gvk) else unstructured (unstructured_of gvk),
      true,
    )

    -- `processObject`: the object to watch, and whether its events need conversion
    unfoldable pub process_object : AnyObject U → Bool → Result (AnyObject U × Bool)
    unfolding process_typed get_gvk_for_object
    process_object (unstructured u) as_partial =
        ok (unstructured (unstructured_of (api.unstructured_gvk u)), false)
    process_object (partial_metadata p) as_partial = ok (partial_metadata (partial_of p.gvk), false)
    process_object (typed obj) as_partial = process_typed as_partial (get_gvk_for_object api obj)

-- `len(…) > 0`
abbrev pub non_empty {ℓ} : {A : Type ℓ} → List A → Bool
non_empty [] = false
non_empty (x ∷ xs) = true

module _ {W U S K L R : Type 0} (api : ClusterApi W U) (declare : DeclareApi U S)
    (complete_api : CompleteApi W U S K L R) where
  -- The handler and the predicates of a watch: together in one where the events need conversion and both
  -- are there, and else each wrapped by itself.
  unfoldable pub wrap_watch :
      Builder U S K L R
      → WatchRegistration U S
      → AnyObject U
      → Bool
      → Option (EventHandler U S)
      → Source U S K
  unfolding wrap_predicates wrap_handler new_converting_handler
  wrap_watch b w obj needs_conversion none = record {
    cache = b.cache;
    obj = obj;
    handler = none;
    predicates = wrap_predicates api b.scheme_new w.predicates needs_conversion b.name;
  }
  wrap_watch b w obj needs_conversion (some h) =
      if needs_conversion && non_empty w.predicates
      then record {
        cache = b.cache;
        obj = obj;
        handler = some (new_converting_handler api b.scheme_new h w.predicates b.name);
        predicates = [];
      }
      else record {
        cache = b.cache;
        obj = obj;
        handler = some (wrap_handler api b.scheme_new h needs_conversion b.name);
        predicates = wrap_predicates api b.scheme_new w.predicates needs_conversion b.name;
      }

  -- The gauge, for a kind that is not empty
  unfoldable pub count_static : String → Gvk → W → W
  count_static name gvk w = if gvk.kind == "" then w else complete_api.set_static_watched name gvk w

  -- What `Complete` works on: the builder and the world, with the controller in it.
  abbrev pub Building : Type 0
  Building = Builder U S K L R × W

  -- The end of `doRegisterWatch`, by the answer of the controller's `Watch`
  unfoldable pub watched : AnyObject U → Builder U S K L R → Result (Unit {0}) × W → Building
  unfolding count_static kind_of
  watched obj b (err e, w) = (add_error (wrap "failed to watch" e) b, w)
  watched obj b (ok x, w) = (b, count_static b.name (kind_of api obj) w)

  -- `doRegisterWatch`, from the outcome of `processObject` on
  unfoldable pub watch_processed :
      WatchRegistration U S → Result (AnyObject U × Bool) → Building → Building
  unfolding watched wrap_watch
  watch_processed reg (err e) (b, w) = (add_error e b, w)
  watch_processed reg (ok (obj, needs_conversion)) (b, w) =
      watched obj b (complete_api.watch (wrap_watch b reg obj needs_conversion reg.handler) w)

  unfoldable pub do_register_watch : WatchRegistration U S → Building → Building
  unfolding watch_processed process_object
  do_register_watch reg s =
      watch_processed reg
        (process_object api declare.unstructured_of declare.partial_of reg.obj reg.as_partial) s

  unfoldable pub register_all : List (WatchRegistration U S) → Building → Building
  unfolding do_register_watch
  register_all [] s = s
  register_all (reg ∷ regs) s = register_all regs (do_register_watch reg s)

  -- The configuration of the controller
  unfoldable pub configure : TypedReconciler W → Builder U S K L R → ControllerConfig W R
  unfolding reconcile
  configure typed_reconciler b = record {
    reconciler = reconcile (complete_api.get b.client) b.name typed_reconciler;
    max_concurrent_reconciles =
        if ltb_ℤ (pos 0) b.options.max_concurrent_reconciles
        then b.options.max_concurrent_reconciles
        else pos 0;
    rate_limiter = b.options.rate_limiter;
  }

  unfoldable pub inject_dependencies : Builder U S K L R → W → W
  inject_dependencies b w =
      inject_value complete_api.set_cache b.cache
        (inject_value complete_api.set_client b.client (inject complete_api.set_controller w))

  -- The last test of `Complete`
  unfoldable pub report : Building → Result (Unit {0}) × Building
  report (b, w) = (
    if non_empty b.errors
        then err (wrap "failed to register watches" (complete_api.join b.errors))
        else ok tt,
    (b, w),
  )

  -- `Complete`, from the answer of `controller.New` on
  unfoldable pub complete_created :
      Builder U S K L R → Result (Unit {0}) × W → Result (Unit {0}) × Building
  unfolding report register_all inject_dependencies
  complete_created b (err e, w) = (err (wrap "failed to create controller" e), (b, w))
  complete_created b (ok x, w) =
      let b1 : Builder U S K L R = record b { ctrl = true } in
      report (register_all b1.watches (b1, inject_dependencies b1 w))

  -- `Complete`; the number of errors is left out of the text.
  unfoldable pub complete : TypedReconciler W → Exec Building (Unit {0})
  unfolding complete_created configure
  complete typed_reconciler (b, w) =
      if not b.for_set
      then (err (plain "For() must be called before Complete()"), (b, w))
      else if b.name == ""
      then (err (plain "controller name is required: call For() or provide WithName()"), (b, w))
      else if non_empty b.errors
      then (err (wrap "builder has errors" (complete_api.join b.errors)), (b, w))
      else complete_created b (complete_api.new_controller b.name (configure typed_reconciler b) w)

-- `GetWatchedGVKs`
unfoldable pub get_watched_gvks :
    {W U S : Type 0} → ClusterApi W U → List (WatchRegistration U S) → List Gvk
unfolding kind_of
get_watched_gvks api [] = []
get_watched_gvks api (reg ∷ regs) =
    let rest = get_watched_gvks api regs in
    let gvk = kind_of api reg.obj in if gvk.kind == "" then rest else gvk ∷ rest
