-- ===== src/Builder/Controller/State.antt =====
-- builder.go: the builder's state, and what its declarations do to it.
use k8s_controller_lib.Prelude.{
  String, Bool, true, false, Option, none, some, List, [], ◌∷◌, ◌++◌, map, if◌then◌else◌,
}
use k8s_controller_lib.Util.{Setting, apply_options}
use k8s_controller_lib.Runtime.Errors.{GoError, plain}
use k8s_controller_lib.Runtime.Exec.{Result, ok, err}
use k8s_controller_lib.Runtime.Objects.{Gvk, Object}
use k8s_controller_lib.Builder.Events.Convert.{
  AnyObject, unstructured, partial_metadata, typed, NewObject,
}
use k8s_controller_lib.Builder.Events.Wrap.{Predicate, EventHandler}
use k8s_controller_lib.Builder.Events.Mapper.{PredicateFactory}
use k8s_controller_lib.Builder.Options.{ControllerOptions, no_controller_options, WatchOptions}

-- `watchRegistration`
pub record WatchRegistration (U S : Type 0) : Type 0 where
  pub obj : AnyObject U
  pub handler : Option (EventHandler U S)
  pub predicates : List (Predicate U S)
  pub as_partial : Bool

-- `Builder`; the controller is there or it is nil.
pub record Builder (U S K L R : Type 0) : Type 0 where
  pub ctrl : Bool
  pub scheme_new : NewObject
  pub cache : K
  pub client : L
  pub errors : List GoError
  pub for_set : Bool
  pub name : String
  pub options : ControllerOptions K L R
  pub watches : List (WatchRegistration U S)

-- What the builder takes of a manager.
pub record Manager (K L : Type 0) : Type 0 where
  pub scheme_new : NewObject
  pub cache : K
  pub client : L

-- What the declarations use of outside: objects that have nothing but a kind, and the handlers of
-- controller-runtime. `owner_handler` is `none` where the type parameter has no instance that is a
-- `client.Object`.
pub record DeclareApi (U S : Type 0) : Type 0 where
  pub unstructured_of : Gvk → U
  pub partial_of : Gvk → Object
  pub enqueue_for_object : EventHandler U S
  pub owner_handler : Option (EventHandler U S)

-- `if o == nil { o = default }`
abbrev pub or_default {ℓ} : {A : Type ℓ} → Option A → A → A
or_default none a = a
or_default (some b) a = b

module _ {U S : Type 0} (outside : DeclareApi U S) where
  -- The object of a watch for a kind
  unfoldable pub watch_object_of : Gvk → Bool → AnyObject U
  watch_object_of gvk partial =
      if partial
      then partial_metadata (outside.partial_of gvk)
      else unstructured (outside.unstructured_of gvk)

  -- The handler of the options, or else the default one
  abbrev pub handler_or_default : Option (EventHandler U S) → Option (EventHandler U S)
  handler_or_default none = outside.owner_handler
  handler_or_default (some h) = some h

module _ {U S K L R : Type 0} where
  -- `NewControllerBuilder`; the manager may be nil.
  unfoldable pub new_controller_builder :
      Option (Manager K L) → List (Setting (ControllerOptions K L R)) → Result (Builder U S K L R)
  unfolding apply_options
  new_controller_builder none opts = err (plain "manager is required")
  new_controller_builder (some mgr) opts =
      let ctrl_opts = apply_options opts no_controller_options in
      ok (record {
        ctrl = false;
        scheme_new = mgr.scheme_new;
        cache = or_default ctrl_opts.cache mgr.cache;
        client = or_default ctrl_opts.client mgr.client;
        errors = [];
        for_set = false;
        name = ctrl_opts.name;
        options = ctrl_opts;
        watches = [];
      })

  -- `b.errors = append(b.errors, …)`, and `b.watches = append(b.watches, …)`
  abbrev pub add_error : GoError → Builder U S K L R → Builder U S K L R
  add_error e b = record b { errors = b.errors ++ e ∷ [] }

  abbrev pub add_watch : WatchRegistration U S → Builder U S K L R → Builder U S K L R
  add_watch w b = record b { watches = b.watches ++ w ∷ [] }

  -- `resolvePredicates`
  unfoldable pub resolve_predicates : Builder U S K L R → WatchOptions U S → List (Predicate U S)
  resolve_predicates b o =
      o.predicates
      ++ map (λ (factory : PredicateFactory U S). factory b.scheme_new b.name)
          o.typed_predicate_factories

  -- `registerWatch`: partial metadata is refused for a typed object.
  unfoldable pub register_watch :
      AnyObject U
      → Option (EventHandler U S)
      → List (Predicate U S)
      → Bool
      → Builder U S K L R
      → Builder U S K L R
  register_watch (typed obj) h predicates true b =
      add_error
        (plain
          "AsPartial() cannot be used with typed object: partial metadata conversion to typed objects results in incomplete data. Use *unstructured.Unstructured or *metav1.PartialObjectMetadata instead")
        b
  register_watch (typed obj) h predicates false b =
      add_watch
        (record { obj = typed obj; handler = h; predicates = predicates; as_partial = false }) b
  register_watch (unstructured u) h predicates partial b =
      add_watch
        (record {
          obj = unstructured u;
          handler = h;
          predicates = predicates;
          as_partial = partial;
        })
        b
  register_watch (partial_metadata p) h predicates partial b =
      add_watch
        (record {
          obj = partial_metadata p;
          handler = h;
          predicates = predicates;
          as_partial = partial;
        })
        b

  -- `registerWatchGVK`
  unfoldable pub register_watch_gvk :
      AnyObject U
      → Option (EventHandler U S)
      → List (Predicate U S)
      → Builder U S K L R
      → Builder U S K L R
  register_watch_gvk obj h predicates b =
      add_watch (record { obj = obj; handler = h; predicates = predicates; as_partial = false }) b
