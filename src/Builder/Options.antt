-- ===== src/Builder/Options.antt =====
-- pkg/builder/builder_opts.go. `K`, `L` and `R` are the types of caches, clients and rate limiters.
use k8s_controller_lib.Prelude.{
  String, Bool, true, false, Option, none, some, List, [], ◌∷◌, ◌++◌, if◌then◌else◌, ◌==◌,
}
use k8s_controller_lib.Prelude.Int.{ℤ, pos, ltb_ℤ}
use k8s_controller_lib.Util.{Setting}
use k8s_controller_lib.Runtime.Objects.{Object, NamespacedName}
use k8s_controller_lib.Runtime.Api.{ClusterApi}
use k8s_controller_lib.Watch.Config.{or_keep}
use k8s_controller_lib.Builder.Events.Convert.{AnyObject}
use k8s_controller_lib.Builder.Events.Wrap.{Predicate, EventHandler}
use k8s_controller_lib.Builder.Events.Mapper.{
  ObjectType, PredicateFactory, Mapper, MapperFactory, create_typed_predicate,
  create_typed_mapper_handler,
}

pub record ControllerOptions (K L R : Type 0) : Type 0 where
  pub name : String
  pub cache : Option K
  pub client : Option L
  pub max_concurrent_reconciles : ℤ
  pub rate_limiter : Option R

module _ {K L R : Type 0} where
  -- `&ControllerOptions{}`
  abbrev pub no_controller_options : ControllerOptions K L R
  no_controller_options = record {
    name = "";
    cache = none;
    client = none;
    max_concurrent_reconciles = pos 0;
    rate_limiter = none;
  }

  -- `ApplyTo` of `ControllerOptions`
  unfoldable pub apply_controller_options :
      ControllerOptions K L R → ControllerOptions K L R → ControllerOptions K L R
  apply_controller_options o target = record {
    name = if o.name == "" then target.name else o.name;
    cache = or_keep o.cache target.cache;
    client = or_keep o.client target.client;
    max_concurrent_reconciles =
        if ltb_ℤ (pos 0) o.max_concurrent_reconciles
        then o.max_concurrent_reconciles
        else target.max_concurrent_reconciles;
    rate_limiter = or_keep o.rate_limiter target.rate_limiter;
  }

  abbrev pub with_name : String → Setting (ControllerOptions K L R)
  with_name name = record { apply_to = λ opts. record opts { name = name } }

  abbrev pub with_cache : Option K → Setting (ControllerOptions K L R)
  with_cache c = record { apply_to = λ opts. record opts { cache = c } }

  abbrev pub with_client : Option L → Setting (ControllerOptions K L R)
  with_client c = record { apply_to = λ opts. record opts { client = c } }

  abbrev pub with_max_concurrent_reconciles : ℤ → Setting (ControllerOptions K L R)
  with_max_concurrent_reconciles n = record {
    apply_to = λ opts. record opts { max_concurrent_reconciles = n };
  }

  abbrev pub with_rate_limiter : Option R → Setting (ControllerOptions K L R)
  with_rate_limiter limiter = record { apply_to = λ opts. record opts { rate_limiter = limiter } }

-- `WatchStrategy`
pub data WatchStrategy : Type 0 where
  watch_full watch_partial : WatchStrategy

-- `WatchOptions`; a nil handler or an unset mapper is `none`.
pub record WatchOptions (U S : Type 0) : Type 0 where
  pub handler : Option (EventHandler U S)
  pub mapper_factory : Option (MapperFactory U S)
  pub predicates : List (Predicate U S)
  pub typed_predicate_factories : List (PredicateFactory U S)
  pub strategy : WatchStrategy

abbrev pub or_partial : WatchStrategy → WatchStrategy → WatchStrategy
or_partial watch_full target = target
or_partial watch_partial target = watch_partial

abbrev pub is_watch_partial : WatchStrategy → Bool
is_watch_partial watch_full = false
is_watch_partial watch_partial = true

-- `a != nil`
abbrev pub is_set : {A : Type 0} → Option A → Bool
is_set none = false
is_set (some a) = true

module _ {U S : Type 0} where
  -- `&WatchOptions{}`
  abbrev pub no_watch_options : WatchOptions U S
  no_watch_options = record {
    handler = none;
    mapper_factory = none;
    predicates = [];
    typed_predicate_factories = [];
    strategy = watch_full;
  }

  -- `hasMapper` and `isPartial`
  abbrev pub has_mapper : WatchOptions U S → Bool
  has_mapper o = is_set o.mapper_factory

  abbrev pub is_partial : WatchOptions U S → Bool
  is_partial o = is_watch_partial o.strategy

  -- `ApplyTo` of `WatchOptions`
  unfoldable pub apply_watch_options : WatchOptions U S → WatchOptions U S → WatchOptions U S
  apply_watch_options o target = record {
    handler = or_keep o.handler target.handler;
    mapper_factory = or_keep o.mapper_factory target.mapper_factory;
    predicates = target.predicates ++ o.predicates;
    typed_predicate_factories = target.typed_predicate_factories ++ o.typed_predicate_factories;
    strategy = or_partial o.strategy target.strategy;
  }

  abbrev pub with_handler : Option (EventHandler U S) → Setting (WatchOptions U S)
  with_handler h = record { apply_to = λ opts. record opts { handler = h } }

  abbrev pub with_predicates : List (Predicate U S) → Setting (WatchOptions U S)
  with_predicates predicates = record {
    apply_to = λ opts. record opts { predicates = opts.predicates ++ predicates };
  }

  abbrev pub with_strategy : WatchStrategy → Setting (WatchOptions U S)
  with_strategy strategy = record { apply_to = λ opts. record opts { strategy = strategy } }

  abbrev pub as_partial : Setting (WatchOptions U S)
  as_partial = with_strategy watch_partial

module _ {W U S : Type 0} (api : ClusterApi W U) (go_type : Object → String) where
  -- `WithMapper[O]` and `TypedPredicate[O]`
  unfoldable pub with_mapper :
      (NamespacedName → S → S) → ObjectType → Mapper U S → Setting (WatchOptions U S)
  unfolding create_typed_mapper_handler
  with_mapper add type mapper = record {
    apply_to = λ opts. record opts {
      mapper_factory = some (create_typed_mapper_handler api go_type add type mapper);
    };
  }

  unfoldable pub typed_predicate :
      ObjectType → (AnyObject U → S → Bool × S) → Setting (WatchOptions U S)
  unfolding create_typed_predicate
  typed_predicate type filter = record {
    apply_to = λ opts. record opts {
      typed_predicate_factories =
          opts.typed_predicate_factories ++ create_typed_predicate api go_type type filter ∷ [];
    };
  }
