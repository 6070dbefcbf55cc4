-- ===== src/Watch/Config.antt =====
-- pkg/reconciler/watch/watch_opts.go: the configuration of a watch. `P` is the type of predicates, `H`
-- that of event handlers, which are called by controller-runtime alone.
use k8s_controller_lib.Prelude.{
  Bool, true, false, Option, none, some, List, [], ◌∷◌, ◌++◌, if◌then◌else◌,
}
use k8s_controller_lib.Util.{Setting, apply_options}
use k8s_controller_lib.Runtime.Objects.{Gvk}

-- `a != nil`, the second where it is there
abbrev pub or_keep {ℓ} : {A : Type ℓ} → Option A → Option A → Option A
or_keep none old = old
or_keep (some a) old = some a

module _ (P H : Type 0) where
  -- `Config`; a nil handler stands for the default one.
  pub record Config : Type 0 where
    pub gvk : Gvk
    pub predicates : List P
    pub handler : Option H
    pub disabled : Bool
    pub partial : Bool

  -- `ConfigOptions`
  pub record ConfigOptions : Type 0 where
    pub predicates : List P
    pub handler : Option H
    pub disabled : Bool
    pub partial : Bool

  -- `Options` of a watcher; a dependency is there or it is nil.
  pub record Options : Type 0 where
    pub configs : List Config
    pub client : Bool
    pub cache : Bool
    pub controller : Bool

module _ {P H : Type 0} where
  -- `ConfigOptions.ApplyTo`, and `Config.ApplyTo`
  unfoldable pub apply_config_options : ConfigOptions P H → Config P H → Config P H
  apply_config_options o cfg = record cfg {
    predicates = cfg.predicates ++ o.predicates;
    handler = or_keep o.handler cfg.handler;
    disabled = if o.disabled then true else cfg.disabled;
    partial = if o.partial then true else cfg.partial;
  }

  unfoldable pub apply_config : Config P H → Config P H → Config P H
  apply_config c target = record target {
    predicates = target.predicates ++ c.predicates;
    handler = or_keep c.handler target.handler;
    disabled = if c.disabled then true else target.disabled;
    partial = if c.partial then true else target.partial;
  }

  -- `WithPredicates`, `WithHandler`, `Disabled` and `Partial`
  abbrev pub with_predicates : List P → Setting (Config P H)
  with_predicates predicates = record {
    apply_to = λ cfg. record cfg { predicates = cfg.predicates ++ predicates };
  }

  abbrev pub with_handler : Option H → Setting (Config P H)
  with_handler h = record { apply_to = λ cfg. record cfg { handler = h } }

  abbrev pub disabled : Setting (Config P H)
  disabled = record { apply_to = λ cfg. record cfg { disabled = true } }

  abbrev pub partial : Setting (Config P H)
  partial = record { apply_to = λ cfg. record cfg { partial = true } }

  -- `Config{GVK: gvk}`
  abbrev pub bare_config : Gvk → Config P H
  bare_config gvk = record {
    gvk = gvk;
    predicates = [];
    handler = none;
    disabled = false;
    partial = false;
  }

  -- `NewConfig`
  unfoldable pub new_config : Gvk → Setting (Config P H) → List (Setting (Config P H)) → Config P H
  unfolding apply_options
  new_config gvk opt opts = apply_options opts (opt.apply_to (bare_config gvk))

  -- `For`, which appends such a config to the list of `ForOptions`
  unfoldable pub for_gvk :
      Gvk
      → Setting (Config P H)
      → List (Setting (Config P H))
      → List (Config P H)
      → List (Config P H)
  unfolding new_config
  for_gvk gvk opt opts configs = configs ++ new_config gvk opt opts ∷ []

  -- `Options.ApplyTo`
  unfoldable pub apply_watcher_options : Options P H → Options P H → Options P H
  apply_watcher_options o opts = record {
    configs = opts.configs ++ o.configs;
    client = if o.client then true else opts.client;
    cache = if o.cache then true else opts.cache;
    controller = if o.controller then true else opts.controller;
  }

  -- `WithConfigs`, `WithClient`, `WithController` and `WithCache`
  abbrev pub with_configs : List (Config P H) → Setting (Options P H)
  with_configs configs = record {
    apply_to = λ opts. record opts { configs = opts.configs ++ configs };
  }

  abbrev pub with_client : Bool → Setting (Options P H)
  with_client c = record { apply_to = λ opts. record opts { client = c } }

  abbrev pub with_controller : Bool → Setting (Options P H)
  with_controller ctrl = record { apply_to = λ opts. record opts { controller = ctrl } }

  abbrev pub with_cache : Bool → Setting (Options P H)
  with_cache c = record { apply_to = λ opts. record opts { cache = c } }
