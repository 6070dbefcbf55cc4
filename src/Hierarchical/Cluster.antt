-- ===== src/Hierarchical/Cluster.antt =====
-- pkg/hierarchical/cluster.go and controller.go: child clusters. Options is cluster_opts.go.
pub mod Options
pub mod Made
mod Tests
use k8s_controller_lib.Prelude.{
  String, Bool, true, false, ◌||◌, Option, none, some, List, [], ◌∷◌, ◌++◌, map, if◌then◌else◌,
}
use k8s_controller_lib.Runtime.Errors.{GoError, plain, wrap}
use k8s_controller_lib.Runtime.Exec.{Result, ok, err, Exec}
use k8s_controller_lib.Runtime.Objects.{Gvk}
use k8s_controller_lib.Util.{Setting, apply_options}
use k8s_controller_lib.Util.Text.{Text, trim_space, is_empty}
use k8s_controller_lib.Watch.Config.{or_keep}
use k8s_controller_lib.Hierarchical.Cache.{Schemes, derive_local_gvks}
use k8s_controller_lib.Hierarchical.Lifecycle.{Lifecycle, LifecycleGroup, new_lifecycle, is_stopped}
use k8s_controller_lib.Hierarchical.Cluster.Options.{ClusterOptions, entries_of, validate}

-- `ErrClusterStopped`
abbrev pub cluster_stopped : GoError
cluster_stopped = plain "hierarchical cluster is stopped"

-- What a child takes of its parent manager; its HTTP client, REST mapper and cache go with the manager.
pub record ParentManager (S G F : Type 0) : Type 0 where
  pub scheme : Option S
  pub logger : Option G
  pub config : Option F

-- What `newCoreCluster` gives to `cluster.New`: the options, the local cache's among them, and what the
-- hierarchical cache is made of. No namespaces is a nil map.
pub record CoreOptions (S G O B F : Type 0) : Type 0 where
  pub parent : ParentManager S G F
  pub config : F
  pub scheme : S
  pub parent_scheme : S
  pub logger : Option G
  pub by_object : List (Option O × B)
  pub default_namespaces : Option (List Text)
  pub local_gvks : List Gvk

-- What `NewCluster` uses of outside. `named` gives the child's logger, and `new_cluster` is `cluster.New`
-- with the functions that it is given.
pub record ChildApi (W S G O B F C : Type 0) : Type 0 where
  pub schemes_of : S → S → Schemes O
  pub known_types : S → List (Gvk × String)
  pub named : Option G → Text → Option G
  pub new_cluster : CoreOptions S G O B F → Exec W C

-- `hierarchicalCluster`
pub record Cluster (S G F C : Type 0) : Type 0 where
  pub core : C
  pub parent : ParentManager S G F
  pub lifecycle : Lifecycle
  pub logger : Option G

-- `namespaceConfigs`
abbrev pub namespace_configs : List Text → Option (List Text)
namespace_configs [] = none
namespace_configs (n ∷ ns) = some (n ∷ ns)

abbrev pub object_of : {O B : Type 0} → Option O × B → Option O
object_of (obj, b) = obj

module _ {W S G O B F C : Type 0} (api : ChildApi W S G O B F C) where
  -- The end of `NewCluster`, by the answer of `newCoreCluster`
  unfoldable pub made : ParentManager S G F → Option G → Result C × W → Result (Cluster S G F C) × W
  made parent logger (err e, w) =
      (err (wrap "create child cluster" (wrap "initialize controller-runtime cluster" e)), w)
  made parent logger (ok core, w) =
      (ok (record { core = core; parent = parent; lifecycle = new_lifecycle; logger = logger }), w)

  -- `newCoreCluster`
  unfoldable pub core_options :
      ParentManager S G F
      → F
      → S
      → S
      → ClusterOptions S G O B
      → Option G
      → List Gvk
      → CoreOptions S G O B F
  core_options parent config scheme parent_scheme options logger local_gvks = record {
    parent = parent;
    config = config;
    scheme = scheme;
    parent_scheme = parent_scheme;
    logger = logger;
    by_object = entries_of options.by_object;
    default_namespaces = namespace_configs options.namespaces;
    local_gvks = local_gvks;
  }

  unfoldable pub with_kinds :
      ParentManager S G F
      → F
      → S
      → S
      → ClusterOptions S G O B
      → W
      → Result (List Gvk)
      → Result (Cluster S G F C) × W
  unfolding made core_options
  with_kinds parent config scheme parent_scheme options w (err e) =
      (err (wrap "derive local cache routing" e), w)
  with_kinds parent config scheme parent_scheme options w (ok local_gvks) =
      let logger = api.named (or_keep options.logger parent.logger) options.name in
      made parent logger (
        api.new_cluster (core_options parent config scheme parent_scheme options logger local_gvks)
          w)

  -- `deriveLocalGVKs` with the types of the two schemes
  unfoldable pub kinds_of : S → S → ClusterOptions S G O B → Result (List Gvk)
  unfolding derive_local_gvks
  kinds_of scheme parent_scheme options =
      derive_local_gvks (api.schemes_of scheme parent_scheme) (api.known_types scheme)
        (api.known_types parent_scheme) (map object_of (entries_of options.by_object))

  -- From `Validate` on; options that are valid have a scheme.
  unfoldable pub validated :
      ParentManager S G F
      → F
      → S
      → ClusterOptions S G O B
      → W
      → Option GoError
      → Option S
      → Result (Cluster S G F C) × W
  unfolding with_kinds kinds_of
  validated parent config parent_scheme options w (some e) scheme = (err e, w)
  validated parent config parent_scheme options w none none =
      (err (plain "child cluster scheme is required"), w)
  validated parent config parent_scheme options w none (some scheme) =
      with_kinds parent config scheme parent_scheme options w
        (kinds_of scheme parent_scheme options)

  -- From the tests of the parent's scheme and configuration on
  unfoldable pub configured :
      ParentManager S G F
      → ClusterOptions S G O B
      → W
      → Option S
      → Option F
      → Result (Cluster S G F C) × W
  unfolding validated validate
  configured parent options w none config = (err (plain "parent manager scheme is required"), w)
  configured parent options w (some parent_scheme) none =
      (err (plain "parent manager REST config is required"), w)
  configured parent options w (some parent_scheme) (some config) =
      validated parent config parent_scheme options w (validate (some options)) options.scheme

  -- The options that `NewCluster` starts from
  abbrev pub initial_options : ParentManager S G F → ClusterOptions S G O B
  initial_options parent = record {
    name = [];
    scheme = parent.scheme;
    logger = parent.logger;
    by_object = none;
    namespaces = [];
  }

  -- `NewCluster`
  unfoldable pub new_cluster :
      Option (ParentManager S G F)
      → List (Setting (ClusterOptions S G O B))
      → Exec W (Cluster S G F C)
  unfolding configured apply_options
  new_cluster none opts w = (err (plain "parent manager is required"), w)
  new_cluster (some parent) opts w =
      configured parent (apply_options opts (initial_options parent)) w parent.scheme parent.config

-- `registerRunnable`, which `Add` of `scopedManager` calls; `add` is the parent's `Add` of the wrapped
-- runnable.
unfoldable pub added : {W : Type 0} → Result (Unit {0}) × W → Result (Unit {0}) × W
added (ok x, w) = (ok tt, w)
added (err e, w) = (err (wrap "register child runnable" e), w)

unfoldable pub register_runnable : {W : Type 0} → Exec W (Unit {0}) → Lifecycle → Exec W (Unit {0})
unfolding added is_stopped
register_runnable add l w = if is_stopped l then (err cluster_stopped, w) else added (add w)
