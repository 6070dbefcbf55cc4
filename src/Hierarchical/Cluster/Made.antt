-- ===== src/Hierarchical/Cluster/Made.antt =====
-- cluster.go: when a child cluster is made, and what its cache holds itself.
use k8s_controller_lib.Prelude.{◌≡◌, ◌≢◌, ◌⊎◌, ◌↔◌, Option, none, some, List, [], Any, map}
use k8s_controller_lib.Runtime.Errors.{GoError, wrap}
use k8s_controller_lib.Runtime.Exec.{Result, ok, err}
use k8s_controller_lib.Runtime.Objects.{Gvk}
use k8s_controller_lib.Util.Text.{Text}
use k8s_controller_lib.Hierarchical.Cache.{local, cache_for_gvk}
use k8s_controller_lib.Hierarchical.Cache.Routing.{OnlyChild, IsByObject}
use k8s_controller_lib.Hierarchical.Cluster.{
  ParentManager, ChildApi, Cluster, object_of, new_cluster,
}
use k8s_controller_lib.Hierarchical.Cache.Failing.{Conflicts, HasNoKind}
use k8s_controller_lib.Hierarchical.Lifecycle.{new_lifecycle}
use k8s_controller_lib.Hierarchical.Cluster.Options.{ClusterOptions, validate, entries_of}

module _ {W S G O B F C : Type 0} (api : ChildApi W S G O B F C)
    (parent : ParentManager S G F) where
  -- The objects of `ByObject`
  abbrev pub objects_of : ClusterOptions S G O B → List (Option O)
  objects_of options = map object_of (entries_of options.by_object)

  -- The two schemes know a kind with different types, or an object of `ByObject` is nil or has no kind.
  abbrev pub Underivable : S → S → ClusterOptions S G O B → Type 0
  Underivable scheme parent_scheme options =
      let schemes = api.schemes_of scheme parent_scheme in
      Any (Conflicts schemes (api.known_types parent_scheme)) (api.known_types scheme)
      ⊎ Any (HasNoKind schemes) (objects_of options)

  -- Why no child is made: the parent has no scheme or no configuration, the options are not valid, or the
  -- kinds for the local cache cannot be derived.
  abbrev pub NotMade : ClusterOptions S G O B → Type 0
  NotMade options =
      (parent.scheme ≡ none)
      ⊎ ((parent.config ≡ none)
          ⊎ (((e : GoError) × (validate (some options) ≡ some e))
              ⊎ ((scheme parent_scheme : S) × (options.scheme ≡ some scheme)
                  × (parent.scheme ≡ some parent_scheme)
                  × Underivable scheme parent_scheme options)))

  -- The kinds that the local cache of a child serves.
  abbrev pub RoutesLocally : S → S → ClusterOptions S G O B → List Gvk → Gvk → Type 0
  RoutesLocally scheme parent_scheme options local_gvks gvk =
      let schemes = api.schemes_of scheme parent_scheme in
      (cache_for_gvk schemes local_gvks gvk ≡ local) ↔ (
        Any (OnlyChild schemes (api.known_types parent_scheme) gvk) (api.known_types scheme)
        ⊎ Any (IsByObject schemes gvk) (objects_of options))

  -- The logger that the child's is named from: the option's, or else the parent's.
  abbrev pub BaseLogger : Option G → Option G → Type 0
  BaseLogger given base =
      ((given ≡ none) × (base ≡ parent.logger)) ⊎ ((given ≢ none) × (base ≡ given))

  -- No namespaces is a nil map.
  abbrev pub Namespaces : List Text → Option (List Text) → Type 0
  Namespaces names namespaces =
      ((names ≡ []) × (namespaces ≡ none)) ⊎ ((names ≢ []) × (namespaces ≡ some names))

  -- The answer of `cluster.New`, and what `NewCluster` makes of it: its error, or the cluster with a new
  -- lifecycle.
  abbrev pub Answers : Option G → Result C × W → Result (Cluster S G F C) × W → Type 0
  Answers logger answer result =
      ((e : GoError) × (w1 : W) × (answer ≡ (err e, w1))
        × (result ≡ (
          err (wrap "create child cluster" (wrap "initialize controller-runtime cluster" e)),
          w1,
        )))
      ⊎ ((core : C) × (w1 : W) × (answer ≡ (ok core, w1))
          × (result ≡ (
            ok (record {
              core = core;
              parent = parent;
              lifecycle = new_lifecycle;
              logger = logger;
            }),
            w1,
          )))

  -- The one call of `cluster.New`, and what comes of it.
  abbrev pub Made : ClusterOptions S G O B → Gvk → W → Result (Cluster S G F C) × W → Type 0
  Made options gvk w result =
      (scheme parent_scheme : S) × (config : F) × (local_gvks : List Gvk) × (parent.scheme
        ≡ some parent_scheme)
      × (parent.config ≡ some config)
      × (validate (some options) ≡ none)
      × (options.scheme ≡ some scheme)
      × RoutesLocally scheme parent_scheme options local_gvks gvk
      × (base : Option G) × (namespaces : Option (List Text)) × BaseLogger options.logger base
      × Namespaces options.namespaces namespaces
      × Answers (api.named base options.name)
          (api.new_cluster
            (record {
              parent = parent;
              config = config;
              scheme = scheme;
              parent_scheme = parent_scheme;
              logger = api.named base options.name;
              by_object = entries_of options.by_object;
              default_namespaces = namespaces;
              local_gvks = local_gvks;
            })
            w)
          result

  abbrev Outcome : ClusterOptions S G O B → Gvk → W → Result (Cluster S G F C) × W → Type 0
  Outcome options gvk w result =
      (NotMade options × (e : GoError) × (result ≡ (err e, w))) ⊎ Made options gvk w result
