-- ===== src/Lib.antt =====
-- k8s-controller-lib: a library for Kubernetes controllers, and what is proved of it.
--
-- The program. A controller's reconcile request comes to the adapter (pkg/reconciler/adapter.go),
-- which gets the object and calls a typed reconciler. The pipeline (pkg/reconciler/pipeline) is such
-- a reconciler: it runs actions, which add objects to a response, calls hooks, applies the objects on
-- the server with an owner reference or with tracking labels, and records the outcome as a condition
-- (pkg/conditions) in the object's status; on deletion it runs cleanup actions and drops the
-- finalizer. A watcher (pkg/reconciler/watch), which is called as a hook, registers a watch for each
-- kind that was applied, and its handler leads an event of an applied object back to the owner. A
-- child cluster (pkg/hierarchical) starts and stops its controllers and its caches in an order. The
-- builder (pkg/builder) makes a controller of declarations of what it watches, and converts the
-- events of a watch for its predicates and its handler; pkg/predicates has predicates for these
-- watches. A program's configuration (pkg/config) is filled from defaults, files, environment
-- variables and flags.
--
-- The files, and the code that they model.
--   Prelude          names, tests, lists and integers that the components share
--   Util             pkg/util/option.go; Util/Conv: pkg/util/conv/conv.go; Util/Text: texts as lists of
--                    code points; Util/Text/Case: pkg/util/strcase/strcase.go
--   Conditions       pkg/conditions and pkg/status/types.go. Api is k8s.io/apimachinery's package meta, as
--                    the parameter `MetaApi`; Options, Accessors, Set, Find and Manager have a function for
--                    each function of the files of those names, Laws and Manager/Summary the proofs
--   Runtime          errors (pkg/reconciler/pipeline/pipeline_errors.go), calls that may fail, string maps,
--                    objects, and in Api the parameter `ClusterApi` for controller-runtime and apimachinery
--   Reconciler       Types: pkg/reconciler/types.go, types_opts.go, context.go; Adapter: adapter.go
--   Resources        Meta, Util, Apply and Applier: pkg/resources/meta.go, util.go, apply.go, applier.go;
--                    Apply/Sends and Applier/Skips: proofs
--   Pipeline         Options: pipeline_opts.go; Steps: the parts of `execute`, `processEntries`,
--                    `addOwnerTracking`, `cleanup` and `updateStatus`; Run: `execute`, `run`, `Reconcile` of
--                    pipeline.go and typed.go, which compose the steps; the modules below Run and Steps
--                    hold the proofs
--   Watch            Handler: handler.go and handler_label.go; Config: watch_opts.go; Watcher: watch.go, and
--                    All its hook `All`; Handler/Tracking, Watcher/Once and All/Settled: proofs
--   Hierarchical     Cache: the routing of pkg/hierarchical/cache.go; Lifecycle: lifecycle.go, with its
--                    calls as a step relation in Lifecycle/Steps; Cluster: cluster.go, with cluster_opts.go in
--                    Options; Cache/Routing, Cache/Failing, Cluster/Made and the other modules below
--                    Lifecycle: proofs
--   Builder          Events: builder_conversion.go and builder_metrics.go of pkg/builder, with the converter
--                    in Convert, its wrappers in Wrap and the typed mappers and predicates in Mapper;
--                    Options: builder_opts.go; Controller: builder.go, with its state in State and
--                    `Complete` in Complete; Wrap/Once, Calls, Accepts, Primary, Complete/Attempts and
--                    Complete/Outcomes: proofs
--   Predicates       pkg/predicates/predicates.go; Predicates/Default: proofs
--   Config           Flags: pkg/config/flags/flags.go; Flags/Registry: registry.go; Flags/Bind: `BindStruct`;
--                    Sources: config_support.go; Loader: config.go and config_opts.go; Fields: what
--                    reflection says of a struct; Registry/Adds, the modules below Flags/Bind and
--                    those below Sources: proofs
--   The modules Sample and Tests have concrete values, which meet the hypotheses of the theorems.
--
-- State. A call that changes an object or the cluster takes the state and returns it with its result.
-- An object is a record of the metadata that the library reads, the rest of it a text. Actions and
-- hooks are any functions on that state. A call at which the code or a package may panic returns an
-- option or an outcome that says so. In the watcher, each part that holds a lock is one function,
-- and calls interleave at those parts; in the lifecycle, each part that holds the mutex, and each
-- receive of the goroutine of `stop`, is one step.
--
-- Parameters. `MetaApi` and `ClusterApi` are records of the calls that the library makes, with the
-- state of the cluster as a type parameter; `Schemes`, `CacheApi` and `ApplierApi` are the like for
-- the routing and the caching applier, `ChildApi` for child clusters, `DeclareApi` and `CompleteApi`
-- for the builder, `PredicateApi` for the predicates, and `FlagApi`, `ViperApi` and `LoaderApi` for
-- the configuration. The laws `RemovesFields`, `FinalizerLaws`, `AggregateLaws`, `CacheLaws`,
-- `UpdateKeeps`, `DispatchLaws`, `PredicateLaws`, `FlagLaws` and those of `MetaApi` are what the
-- documentation of these packages says; a theorem takes those that it needs. No model runs on fuel:
-- all loops are over lists or over the fields of a struct.
--
-- Not modelled: errors that have a method `As`, the texts that `%T` prints, deep copies (values are not shared), nil objects where
-- the code refuses them, gauges, events and logs, reflection, the decode hooks and the logging of the
-- configuration, and the accessors of a child cluster. An event keeps its objects and, for a
-- deletion, its flag. The four methods of a predicate or a handler are one function on the kinds of
-- event. The slice that the hooks get shares its objects with the response, so a hook's changes of an
-- object are seen by the later stages; the model writes them back after each stage. Contexts are
-- reduced to the controller's name and, in the lifecycle, to whether they are cancelled.
pub mod Prelude
pub mod Util
pub mod Conditions
pub mod Runtime
pub mod Reconciler
pub mod Resources
pub mod Pipeline
pub mod Watch
pub mod Hierarchical
pub mod Builder
pub mod Predicates
pub mod Config
