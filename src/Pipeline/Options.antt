-- ===== src/Pipeline/Options.antt =====
-- pkg/reconciler/pipeline/pipeline_opts.go, and `NewPipeline` of pipeline.go.
use k8s_controller_lib.Prelude.{
  String, Bool, true, false, Option, List, [], ◌++◌, length, ◌&&◌, ltb, if◌then◌else◌, ◌==◌,
}
use k8s_controller_lib.Util.{Setting, apply_options}
use k8s_controller_lib.Runtime.Errors.{GoError}
use k8s_controller_lib.Runtime.Objects.{Object}
use k8s_controller_lib.Reconciler.Types.{Context, Response}
use k8s_controller_lib.Reconciler.Adapter.{Target}

-- What an action works on: the cluster, the object of the request, and the response.
pub record Run (W : Type 0) : Type 0 where
  pub target : Target W
  pub response : Response

-- `ActionFunc` and `CleanupFunc`: nil is `none`.
abbrev pub ActionFunc : Type 0 → Type 0
ActionFunc W = Context → Run W → Option GoError × Run W

abbrev pub CleanupFunc : Type 0 → Type 0
CleanupFunc W = Context → Target W → Option GoError × Target W

-- `ApplyHookFunc`: a hook may change the owner and, in place, the objects.
abbrev pub ApplyHookFunc : Type 0 → Type 0
ApplyHookFunc W = Context → Target W × List Object → Option GoError × (Target W × List Object)

-- `Options`; the client is there or it is nil.
pub record Options (W : Type 0) : Type 0 where
  pub actions : List (ActionFunc W)
  pub cleanup_actions : List (CleanupFunc W)
  pub finalizer : String
  pub field_owner : String
  pub ownership : Bool
  pub annotate_non_owned_objects : Bool
  pub label_non_owned_objects : Bool
  pub client : Bool
  pub pre_apply : List (ApplyHookFunc W)
  pub post_apply : List (ApplyHookFunc W)

-- `&Options{}`
abbrev pub no_options : {W : Type 0} → Options W
no_options = record {
  actions = [];
  cleanup_actions = [];
  finalizer = "";
  field_owner = "";
  ownership = false;
  annotate_non_owned_objects = false;
  label_non_owned_objects = false;
  client = false;
  pre_apply = [];
  post_apply = [];
}

-- `ApplyTo` of `Options`
unfoldable pub apply_to : {W : Type 0} → Options W → Options W → Options W
apply_to o opts = record {
  actions = opts.actions ++ o.actions;
  cleanup_actions = opts.cleanup_actions ++ o.cleanup_actions;
  finalizer = if o.finalizer == "" then opts.finalizer else o.finalizer;
  field_owner = if o.field_owner == "" then opts.field_owner else o.field_owner;
  ownership = o.ownership;
  annotate_non_owned_objects = o.annotate_non_owned_objects;
  label_non_owned_objects = o.label_non_owned_objects;
  client = if o.client then true else opts.client;
  pre_apply = opts.pre_apply ++ o.pre_apply;
  post_apply = opts.post_apply ++ o.post_apply;
}

module _ {W : Type 0} where
  abbrev pub with_actions : List (ActionFunc W) → Setting (Options W)
  with_actions actions = record {
    apply_to = λ opts. record opts { actions = opts.actions ++ actions };
  }

  abbrev pub with_cleanup_actions : List (CleanupFunc W) → Setting (Options W)
  with_cleanup_actions actions = record {
    apply_to = λ opts. record opts { cleanup_actions = opts.cleanup_actions ++ actions };
  }

  abbrev pub with_finalizer : String → Setting (Options W)
  with_finalizer name = record { apply_to = λ opts. record opts { finalizer = name } }

  abbrev pub with_field_owner : String → Setting (Options W)
  with_field_owner name = record { apply_to = λ opts. record opts { field_owner = name } }

  abbrev pub with_pre_apply : List (ApplyHookFunc W) → Setting (Options W)
  with_pre_apply hooks = record {
    apply_to = λ opts. record opts { pre_apply = opts.pre_apply ++ hooks };
  }

  abbrev pub with_post_apply : List (ApplyHookFunc W) → Setting (Options W)
  with_post_apply hooks = record {
    apply_to = λ opts. record opts { post_apply = opts.post_apply ++ hooks };
  }

  abbrev pub with_client : Bool → Setting (Options W)
  with_client c = record { apply_to = λ opts. record opts { client = c } }

  abbrev pub with_ownership : Bool → Setting (Options W)
  with_ownership enabled = record { apply_to = λ opts. record opts { ownership = enabled } }

  abbrev pub with_owner_tracking : Bool → Setting (Options W)
  with_owner_tracking enabled = record {
    apply_to = λ opts. record opts {
      annotate_non_owned_objects = enabled;
      label_non_owned_objects = enabled;
    };
  }

  abbrev pub with_owner_annotations : Bool → Setting (Options W)
  with_owner_annotations enabled = record {
    apply_to = λ opts. record opts { annotate_non_owned_objects = enabled };
  }

  abbrev pub with_owner_labels : Bool → Setting (Options W)
  with_owner_labels enabled = record {
    apply_to = λ opts. record opts { label_non_owned_objects = enabled };
  }

  -- `options.Finalizer == "" && len(options.CleanupActions) > 0`
  unfoldable pub default_finalizer : Options W → Options W
  default_finalizer o =
      if o.finalizer == "" && ltb 0 (length o.cleanup_actions)
      then record o { finalizer = "reconciler.k8s-controller-lib/finalizer" }
      else o

  -- `NewPipeline`
  unfoldable pub new_pipeline : List (Setting (Options W)) → Options W
  unfolding apply_options default_finalizer
  new_pipeline opts =
      default_finalizer (apply_options opts (record no_options { ownership = true }))

  -- `SetClient`
  unfoldable pub set_client : Options W → Bool → Options W
  set_client o c = record o { client = c }
