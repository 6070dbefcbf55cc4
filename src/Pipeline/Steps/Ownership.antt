-- ===== src/Pipeline/Steps/Ownership.antt =====
-- pipeline.go: `addOwnerTracking`, and the choice between an owner reference and tracking.
use k8s_controller_lib.Prelude.{
  String, concat, ◌≡◌, refl, Bool, none, some, not, ◌&&◌, if◌then◌else◌, ◌==◌,
}
use k8s_controller_lib.Runtime.Errors.{wrap}
use k8s_controller_lib.Runtime.Exec.{Result, ok, err, Exec, wrap_result}
use k8s_controller_lib.Runtime.Objects.{Gvk, Object}
use k8s_controller_lib.Runtime.Api.{ClusterApi}
use k8s_controller_lib.Reconciler.Types.{ObjectOptions}
use k8s_controller_lib.Resources.Meta.{set_value, set_annotation, set_label}
use k8s_controller_lib.Resources.Util.{format_object_reference}
use k8s_controller_lib.Pipeline.Options.{Options}

-- `resources.SetAnnotation` and `resources.SetLabel` of an object that is not nil
unfoldable pub annotate : String → String → Object → Object
unfolding set_value
annotate k v obj = record obj { annotations = (set_value obj.annotations k v).1 }

unfoldable pub label : String → String → Object → Object
unfolding set_value
label k v obj = record obj { labels = (set_value obj.labels k v).1 }

annotate-eq_set_annotation :
    (k v : String) (obj : Object) → (set_annotation (some obj) k v).1 ≡ some (annotate k v obj)
unfolding annotate set_annotation
annotate-eq_set_annotation k v obj = refl

label-eq_set_label :
    (k v : String) (obj : Object) → (set_label (some obj) k v).1 ≡ some (label k v obj)
unfolding label set_label
label-eq_set_label k v obj = refl

-- `LabelOwnerName` and `LabelOwnerNamespace` of the watch package
abbrev pub label_owner_name : String
label_owner_name = "controller-lib.k8s.io/owner-name"

abbrev pub label_owner_namespace : String
label_owner_namespace = "controller-lib.k8s.io/owner-namespace"

-- The annotations that `addOwnerTracking` adds.
unfoldable pub annotate_owner : Gvk → Object → Object → Object
unfolding annotate
annotate_owner gvk owner obj =
    let named = annotate "controller-lib.k8s.io/owner-name" owner.name (
      annotate "controller-lib.k8s.io/owner-kind" gvk.kind (
        annotate "controller-lib.k8s.io/owner-version" gvk.version
          (annotate "controller-lib.k8s.io/owner-group" gvk.group obj))) in
    if owner.namespace == ""
    then named
    else annotate "controller-lib.k8s.io/owner-namespace" owner.namespace named

-- The labels that it adds.
unfoldable pub label_owner : Object → Object → Object
unfolding label
label_owner owner obj =
    let named = label label_owner_name owner.name obj in
    if owner.namespace == "" then named else label label_owner_namespace owner.namespace named

module _ {W U : Type 0} (api : ClusterApi W U) (opts : Options W) where
  -- `addOwnerTracking`, once the owner's kind is known
  unfoldable pub track : Gvk → Object → Object → Object
  unfolding annotate_owner label_owner
  track gvk owner obj =
      let annotated =
        if opts.annotate_non_owned_objects then annotate_owner gvk owner obj else obj in
      if opts.label_non_owned_objects then label_owner owner annotated else annotated

  unfoldable pub add_owner_tracking : Object → Exec Object (Unit {0})
  unfolding track
  add_owner_tracking owner obj =
      if not opts.annotate_non_owned_objects && not opts.label_non_owned_objects
      then (ok tt, obj)
      else elim (api.gvk_for_object owner) [
        | err e ↦ (err (wrap "failed to get GVK for owner" e), obj)
        | ok gvk ↦ (ok tt, track gvk owner obj)
      ]

  -- `withOwnership` of `processEntries`: an entry's own setting goes before the pipeline's.
  unfoldable pub effective_ownership : ObjectOptions → Bool
  effective_ownership options = elim options.ownership [ none ↦ opts.ownership | some own ↦ own ]

  -- The error text is made when the call has returned, from the object as it is then.
  unfoldable pub about : String → Result (Unit {0}) × Object → Result (Unit {0}) × Object
  about text (r, obj) = (wrap_result (concat text (format_object_reference api obj)) r, obj)

  unfoldable pub claim : Bool → Object → Exec Object (Unit {0})
  unfolding add_owner_tracking about
  claim with_ownership owner obj =
      if with_ownership
      then about "unable to set controller reference to " (api.set_controller_reference owner obj)
      else about "unable to add owner tracking to " (add_owner_tracking owner obj)
