-- ===== src/Watch/Handler/Tracking.antt =====
-- handler.go and pipeline.go: the labels that the pipeline writes are those that the handler reads.
use k8s_controller_lib.Prelude.{
  String, ◌≡◌, ◌≢◌, refl, ap, ap₂, ◌∙◌, Bool, true, false, Option, none, some, List, [], ◌∷◌, arith,
  ◌==◌, eq_iff, inl, inr, if◌then◌else◌, eq_false_of_ne, Bool-cases,
}
use k8s_controller_lib.Runtime.Exec.{Result, ok, err}
use k8s_controller_lib.Runtime.StringMap.{StringMap, entries, lookup, lookup-put, value_or_empty}
use k8s_controller_lib.Runtime.Objects.{Gvk, Object, NamespacedName}
use k8s_controller_lib.Runtime.Api.{ClusterApi}
use k8s_controller_lib.Resources.Meta.{set_value}
use k8s_controller_lib.Pipeline.Options.{Options}
use k8s_controller_lib.Pipeline.Steps.Ownership.{
  label_owner_name, label_owner_namespace, annotate, label, annotate_owner, label_owner, track,
  add_owner_tracking,
}
use k8s_controller_lib.Watch.Handler.{
  get_owner_from_labels, get_owner_from_references, added, handle, WatchEvent, created, deleted,
  generic, updated,
}

abbrev pub key_of : Object → NamespacedName
key_of obj = record { namespace = obj.namespace; name = obj.name }

-- The namespace of a request that labels lead to: that of the owner label, if it is not empty.
abbrev pub or_own : String → String → String
or_own label_value own = if label_value == "" then own else label_value

abbrev pub owner_namespace_of : Object → String
owner_namespace_of obj = value_or_empty (lookup label_owner_namespace (entries obj.labels))

-- The labels that the pipeline writes for a namespaced owner, and for a cluster-scoped one.
from_labels_namespaced :
    (owner obj : Object)
    → owner.name ≢ ""
    → (owner.namespace == "") ≡ false
    → get_owner_from_labels (label_owner owner obj) label_owner_name label_owner_namespace
      ≡ some (key_of owner)
unfolding get_owner_from_labels label_owner label set_value
from_labels_namespaced owner obj named scoped =
    rw (scoped, eq_false_of_ne owner.name "" named, scoped)

from_labels_cluster :
    (owner obj : Object)
    → owner.name ≢ ""
    → (owner.namespace == "") ≡ true
    → get_owner_from_labels (label_owner owner obj) label_owner_name label_owner_namespace
      ≡ some
          (record { namespace = or_own (owner_namespace_of obj) obj.namespace; name = owner.name })
unfolding get_owner_from_labels label_owner label set_value
from_labels_cluster owner obj named cluster =
    rw
      (
        cluster,
        lookup-put label_owner_name owner.name label_owner_name (entries obj.labels),
        lookup-put label_owner_name owner.name label_owner_namespace (entries obj.labels),
        eq_false_of_ne owner.name "" named,
      )
      refl

-- Both, for what `addOwnerTracking` makes of an object that is not owned; annotations do not matter.
abbrev pub tracked_key : Object → Object → NamespacedName
tracked_key owner obj =
    if owner.namespace == ""
    then record { namespace = or_own (owner_namespace_of obj) obj.namespace; name = owner.name }
    else key_of owner

from_labels :
    (owner obj : Object)
    → owner.name ≢ ""
    → get_owner_from_labels (label_owner owner obj) label_owner_name label_owner_namespace
      ≡ some (tracked_key owner obj)
from_labels owner obj named = elim (Bool-cases (owner.namespace == "")) [
  | inl cluster ↦ rw cluster (from_labels_cluster owner obj named cluster)
  | inr scoped ↦ rw scoped (from_labels_namespaced owner obj named scoped)
]

annotate_owner_keeps :
    (gvk : Gvk) (owner obj : Object)
    → ((annotate_owner gvk owner obj).labels ≡ obj.labels)
      × ((annotate_owner gvk owner obj).namespace ≡ obj.namespace)
      × ((annotate_owner gvk owner obj).owner_references ≡ obj.owner_references)
unfolding annotate_owner annotate
annotate_owner_keeps gvk owner obj = (ground arith, ground arith, ground arith)

label_owner_keeps :
    (owner obj : Object)
    → ((label_owner owner obj).namespace ≡ obj.namespace)
      × ((label_owner owner obj).owner_references ≡ obj.owner_references)
unfolding label_owner label
label_owner_keeps owner obj = (ground arith, ground arith)

-- The references and the namespace are all that `getOwnerFromReferences` reads of an object.
from_references_cong :
    (parse_group : String → Option String) (gvk : Result Gvk) (is_controller : Bool) (a b : Object)
    → a.owner_references ≡ b.owner_references
    → a.namespace ≡ b.namespace
    → get_owner_from_references parse_group gvk is_controller a
      ≡ get_owner_from_references parse_group gvk is_controller b
unfolding get_owner_from_references
from_references_cong parse_group (err e) is_controller a b refs ns = refl
from_references_cong parse_group (ok gvk) is_controller a b refs ns = rw (refs, ns)

-- The event is one of this object; of an update it is the new object.
pub data Concerns (obj : Object) : WatchEvent → Type 0 where
  of_created : Concerns obj (created (some obj))
  of_deleted : Concerns obj (deleted (some obj))
  of_generic : Concerns obj (generic (some obj))
  of_updated : (old : Option Object) → Concerns obj (updated old (some obj))

handle-Concerns :
    (parse_group : String → Option String) (gvk : Result Gvk) (is_controller : Bool)
    (name_label namespace_label : String) (obj : Object) (event : WatchEvent)
    → Concerns obj event
    → handle parse_group gvk is_controller name_label namespace_label event
      ≡ handle parse_group gvk is_controller name_label namespace_label (updated none (some obj))
unfolding handle
handle-Concerns parse_group gvk is_controller name_label namespace_label obj _ of_created = refl
handle-Concerns parse_group gvk is_controller name_label namespace_label obj _ of_deleted = refl
handle-Concerns parse_group gvk is_controller name_label namespace_label obj _ of_generic = refl
handle-Concerns parse_group gvk is_controller name_label namespace_label obj _ (of_updated old) =
    refl

module _ {W U : Type 0} (api : ClusterApi W U) (opts : Options W) (gvk : Gvk) (owner obj : Object)
    (labelled : opts.label_non_owned_objects ≡ true) (known : api.gvk_for_object owner ≡ ok gvk)
    (named : owner.name ≢ "") where
  -- What the pipeline applies in place of an object that is not owned.
  abbrev pub tracked : Object
  tracked = (add_owner_tracking api opts owner obj).1

  annotated : Object
  annotated = if opts.annotate_non_owned_objects then annotate_owner gvk owner obj else obj

  annotated_keeps :
      (annotated.labels ≡ obj.labels)
      × (annotated.namespace ≡ obj.namespace)
      × (annotated.owner_references ≡ obj.owner_references)
  unfolding annotated
  annotated_keeps = elim (Bool-cases opts.annotate_non_owned_objects) [
    | inl e ↦ rw e (annotate_owner_keeps gvk owner obj)
    | inr e ↦ rw e (refl, refl, refl)
  ]

  tracked_lem : tracked ≡ label_owner owner annotated
  unfolding add_owner_tracking track annotated
  tracked_lem = elim (Bool-cases opts.annotate_non_owned_objects) [
    | inl e ↦ rw (labelled, e, known)
    | inr e ↦ rw (labelled, e, known)
  ]

  module _ (parse_group : String → Option String) (owner_gvk : Result Gvk) (is_controller : Bool)
      (old : Option Object)
      (unreferenced : get_owner_from_references parse_group owner_gvk is_controller obj
        ≡ none) where
    abbrev pub requests : List NamespacedName
    requests =
        handle parse_group owner_gvk is_controller label_owner_name label_owner_namespace
          (updated old (some tracked))

    no_reference : get_owner_from_references parse_group owner_gvk is_controller tracked ≡ none
    no_reference =
        let (labels, ns, refs) = annotated_keeps in
        let (ns', refs') = label_owner_keeps owner annotated in
        from_references_cong parse_group owner_gvk is_controller tracked obj
          (ap (λ (o : Object). o.owner_references) tracked_lem ∙ refs' ∙ refs)
          (ap (λ (o : Object). o.namespace) tracked_lem ∙ ns' ∙ ns)
        ∙ unreferenced

    tracked_key_keeps : tracked_key owner annotated ≡ tracked_key owner obj
    tracked_key_keeps =
        let (labels, ns, refs) = annotated_keeps in
        ap₂
          (λ (l : StringMap) (n : String).
            if owner.namespace == ""
            then record {
              namespace = or_own (value_or_empty (lookup label_owner_namespace (entries l))) n;
              name = owner.name;
            }
            else key_of owner)
          labels ns

    requests_lem : requests ≡ tracked_key owner obj ∷ []
    unfolding handle
    requests_lem = rw (no_reference) (
        ap (λ o. added o [])
          (ap (λ o. get_owner_from_labels o label_owner_name label_owner_namespace) tracked_lem
            ∙ from_labels owner annotated named
            ∙ ap some tracked_key_keeps))

    -- A cluster-scoped owner is missed: for a namespaced object that had no such label before, the one
    -- request has the object's namespace, so it is not the owner's key.
    pub cluster_owner_missed :
        owner.namespace ≡ ""
        → owner_namespace_of obj ≡ ""
        → obj.namespace ≢ ""
        → (requests ≡ record { namespace = obj.namespace; name = owner.name } ∷ [])
          × (requests ≢ key_of owner ∷ [])
    cluster_owner_missed cluster unset scoped =
        let only : requests ≡ record { namespace = obj.namespace; name = owner.name } ∷ [] =
          requests_lem ∙ rw ((eq_iff owner.namespace "").1 cluster, unset) in
        (only, λ e. scoped (cc (e, only, cluster)))

  module _ (parse_group : String → Option String) (owner_gvk : Result Gvk) (is_controller : Bool)
      (unreferenced : get_owner_from_references parse_group owner_gvk is_controller obj
        ≡ none) where
    -- An object that the pipeline labels in place of an owner reference leads back to its owner: whatever
    -- annotations are written too, any event of the labelled object, which is created, updated to, deleted
    -- or generic, adds exactly the request for the owner's namespace and name, where the owner is
    -- namespaced and no owner reference matches.
    pub handle-add_owner_tracking :
        (event : WatchEvent)
        → Concerns tracked event
        → owner.namespace ≢ ""
        → handle parse_group owner_gvk is_controller label_owner_name label_owner_namespace event
          ≡ key_of owner ∷ []
    handle-add_owner_tracking event concerns scoped =
        handle-Concerns parse_group owner_gvk is_controller label_owner_name label_owner_namespace
          tracked event concerns
        ∙ requests_lem parse_group owner_gvk is_controller none unreferenced
        ∙ rw (eq_false_of_ne owner.namespace "" scoped) refl
