-- ===== src/Watch/Handler.antt =====
-- pkg/reconciler/watch/handler.go and handler_label.go
pub mod Tracking
use k8s_controller_lib.Prelude.{
  String, ◌≡◌, refl, Bool, true, false, not, ◌&&◌, ◌||◌, Option, none, some, List, [], ◌∷◌,
  if◌then◌else◌, ◌==◌,
}
use k8s_controller_lib.Runtime.Exec.{Result, ok, err}
use k8s_controller_lib.Runtime.StringMap.{StringMap, lookup, value_or_empty}
use k8s_controller_lib.Runtime.Objects.{Gvk, Object, OwnerReference, NamespacedName}

-- `!*ref.Controller`, where nil counts as false
abbrev pub is_controller_owner : Option Bool → Bool
is_controller_owner none = false
is_controller_owner (some b) = b

-- The tests of the loop of `getOwnerFromReferences`, each of which may `continue`; the first argument is
-- the group that `schema.ParseGroupVersion` reads, if it reads one.
unfoldable pub matches : Option String → Gvk → Bool → OwnerReference → Bool
matches none owner_gvk is_controller ref = false
matches (some group) owner_gvk is_controller ref =
    group == owner_gvk.group
    && (ref.kind == owner_gvk.kind && (not is_controller || is_controller_owner ref.controller))

-- `parse_group` is the group of `schema.ParseGroupVersion`, `none` where it returns an error.
module _ (parse_group : String → Option String) where
  unfoldable pub find_reference : Gvk → Bool → List OwnerReference → Option OwnerReference
  unfolding matches
  find_reference owner_gvk is_controller [] = none
  find_reference owner_gvk is_controller (ref ∷ rest) =
      if matches (parse_group ref.api_version) owner_gvk is_controller ref
      then some ref
      else find_reference owner_gvk is_controller rest

  -- `getOwnerFromReferences`; `owner_gvk` is what the scheme says of the owner's type.
  unfoldable pub get_owner_from_references : Result Gvk → Bool → Object → Option NamespacedName
  unfolding find_reference
  get_owner_from_references (err e) is_controller obj = none
  get_owner_from_references (ok owner_gvk) is_controller obj =
      elim (find_reference owner_gvk is_controller obj.owner_references) [
        | none ↦ none
        | some ref ↦ some (record { namespace = obj.namespace; name = ref.name })
      ]

-- `getOwnerFromLabels`
unfoldable pub owner_from_map : StringMap → String → String → String → Option NamespacedName
unfolding lookup
owner_from_map none own_namespace owner_name_label owner_namespace_label = none
owner_from_map (some labels) own_namespace owner_name_label owner_namespace_label =
    let owner_name = value_or_empty (lookup owner_name_label labels) in
    let owner_namespace = value_or_empty (lookup owner_namespace_label labels) in
    if owner_name == ""
    then none
    else some (record {
      namespace = if owner_namespace == "" then own_namespace else owner_namespace;
      name = owner_name;
    })

unfoldable pub get_owner_from_labels : Object → String → String → Option NamespacedName
unfolding owner_from_map
get_owner_from_labels obj owner_name_label owner_namespace_label =
    owner_from_map obj.labels obj.namespace owner_name_label owner_namespace_label

-- The requests that a call adds to the queue.
abbrev pub added : Option NamespacedName → List NamespacedName → List NamespacedName
added none otherwise = otherwise
added (some req) otherwise = req ∷ []

-- `enqueueOwner` of `EnqueueRequestForOwnerOrLabel`
unfoldable pub enqueue_owner :
    (String → Option String)
    → Result Gvk
    → Bool
    → String
    → String
    → Option Object
    → List NamespacedName
unfolding get_owner_from_references get_owner_from_labels
enqueue_owner parse_group owner_gvk is_controller name_label namespace_label none = []
enqueue_owner parse_group owner_gvk is_controller name_label namespace_label (some obj) =
    added (get_owner_from_references parse_group owner_gvk is_controller obj)
      (added (get_owner_from_labels obj name_label namespace_label) [])

-- The events of a watch; the objects may be nil.
pub data WatchEvent : Type 0 where
  created deleted generic : Option Object → WatchEvent
  updated : (old new : Option Object) → WatchEvent

-- The handler of `EnqueueRequestForOwnerOrLabel`: the new object counts on an update.
unfoldable pub handle :
    (String → Option String)
    → Result Gvk
    → Bool
    → String
    → String
    → WatchEvent
    → List NamespacedName
unfolding enqueue_owner
handle parse_group owner_gvk is_controller name_label namespace_label (created obj) =
    enqueue_owner parse_group owner_gvk is_controller name_label namespace_label obj
handle parse_group owner_gvk is_controller name_label namespace_label (deleted obj) =
    enqueue_owner parse_group owner_gvk is_controller name_label namespace_label obj
handle parse_group owner_gvk is_controller name_label namespace_label (generic obj) =
    enqueue_owner parse_group owner_gvk is_controller name_label namespace_label obj
handle parse_group owner_gvk is_controller name_label namespace_label (updated old new) =
    enqueue_owner parse_group owner_gvk is_controller name_label namespace_label new

-- `ByLabel`: a request with the label's value as the name, and no namespace.
unfoldable pub by_label : String → StringMap → List NamespacedName
unfolding lookup
by_label label_key none = []
by_label label_key (some labels) = elim (lookup label_key labels) [
  | none ↦ []
  | some name ↦ record { namespace = ""; name = name } ∷ []
]
