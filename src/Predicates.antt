-- ===== src/Predicates.antt =====
-- pkg/predicates/predicates.go. Default has the proofs.
pub mod Default
mod Tests
use k8s_controller_lib.Prelude.{
  ℕ, ◌≡◌, Bool, true, false, not, ◌||◌, Option, none, some, List, [], ◌∷◌, ◌==◌, eqb, ◌+◌,
  if◌then◌else◌,
}
use k8s_controller_lib.Prelude.Int.{ℤ, pos_part, neg_part, is_zero}
use k8s_controller_lib.Runtime.StringMap.{StringMap}
use k8s_controller_lib.Runtime.Objects.{Object}

-- The events of controller-runtime, by the metadata of their objects, which may be nil.
pub data ObjectEvent : Type 0 where
  object_created object_deleted object_generic : Option Object → ObjectEvent
  object_updated : (object_old object_new : Option Object) → ObjectEvent

-- `predicate.Predicate`: its four methods in one. Those of this package keep no state.
abbrev pub EventFilter : Type 0
EventFilter = ObjectEvent → Bool

-- What the package uses of outside: `maps.Equal`, `predicate.And` and `predicate.Or`.
pub record PredicateApi : Type 0 where
  pub maps_equal : StringMap → StringMap → Bool
  pub and_ : List EventFilter → EventFilter
  pub or_ : List EventFilter → EventFilter

-- `==` of two `int64`
unfoldable pub eqb_ℤ : ℤ → ℤ → Bool
eqb_ℤ a b = eqb (pos_part a + neg_part b) (pos_part b + neg_part a)

-- The `UpdateFunc` of `Updated`
unfoldable pub update_passes : (Object → Object → Bool) → Option Object → Option Object → Bool
update_passes compare none none = false
update_passes compare none (some object_new) = true
update_passes compare (some object_old) none = true
update_passes compare (some object_old) (some object_new) = compare object_old object_new

-- `Updated`, `Created` and `Deleted`
unfoldable pub updated : (Object → Object → Bool) → EventFilter
unfolding update_passes
updated compare (object_generic obj) = false
updated compare (object_created obj) = false
updated compare (object_deleted obj) = false
updated compare (object_updated object_old object_new) = update_passes compare object_old object_new

unfoldable pub created : EventFilter
created (object_generic obj) = false
created (object_created obj) = true
created (object_deleted obj) = false
created (object_updated object_old object_new) = false

unfoldable pub deleted : EventFilter
deleted (object_generic obj) = false
deleted (object_created obj) = false
deleted (object_deleted obj) = true
deleted (object_updated object_old object_new) = false

-- The comparison of `GenerationChanged`
unfoldable pub generation_differs : Object → Object → Bool
unfolding eqb_ℤ
generation_differs object_old object_new =
    if is_zero object_new.generation || is_zero object_old.generation
    then true
    else not (eqb_ℤ object_new.generation object_old.generation)

unfoldable pub generation_changed : EventFilter
unfolding updated generation_differs
generation_changed = updated generation_differs

unfoldable pub resource_version_changed : EventFilter
unfolding updated
resource_version_changed =
    updated
      (λ object_old object_new. not (object_new.resource_version == object_old.resource_version))

module _ (api : PredicateApi) where
  unfoldable pub label_changed : EventFilter
  unfolding updated
  label_changed =
      updated (λ object_old object_new. not (api.maps_equal object_new.labels object_old.labels))

  unfoldable pub annotation_changed : EventFilter
  unfolding updated
  annotation_changed =
      updated (λ object_old object_new.
        not (api.maps_equal object_new.annotations object_old.annotations))

  -- `And` and `Or`
  unfoldable pub both : List EventFilter → EventFilter
  both predicates = api.and_ predicates

  unfoldable pub any_of : List EventFilter → EventFilter
  any_of predicates = api.or_ predicates

  -- `Default`
  unfoldable pub default : EventFilter
  unfolding any_of generation_changed label_changed annotation_changed deleted
  default = any_of (generation_changed ∷ label_changed ∷ annotation_changed ∷ deleted ∷ [])
