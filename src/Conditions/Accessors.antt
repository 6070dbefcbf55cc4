-- ===== src/Conditions/Accessors.antt =====
-- pkg/conditions/types.go and pkg/status/types.go: an accessor of the conditions of an object.
use k8s_controller_lib.Prelude.{◌≡◌, List, [], Option, none, some, refl}
use k8s_controller_lib.Prelude.Int.{ℤ}
use k8s_controller_lib.Conditions.Api.{Condition}

-- `Accessor`: the interfaces `Getter` and `Setter` over a target `S` that holds the conditions.
pub record Accessor (S : Type 0) : Type 0 where
  pub get_conditions : S → List Condition
  pub set_conditions : S → List Condition → S

-- What `GetConditions` gives after `SetConditions`. It holds of an accessor that has a place to write.
pub record IsLawful {S : Type 0} (a : Accessor S) (s : S) : Type 0 where
  pub get-set : (cs : List Condition) → a.get_conditions (a.set_conditions s cs) ≡ cs

-- `conditionsAccessor`: a pointer to a slice, which may be nil.
unfoldable pub get_slice : Option (List Condition) → List Condition
get_slice none = []
get_slice (some cs) = cs

unfoldable pub set_slice : Option (List Condition) → List Condition → Option (List Condition)
set_slice none cs = none
set_slice (some old) cs = some cs

-- `conditions.NewAccessor`
abbrev pub slice_accessor : Accessor (Option (List Condition))
slice_accessor = record { get_conditions = get_slice; set_conditions = set_slice }

-- `status.Status`, and its methods `GetConditions` and `SetConditions`.
pub record Status : Type 0 where
  pub observed_generation : ℤ
  pub conditions : List Condition

abbrev pub status_accessor : Accessor Status
status_accessor = record {
  get_conditions = λ s. s.conditions;
  set_conditions = λ s cs. record s { conditions = cs };
}

pub status_accessor-IsLawful : (s : Status) → IsLawful status_accessor s
status_accessor-IsLawful s = record { get-set = λ cs. refl }

pub slice_accessor-IsLawful : (old : List Condition) → IsLawful slice_accessor (some old)
unfolding get_slice set_slice
slice_accessor-IsLawful old = record { get-set = λ cs. refl }
