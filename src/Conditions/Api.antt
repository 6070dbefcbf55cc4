-- ===== src/Conditions/Api.antt =====
-- What pkg/conditions takes from k8s.io/apimachinery: the type `metav1.Condition`, and the functions
-- of `pkg/api/meta` on a slice of conditions with what their documentation says of them.
use k8s_controller_lib.Prelude.{
  ℕ, String, ◌≡◌, Bool, true, false, List, Option, none, some, ◌==◌, if◌then◌else◌,
}
use k8s_controller_lib.Prelude.Int.{ℤ}

-- `metav1.ConditionStatus`: a string with three names.
pub data ConditionStatus : Type 0 where
  condition_true condition_false condition_unknown : ConditionStatus
  other_status : String → ConditionStatus

-- `status == metav1.ConditionTrue` and its siblings.
abbrev pub is_condition_true : ConditionStatus → Bool
is_condition_true condition_true = true
is_condition_true _ = false

abbrev pub is_condition_false : ConditionStatus → Bool
is_condition_false condition_false = true
is_condition_false _ = false

abbrev pub is_condition_unknown : ConditionStatus → Bool
is_condition_unknown condition_unknown = true
is_condition_unknown _ = false

-- `metav1.Condition`; the transition time is a number, 0 for the zero time.
pub record Condition : Type 0 where
  pub type : String
  pub status : ConditionStatus
  pub reason : String
  pub message : String
  pub observed_generation : ℤ
  pub last_transition_time : ℕ

-- Equal in all that a caller of `SetStatusCondition` writes.
pub record SameContent (a b : Condition) : Type 0 where
  pub type : a.type ≡ b.type
  pub status : a.status ≡ b.status
  pub reason : a.reason ≡ b.reason
  pub message : a.message ≡ b.message
  pub observed_generation : a.observed_generation ≡ b.observed_generation

-- `meta.SetStatusCondition`, at a time that its clock gives, `FindStatusCondition`,
-- `IsStatusConditionTrue`, `IsStatusConditionFalse` and `RemoveStatusCondition`.
pub record MetaApi : Type 0 where
  pub set_status_condition : ℕ → List Condition → Condition → List Condition
  pub find_status_condition : List Condition → String → Option Condition
  pub is_status_condition_true : List Condition → String → Bool
  pub is_status_condition_false : List Condition → String → Bool
  pub remove_status_condition : List Condition → String → List Condition
  -- "sets the corresponding condition in conditions to newCondition"
  pub find-set_self :
      (now : ℕ) (cs : List Condition) (c : Condition)
      → (found : Condition) × (find_status_condition (set_status_condition now cs c) c.type
          ≡ some found)
        × SameContent found c
  pub find-set_ne :
      (now : ℕ) (cs : List Condition) (c : Condition) (t : String)
      → (c.type == t) ≡ false
      → find_status_condition (set_status_condition now cs c) t ≡ find_status_condition cs t
  -- "finds the conditionType in conditions"
  pub find-type :
      (cs : List Condition) (t : String) (found : Condition)
      → find_status_condition cs t ≡ some found
      → found.type ≡ t
  -- "removes the corresponding conditionType from conditions"
  pub find-remove :
      (cs : List Condition) (t u : String)
      → find_status_condition (remove_status_condition cs t) u
        ≡ (if t == u then none else find_status_condition cs u)
  -- "returns true when the conditionType is present and set to" True, or False
  pub is_status_condition_true_lem :
      (cs : List Condition) (t : String)
      → is_status_condition_true cs t
        ≡ elim (find_status_condition cs t) [ none ↦ false | some c ↦ is_condition_true c.status ]
  pub is_status_condition_false_lem :
      (cs : List Condition) (t : String)
      → is_status_condition_false cs t
        ≡ elim (find_status_condition cs t) [ none ↦ false | some c ↦ is_condition_false c.status ]
