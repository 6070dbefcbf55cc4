-- ===== src/Conditions/Find.antt =====
-- pkg/conditions/conditions.go: the functions that read conditions.
use k8s_controller_lib.Prelude.{
  String, ◌≡◌, ap, Bool, true, false, Option, none, some, List, [], ◌∷◌, if◌then◌else◌,
}
use k8s_controller_lib.Conditions.Api.{
  MetaApi, Condition, ConditionStatus, is_condition_false, is_condition_unknown,
}
use k8s_controller_lib.Conditions.Accessors.{Accessor, IsLawful}

-- One round of the loops below: the condition, if its status passes the test.
unfoldable pub pass : (ConditionStatus → Bool) → Option Condition → Option Condition
pass test none = none
pass test (some c) = if test c.status then some c else none

unfoldable pub or_else : Option Condition → Option Condition → Option Condition
or_else none rest = rest
or_else (some c) rest = some c

module _ (api : MetaApi) {S : Type 0} (accessor : Accessor S) where
  -- `Get`
  unfoldable pub get : S → String → Option Condition
  get s condition_type = api.find_status_condition (accessor.get_conditions s) condition_type

  -- `Has`
  unfoldable pub has : S → String → Bool
  has s condition_type =
      elim (api.find_status_condition (accessor.get_conditions s) condition_type) [
        | none ↦ false
        | some c ↦ true
      ]

  -- `IsTrue`
  unfoldable pub is_true : S → String → Bool
  is_true s condition_type = api.is_status_condition_true (accessor.get_conditions s) condition_type

  -- `IsFalse`
  unfoldable pub is_false : S → String → Bool
  is_false s condition_type =
      api.is_status_condition_false (accessor.get_conditions s) condition_type

  -- The loop that `FirstFalse` and `FirstUnknown` share, but for the status that they test for.
  unfoldable pub first_with : (ConditionStatus → Bool) → S → List String → Option Condition
  unfolding get pass or_else
  first_with test s [] = none
  first_with test s (condition_type ∷ rest) =
      or_else (pass test (get s condition_type)) (first_with test s rest)

  -- `FirstFalse` and `FirstUnknown`
  unfoldable pub first_false : S → List String → Option Condition
  unfolding first_with
  first_false = first_with is_condition_false

  unfoldable pub first_unknown : S → List String → Option Condition
  unfolding first_with
  first_unknown = first_with is_condition_unknown

  -- What is read right after the conditions were written.
  pub get-write :
      (s : S) (cs : List Condition) (t : String)
      → IsLawful accessor s
      → get (accessor.set_conditions s cs) t ≡ api.find_status_condition cs t
  unfolding get
  get-write s cs t lawful = ap (λ l. api.find_status_condition l t) (lawful.get-set cs)
