-- ===== src/Conditions/Manager.antt =====
-- pkg/conditions/manager.go: the condition that sums up a list of others.
pub mod Summary
use k8s_controller_lib.Prelude.{
  ℕ, String, concat, Bool, true, false, Option, none, some, List, [], ◌∷◌, if◌then◌else◌,
}
use k8s_controller_lib.Prelude.Int.{ℤ}
use k8s_controller_lib.Conditions.Api.{
  MetaApi, Condition, ConditionStatus, condition_true, condition_false, condition_unknown,
  is_condition_true, is_condition_false,
}
use k8s_controller_lib.Conditions.Options.{ConditionOption}
use k8s_controller_lib.Conditions.Accessors.{Accessor}
use k8s_controller_lib.Conditions.Set.{set}
use k8s_controller_lib.Conditions.Find.{get}

pub record Contributor : Type 0 where
  pub type : String
  pub negative : Bool

-- `PositivePolarity` and `NegativePolarity`
abbrev pub positive_polarity : String → Contributor
positive_polarity condition_type = record { type = condition_type; negative = false }

abbrev pub negative_polarity : String → Contributor
negative_polarity condition_type = record { type = condition_type; negative = true }

-- `Manager`
pub record ConditionManager : Type 0 where
  pub target : String
  pub contributors : List Contributor

abbrev pub new_manager : String → List Contributor → ConditionManager
new_manager target contributors = record { target = target; contributors = contributors }

-- The variables `status`, `reason` and `message` of `Compute`.
pub record Verdict : Type 0 where
  pub status : ConditionStatus
  pub reason : String
  pub message : String

abbrev pub all_met : Verdict
all_met = record { status = condition_true; reason = "Ready"; message = "All conditions met" }

abbrev pub not_reported : Contributor → Verdict
not_reported c = record {
  status = condition_unknown;
  reason = "ConditionMissing";
  message = concat c.type " not yet reported";
}

unfoldable pub healthy : Contributor → Condition → Bool
healthy c found =
    if c.negative then is_condition_false found.status else is_condition_true found.status

-- One round of the loop of `Compute`; `later` is what the rounds after it would give. A contributor
-- that is missing or unhealthy ends the loop.
unfoldable pub round_verdict : Contributor → Option Condition → Verdict → Verdict
unfolding healthy
round_verdict c none later = not_reported c
round_verdict c (some found) later =
    if healthy c found
    then later
    else record { status = condition_false; reason = found.reason; message = found.message }

unfoldable pub verdict : (String → Option Condition) → List Contributor → Verdict
unfolding round_verdict
verdict look [] = all_met
verdict look (c ∷ rest) = round_verdict c (look c.type) (verdict look rest)

module _ (api : MetaApi) {S : Type 0} (accessor : Accessor S) (now : ℕ) where
  -- `Compute`
  unfoldable pub compute : ConditionManager → S → ℤ → S
  unfolding verdict get
  compute m s generation =
      let v = verdict (get api accessor s) m.contributors in
      accessor.set_conditions s (
        api.set_status_condition now (accessor.get_conditions s) (record {
          type = m.target;
          status = v.status;
          reason = v.reason;
          message = v.message;
          observed_generation = generation;
          last_transition_time = 0;
        }))

  -- `Manager.MarkTrue`, `MarkFalse` and `MarkUnknown`
  unfoldable pub manager_mark_true : ConditionManager → S → String → List ConditionOption → S
  manager_mark_true m s condition_type opts =
      set api accessor now s condition_type condition_true opts

  unfoldable pub manager_mark_false : ConditionManager → S → String → List ConditionOption → S
  manager_mark_false m s condition_type opts =
      set api accessor now s condition_type condition_false opts

  unfoldable pub manager_mark_unknown : ConditionManager → S → String → List ConditionOption → S
  manager_mark_unknown m s condition_type opts =
      set api accessor now s condition_type condition_unknown opts
