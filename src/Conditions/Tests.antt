-- ===== src/Conditions/Tests.antt =====
-- Conditions on concrete values, and the theorems on them at inputs that meet their hypotheses.
use k8s_controller_lib.Prelude.{◌≡◌, refl, none, some, List, [], ◌∷◌}
use mathlib.Core.Option
use k8s_controller_lib.Prelude.Int.{pos}
use k8s_controller_lib.Util.{apply_options}
use k8s_controller_lib.Conditions.Api.{
  Condition, condition_true, condition_false, condition_unknown, is_condition_false,
  is_condition_unknown,
}
use k8s_controller_lib.Conditions.Options.{ConditionOption, no_options, with_reason, with_message}
use k8s_controller_lib.Conditions.Accessors.{Status, status_accessor, status_accessor-IsLawful}
use k8s_controller_lib.Conditions.Set.{build_condition, set, remove}
use k8s_controller_lib.Conditions.Find.{get, first_false, first_unknown}
use k8s_controller_lib.Conditions.Laws.{
  Reports, get_after, FirstPassing, first_failing-FirstPassing,
}
use k8s_controller_lib.Conditions.Manager.{
  ConditionManager, Verdict, new_manager, positive_polarity, negative_polarity, compute,
}
use k8s_controller_lib.Conditions.Manager.Summary.{Summary, ReportsVerdict, compute-Summary}
use k8s_controller_lib.Conditions.Sample.{listed}

abbrev fresh : Status
fresh = record { observed_generation = pos 0; conditions = [] }

abbrev options : List ConditionOption
options = with_reason "Down" ∷ with_message "disk" ∷ with_reason "Full" ∷ []

-- `Available` is True, and `Degraded` too.
abbrev degraded : Status
degraded =
    set listed status_accessor 5
      (set listed status_accessor 5 fresh "Available" condition_true options) "Degraded"
      condition_true options

last_reason_wins :
    Option.map (λ (c : Condition). c.reason) (get listed status_accessor degraded "Degraded")
    ≡ some "Full"
unfolding set get build_condition apply_options
last_reason_wins = refl

-- One healthy contributor, one unhealthy, one that nobody reports.
abbrev manager : ConditionManager
manager =
    new_manager "Ready" (
      positive_polarity "Available"
      ∷ negative_polarity "Degraded"
      ∷ positive_polarity "Synced"
      ∷ [])

-- The contributor that is missing stands behind the one that is unhealthy, and is not seen.
abbrev computed : Status
computed = compute listed status_accessor 6 manager degraded (pos 2)

computed_reason :
    Option.map (λ (c : Condition). c.reason) (get listed status_accessor computed "Ready")
    ≡ some "Full"
unfolding compute set get build_condition apply_options
computed_reason = refl

computed_status :
    Option.map (λ (c : Condition). c.status) (get listed status_accessor computed "Ready")
    ≡ some condition_false
unfolding compute set get build_condition apply_options
computed_status = refl

compute-Summary_example :
    ((v : Verdict) × Summary (get listed status_accessor degraded) manager.contributors v
      × ReportsVerdict (get listed status_accessor computed "Ready") v (pos 2))
    × (get listed status_accessor computed "Degraded"
        ≡ get listed status_accessor degraded "Degraded")
compute-Summary_example =
    compute-Summary listed status_accessor 6 manager degraded (pos 2) "Degraded"
      (status_accessor-IsLawful degraded) refl

get_after_example :
    ((found : Condition) × (get listed status_accessor
          (set listed status_accessor 5 computed "Available" condition_unknown options)
          "Available"
        ≡ some found)
      × Reports found "Available" condition_unknown (apply_options options no_options))
    × (get listed status_accessor
          (set listed status_accessor 5 computed "Available" condition_unknown options)
          "Ready"
        ≡ get listed status_accessor computed "Ready")
    × (get listed status_accessor (remove listed status_accessor 5 computed "Available") "Available"
        ≡ none)
    × (get listed status_accessor (remove listed status_accessor 5 computed "Available") "Ready"
        ≡ get listed status_accessor computed "Ready")
get_after_example =
    get_after listed status_accessor 5 computed (status_accessor-IsLawful computed) "Available"
      condition_unknown options "Ready" refl

first_failing-FirstPassing_example :
    FirstPassing is_condition_false
      (get listed status_accessor computed)
      ("Available" ∷ "Ready" ∷ [])
      (first_false listed status_accessor computed ("Available" ∷ "Ready" ∷ []))
    × FirstPassing is_condition_unknown
        (get listed status_accessor computed)
        ("Available" ∷ "Ready" ∷ [])
        (first_unknown listed status_accessor computed ("Available" ∷ "Ready" ∷ []))
first_failing-FirstPassing_example =
    first_failing-FirstPassing listed status_accessor computed ("Available" ∷ "Ready" ∷ [])
