-- ===== src/Conditions/Set.antt =====
-- pkg/conditions/conditions.go and helpers.go: the functions that write conditions.
use k8s_controller_lib.Prelude.{ℕ, String, List, [], ◌∷◌, ◌==◌, if◌then◌else◌}
use k8s_controller_lib.Prelude.Int.{pos, is_zero}
use k8s_controller_lib.Util.{apply_options}
use k8s_controller_lib.Conditions.Api.{
  MetaApi, Condition, ConditionStatus, condition_true, condition_false, condition_unknown,
}
use k8s_controller_lib.Conditions.Options.{ConditionOption, no_options, with_reason, with_message}
use k8s_controller_lib.Conditions.Accessors.{Accessor}

-- The condition that `Set` builds: the options are copied where they are not zero.
unfoldable pub build_condition : String → ConditionStatus → List ConditionOption → Condition
build_condition condition_type status opts =
    let o = apply_options opts no_options in
    record {
      type = condition_type;
      status = status;
      reason = if o.reason == "" then "" else o.reason;
      message = if o.message == "" then "" else o.message;
      observed_generation = if is_zero o.observed_generation then pos 0 else o.observed_generation;
      last_transition_time = 0;
    }

module _ (api : MetaApi) {S : Type 0} (accessor : Accessor S) (now : ℕ) where
  -- `Set`; the target is what the accessor writes to.
  unfoldable pub set : S → String → ConditionStatus → List ConditionOption → S
  set s condition_type status opts = accessor.set_conditions s (
      api.set_status_condition now (accessor.get_conditions s)
        (build_condition condition_type status opts))

  unfoldable pub mark_true : S → String → List ConditionOption → S
  unfolding set
  mark_true s condition_type opts = set s condition_type condition_true opts

  unfoldable pub mark_false : S → String → List ConditionOption → S
  unfolding set
  mark_false s condition_type opts = set s condition_type condition_false opts

  unfoldable pub mark_unknown : S → String → List ConditionOption → S
  unfolding set
  mark_unknown s condition_type opts = set s condition_type condition_unknown opts

  -- helpers.go
  unfoldable pub mark_available : S → String → S
  unfolding mark_true
  mark_available s reason = mark_true s "Available" (with_reason reason ∷ [])

  unfoldable pub mark_progressing : S → String → String → S
  unfolding mark_true
  mark_progressing s reason message =
      mark_true s "Progressing" (with_reason reason ∷ with_message message ∷ [])

  unfoldable pub mark_degraded : S → String → String → S
  unfolding mark_true
  mark_degraded s reason message =
      mark_true s "Degraded" (with_reason reason ∷ with_message message ∷ [])

  -- `Remove`
  unfoldable pub remove : S → String → S
  remove s condition_type =
      accessor.set_conditions s
        (api.remove_status_condition (accessor.get_conditions s) condition_type)
