-- ===== src/Conditions/Options.antt =====
-- pkg/conditions/conditions_opts.go: what a caller may say beside the type and the status.
use k8s_controller_lib.Prelude.{String, ◌==◌, if◌then◌else◌}
use k8s_controller_lib.Prelude.Int.{ℤ, pos, is_zero}
use k8s_controller_lib.Util.{Setting}

pub record ConditionOptions : Type 0 where
  pub reason : String
  pub message : String
  pub observed_generation : ℤ

-- `&ConditionOptions{}`
abbrev pub no_options : ConditionOptions
no_options = record { reason = ""; message = ""; observed_generation = pos 0 }

-- `ApplyTo` of `ConditionOptions`: each field that is not zero is copied.
unfoldable pub apply_to : ConditionOptions → ConditionOptions → ConditionOptions
apply_to o target = record {
  reason = if o.reason == "" then target.reason else o.reason;
  message = if o.message == "" then target.message else o.message;
  observed_generation =
      if is_zero o.observed_generation then target.observed_generation else o.observed_generation;
}

abbrev pub ConditionOption : Type 0
ConditionOption = Setting ConditionOptions

-- `ConditionOptions` is an option itself.
abbrev pub from_options : ConditionOptions → ConditionOption
from_options o = record { apply_to = apply_to o }

abbrev pub with_reason : String → ConditionOption
with_reason reason = record { apply_to = λ opts. record opts { reason = reason } }

abbrev pub with_message : String → ConditionOption
with_message message = record { apply_to = λ opts. record opts { message = message } }

abbrev pub with_observed_generation : ℤ → ConditionOption
with_observed_generation generation = record {
  apply_to = λ opts. record opts { observed_generation = generation };
}
