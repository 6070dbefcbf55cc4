-- ===== src/Runtime/Tests.antt =====
-- Errors on concrete values.
use k8s_controller_lib.Prelude.{◌≡◌, refl, ◌↔◌, true, false, Option, some}
use k8s_controller_lib.Runtime.Errors.{
  GoError, plain, wrap, wrap_all, no_errors, and_error, stop, is_stop_error, any_stop_error, Wraps,
  is_stop_error-Wraps,
}

abbrev wrapped : GoError
wrapped =
    wrap_all "two errors"
      (and_error (plain "slow") (and_error (wrap "step 1" (stop (some (plain "quota")))) no_errors))

wrapped_stops : is_stop_error wrapped ≡ true
unfolding is_stop_error any_stop_error stop
wrapped_stops = refl

plain_goes_on : is_stop_error (wrap "step" (plain "quota")) ≡ false
unfolding is_stop_error
plain_goes_on = refl

is_stop_error-Wraps_example :
    (is_stop_error wrapped ≡ true) ↔ ((cause : Option GoError) × Wraps (stop cause) wrapped)
is_stop_error-Wraps_example = is_stop_error-Wraps wrapped
