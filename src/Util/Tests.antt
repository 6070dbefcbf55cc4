-- ===== src/Util/Tests.antt =====
-- The conversions on concrete values.
use k8s_controller_lib.Prelude.{◌≡◌, refl, All, ◌≤◌, arith}
use k8s_controller_lib.Prelude.Int.{pos, negsuc, ◌≤ℤ◌}
use k8s_controller_lib.Util.Text.{Text, runes}
use k8s_controller_lib.Util.Text.Case.{to_kebab_case, to_snake_case}
use k8s_controller_lib.Util.Text.Case.Laws.{NoSeparator, to_kebab_case-to_snake_case}
use k8s_controller_lib.Util.Conv.{
  max_int32, min_int32, safe_int32, safe_uint32, dist, conversions_nearest,
}

conversions_nearest_example :
    ((min_int32 ≤ℤ safe_int32 (pos 5000000000))
      × (safe_int32 (pos 5000000000) ≤ℤ max_int32)
      × (dist (safe_int32 (pos 5000000000)) (pos 5000000000) ≤ dist (negsuc 6) (pos 5000000000)))
    × ((safe_uint32 5000000000 ≤ 4294967295)
        × (dist (pos (safe_uint32 5000000000)) (pos 5000000000) ≤ dist (pos 7) (pos 5000000000)))
conversions_nearest_example =
    conversions_nearest (pos 5000000000) (negsuc 6) 5000000000 7 (omega arith) (omega arith)
      (omega arith)

abbrev log_level : Text
log_level = runes "LogLevel"

no_separators : All NoSeparator log_level
no_separators = (
  (refl, refl),
  (
    (refl, refl),
    (
      (refl, refl),
      ((refl, refl), ((refl, refl), ((refl, refl), ((refl, refl), ((refl, refl), tt))))),
    ),
  ),
)

to_kebab_case-to_snake_case_example :
    to_kebab_case (to_snake_case log_level) ≡ to_kebab_case log_level
to_kebab_case-to_snake_case_example = to_kebab_case-to_snake_case log_level no_separators
