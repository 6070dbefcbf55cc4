-- ===== src/Util/Text/Case.antt =====
-- pkg/util/strcase/strcase.go.
pub mod Laws
use k8s_controller_lib.Prelude.{
  ℕ, ◌+◌, Bool, true, false, not, ◌&&◌, List, [], ◌∷◌, ◌++◌, eqb, if◌then◌else◌,
}
use k8s_controller_lib.Util.Text.{Text, is_empty, between}

-- 'A' to 'Z', '_' and '-'
abbrev pub is_upper : ℕ → Bool
is_upper r = between 65 90 r

abbrev pub underscore : ℕ
underscore = 95

abbrev pub hyphen : ℕ
hyphen = 45

-- What `ToKebabCase` writes for a character. `first` is its `i == 0`.
unfoldable pub kebab_rune : Bool → Bool → ℕ → Text
kebab_rune first last_was_hyphen r =
    if is_upper r
    then (if not first && not last_was_hyphen then hyphen ∷ (r + 32) ∷ [] else (r + 32) ∷ [])
    else if eqb r underscore
    then hyphen ∷ []
    else r ∷ []

-- `lastWasHyphen` after a character
unfoldable pub is_hyphen_after : ℕ → Bool
is_hyphen_after r = if is_upper r then false else if eqb r underscore then true else eqb r hyphen

unfoldable pub kebab_loop : Bool → Bool → Text → Text
unfolding kebab_rune is_hyphen_after
kebab_loop first last_was_hyphen [] = []
kebab_loop first last_was_hyphen (r ∷ rs) =
    kebab_rune first last_was_hyphen r ++ kebab_loop false (is_hyphen_after r) rs

-- `ToKebabCase`
unfoldable pub to_kebab_case : Text → Text
unfolding kebab_loop
to_kebab_case s = if is_empty s then s else kebab_loop true false s

-- `ToSnakeCase`
unfoldable pub snake_rune : Bool → ℕ → Text
snake_rune first r =
    if is_upper r then (if not first then underscore ∷ (r + 32) ∷ [] else (r + 32) ∷ []) else r ∷ []

unfoldable pub snake_loop : Bool → Text → Text
unfolding snake_rune
snake_loop first [] = []
snake_loop first (r ∷ rs) = snake_rune first r ++ snake_loop false rs

unfoldable pub to_snake_case : Text → Text
unfolding snake_loop
to_snake_case s = if is_empty s then s else snake_loop true s
