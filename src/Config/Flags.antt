-- ===== src/Config/Flags.antt =====
-- pkg/config/flags/flags.go: the flag of a field, by its tag and its name. Registry is registry.go, Bind
-- the walk over a struct.
pub mod Registry
pub mod Bind
use k8s_controller_lib.Prelude.{
  ℕ, String, Bool, true, false, not, ◌&&◌, ◌||◌, Option, none, some, List, [], ◌∷◌, ◌++◌, reverse,
  eqb, if◌then◌else◌,
}
use k8s_controller_lib.Runtime.Errors.{plain, wrap}
use k8s_controller_lib.Runtime.Exec.{Result, ok, err}
use k8s_controller_lib.Util.Text.{Text, trim_space, runes, is_empty, same_text, between}
use k8s_controller_lib.Util.Text.Case.{to_kebab_case, to_snake_case}
use k8s_controller_lib.Config.Fields.{Field, dash, no_tag}

-- `Metadata`
pub record Metadata : Type 0 where
  pub name : Text
  pub description : Text
  pub skip : Bool

-- `strings.SplitN(tag, ",", 2)`: what is before the first comma, and what is after it if there is one.
unfoldable pub split_comma : Text → Text × Option Text
split_comma [] = ([], none)
split_comma (r ∷ rs) =
    let (before, after) = split_comma rs in if eqb r 44 then ([], some rs) else (r ∷ before, after)

-- A lower-case or upper-case letter, a digit or a hyphen
unfoldable pub is_flag_rune : ℕ → Bool
is_flag_rune ch = between 97 122 ch || between 65 90 ch || between 48 57 ch || eqb ch 45

unfoldable pub valid_runes : Text → Bool
unfolding is_flag_rune
valid_runes [] = true
valid_runes (ch ∷ rest) = is_flag_rune ch && valid_runes rest

abbrev pub description_of : Option Text → Text
description_of none = []
description_of (some s) = trim_space s

-- `ParseTag`, from the split on
unfoldable pub parse_parts : Text × Option Text → Result Metadata
unfolding trim_space valid_runes
parse_parts (first, second) =
    let name = trim_space first in
    if is_empty name
    then err (plain "flag name cannot be empty")
    else if not (valid_runes name)
    then err (plain "invalid flag name: must contain only alphanumeric characters and hyphens")
    else ok (record { name = name; description = description_of second; skip = false })

unfoldable pub parse_tag : Text → Result Metadata
unfolding parse_parts split_comma
parse_tag tag =
    if same_text tag dash
    then ok (record { name = []; description = []; skip = true })
    else parse_parts (split_comma tag)

-- `prefix + separator + name`, or the name if the prefix is empty
abbrev pub prefixed : Text → Text → Text → Text
prefixed [] separator name = name
prefixed (r ∷ rs) separator name = (r ∷ rs) ++ separator ++ name

-- The prefix of the flags in a struct field
unfoldable pub nested_prefix : Field → Text → Text → Text
unfolding to_kebab_case
nested_prefix field prefix separator = prefixed prefix separator (to_kebab_case field.name)

-- `GetFlagName`, from the parsed tag on; `none` where the field is not to be bound.
unfoldable pub name_of_tag : Text → Text → Result Metadata → Result (Option Text)
name_of_tag prefix separator (err e) = err (wrap "invalid flag tag for field" e)
name_of_tag prefix separator (ok meta) =
    if meta.skip
    then ok none
    else if is_empty meta.name
    then ok none
    else ok (some (prefixed prefix separator meta.name))

unfoldable pub get_flag_name : Field → Text → Text → Result (Option Text)
unfolding name_of_tag parse_tag to_kebab_case
get_flag_name field prefix separator =
    if is_empty field.flag_tag
    then ok (some (prefixed prefix separator (to_kebab_case field.name)))
    else name_of_tag prefix separator (parse_tag field.flag_tag)

-- `GetConfigKey`
unfoldable pub get_config_key : Field → Text → Text
unfolding to_snake_case
get_config_key field prefix =
    prefixed prefix (runes ".")
      (if no_tag field.mapstructure_tag then to_snake_case field.name else field.mapstructure_tag)

-- `GetDescription`
unfoldable pub description_of_tag : Result Metadata → Text
description_of_tag (err e) = []
description_of_tag (ok meta) = meta.description

unfoldable pub get_description : Field → Text
unfolding description_of_tag parse_tag
get_description field =
    if no_tag field.flag_tag then [] else description_of_tag (parse_tag field.flag_tag)

-- `FlagBindingMetadata`; there is none where `ShouldBind` is false.
pub record FlagBindingMetadata : Type 0 where
  pub flag_name : Text
  pub config_key : Text
  pub description : Text

-- `ExtractFlagMetadata`
unfoldable pub extract : Field → Text → Result (Option Text) → Result (Option FlagBindingMetadata)
unfolding get_config_key get_description
extract field prefix (err e) = err e
extract field prefix (ok none) = ok none
extract field prefix (ok (some flag_name)) = ok (
    some (record {
      flag_name = flag_name;
      config_key = get_config_key field prefix;
      description = get_description field;
    }))

unfoldable pub extract_flag_metadata : Field → Text → Text → Result (Option FlagBindingMetadata)
unfolding extract get_flag_name
extract_flag_metadata field prefix separator =
    extract field prefix (get_flag_name field prefix separator)
