-- ===== src/Config/Sources.antt =====
-- pkg/config/config_support.go: the defaults, the environment variables, and the files.
pub mod Keys
pub mod Tagged
pub mod Names
pub mod Reading
pub mod Directory
pub mod FlagKeys
use k8s_controller_lib.Prelude.{
  String, Bool, true, false, not, ◌||◌, Option, none, some, List, [], ◌∷◌, ◌++◌, reverse, eqb,
  if◌then◌else◌,
}
use k8s_controller_lib.Runtime.Errors.{plain, wrap}
use k8s_controller_lib.Runtime.Exec.{Result, ok, err}
use k8s_controller_lib.Util.Text.{trim_space, Text, runes, is_empty}
use k8s_controller_lib.Config.Fields.{
  GoType, named, same_type, Field, FieldValue, Struct, no_fields, value_field, struct_field, no_tag,
}
use k8s_controller_lib.Config.Flags.{prefixed}

-- What the package uses of viper, of the file system and of path/filepath. `M` is the type of viper's
-- settings; the files do not change while they are read. `read_settings` is a new viper that reads a
-- file, with its `AllSettings`.
pub record ViperApi (V D M : Type 0) : Type 0 where
  pub set_default : Text → D → V → V
  pub bind_env : Text → V → V
  pub set : Text → Text → V → V
  pub merge_config_map : M → V → Result (Unit {0}) × V
  pub set_config_file : Text → V → V
  pub read_in_config : V → Result (Unit {0}) × V
  pub read_settings : Text → Result M
  pub stat : Text → Result Bool
  pub read_dir : Text → Result (List (Text × Bool))
  pub read_file : Text → Result Text
  pub join : Text → Text → Text
  pub base : Text → Text
  pub ext : Text → Text

-- `isValueType`
unfoldable pub is_value_type : GoType → Bool
is_value_type type =
    same_type type (named "time.Time")
    || same_type type (named "time.Duration")
    || same_type type (named "url.URL")
    || same_type type (named "net.IP")

-- `strings.TrimSuffix`, on the reversed texts, and `strings.HasPrefix(name, ".")`
unfoldable pub strip_prefix : Text → Text → Option Text
strip_prefix [] s = some s
strip_prefix (p ∷ ps) [] = none
strip_prefix (p ∷ ps) (r ∷ rs) = let rest = strip_prefix ps rs in if eqb p r then rest else none

unfoldable pub or_whole : Text → Option Text → Text
or_whole s none = s
or_whole s (some rest) = reverse rest

unfoldable pub trim_suffix : Text → Text → Text
unfolding strip_prefix or_whole
trim_suffix s suffix = or_whole s (strip_prefix (reverse suffix) (reverse s))

unfoldable pub is_hidden : Text → Bool
is_hidden [] = false
is_hidden (r ∷ rs) = eqb r 46

-- The fields that both walks pass by
unfoldable pub has_no_key : Field → Bool
has_no_key field = not field.is_exported || no_tag field.mapstructure_tag

-- The end of `loadFromDirectory`
unfoldable pub end_loop : Bool → Result (Unit {0})
end_loop loaded =
    if not loaded then err (plain "no configuration files found in directory") else ok tt

module _ {V D M : Type 0} (api : ViperApi V D M) where
  unfoldable pub default_value : Text → FieldValue D → V → V
  default_value key v viper = if v.is_zero then viper else api.set_default key v.value viper

  -- `setDefaultsRecursive`
  unfoldable pub set_defaults_recursive : Struct D → Text → V → V
  unfolding default_value has_no_key is_value_type
  set_defaults_recursive no_fields prefix viper = viper
  set_defaults_recursive (value_field field v rest) prefix viper =
      set_defaults_recursive rest prefix (
        if has_no_key field
        then viper
        else default_value (prefixed prefix (runes ".") field.mapstructure_tag) v viper)
  set_defaults_recursive (struct_field field v inner rest) prefix viper =
      let nested =
        set_defaults_recursive inner (prefixed prefix (runes ".") field.mapstructure_tag) viper in
      set_defaults_recursive rest prefix (
        if has_no_key field
        then viper
        else if is_value_type field.type
        then default_value (prefixed prefix (runes ".") field.mapstructure_tag) v viper
        else nested)

  -- `setDefaults`
  unfoldable pub set_defaults : Struct D → V → V
  unfolding set_defaults_recursive
  set_defaults cfg viper = set_defaults_recursive cfg [] viper

  -- `bindEnvVarsRecursive` and `bindEnvVars`; the error of `BindEnv` is dropped.
  unfoldable pub bind_env_vars_recursive : Struct D → Text → V → V
  unfolding has_no_key is_value_type
  bind_env_vars_recursive no_fields prefix viper = viper
  bind_env_vars_recursive (value_field field v rest) prefix viper =
      bind_env_vars_recursive rest prefix (
        if has_no_key field
        then viper
        else api.bind_env (prefixed prefix (runes ".") field.mapstructure_tag) viper)
  bind_env_vars_recursive (struct_field field v inner rest) prefix viper =
      let nested =
        bind_env_vars_recursive inner (prefixed prefix (runes ".") field.mapstructure_tag) viper in
      bind_env_vars_recursive rest prefix (
        if has_no_key field
        then viper
        else if is_value_type field.type
        then api.bind_env (prefixed prefix (runes ".") field.mapstructure_tag) viper
        else nested)

  unfoldable pub bind_env_vars : Struct D → V → V
  unfolding bind_env_vars_recursive
  bind_env_vars cfg viper = bind_env_vars_recursive cfg [] viper

  -- `loadFromFile`
  unfoldable pub read_answer : Result (Unit {0}) × V → Result (Unit {0}) × V
  read_answer (ok x, viper) = (ok tt, viper)
  read_answer (err e, viper) = (err (wrap "failed to read config file" e), viper)

  unfoldable pub load_from_file : Text → V → Result (Unit {0}) × V
  unfolding read_answer
  load_from_file path viper = read_answer (api.read_in_config (api.set_config_file path viper))

  -- `loadSimpleFile`
  unfoldable pub simple_key : Text → Text
  unfolding trim_suffix
  simple_key filename =
      let key = trim_suffix filename (api.ext filename) in if is_empty key then filename else key

  unfoldable pub simple_content : Text → V → Result Text → Result (Unit {0}) × V
  unfolding simple_key trim_space
  simple_content path viper (err e) = (err (wrap "failed to read file" e), viper)
  simple_content path viper (ok content) =
      (ok tt, api.set (simple_key (api.base path)) (trim_space content) viper)

  unfoldable pub load_simple_file : Text → V → Result (Unit {0}) × V
  unfolding simple_content
  load_simple_file path viper = simple_content path viper (api.read_file path)

  -- One turn of the loop of `loadFromDirectory`: an error of the merge, or else whether the file was
  -- loaded.
  unfoldable pub simple_turn : Result (Unit {0}) × V → Result Bool × V
  simple_turn (ok x, viper) = (ok true, viper)
  simple_turn (err e, viper) = (ok false, viper)

  unfoldable pub merged_turn : Result (Unit {0}) × V → Result Bool × V
  merged_turn (ok x, viper) = (ok true, viper)
  merged_turn (err e, viper) = (err (wrap "failed to merge config" e), viper)

  unfoldable pub load_turn : Text → V → Result M → Result Bool × V
  unfolding simple_turn merged_turn load_simple_file
  load_turn path viper (err e) = simple_turn (load_simple_file path viper)
  load_turn path viper (ok settings) = merged_turn (api.merge_config_map settings viper)

  unfoldable pub go_on :
      Bool → (Bool → V → Result (Unit {0}) × V) → Result Bool × V → Result (Unit {0}) × V
  go_on loaded next (err e, viper) = (err e, viper)
  go_on loaded next (ok now, viper) = next (loaded || now) viper

  unfoldable pub load_entries : Text → List (Text × Bool) → Bool → V → Result (Unit {0}) × V
  unfolding load_turn go_on end_loop is_hidden
  load_entries dir [] loaded viper = (end_loop loaded, viper)
  load_entries dir ((name, is_dir) ∷ entries) loaded viper =
      let path = api.join dir name in
      go_on loaded (load_entries dir entries) (
        if is_dir || is_hidden name
        then (ok false, viper)
        else load_turn path viper (api.read_settings path))

  -- `loadFromDirectory`
  unfoldable pub load_listing : Text → V → Result (List (Text × Bool)) → Result (Unit {0}) × V
  unfolding load_entries
  load_listing dir viper (err e) = (err (wrap "failed to read directory" e), viper)
  load_listing dir viper (ok entries) = load_entries dir entries false viper

  unfoldable pub load_from_directory : Text → V → Result (Unit {0}) × V
  unfolding load_listing
  load_from_directory dir viper = load_listing dir viper (api.read_dir dir)

  -- `loadFromPath`
  unfoldable pub load_stat : Text → V → Result Bool → Result (Unit {0}) × V
  unfolding load_from_directory load_from_file
  load_stat path viper (err e) = (err (wrap "failed to stat config path" e), viper)
  load_stat path viper (ok is_dir) =
      if is_dir then load_from_directory path viper else load_from_file path viper

  unfoldable pub load_from_path : Text → V → Result (Unit {0}) × V
  unfolding load_stat
  load_from_path path viper = load_stat path viper (api.stat path)
