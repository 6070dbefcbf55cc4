-- ===== src/Config/Tests.antt =====
-- A small configuration struct, with a flag set that is the list of its names and a viper that is the list
-- of its settings.
use k8s_controller_lib.Prelude.{
  String, ◌≡◌, ◌≢◌, refl, ap, sym, Option, none, ◌⊎◌, ◌↔◌, Bool, true, false, ◌||◌, some, List, [],
  ◌∷◌, if◌then◌else◌,
}
use k8s_controller_lib.Runtime.Errors.{GoError, plain, wrap}
use k8s_controller_lib.Runtime.Exec.{ok, err}
use k8s_controller_lib.Util.Text.{Text, runes, same_text}
use k8s_controller_lib.Config.Fields.{
  named, Field, FieldValue, Struct, no_fields, value_field, struct_field,
}
use k8s_controller_lib.Util.Text.Case.{to_kebab_case, kebab_loop, kebab_rune, is_hyphen_after}
use k8s_controller_lib.Config.Flags.{nested_prefix, get_flag_name, get_config_key}
use k8s_controller_lib.Config.Sources.FlagKeys.{nested_flag_key}
use k8s_controller_lib.Config.Flags.Registry.{FlagApi, FlagLaws}
use k8s_controller_lib.Config.Flags.Bind.{BindState, is_skipped, bind_struct}
use k8s_controller_lib.Config.Flags.Bind.Declared.{declared_flags, Distinct}
use k8s_controller_lib.Config.Flags.Bind.Parts.{Unused}
use k8s_controller_lib.Config.Flags.Bind.Distinct.{bind_struct_iff}
use k8s_controller_lib.Config.Sources.{ViperApi, set_defaults, bind_env_vars, load_from_directory}
use k8s_controller_lib.Config.Sources.Keys.{key_of}
use k8s_controller_lib.Config.Sources.Tagged.{TaggedKeys, Defaults, bind_each, config_keys}
use k8s_controller_lib.Config.Sources.Names.{Listed}
use k8s_controller_lib.Config.Sources.Directory.{ReadsAll, MergeFails, load_from_directory_cases}

abbrev Names : Type 0
Names = List Text

abbrev named_in : Text → Names → Bool
named_in name [] = false
named_in name (n ∷ names) = same_text n name || named_in name names

abbrev field : String → String → Field
field name tag = record {
  name = runes name;
  type = named "string";
  is_exported = true;
  flag_tag = [];
  mapstructure_tag = runes tag;
}

abbrev value : FieldValue Text
value = record { is_zero = false; value = runes "v" }

abbrev server : Struct Text
server = value_field (field "LogLevel" "log_level") value (
    struct_field (field "Server" "server") value (value_field (field "Port" "port") value no_fields)
      no_fields)

abbrev flag_api : FlagApi Names Names Text
flag_api = record {
  add_flag = λ kind name v description fs. if named_in name fs then none else some (name ∷ fs);
  lookup = named_in;
  bind_pflag = λ key flag viper. (ok tt, key ∷ viper);
  format_rfc3339 = λ v. v;
  format_text = λ v. v;
  format_any = λ v. v;
  deref = λ v. some v;
  zero = λ type. [];
  implements_text_unmarshaler = λ type. false;
}

if_new :
    (b : Bool) (names : Names)
    → b ≡ false
    → ◌≢◌ {A = Option Names} (if b then none else some names) none
if_new true names e = cc e
if_new false names e = λ h. cc h

if_added :
    (b : Bool) (names names1 : Names)
    → ◌≡◌ {A = Option Names} (if b then none else some names) (some names1)
    → names ≡ names1
if_added true names names1 e = cc e
if_added false names names1 e = cc e

flag_laws : FlagLaws flag_api
flag_laws = record {
  add_flag-new = λ kind name v description fs new. if_new (named_in name fs) (name ∷ fs) new;
  lookup-add_flag = λ kind name v description fs fs1 n e.
      ap (named_in n) (sym (if_added (named_in name fs) (name ∷ fs) fs1 e));
  bind_pflag_ok = λ key flag viper. (key ∷ viper, refl);
}

server-Unused :
    Unused flag_api flag_laws (runes "config" ∷ []) (declared_flags server [] (runes "-"))
unfolding get_flag_name to_kebab_case kebab_loop kebab_rune is_hyphen_after is_skipped nested_prefix
server-Unused = (refl, (refl, tt))

bind_struct_iff_example :
    ((s1 : BindState Names Names) × (bind_struct flag_api server []
          (runes "-")
          (runes "config" ∷ [])
          []
        ≡ some (ok tt, s1)))
    ↔ ((flags : List (Text × Text)) × (declared_flags server [] (runes "-") ≡ some flags)
        × Distinct flags)
bind_struct_iff_example =
    bind_struct_iff flag_api flag_laws (runes "config" ∷ []) server [] (runes "-") [] server-Unused

-- A directory with a hidden file, a file of settings and a text.
abbrev viper_api : ViperApi Names Text Text
viper_api = record {
  set_default = λ key v viper. key ∷ viper;
  bind_env = λ key viper. key ∷ viper;
  set = λ key content viper. key ∷ content ∷ viper;
  merge_config_map = λ settings viper. (ok tt, settings ∷ viper);
  set_config_file = λ path viper. viper;
  read_in_config = λ viper. (ok tt, viper);
  read_settings =
      λ path. if same_text path (runes "a.yaml") then ok (runes "a") else err (plain "no settings");
  stat = λ path. ok true;
  read_dir =
      λ dir. ok ((runes ".hidden", false) ∷ (runes "a.yaml", false) ∷ (runes "port", false) ∷ []);
  read_file = λ path. ok (runes " 80 ");
  join = λ dir name. name;
  base = λ path. path;
  ext = λ path. [];
}

config_keys_example :
    (keys : List (Text × FieldValue Text)) × TaggedKeys server [] keys
    × Defaults viper_api keys [] (set_defaults viper_api server [])
    × (bind_env_vars viper_api server [] ≡ bind_each viper_api keys [])
config_keys_example = config_keys viper_api server []

load_from_directory_cases_example :
    ((e : GoError) × (viper_api.read_dir (runes "dir") ≡ err e)
      × (load_from_directory viper_api (runes "dir") []
          ≡ (err (wrap "failed to read directory" e), [])))
    ⊎ ((entries : List (Text × Bool)) × (paths : List Text) × (viper_api.read_dir (runes "dir")
          ≡ ok entries)
        × Listed viper_api (runes "dir") entries paths
        × (ReadsAll viper_api paths [] (load_from_directory viper_api (runes "dir") [])
            ⊎ MergeFails viper_api paths [] (load_from_directory viper_api (runes "dir") [])))
load_from_directory_cases_example = load_from_directory_cases viper_api (runes "dir") []

-- A struct field `LogFormat` whose tag is not its name in kebab case
abbrev log_format : Field
log_format = field "LogFormat" "log_format"

nested_flag_key_example :
    (get_config_key (field "Level" "level") (nested_prefix log_format [] (runes "-"))
      ≡ key_of (field "Level" "level") (key_of log_format []))
    ↔ (to_kebab_case log_format.name ≡ log_format.mapstructure_tag)
nested_flag_key_example = nested_flag_key log_format (field "Level" "level") (runes "-") refl
