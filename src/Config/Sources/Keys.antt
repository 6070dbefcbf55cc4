-- ===== src/Config/Sources/Keys.antt =====
-- config_support.go: the keys of a configuration struct.
use k8s_controller_lib.Prelude.{
  ◌≡◌, refl, sym, ap, ◌∙◌, Bool, true, false, List, [], ◌∷◌, ◌++◌, if◌then◌else◌,
}
use k8s_controller_lib.Util.Text.{Text, runes}
use k8s_controller_lib.Config.Fields.{
  Field, FieldValue, Struct, no_fields, value_field, struct_field,
}
use k8s_controller_lib.Config.Flags.{prefixed}
use k8s_controller_lib.Config.Sources.{
  ViperApi, has_no_key, is_value_type, default_value, set_defaults_recursive, set_defaults,
  bind_env_vars_recursive, bind_env_vars,
}

abbrev pub key_of : Field → Text → Text
key_of field prefix = prefixed prefix (runes ".") field.mapstructure_tag

-- The keys of one field: its own, or those of the struct in it
abbrev pub value_leaves : {D : Type 0} → Field → FieldValue D → Text → List (Text × FieldValue D)
value_leaves field v prefix = if has_no_key field then [] else (key_of field prefix, v) ∷ []

abbrev pub struct_leaves :
    {D : Type 0}
    → Field
    → FieldValue D
    → Text
    → List (Text × FieldValue D)
    → List (Text × FieldValue D)
struct_leaves field v prefix nested =
    if has_no_key field
    then []
    else if is_value_type field.type
    then (key_of field prefix, v) ∷ []
    else nested

-- The keys of a struct with their values, in the order of the fields: the tags from the outermost field
-- to the innermost, joined by dots. A field that is unexported, or that has no tag, has no key, and
-- neither has what is in it.
abbrev pub leaves : {D : Type 0} → Struct D → Text → List (Text × FieldValue D)
leaves no_fields prefix = []
leaves (value_field field v rest) prefix = value_leaves field v prefix ++ leaves rest prefix
leaves (struct_field field v inner rest) prefix =
    struct_leaves field v prefix (leaves inner (key_of field prefix)) ++ leaves rest prefix

-- A call for each, in order.
abbrev pub each : {A V : Type 0} → (A → V → V) → List A → V → V
each f [] viper = viper
each f (a ∷ rest) viper = each f rest (f a viper)

module _ {A V : Type 0} (f : A → V → V) where
  each-append : (xs ys : List A) (viper : V) → each f (xs ++ ys) viper ≡ each f ys (each f xs viper)
  each-append [] ys viper = refl
  each-append (x ∷ xs) ys viper = each-append xs ys (f x viper)

  each-if :
      (b : Bool) (xs ys : List A) (viper : V)
      → each f (if b then xs else ys) viper ≡ (if b then each f xs viper else each f ys viper)
  each-if true xs ys viper = refl
  each-if false xs ys viper = refl

module _ {V D M : Type 0} (api : ViperApi V D M) where
  -- What a walk does at one key
  abbrev pub Visit : Type 0
  Visit = Text × FieldValue D → V → V

  abbrev pub default_of : Visit
  default_of (key, v) viper = default_value api key v viper

  abbrev pub env_of : Visit
  env_of (key, v) viper = api.bind_env key viper

  -- A walk over one struct field, by what it does with the struct in it
  visit_struct :
      (f : Visit) (field : Field) (v : FieldValue D) (key : Text)
      (nested : List (Text × FieldValue D)) (inside : V) (viper : V)
      → inside ≡ each f nested viper
      → (if has_no_key field
          then viper
          else if is_value_type field.type
          then f (key, v) viper
          else inside)
        ≡ each f
            (if has_no_key field
              then []
              else if is_value_type field.type
              then (key, v) ∷ []
              else nested)
            viper
  visit_struct f field v key nested inside viper same =
      ap
        (λ z.
          if has_no_key field
          then viper
          else if is_value_type field.type
          then f (key, v) viper
          else z)
        same
      ∙ ap (λ z. if has_no_key field then viper else z)
          (sym (each-if f (is_value_type field.type) ((key, v) ∷ []) nested viper))
      ∙ sym (
          each-if f (has_no_key field) []
            (if is_value_type field.type then (key, v) ∷ [] else nested) viper)

  set_defaults_recursive_lem :
      (cfg : Struct D) (prefix : Text) (viper : V)
      → set_defaults_recursive api cfg prefix viper ≡ each default_of (leaves cfg prefix) viper
  unfolding set_defaults_recursive
  set_defaults_recursive_lem no_fields prefix viper = refl
  set_defaults_recursive_lem (value_field field v rest) prefix viper =
      set_defaults_recursive_lem rest prefix _
      ∙ ap (each default_of (leaves rest prefix))
          (sym (each-if default_of (has_no_key field) [] ((key_of field prefix, v) ∷ []) viper))
      ∙ sym (each-append default_of (value_leaves field v prefix) (leaves rest prefix) viper)
  set_defaults_recursive_lem (struct_field field v inner rest) prefix viper =
      set_defaults_recursive_lem rest prefix _
      ∙ ap (each default_of (leaves rest prefix)) (
          visit_struct default_of field v (key_of field prefix) (leaves inner (key_of field prefix))
            _ viper (set_defaults_recursive_lem inner (key_of field prefix) viper))
      ∙ sym (
          each-append default_of (struct_leaves field v prefix (leaves inner (key_of field prefix)))
            (leaves rest prefix) viper)

  bind_env_vars_recursive_lem :
      (cfg : Struct D) (prefix : Text) (viper : V)
      → bind_env_vars_recursive api cfg prefix viper ≡ each env_of (leaves cfg prefix) viper
  unfolding bind_env_vars_recursive
  bind_env_vars_recursive_lem no_fields prefix viper = refl
  bind_env_vars_recursive_lem (value_field field v rest) prefix viper =
      bind_env_vars_recursive_lem rest prefix _
      ∙ ap (each env_of (leaves rest prefix))
          (sym (each-if env_of (has_no_key field) [] ((key_of field prefix, v) ∷ []) viper))
      ∙ sym (each-append env_of (value_leaves field v prefix) (leaves rest prefix) viper)
  bind_env_vars_recursive_lem (struct_field field v inner rest) prefix viper =
      bind_env_vars_recursive_lem rest prefix _
      ∙ ap (each env_of (leaves rest prefix)) (
          visit_struct env_of field v (key_of field prefix) (leaves inner (key_of field prefix)) _
            viper (bind_env_vars_recursive_lem inner (key_of field prefix) viper))
      ∙ sym (
          each-append env_of (struct_leaves field v prefix (leaves inner (key_of field prefix)))
            (leaves rest prefix) viper)

  pub walks_lem :
      (cfg : Struct D) (viper : V)
      → (set_defaults api cfg viper ≡ each default_of (leaves cfg []) viper)
        × (bind_env_vars api cfg viper ≡ each env_of (leaves cfg []) viper)
  unfolding set_defaults bind_env_vars
  walks_lem cfg viper =
      (set_defaults_recursive_lem cfg [] viper, bind_env_vars_recursive_lem cfg [] viper)
