-- ===== src/Config/Flags/Bind.antt =====
-- pkg/config/flags/flags.go: `BindStruct`, the walk over a struct.
pub mod Declared
pub mod Tracked
pub mod Parts
pub mod Distinct
use k8s_controller_lib.Prelude.{
  Bool, true, false, not, ◌||◌, Option, none, some, List, [], ◌∷◌, ◌++◌, if◌then◌else◌,
}
use k8s_controller_lib.Runtime.Errors.{plain, wrap}
use k8s_controller_lib.Runtime.Exec.{Result, ok, err}
use k8s_controller_lib.Util.Text.{Text, runes, is_empty, same_text}
use k8s_controller_lib.Util.Text.Case.{to_kebab_case}
use k8s_controller_lib.Config.Fields.{
  Field, FieldValue, Struct, no_fields, value_field, struct_field, dash,
}
use k8s_controller_lib.Config.Flags.{
  FlagBindingMetadata, extract_flag_metadata, prefixed, nested_prefix,
}
use k8s_controller_lib.Config.Flags.Registry.{
  FlagApi, FlagBinder, AnyValue, Attempt, get, default_registry,
}

-- The flag set, the viper and the map of the seen flags, in the order of their entries.
pub record BindState (F V : Type 0) : Type 0 where
  pub flag_set : F
  pub viper : V
  pub seen_flags : List (Text × Text)

-- `existingField, exists := seenFlags[name]`
unfoldable pub has_seen : Text → List (Text × Text) → Bool
has_seen name [] = false
has_seen name ((flag_name, field_name) ∷ rest) = same_text flag_name name || has_seen name rest

-- The fields that the loop passes by
unfoldable pub is_skipped : Field → Bool
is_skipped field = not field.is_exported || same_text field.flag_tag dash

module _ {F V D : Type 0} (api : FlagApi F V D) where
  -- `none` is a panic of pflag.
  abbrev pub Bound : Type 0
  Bound = Attempt (BindState F V)

  -- `bindField`: whether the field was bound
  unfoldable pub is_bound : Attempt F → Option (Bool × F)
  is_bound none = none
  is_bound (some (ok x, fs)) = some (true, fs)
  is_bound (some (err e, fs)) = some (false, fs)

  unfoldable pub bind_with :
      Option (FlagBinder F D) → Field → FieldValue D → FlagBindingMetadata → F → Option (Bool × F)
  unfolding is_bound
  bind_with none field v meta fs = some (false, fs)
  bind_with (some binder) field v meta fs =
      is_bound
        (binder meta.flag_name (record { type = field.type; value = v.value }) meta.description fs)

  unfoldable pub bind_field : Field → FieldValue D → FlagBindingMetadata → F → Option (Bool × F)
  unfolding bind_with get default_registry
  bind_field field v meta fs = bind_with (get api field.type (default_registry api)) field v meta fs

  -- The answer of viper's `BindPFlag`
  unfoldable pub bound_pflag : F → List (Text × Text) → Result (Unit {0}) × V → Bound
  bound_pflag fs seen (ok x, v) =
      some (ok tt, record { flag_set = fs; viper = v; seen_flags = seen })
  bound_pflag fs seen (err e, v) = some (
    err (wrap "failed to bind flag to config key" e),
    record { flag_set = fs; viper = v; seen_flags = seen },
  )

  -- The end of the loop's body, by whether the field was bound
  unfoldable pub bind_flag :
      FlagBindingMetadata → V → List (Text × Text) → Option (Bool × F) → Bound
  unfolding bound_pflag
  bind_flag meta v seen none = none
  bind_flag meta v seen (some (false, fs)) =
      some (ok tt, record { flag_set = fs; viper = v; seen_flags = seen })
  bind_flag meta v seen (some (true, fs)) =
      if not (api.lookup meta.flag_name fs)
      then some (
        err (plain "flag was not registered (internal error)"),
        record { flag_set = fs; viper = v; seen_flags = seen },
      )
      else bound_pflag fs seen (api.bind_pflag meta.config_key meta.flag_name v)

  -- The loop's body for a field that is no struct, from its metadata on
  unfoldable pub bind_metadata :
      Field → FieldValue D → Result (Option FlagBindingMetadata) → BindState F V → Bound
  unfolding bind_flag bind_field has_seen
  bind_metadata field v (err e) s = some (err e, s)
  bind_metadata field v (ok none) s = some (ok tt, s)
  bind_metadata field v (ok (some meta)) s =
      if has_seen meta.flag_name s.seen_flags
      then some (err (plain "duplicate flag name"), s)
      else bind_flag meta s.viper (s.seen_flags ++ (meta.flag_name, field.name) ∷ [])
          (bind_field field v meta s.flag_set)

  unfoldable pub bind_value : Field → FieldValue D → Text → Text → BindState F V → Bound
  unfolding bind_metadata is_skipped extract_flag_metadata
  bind_value field v prefix separator s =
      if is_skipped field
      then some (ok tt, s)
      else bind_metadata field v (extract_flag_metadata field prefix separator) s

  -- `if err := …; err != nil { return err }`
  unfoldable pub and_then : Bound → (BindState F V → Bound) → Bound
  and_then none next = none
  and_then (some (ok x, s)) next = next s
  and_then (some (err e, s)) next = some (err e, s)

  -- `bindStructWithTracking`
  unfoldable pub bind_struct_with_tracking : Struct D → Text → Text → BindState F V → Bound
  unfolding bind_value is_skipped and_then nested_prefix
  bind_struct_with_tracking no_fields prefix separator s = some (ok tt, s)
  bind_struct_with_tracking (value_field field v rest) prefix separator s =
      and_then (bind_value field v prefix separator s)
        (bind_struct_with_tracking rest prefix separator)
  bind_struct_with_tracking (struct_field field v inner rest) prefix separator s =
      let nested =
        bind_struct_with_tracking inner (nested_prefix field prefix separator) separator s in
      and_then (if is_skipped field then some (ok tt, s) else nested)
        (bind_struct_with_tracking rest prefix separator)

  -- `BindStruct`
  unfoldable pub bind_struct : Struct D → Text → Text → F → V → Bound
  unfolding bind_struct_with_tracking
  bind_struct fields prefix separator fs v =
      bind_struct_with_tracking fields prefix separator
        (record { flag_set = fs; viper = v; seen_flags = [] })
