-- ===== src/Config/Sources/Tagged.antt =====
-- config_support.go: the keys of a struct by the tags of its fields.
use k8s_controller_lib.Prelude.{
  String, ◌≡◌, ◌≢◌, refl, ap, ◌∙◌, ◌⊎◌, inl, inr, Bool, true, false, not, ◌||◌, Bool-cases, List,
  [], ◌∷◌, ◌++◌, ◌==◌, eq_iff, if◌then◌else◌,
}
use mathlib.Core.List.{append_assoc}
use k8s_controller_lib.Util.Text.{Text, runes, is_empty, same_text, same_text_iff}
use k8s_controller_lib.Config.Fields.{
  GoType, named, pointer_to, same_type, Field, FieldValue, Struct, no_fields, value_field,
  struct_field,
}
use k8s_controller_lib.Config.Sources.{
  ViperApi, has_no_key, is_value_type, default_value, set_defaults, bind_env_vars,
}
use k8s_controller_lib.Config.Sources.Keys.{key_of, leaves, each, default_of, env_of, walks_lem}

-- The tag names a key: there is one, and it is not `-`.
abbrev pub HasKey : Field → Type 0
HasKey field =
    (field.is_exported ≡ true)
    × (field.mapstructure_tag ≢ [])
    × (field.mapstructure_tag ≢ runes "-")

-- The struct types that have a value of their own
abbrev pub IsValueType : GoType → Type 0
IsValueType type =
    (type ≡ named "time.Time")
    ⊎ ((type ≡ named "time.Duration") ⊎ ((type ≡ named "url.URL") ⊎ (type ≡ named "net.IP")))

-- The prefix and the tag with a dot between them, or the tag alone for an empty prefix
abbrev pub dotted : Text → Text → Text
dotted [] tag = tag
dotted (r ∷ rs) tag = (r ∷ rs) ++ 46 ∷ tag

-- The keys of a struct with their values, in the order of the fields: the tags from the outermost field
-- to the innermost, joined by dots. A field that is unexported, or that has no tag, has no key, and
-- neither has what is in it.
pub data TaggedKeys {D : Type 0} : Struct D → Text → List (Text × FieldValue D) → Type 0 where
  no_keys : {prefix : Text} → TaggedKeys no_fields prefix []
  value_key :
      {field : Field} {v : FieldValue D} {rest : Struct D} {prefix : Text}
      {keys : List (Text × FieldValue D)}
      → HasKey field
      → TaggedKeys rest prefix keys
      → TaggedKeys
          (value_field field v rest)
          prefix
          ((dotted prefix field.mapstructure_tag, v) ∷ keys)
  value_without :
      {field : Field} {v : FieldValue D} {rest : Struct D} {prefix : Text}
      {keys : List (Text × FieldValue D)}
      → (HasKey field → ⊥)
      → TaggedKeys rest prefix keys
      → TaggedKeys (value_field field v rest) prefix keys
  struct_key :
      {field : Field} {v : FieldValue D} {inner rest : Struct D} {prefix : Text}
      {keys : List (Text × FieldValue D)}
      → HasKey field
      → IsValueType field.type
      → TaggedKeys rest prefix keys
      → TaggedKeys
          (struct_field field v inner rest)
          prefix
          ((dotted prefix field.mapstructure_tag, v) ∷ keys)
  struct_keys :
      {field : Field} {v : FieldValue D} {inner rest : Struct D} {prefix : Text}
      {nested keys : List (Text × FieldValue D)}
      → HasKey field
      → (IsValueType field.type → ⊥)
      → TaggedKeys inner (dotted prefix field.mapstructure_tag) nested
      → TaggedKeys rest prefix keys
      → TaggedKeys (struct_field field v inner rest) prefix (nested ++ keys)
  struct_without :
      {field : Field} {v : FieldValue D} {inner rest : Struct D} {prefix : Text}
      {keys : List (Text × FieldValue D)}
      → (HasKey field → ⊥)
      → TaggedKeys rest prefix keys
      → TaggedKeys (struct_field field v inner rest) prefix keys

key_of_lem :
    (field : Field) (prefix : Text) → key_of field prefix ≡ dotted prefix field.mapstructure_tag
key_of_lem field [] = refl
key_of_lem field (r ∷ rs) = append_assoc (r ∷ rs) (46 ∷ []) field.mapstructure_tag

no_tag_lem :
    (tag : Text)
    → (((is_empty tag || same_text tag (runes "-")) ≡ true) × ((tag ≡ []) ⊎ (tag ≡ runes "-")))
      ⊎ (((is_empty tag || same_text tag (runes "-")) ≡ false) × (tag ≢ []) × (tag ≢ runes "-"))
no_tag_lem [] = inl (refl, inl refl)
no_tag_lem (r ∷ rs) = elim (Bool-cases (same_text (r ∷ rs) (runes "-"))) [
  | inl dash ↦ inl (dash, inr ((same_text_iff (r ∷ rs) (runes "-")).0 dash))
  | inr other ↦
      inr (other, (λ e. cc e), (λ e. cc (other, (same_text_iff (r ∷ rs) (runes "-")).1 e)))
]

has_no_key_lem :
    (field : Field)
    → ((has_no_key field ≡ true) × (HasKey field → ⊥)) ⊎ ((has_no_key field ≡ false) × HasKey field)
unfolding has_no_key
has_no_key_lem field = elim (Bool-cases field.is_exported) [
  | inr hidden ↦ inl (rw hidden refl, (λ (exported, p, q). cc (hidden, exported)))
  | inl exported ↦ elim (no_tag_lem field.mapstructure_tag) [
    | inl (yes_none, which) ↦ inl (
      ap
            (λ b.
              not b
              || (is_empty field.mapstructure_tag || same_text field.mapstructure_tag (runes "-")))
            exported
          ∙ yes_none,
      (λ (e, no_nil, no_dash). elim which [
        | inl is_nil ↦ absurd (no_nil is_nil)
        | inr dash ↦ absurd (no_dash dash)
      ]),
    )
    | inr (tagged, no_nil, no_dash) ↦ inr (
      ap
            (λ b.
              not b
              || (is_empty field.mapstructure_tag || same_text field.mapstructure_tag (runes "-")))
            exported
          ∙ tagged,
      (exported, no_nil, no_dash),
    )
  ]
]

same_type_named :
    (type : GoType) (s : String)
    → ((same_type type (named s) ≡ true) × (type ≡ named s))
      ⊎ ((same_type type (named s) ≡ false) × (type ≢ named s))
same_type_named (pointer_to t) s = inr (refl, λ e. cc e)
same_type_named (named t) s = elim (Bool-cases (t == s)) [
  | inl same ↦ inl (same, ap named ((eq_iff t s).0 same))
  | inr other ↦ inr (other, (λ e. cc (other, (eq_iff t s).1 (cc e))))
]

is_value_type_lem :
    (type : GoType)
    → ((is_value_type type ≡ true) × IsValueType type)
      ⊎ ((is_value_type type ≡ false) × (IsValueType type → ⊥))
unfolding is_value_type
is_value_type_lem type = elim (same_type_named type "time.Time") [
  | inl (is_time, e) ↦ inl (rw is_time refl, inl e)
  | inr (t, no_time) ↦ elim (same_type_named type "time.Duration") [
    | inl (is_duration, e) ↦ inl (rw (t, is_duration) refl, inr (inl e))
    | inr (d, no_duration) ↦ elim (same_type_named type "url.URL") [
      | inl (is_url, e) ↦ inl (rw (t, d, is_url) refl, inr (inr (inl e)))
      | inr (u, no_url) ↦ elim (same_type_named type "net.IP") [
        | inl (is_ip, e) ↦ inl (rw (t, d, u, is_ip) refl, inr (inr (inr e)))
        | inr (i, no_ip) ↦ inr (
          rw (t, d, u, i) refl,
          (λ p. elim p [
            | inl e ↦ no_time e
            | inr (inl e) ↦ no_duration e
            | inr (inr (inl e)) ↦ no_url e
            | inr (inr (inr e)) ↦ no_ip e
          ]),
        )
      ]
    ]
  ]
]

pub leaves-TaggedKeys :
    {D : Type 0} (cfg : Struct D) (prefix : Text) → TaggedKeys cfg prefix (leaves cfg prefix)
leaves-TaggedKeys no_fields prefix = no_keys
leaves-TaggedKeys (value_field field v rest) prefix = elim (has_no_key_lem field) [
  | inl (none_, without) ↦ rw none_ (value_without without (leaves-TaggedKeys rest prefix))
  | inr (some_, has) ↦
      rw (some_, key_of_lem field prefix) (value_key has (leaves-TaggedKeys rest prefix))
]
leaves-TaggedKeys (struct_field field v inner rest) prefix = elim (has_no_key_lem field) [
  | inl (none_, without) ↦ rw none_ (struct_without without (leaves-TaggedKeys rest prefix))
  | inr (some_, has) ↦ elim (is_value_type_lem field.type) [
    | inl (yes_value, value) ↦
        rw (some_, yes_value, key_of_lem field prefix)
          (struct_key has value (leaves-TaggedKeys rest prefix))
    | inr (no_value, other) ↦
        rw (some_, no_value, key_of_lem field prefix)
          (struct_keys has other (leaves-TaggedKeys inner (dotted prefix field.mapstructure_tag))
            (leaves-TaggedKeys rest prefix))
  ]
]

module _ {V D M : Type 0} (api : ViperApi V D M) where
  -- The defaults of these keys, set in order, but for the values that are zero.
  pub data Defaults : List (Text × FieldValue D) → V → V → Type 0 where
    no_defaults : {viper : V} → Defaults [] viper viper
    zero_value :
        {key : Text} {v : FieldValue D} {keys : List (Text × FieldValue D)} {viper viper1 : V}
        → v.is_zero ≡ true
        → Defaults keys viper viper1
        → Defaults ((key, v) ∷ keys) viper viper1
    default_set :
        {key : Text} {v : FieldValue D} {keys : List (Text × FieldValue D)} {viper viper1 : V}
        → v.is_zero ≡ false
        → Defaults keys (api.set_default key v.value viper) viper1
        → Defaults ((key, v) ∷ keys) viper viper1

  -- A binding to the environment for each key, in order.
  abbrev pub bind_each : List (Text × FieldValue D) → V → V
  bind_each [] viper = viper
  bind_each ((key, v) ∷ keys) viper = bind_each keys (api.bind_env key viper)

  one_default :
      (key : Text) (v : FieldValue D) (keys : List (Text × FieldValue D)) (viper : V)
      → ((viper1 : V) → Defaults keys viper1 (each (default_of api) keys viper1))
      → (b : Bool) → v.is_zero ≡ b
      → Defaults
          ((key, v) ∷ keys)
          viper
          (each (default_of api) keys (if b then viper else api.set_default key v.value viper))
  one_default key v keys viper rest true e = zero_value e (rest viper)
  one_default key v keys viper rest false e =
      default_set e (rest (api.set_default key v.value viper))

  each-Defaults :
      (keys : List (Text × FieldValue D)) (viper : V)
      → Defaults keys viper (each (default_of api) keys viper)
  unfolding default_value
  each-Defaults [] viper = no_defaults
  each-Defaults ((key, v) ∷ keys) viper =
      one_default key v keys viper (each-Defaults keys) v.is_zero refl

  each-bind_each :
      (keys : List (Text × FieldValue D)) (viper : V)
      → each (env_of api) keys viper ≡ bind_each keys viper
  each-bind_each [] viper = refl
  each-bind_each ((key, v) ∷ keys) viper = each-bind_each keys (api.bind_env key viper)

  -- The two walks visit the same keys in the same order, which are the tags of the exported, tagged
  -- fields on the way to a value, joined by dots: `setDefaults` sets a default for each key with a value
  -- that is not zero, and for no other, and `bindEnvVars` binds each key to the environment once.
  pub config_keys :
      (cfg : Struct D) (viper : V)
      → (keys : List (Text × FieldValue D)) × TaggedKeys cfg [] keys
        × Defaults keys viper (set_defaults api cfg viper)
        × (bind_env_vars api cfg viper ≡ bind_each keys viper)
  config_keys cfg viper =
      let (defaults, env) = walks_lem api cfg viper in
      (
        leaves cfg [],
        leaves-TaggedKeys cfg [],
        rw defaults (each-Defaults (leaves cfg []) viper),
        env ∙ each-bind_each (leaves cfg []) viper,
      )
