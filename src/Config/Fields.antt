-- ===== src/Config/Fields.antt =====
-- What the package reads of a configuration struct by reflection.
use k8s_controller_lib.Prelude.{String, Bool, false, ◌||◌, ◌==◌}
use k8s_controller_lib.Util.Text.{Text, runes, is_empty, same_text}

-- `reflect.Type`: a type by its name, or a pointer to a type.
pub data GoType : Type 0 where
  named : String → GoType
  pointer_to : GoType → GoType

abbrev pub same_type : GoType → GoType → Bool
same_type (named s) (named t) = s == t
same_type (named s) (pointer_to t) = false
same_type (pointer_to s) (named t) = false
same_type (pointer_to s) (pointer_to t) = same_type s t

-- `reflect.StructField`; a tag that is not there is empty.
pub record Field : Type 0 where
  pub name : Text
  pub type : GoType
  pub is_exported : Bool
  pub flag_tag : Text
  pub mapstructure_tag : Text

-- The value of a field. `D` is the type of values.
pub record FieldValue (D : Type 0) : Type 0 where
  pub is_zero : Bool
  pub value : D

-- A struct: its fields in order. A field of a struct kind has fields of its own, also where its type is
-- one that the package treats as a value.
pub data Struct (D : Type 0) : Type 0 where
  no_fields : Struct D
  value_field : Field → FieldValue D → Struct D → Struct D
  struct_field : Field → FieldValue D → (inner rest : Struct D) → Struct D

abbrev pub dash : Text
dash = runes "-"

-- `tag == "" || tag == "-"`
abbrev pub no_tag : Text → Bool
no_tag tag = is_empty tag || same_text tag dash
