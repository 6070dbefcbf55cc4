-- ===== src/Config/Flags/Registry.antt =====
-- pkg/config/flags/registry.go: which types have a flag, and how it is made.
pub mod Adds
use k8s_controller_lib.Prelude.{
  String, ◌≡◌, ◌≢◌, ◌||◌, Bool, true, false, Option, none, some, List, [], ◌∷◌, ◌++◌, if◌then◌else◌,
  ◌==◌,
}
use k8s_controller_lib.Runtime.Errors.{plain}
use k8s_controller_lib.Runtime.Exec.{Result, ok, err}
use k8s_controller_lib.Util.Text.{Text, same_text}
use k8s_controller_lib.Config.Fields.{GoType, named, pointer_to, same_type}

-- The methods of `pflag.FlagSet` that make a flag
pub data FlagKind : Type 0 where
  string_flag bool_flag int_flag int32_flag int64_flag uint_flag uint32_flag uint64_flag : FlagKind
  float32_flag float64_flag duration_flag string_slice_flag : FlagKind

-- A value in an `any`, with its type.
pub record AnyValue (D : Type 0) : Type 0 where
  pub type : GoType
  pub value : D

-- What the package uses of pflag, viper and reflection. `F` is the flag set and `V` the viper. `add_flag`
-- is `none` where pflag panics, as it does for a name that is in the set already.
pub record FlagApi (F V D : Type 0) : Type 0 where
  pub add_flag : FlagKind → Text → D → Text → F → Option F
  pub lookup : Text → F → Bool
  pub bind_pflag : Text → Text → V → Result (Unit {0}) × V
  pub format_rfc3339 : D → D
  pub format_text : D → D
  pub format_any : D → D
  pub deref : D → Option D
  pub zero : GoType → D
  pub implements_text_unmarshaler : GoType → Bool

-- pflag and viper: pflag panics only for a name that is in the set, a flag that was added is found beside
-- those that were there, and `BindPFlag` fails for no flag.
pub record FlagLaws {F V D : Type 0} (api : FlagApi F V D) : Type 0 where
  pub add_flag-new :
      (kind : FlagKind) (name : Text) (v : D) (description : Text) (fs : F)
      → api.lookup name fs ≡ false
      → api.add_flag kind name v description fs ≢ none
  pub lookup-add_flag :
      (kind : FlagKind) (name : Text) (v : D) (description : Text) (fs fs1 : F) (n : Text)
      → api.add_flag kind name v description fs ≡ some fs1
      → api.lookup n fs1 ≡ (same_text name n || api.lookup n fs)
  pub bind_pflag_ok :
      (key flag : Text) (v : V) → (v1 : V) × (api.bind_pflag key flag v ≡ (ok tt, v1))

-- What a call comes to that may return an error, and that may panic: `none` is a panic.
abbrev pub Attempt : Type 0 → Type 0
Attempt S = Option (Result (Unit {0}) × S)

abbrev pub flag_added : {F : Type 0} → Option F → Attempt F
flag_added none = none
flag_added (some fs) = some (ok tt, fs)

-- `FlagBinder`
abbrev pub FlagBinder : Type 0 → Type 0 → Type 0
FlagBinder F D = Text → AnyValue D → Text → F → Attempt F

-- `Registry`: a later entry for a type takes the place of an earlier one.
abbrev pub Registry : Type 0 → Type 0 → Type 0
Registry F D = List (GoType × FlagBinder F D)

-- `typ.Elem()` of a pointer
abbrev pub elem_of : GoType → Option GoType
elem_of (named t) = none
elem_of (pointer_to t) = some t

module _ {F D : Type 0} where
  -- `Register`, and the read of the map
  unfoldable pub register : GoType → FlagBinder F D → Registry F D → Registry F D
  register type binder registry = (type, binder) ∷ registry

  unfoldable pub find_binder : GoType → Registry F D → Option (FlagBinder F D)
  find_binder type [] = none
  find_binder type ((t, binder) ∷ rest) =
      let found = find_binder type rest in if same_type t type then some binder else found

  unfoldable pub find_elem : Option GoType → Registry F D → Option (FlagBinder F D)
  unfolding find_binder
  find_elem none registry = none
  find_elem (some elem) registry = find_binder elem registry

module _ {F V D : Type 0} (api : FlagApi F V D) where
  -- The binders for one type: they assert it, and make a flag of the value, formatted or as it is.
  unfoldable pub typed_binder : GoType → FlagKind → (D → D) → FlagBinder F D
  typed_binder expected kind format flag_name default_value description fs =
      if same_type default_value.type expected
      then flag_added (api.add_flag kind flag_name (format default_value.value) description fs)
      else some (err (plain "unexpected type"), fs)

  -- `textUnmarshalerBinder`
  unfoldable pub text_unmarshaler_binder : FlagBinder F D
  text_unmarshaler_binder flag_name default_value description fs =
      flag_added
        (api.add_flag string_flag flag_name (api.format_any default_value.value) description fs)

  -- `makePointerBinder`: a nil pointer stands for the zero value.
  unfoldable pub bind_pointed :
      FlagBinder F D → Text → AnyValue D → Text → F → Option GoType → Attempt F
  bind_pointed inner_binder flag_name default_value description fs none =
      inner_binder flag_name default_value description fs
  bind_pointed inner_binder flag_name default_value description fs (some elem) =
      inner_binder flag_name
        (elim (api.deref default_value.value) [
          | none ↦ record { type = elem; value = api.zero elem }
          | some v ↦ record { type = elem; value = v }
        ])
        description fs

  unfoldable pub make_pointer_binder : FlagBinder F D → FlagBinder F D
  unfolding bind_pointed
  make_pointer_binder inner_binder flag_name default_value description fs =
      bind_pointed inner_binder flag_name default_value description fs (elem_of default_value.type)

  -- The end of `Get`, for a type that neither is registered nor points to such a type
  unfoldable pub get_unmarshaler : GoType → Option (FlagBinder F D)
  unfolding text_unmarshaler_binder
  get_unmarshaler (pointer_to t) =
      if api.implements_text_unmarshaler (pointer_to t) then some text_unmarshaler_binder else none
  get_unmarshaler (named t) =
      if api.implements_text_unmarshaler (named t)
      then some text_unmarshaler_binder
      else if api.implements_text_unmarshaler (pointer_to (named t))
      then some text_unmarshaler_binder
      else none

  unfoldable pub get_pointed : GoType → Option (FlagBinder F D) → Option (FlagBinder F D)
  unfolding make_pointer_binder get_unmarshaler
  get_pointed type none = get_unmarshaler type
  get_pointed type (some binder) = some (make_pointer_binder binder)

  unfoldable pub get_direct :
      GoType → Registry F D → Option (FlagBinder F D) → Option (FlagBinder F D)
  unfolding get_pointed find_elem
  get_direct type registry (some binder) = some binder
  get_direct type registry none = get_pointed type (find_elem (elem_of type) registry)

  -- `Get` and `CanBind`
  unfoldable pub get : GoType → Registry F D → Option (FlagBinder F D)
  unfolding get_direct find_binder
  get type registry = get_direct type registry (find_binder type registry)

  abbrev pub as_is : D → D
  as_is v = v

  unfoldable pub register_basic : String → FlagKind → Registry F D → Registry F D
  unfolding register typed_binder
  register_basic type kind registry =
      register (named type) (typed_binder (named type) kind as_is) registry

  -- `registerBasicTypes`, `registerTimeTypes` and `registerNetworkTypes`
  unfoldable pub register_basic_types : Registry F D → Registry F D
  unfolding register_basic
  register_basic_types registry = register_basic "[]string" string_slice_flag (
      register_basic "time.Duration" duration_flag (
        register_basic "float64" float64_flag (
          register_basic "float32" float32_flag (
            register_basic "uint64" uint64_flag (
              register_basic "uint32" uint32_flag (
                register_basic "uint" uint_flag (
                  register_basic "int64" int64_flag (
                    register_basic "int32" int32_flag (
                      register_basic "int" int_flag (
                        register_basic "bool" bool_flag
                          (register_basic "string" string_flag registry)))))))))))

  unfoldable pub register_time_types : Registry F D → Registry F D
  unfolding register typed_binder
  register_time_types registry =
      register (named "time.Time") (typed_binder (named "time.Time") string_flag api.format_rfc3339)
        registry

  unfoldable pub register_network_types : Registry F D → Registry F D
  unfolding register typed_binder
  register_network_types registry =
      register (named "net.IP") (typed_binder (named "net.IP") string_flag api.format_text) (
        register (named "url.URL") (typed_binder (named "url.URL") string_flag api.format_text)
          registry)

  -- `newDefaultRegistry`
  unfoldable pub default_registry : Registry F D
  unfolding register_basic_types register_time_types register_network_types
  default_registry = register_network_types (register_time_types (register_basic_types []))
