-- ===== src/Config/Flags/Registry/Adds.antt =====
-- registry.go: what a binder that succeeds has done.
use k8s_controller_lib.Prelude.{
  ◌≡◌, refl, ◌∙◌, sym, ◌⊎◌, inl, inr, ◌||◌, Bool-cases, Bool, true, false, Option, none, some, [],
  ◌∷◌, if◌then◌else◌,
}
use k8s_controller_lib.Runtime.Errors.{plain}
use k8s_controller_lib.Runtime.Exec.{ok, err}
use k8s_controller_lib.Util.Text.{Text, same_text, same_text_iff}
use k8s_controller_lib.Config.Fields.{GoType, named, pointer_to, same_type}
use k8s_controller_lib.Config.Flags.Registry.{
  FlagKind, string_flag, AnyValue, FlagApi, FlagLaws, Attempt, flag_added, FlagBinder, Registry,
  register, find_binder, elem_of, typed_binder, text_unmarshaler_binder, bind_pointed,
  make_pointer_binder, get_unmarshaler, get_pointed, find_elem, get_direct, get, register_basic,
  register_basic_types, register_time_types, register_network_types, default_registry,
}

module _ {F V D : Type 0} (api : FlagApi F V D) (laws : FlagLaws api) where
  -- What becomes of a call for one name: it panics only if the name is in the set, the flag is in the
  -- set if it succeeds, and no other name is new.
  abbrev pub Attempted : Text → F → Attempt F → Type 0
  Attempted name fs none = api.lookup name fs ≡ true
  Attempted name fs (some (r, fs1)) =
      (r ≡ ok tt → api.lookup name fs1 ≡ true)
      × ((n : Text) → api.lookup n fs1 ≡ true → (api.lookup n fs ≡ true) ⊎ (n ≡ name))

  abbrev pub Adds : FlagBinder F D → Type 0
  Adds binder =
      (name : Text) (v : AnyValue D) (description : Text) (fs : F)
      → Attempted name fs (binder name v description fs)

  abbrev pub AddsIf : Option (FlagBinder F D) → Type 0
  AddsIf none = Unit
  AddsIf (some binder) = Adds binder

  or_cases : (a b : Bool) → (a || b) ≡ true → (a ≡ true) ⊎ (b ≡ true)
  or_cases true b e = inl refl
  or_cases false b e = inr e

  flag_added-Attempted :
      (kind : FlagKind) (name : Text) (v : D) (description : Text) (fs : F) (answer : Option F)
      → api.add_flag kind name v description fs ≡ answer
      → Attempted name fs (flag_added answer)
  flag_added-Attempted kind name v description fs none e = elim (Bool-cases (api.lookup name fs)) [
    | inl there ↦ there
    | inr new ↦ absurd (laws.add_flag-new kind name v description fs new e)
  ]
  flag_added-Attempted kind name v description fs (some fs1) e = (
    (λ succeeds.
        laws.lookup-add_flag kind name v description fs fs1 name e
        ∙ rw ((same_text_iff name name).1 refl) refl),
    (λ n found.
        elim (or_cases (same_text name n) (api.lookup n fs)
          (sym (laws.lookup-add_flag kind name v description fs fs1 n e) ∙ found)) [
            | inl same ↦ inr (sym ((same_text_iff name n).0 same))
            | inr before ↦ inl before
          ]),
  )

  added_if :
      (same : Bool) (kind : FlagKind) (name : Text) (v : D) (description : Text) (fs : F)
      → Attempted name fs (
          if same
          then flag_added (api.add_flag kind name v description fs)
          else some (err (plain "unexpected type"), fs))
  added_if true kind name v description fs = flag_added-Attempted kind name v description fs _ refl
  added_if false kind name v description fs = ((λ e. cc e), (λ n found. inl found))

  typed_binder-Adds :
      (expected : GoType) (kind : FlagKind) (format : D → D)
      → Adds (typed_binder api expected kind format)
  unfolding typed_binder
  typed_binder-Adds expected kind format name v description fs =
      added_if (same_type v.type expected) kind name (format v.value) description fs

  text_unmarshaler_binder-Adds : Adds (text_unmarshaler_binder api)
  unfolding text_unmarshaler_binder
  text_unmarshaler_binder-Adds name v description fs =
      flag_added-Attempted string_flag name (api.format_any v.value) description fs _ refl

  make_pointer_binder-Adds :
      (inner_binder : FlagBinder F D)
      → Adds inner_binder
      → Adds (make_pointer_binder api inner_binder)
  unfolding make_pointer_binder bind_pointed
  make_pointer_binder-Adds inner_binder adds name v description fs = pointed (elem_of v.type)
    where
      pointed :
          (elem : Option GoType)
          → Attempted name fs (bind_pointed api inner_binder name v description fs elem)
      pointed none = adds name v description fs
      pointed (some elem) = adds name _ description fs

  -- Every binder of a registry
  data AllAdd : Registry F D → Type 0 where
    no_binders : AllAdd []
    and_binder :
        {type : GoType} {binder : FlagBinder F D} {registry : Registry F D}
        → Adds binder
        → AllAdd registry
        → AllAdd ((type, binder) ∷ registry)

  if-AddsIf :
      (b : Bool) (x y : Option (FlagBinder F D)) → AddsIf x → AddsIf y → AddsIf (if b then x else y)
  if-AddsIf true x y p q = p
  if-AddsIf false x y p q = q

  find_binder-AddsIf :
      (type : GoType) (registry : Registry F D)
      → AllAdd registry
      → AddsIf (find_binder type registry)
  unfolding find_binder
  find_binder-AddsIf type [] no_binders = tt
  find_binder-AddsIf type ((t, binder) ∷ rest) (and_binder here there) =
      if-AddsIf (same_type t type) (some binder) (find_binder type rest) here
        (find_binder-AddsIf type rest there)

  get_unmarshaler-AddsIf : (type : GoType) → AddsIf (get_unmarshaler api type)
  unfolding get_unmarshaler
  get_unmarshaler-AddsIf (pointer_to t) =
      if-AddsIf (api.implements_text_unmarshaler (pointer_to t)) _ none text_unmarshaler_binder-Adds
        tt
  get_unmarshaler-AddsIf (named t) =
      if-AddsIf (api.implements_text_unmarshaler (named t)) _ _ text_unmarshaler_binder-Adds (
        if-AddsIf (api.implements_text_unmarshaler (pointer_to (named t))) _ none
          text_unmarshaler_binder-Adds tt)

  get_pointed-AddsIf :
      (type : GoType) (found : Option (FlagBinder F D))
      → AddsIf found
      → AddsIf (get_pointed api type found)
  unfolding get_pointed
  get_pointed-AddsIf type none adds = get_unmarshaler-AddsIf type
  get_pointed-AddsIf type (some binder) adds = make_pointer_binder-Adds binder adds

  find_elem-AddsIf :
      (elem : Option GoType) (registry : Registry F D)
      → AllAdd registry
      → AddsIf (find_elem elem registry)
  unfolding find_elem
  find_elem-AddsIf none registry all = tt
  find_elem-AddsIf (some elem) registry all = find_binder-AddsIf elem registry all

  get_direct-AddsIf :
      (type : GoType) (registry : Registry F D) (found : Option (FlagBinder F D))
      → AllAdd registry
      → AddsIf found
      → AddsIf (get_direct api type registry found)
  unfolding get_direct
  get_direct-AddsIf type registry (some binder) all adds = adds
  get_direct-AddsIf type registry none all adds =
      get_pointed-AddsIf type (find_elem (elem_of type) registry)
        (find_elem-AddsIf (elem_of type) registry all)

  typed-AllAdd :
      (type : GoType) (kind : FlagKind) (format : D → D) {registry : Registry F D}
      → AllAdd registry
      → AllAdd (register type (typed_binder api type kind format) registry)
  unfolding register
  typed-AllAdd type kind format all = and_binder (typed_binder-Adds type kind format) all

  default_registry-AllAdd : AllAdd (default_registry api)
  unfolding default_registry register_basic_types register_time_types register_network_types
      register_basic
  default_registry-AllAdd = typed-AllAdd _ _ _ (
      typed-AllAdd _ _ _ (
        typed-AllAdd _ _ _ (
          typed-AllAdd _ _ _ (
            typed-AllAdd _ _ _ (
              typed-AllAdd _ _ _ (
                typed-AllAdd _ _ _ (
                  typed-AllAdd _ _ _ (
                    typed-AllAdd _ _ _ (
                      typed-AllAdd _ _ _ (
                        typed-AllAdd _ _ _ (
                          typed-AllAdd _ _ _ (
                            typed-AllAdd _ _ _
                              (typed-AllAdd _ _ _ (typed-AllAdd _ _ _ no_binders))))))))))))))

  -- Every binder that the default registry gives for a type
  pub get-Adds : (type : GoType) → AddsIf (get api type (default_registry api))
  unfolding get
  get-Adds type =
      get_direct-AddsIf type (default_registry api) (find_binder type (default_registry api))
        default_registry-AllAdd
        (find_binder-AddsIf type (default_registry api) default_registry-AllAdd)
