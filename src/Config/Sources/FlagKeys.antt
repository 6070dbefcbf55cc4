-- ===== src/Config/Sources/FlagKeys.antt =====
-- flags.go and config_support.go: the key of a flag, and the key of the field that it is for.
use k8s_controller_lib.Prelude.{
  ◌≡◌, refl, ap, ◌↔◌, false, [], ◌∷◌, ◌++◌, length, length-append, arith,
}
use k8s_controller_lib.Util.Text.{Text, runes}
use k8s_controller_lib.Util.Text.Case.{to_kebab_case}
use k8s_controller_lib.Config.Fields.{Field, no_tag}
use k8s_controller_lib.Config.Flags.{prefixed, nested_prefix, get_config_key}
use k8s_controller_lib.Config.Sources.Keys.{key_of}

append_cancel : (xs ys zs : Text) → xs ++ zs ≡ ys ++ zs → xs ≡ ys
append_cancel [] [] zs e = refl
append_cancel [] (y ∷ ys) zs e = absurd (omega (arith, ap length e, length-append (y ∷ ys) zs))
append_cancel (x ∷ xs) [] zs e = absurd (omega (arith, ap length e, length-append (x ∷ xs) zs))
append_cancel (x ∷ xs) (y ∷ ys) zs e =
    let rest = append_cancel xs ys zs (cc e) in let first : x ≡ y = cc e in cc (first, rest)

-- What is put before a key tells apart any two prefixes.
prefixed_cancel : (a b key : Text) → prefixed a (runes ".") key ≡ prefixed b (runes ".") key → a ≡ b
prefixed_cancel [] [] key e = refl
prefixed_cancel [] (y ∷ ys) key e = absurd (
    omega (
      arith,
      ap length e,
      length-append ((y ∷ ys) ++ runes ".") key,
      length-append (y ∷ ys) (runes "."),
    ))
prefixed_cancel (x ∷ xs) [] key e = absurd (
    omega (
      arith,
      ap length e,
      length-append ((x ∷ xs) ++ runes ".") key,
      length-append (x ∷ xs) (runes "."),
    ))
prefixed_cancel (x ∷ xs) (y ∷ ys) key e =
    append_cancel (x ∷ xs) (y ∷ ys) (runes ".")
      (append_cancel ((x ∷ xs) ++ runes ".") ((y ∷ ys) ++ runes ".") key e)

-- A tagged field in a struct field of the configuration: the key that its flag is bound to, with the
-- prefix that `BindStruct` passes into the struct, is the key of its default and of its environment
-- variable exactly if the tag of the struct field is that field's name in kebab case.
pub nested_flag_key :
    (outer field : Field) (separator : Text)
    → no_tag field.mapstructure_tag ≡ false
    → (get_config_key field (nested_prefix outer [] separator) ≡ key_of field (key_of outer []))
      ↔ (to_kebab_case outer.name ≡ outer.mapstructure_tag)
unfolding get_config_key nested_prefix
nested_flag_key outer field separator tagged = rw tagged (
  (λ e. prefixed_cancel (to_kebab_case outer.name) outer.mapstructure_tag field.mapstructure_tag e),
  (λ e. ap (λ p. prefixed p (runes ".") field.mapstructure_tag) e),
)
