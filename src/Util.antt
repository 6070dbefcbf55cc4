-- ===== src/Util.antt =====
-- pkg/util: functional options (option.go), clamped conversions and case conversion.
pub mod Text
pub mod Conv
mod Tests
use k8s_controller_lib.Prelude.{List, [], ◌∷◌, ◌≡◌, refl}

-- `Option[T]` and `FunctionalOption[T]`: a function that mutates the target, here one that returns
-- the new target. `ApplyTo` calls it.
pub record Setting {ℓ} (T : Type ℓ) : Type ℓ where
  pub apply_to : T → T

-- `for _, opt := range opts { opt.ApplyTo(o) }`, the body of every `ApplyOptions` of the library.
unfoldable pub apply_options {ℓ} : {T : Type ℓ} → List (Setting T) → T → T
apply_options [] target = target
apply_options (opt ∷ opts) target = apply_options opts (opt.apply_to target)
