-- ===== src/Runtime/Exec.antt =====
-- Calls that mutate what they are given and may return an error. What was written before the error
-- stays written, so the state comes back beside the error too.
use k8s_controller_lib.Prelude.{String, ◌≡◌, refl, ◌⊎◌, inl, inr, Option, none, some}
use k8s_controller_lib.Runtime.Errors.{GoError, wrap}

pub data Result {ℓ} (A : Type ℓ) : Type ℓ where
  ok : A → Result A
  err : GoError → Result A

abbrev pub Exec {ℓ} : Type ℓ → Type ℓ → Type ℓ
Exec S A = S → Result A × S

-- `if err := …; err != nil { return err }`, and then the rest.
module _ {ℓ} {S A B : Type ℓ} where
  abbrev pub and_then : Result A → S → (A → Exec S B) → Result B × S
  and_then (ok a) s f = f a s
  and_then (err e) s f = (err e, s)

  infixl 10 ◌>>=◌ ◌>>◌
  abbrev pub ◌>>=◌ : Exec S A → (A → Exec S B) → Exec S B
  ◌>>=◌ m f s = let (r, s') = m s in and_then r s' f

  abbrev pub ◌>>◌ : Exec S A → Exec S B → Exec S B
  ◌>>◌ m n s = let (r, s') = m s in and_then r s' (λ _. n)

abbrev pub wrap_result {ℓ} : {A : Type ℓ} → String → Result A → Result A
wrap_result text (ok a) = ok a
wrap_result text (err e) = err (wrap text e)

module _ {ℓ} {S A : Type ℓ} where
  abbrev pub pure : A → Exec S A
  pure a s = (ok a, s)

  abbrev pub fail : GoError → Exec S A
  fail e s = (err e, s)

  -- `return fmt.Errorf("text: %w", err)` on an error.
  abbrev pub wrapping : String → Exec S A → Exec S A
  wrapping text m s = let (r, s') = m s in (wrap_result text r, s')

-- An `error` that may be nil.
abbrev pub of_error : Option GoError → Result (Unit {0})
of_error none = ok tt
of_error (some e) = err e

pub Result-cases {ℓ} :
    {A : Type ℓ} (r : Result A) → ((a : A) × (r ≡ ok a)) ⊎ ((e : GoError) × (r ≡ err e))
Result-cases (ok a) = inl (a, refl)
Result-cases (err e) = inr (e, refl)
