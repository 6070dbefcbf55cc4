-- ===== src/Util/Text/Case/Laws.antt =====
-- strcase.go: the texts that the conversions give, and how they agree.
use k8s_controller_lib.Prelude.{
  ℕ, ◌+◌, ◌<◌, ◌⊎◌, ◌≡◌, ◌≢◌, leb, refl, ap, sym, ◌∙◌, inl, inr, Bool, true, false, not, ◌&&◌,
  Bool-cases, [], ◌∷◌, arith, eqb, All, if◌then◌else◌,
}
use k8s_controller_lib.Util.Text.{Text}
use k8s_controller_lib.Util.Text.Case.{
  is_upper, underscore, hyphen, kebab_rune, is_hyphen_after, kebab_loop, to_kebab_case, snake_rune,
  snake_loop, to_snake_case,
}

-- Neither an upper-case letter nor an underscore
abbrev KebabRune : ℕ → Type 0
KebabRune r = (is_upper r ≡ false) × (eqb r underscore ≡ false)

abbrev IsKebab : Text → Type 0
IsKebab s = All KebabRune s

lowered : (r : ℕ) → is_upper r ≡ true → KebabRune (r + 32)
lowered r up = (ground (arith, up), ground (arith, up))

kebab_rune_same :
    (first last_was_hyphen : Bool) (r : ℕ)
    → KebabRune r
    → kebab_rune first last_was_hyphen r ≡ r ∷ []
unfolding kebab_rune
kebab_rune_same first last_was_hyphen r (other, plain_) = rw (other, plain_) refl

-- The code point is none of `A` to `Z`, and not `_`.
abbrev pub LowerRune : ℕ → Type 0
LowerRune r = ((r < 65) ⊎ (90 < r)) × (r ≢ 95)

-- A word begins at `q` after `r`: an upper-case letter after anything but a hyphen or an underscore.
abbrev pub word_start : ℕ → ℕ → ℕ
word_start r q = if leb 65 q && leb q 90 && not (eqb r 45) && not (eqb r 95) then 1 else 0

-- The words of a text that begin after its first code point, by their upper-case letters
abbrev pub word_starts : Text → ℕ
word_starts [] = 0
word_starts (r ∷ []) = 0
word_starts (r ∷ q ∷ s) = word_start r q + word_starts (q ∷ s)

-- A letter or digit, or anything but the two separators
abbrev pub NoSeparator : ℕ → Type 0
NoSeparator r = (eqb r hyphen ≡ false) × (eqb r underscore ≡ false)

-- A rune that is its own kebab case and no hyphen
kebab_loop_plain :
    (first last_was_hyphen : Bool) (r : ℕ) (s : Text)
    → KebabRune r
    → eqb r hyphen ≡ false
    → kebab_loop first last_was_hyphen (r ∷ s) ≡ r ∷ kebab_loop false false s
unfolding kebab_loop is_hyphen_after
kebab_loop_plain first last_was_hyphen r s (other, plain_) no_hyphen =
    rw (kebab_rune_same first last_was_hyphen r (other, plain_), other, plain_, no_hyphen) refl

lowered_no_hyphen : (r : ℕ) → is_upper r ≡ true → eqb (r + 32) hyphen ≡ false
lowered_no_hyphen r up = ground (arith, up)

-- An upper-case letter: a hyphen, unless it is the first rune, and the lower-case letter
kebab_loop_upper :
    (first : Bool) (r : ℕ) (s : Text)
    → is_upper r ≡ true
    → kebab_loop first false (r ∷ s) ≡ (
        if first
        then (r + 32) ∷ kebab_loop false false s
        else hyphen ∷ (r + 32) ∷ kebab_loop false false s)
unfolding kebab_loop kebab_rune is_hyphen_after
kebab_loop_upper true r s up = rw up refl
kebab_loop_upper false r s up = rw up refl

kebab_loop-underscore :
    (s : Text) → kebab_loop false false (underscore ∷ s) ≡ hyphen ∷ kebab_loop false true s
unfolding kebab_loop kebab_rune is_hyphen_after
kebab_loop-underscore s = refl

upper_step :
    (first : Bool) (r : ℕ) (rs : Text)
    → is_upper r ≡ true
    → kebab_loop false false (snake_loop false rs) ≡ kebab_loop false false rs
    → kebab_loop first false (snake_loop first (r ∷ rs)) ≡ kebab_loop first false (r ∷ rs)
unfolding snake_loop snake_rune
upper_step true r rs up rest =
    rw up (
      kebab_loop_plain true false (r + 32) (snake_loop false rs) (lowered r up)
        (lowered_no_hyphen r up))
    ∙ ap (λ t. (r + 32) ∷ t) rest
    ∙ sym (kebab_loop_upper true r rs up)
upper_step false r rs up rest =
    rw up (
      kebab_loop-underscore ((r + 32) ∷ snake_loop false rs)
      ∙ ap (λ t. hyphen ∷ t)
          (kebab_loop_plain false true (r + 32) (snake_loop false rs) (lowered r up)
            (lowered_no_hyphen r up)))
    ∙ ap (λ t. hyphen ∷ (r + 32) ∷ t) rest
    ∙ sym (kebab_loop_upper false r rs up)

kebab_loop-snake_loop :
    (first : Bool) (s : Text)
    → All NoSeparator s
    → kebab_loop first false (snake_loop first s) ≡ kebab_loop first false s
unfolding snake_loop snake_rune
kebab_loop-snake_loop first [] plain_ = refl
kebab_loop-snake_loop first (r ∷ rs) ((no_hyphen, no_underscore), others) =
    elim (Bool-cases (is_upper r)) [
      | inr other ↦ rw other (
          kebab_loop_plain first false r (snake_loop false rs) (other, no_underscore) no_hyphen
          ∙ ap (λ t. r ∷ t) (kebab_loop-snake_loop false rs others)
          ∙ sym (kebab_loop_plain first false r rs (other, no_underscore) no_hyphen))
      | inl up ↦ upper_step first r rs up (kebab_loop-snake_loop false rs others)
    ]

to_kebab_case_loop : (s : Text) → to_kebab_case s ≡ kebab_loop true false s
unfolding to_kebab_case kebab_loop
to_kebab_case_loop [] = refl
to_kebab_case_loop (r ∷ rs) = refl

-- For a name with no hyphen and no underscore, as in CamelCase, the kebab case of its snake case is its
-- kebab case: both conversions break the name at the same places.
pub to_kebab_case-to_snake_case :
    (s : Text) → All NoSeparator s → to_kebab_case (to_snake_case s) ≡ to_kebab_case s
unfolding to_snake_case
to_kebab_case-to_snake_case [] plain_ = refl
to_kebab_case-to_snake_case (r ∷ rs) plain_ =
    to_kebab_case_loop (snake_loop true (r ∷ rs))
    ∙ kebab_loop-snake_loop true (r ∷ rs) plain_
    ∙ sym (to_kebab_case_loop (r ∷ rs))
