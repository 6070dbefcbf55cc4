-- ===== src/Util/Text.antt =====
-- Texts as Go's `range` reads them: lists of code points. pkg/util/strcase/strcase.go is Case.
pub mod Case
use Prim.Native.Char.{Char, code}
use k8s_controller_lib.Prelude.{
  ℕ, String, ◌≡◌, refl, Bool, true, false, not, ◌&&◌, ◌||◌, ◌↔◌, List, [], ◌∷◌, reverse, ◌||◌,
  if◌then◌else◌, ◌++◌, arith, eqb, leb, if◌then◌else◌,
}

abbrev pub Text : Type 0
Text = List ℕ

abbrev pub runes : String → Text
runes String.[] = []
runes (String.◌∷◌ c s) = code c ∷ runes s

-- `==` of two texts
abbrev pub same_text : Text → Text → Bool
same_text [] [] = true
same_text [] (y ∷ ys) = false
same_text (x ∷ xs) [] = false
same_text (x ∷ xs) (y ∷ ys) = eqb x y && same_text xs ys

pub same_text_iff : (s t : Text) → (same_text s t ≡ true) ↔ (s ≡ t)
same_text_iff [] [] = ((λ e. refl), (λ e. refl))
same_text_iff [] (y ∷ ys) = ((λ e. cc e), (λ e. cc e))
same_text_iff (x ∷ xs) [] = ((λ e. cc e), (λ e. cc e))
same_text_iff (x ∷ xs) (y ∷ ys) = let (to, of) = same_text_iff xs ys in ground (arith, to, of)

-- `s == ""`
abbrev pub is_empty : Text → Bool
is_empty [] = true
is_empty (r ∷ rs) = false

-- `first <= r && r <= last`
abbrev pub between : ℕ → ℕ → ℕ → Bool
between first last r = leb first r && leb r last

-- `unicode.IsSpace`
unfoldable pub is_space : ℕ → Bool
is_space r =
    between 9 13 r
    || eqb r 32
    || eqb r 133
    || eqb r 160
    || eqb r 5760
    || between 8192 8202 r
    || between 8232 8233 r
    || eqb r 8239
    || eqb r 8287
    || eqb r 12288

unfoldable pub drop_spaces : Text → Text
unfolding is_space
drop_spaces [] = []
drop_spaces (r ∷ rs) = let rest = drop_spaces rs in if is_space r then rest else r ∷ rs

-- `strings.TrimSpace`
unfoldable pub trim_space : Text → Text
unfolding drop_spaces
trim_space s = reverse (drop_spaces (reverse (drop_spaces s)))
