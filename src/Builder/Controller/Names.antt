-- ===== src/Builder/Controller/Names.antt =====
-- builder.go: the name of a controller from the Go type of its object.
use Prim.Native.Char.{Char, char, code}
use k8s_controller_lib.Prelude.{ℕ, String, Bool, List, [], ◌∷◌, eqb, if◌then◌else◌}

-- What `reflect` says of a type: whether it is a pointer, and the name of the type, or else of what it
-- points to.
pub record GoType : Type 0 where
  pub is_pointer : Bool
  pub own_name : String
  pub elem_name : String

-- The letters that `strings.ToLower` changes, with what they become; type names are taken to be ASCII.
abbrev upper_letters : List (ℕ × Char)
upper_letters =
    (65, char 97 tt)
    ∷ (66, char 98 tt)
    ∷ (67, char 99 tt)
    ∷ (68, char 100 tt)
    ∷ (69, char 101 tt)
    ∷ (70, char 102 tt)
    ∷ (71, char 103 tt)
    ∷ (72, char 104 tt)
    ∷ (73, char 105 tt)
    ∷ (74, char 106 tt)
    ∷ (75, char 107 tt)
    ∷ (76, char 108 tt)
    ∷ (77, char 109 tt)
    ∷ (78, char 110 tt)
    ∷ (79, char 111 tt)
    ∷ (80, char 112 tt)
    ∷ (81, char 113 tt)
    ∷ (82, char 114 tt)
    ∷ (83, char 115 tt)
    ∷ (84, char 116 tt)
    ∷ (85, char 117 tt)
    ∷ (86, char 118 tt)
    ∷ (87, char 119 tt)
    ∷ (88, char 120 tt)
    ∷ (89, char 121 tt)
    ∷ (90, char 122 tt)
    ∷ []

lower_in : List (ℕ × Char) → Char → Char
lower_in [] c = c
lower_in ((n, l) ∷ rest) c = if eqb n (code c) then l else lower_in rest c

-- `strings.ToLower`
pub to_lower : String → String
unfolding lower_in
to_lower String.[] = String.[]
to_lower (String.◌∷◌ c s) = String.◌∷◌ (lower_in upper_letters c) (to_lower s)

-- `deriveControllerNameFromObject`
unfoldable pub derive_controller_name : GoType → String
unfolding to_lower
derive_controller_name t = to_lower (if t.is_pointer then t.elem_name else t.own_name)
