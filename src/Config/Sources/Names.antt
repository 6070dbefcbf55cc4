-- ===== src/Config/Sources/Names.antt =====
-- config_support.go: the files of a directory by their names, and the keys that they stand for.
use k8s_controller_lib.Prelude.{
  ◌≡◌, ◌≢◌, refl, sym, ap, ◌∙◌, ◌⊎◌, inl, inr, Bool, true, false, ◌||◌, Bool-cases, Option, none,
  some, List, [], ◌∷◌, ◌++◌, reverse, eqb, arith, if◌then◌else◌,
}
use mathlib.Core.List.{reverse-append, reverse-reverse}
use k8s_controller_lib.Util.Text.{Text, is_empty}
use k8s_controller_lib.Config.Sources.{
  ViperApi, is_hidden, strip_prefix, or_whole, trim_suffix, simple_key,
}

-- The first code point is a dot.
abbrev pub StartsWithDot : Text → Type 0
StartsWithDot [] = ⊥
StartsWithDot (r ∷ rs) = r ≡ 46

is_hidden_lem :
    (name : Text)
    → ((is_hidden name ≡ true) × StartsWithDot name)
      ⊎ ((is_hidden name ≡ false) × (StartsWithDot name → ⊥))
unfolding is_hidden
is_hidden_lem [] = inr (refl, λ p. p)
is_hidden_lem (r ∷ rs) = elim (Bool-cases (eqb r 46)) [
  | inl dot ↦ inl (dot, ground (arith, dot))
  | inr other ↦ inr (other, (λ p. ground (arith, other, p)))
]

module _ {V D M : Type 0} (api : ViperApi V D M) where
  -- The paths of a listing's files, in order: directories and hidden files are left out.
  pub data Listed (dir : Text) : List (Text × Bool) → List Text → Type 0 where
    nothing : Listed dir [] []
    a_directory :
        {name : Text} {entries : List (Text × Bool)} {paths : List Text}
        → Listed dir entries paths
        → Listed dir ((name, true) ∷ entries) paths
    a_hidden_file :
        {name : Text} {entries : List (Text × Bool)} {paths : List Text}
        → StartsWithDot name
        → Listed dir entries paths
        → Listed dir ((name, false) ∷ entries) paths
    a_file :
        {name : Text} {entries : List (Text × Bool)} {paths : List Text}
        → (StartsWithDot name → ⊥)
        → Listed dir entries paths
        → Listed dir ((name, false) ∷ entries) (api.join dir name ∷ paths)

  -- The files of a listing, as the loop tells them.
  abbrev pub visible : Text → List (Text × Bool) → List Text
  visible dir [] = []
  visible dir ((name, is_dir) ∷ entries) =
      let rest = visible dir entries in
      if is_dir || is_hidden name then rest else api.join dir name ∷ rest

  pub visible-Listed :
      (dir : Text) (entries : List (Text × Bool)) → Listed dir entries (visible dir entries)
  visible-Listed dir [] = nothing
  visible-Listed dir ((name, true) ∷ entries) = a_directory (visible-Listed dir entries)
  visible-Listed dir ((name, false) ∷ entries) = elim (is_hidden_lem name) [
    | inl (hidden, dot) ↦ rw hidden (a_hidden_file dot (visible-Listed dir entries))
    | inr (shown, no_dot) ↦ rw shown (a_file no_dot (visible-Listed dir entries))
  ]

  -- The key of a file: its name without the extension, or the whole name if nothing is before the
  -- extension or the name does not end with it.
  abbrev pub KeyOf : Text → Text → Type 0
  KeyOf filename key =
      ((key ≢ []) × (key ++ api.ext filename ≡ filename))
      ⊎ ((key ≡ filename)
          × ((api.ext filename ≡ filename) ⊎ ((k : Text) → k ++ api.ext filename ≢ filename)))

strip_prefix-some : (p s r : Text) → strip_prefix p s ≡ some r → p ++ r ≡ s
unfolding strip_prefix
strip_prefix-some [] s r h = cc h
strip_prefix-some (x ∷ p) [] r h = cc h
strip_prefix-some (x ∷ p) (y ∷ s) r h = elim (Bool-cases (eqb x y)) [
  | inl same ↦
      let rest : p ++ r ≡ s = strip_prefix-some p s r (rw same at h) in
      let xy : x ≡ y = ground (arith, same) in cc (rest, xy)
  | inr other ↦ cc (rw other at h)
]

strip_prefix-none : (p s : Text) → strip_prefix p s ≡ none → (r : Text) → p ++ r ≢ s
unfolding strip_prefix
strip_prefix-none [] s h r e = cc h
strip_prefix-none (x ∷ p) [] h r e = cc e
strip_prefix-none (x ∷ p) (y ∷ s) h r e = elim (Bool-cases (eqb x y)) [
  | inl same ↦ let rest : p ++ r ≡ s = cc e in strip_prefix-none p s (rw same at h) r rest
  | inr other ↦ let xy : x ≡ y = cc e in ground (arith, other, xy)
]

-- `trim_suffix` takes the suffix off, or gives the whole text if it is no suffix.
trim_suffix_lem :
    (s suffix : Text)
    → (trim_suffix s suffix ++ suffix ≡ s)
      ⊎ ((trim_suffix s suffix ≡ s) × ((k : Text) → k ++ suffix ≢ s))
unfolding trim_suffix or_whole
trim_suffix_lem s suffix = go (strip_prefix (reverse suffix) (reverse s)) refl
  where
    go :
        (found : Option Text)
        → strip_prefix (reverse suffix) (reverse s) ≡ found
        → (or_whole s found ++ suffix ≡ s)
          ⊎ ((or_whole s found ≡ s) × ((k : Text) → k ++ suffix ≢ s))
    go none h = inr (
      refl,
      (λ k e.
          strip_prefix-none (reverse suffix) (reverse s) h (reverse k)
            (sym (reverse-append k suffix) ∙ ap reverse e)),
    )
    go (some r) h = inl (
        ap (λ t. reverse r ++ t) (sym (reverse-reverse suffix))
        ∙ sym (reverse-append (reverse suffix) r)
        ∙ ap reverse (strip_prefix-some (reverse suffix) (reverse s) r h)
        ∙ reverse-reverse s)

is_empty_lem : (s : Text) → ((is_empty s ≡ true) × (s ≡ [])) ⊎ ((is_empty s ≡ false) × (s ≢ []))
is_empty_lem [] = inl (refl, refl)
is_empty_lem (r ∷ rs) = inr (refl, λ e. cc e)

module _ {V D M : Type 0} (api : ViperApi V D M) where
  pub simple_key-KeyOf : (filename : Text) → KeyOf api filename (simple_key api filename)
  unfolding simple_key
  simple_key-KeyOf filename =
      let key = trim_suffix filename (api.ext filename) in
      elim (is_empty_lem key) [
        | inl (empty, is_nil) ↦ rw empty (
            inr (
              refl,
              elim (trim_suffix_lem filename (api.ext filename)) [
                | inl whole ↦ inl (ap (λ k. k ++ api.ext filename) (sym is_nil) ∙ whole)
                | inr (same, no_suffix) ↦ inr no_suffix
              ],
            ))
        | inr (some_, not_nil) ↦ rw some_ (elim (trim_suffix_lem filename (api.ext filename)) [
          | inl whole ↦ inl (not_nil, whole)
          | inr (same, no_suffix) ↦ inr (same, inr no_suffix)
        ])
      ]
