-- ===== src/Config/Flags/Bind/Declared.antt =====
-- flags.go: the flags that a struct declares, with no state.
use k8s_controller_lib.Prelude.{
  ◌≡◌, ◌≢◌, ◌↔◌, refl, inl, inr, Bool-cases, All, false, Option, none, some, List, [], ◌∷◌, ◌++◌,
  if◌then◌else◌,
}
use mathlib.Core.List.{append_assoc, append-nil}
use k8s_controller_lib.Runtime.Exec.{Result, ok, err}
use k8s_controller_lib.Util.Text.{Text, same_text, same_text_iff}
use k8s_controller_lib.Config.Fields.{Field, Struct, no_fields, value_field, struct_field}
use k8s_controller_lib.Config.Flags.{get_flag_name, nested_prefix}
use k8s_controller_lib.Config.Flags.Bind.{has_seen, is_skipped}

-- The flags of a struct, with their fields, in order; or nothing, if the tag of some field is invalid.
abbrev pub joined : {A : Type 0} → Option (List A) → Option (List A) → Option (List A)
joined none ys = none
joined (some xs) none = none
joined (some xs) (some ys) = some (xs ++ ys)

abbrev pub flag_of : Field → Result (Option Text) → Option (List (Text × Text))
flag_of field (err e) = none
flag_of field (ok none) = some []
flag_of field (ok (some name)) = some ((name, field.name) ∷ [])

abbrev pub declared_flags : {D : Type 0} → Struct D → Text → Text → Option (List (Text × Text))
declared_flags no_fields prefix separator = some []
declared_flags (value_field field v rest) prefix separator =
    joined
      (if is_skipped field then some [] else flag_of field (get_flag_name field prefix separator))
      (declared_flags rest prefix separator)
declared_flags (struct_field field v inner rest) prefix separator =
    let nested = declared_flags inner (nested_prefix field prefix separator) separator in
    joined (if is_skipped field then some [] else nested) (declared_flags rest prefix separator)

-- Each flag's name is new: neither seen before nor one of those in front of it.
abbrev pub Fresh : List (Text × Text) → List (Text × Text) → Type 0
Fresh seen [] = Unit
Fresh seen (f ∷ fs) = (has_seen f.0 seen ≡ false) × Fresh (seen ++ f ∷ []) fs

pub Fresh-append :
    (seen xs ys : List (Text × Text))
    → Fresh seen (xs ++ ys) ↔ (Fresh seen xs × Fresh (seen ++ xs) ys)
Fresh-append seen [] ys = rw (append-nil seen) ((λ p. (tt, p)), (λ (x, p). p))
Fresh-append seen (x ∷ xs) ys =
    let (to, of) = Fresh-append (seen ++ x ∷ []) xs ys in
    rw⁻¹ (append_assoc seen (x ∷ []) xs) (
      (λ (new, rest). let (here, there) = to rest in ((new, here), there)),
      (λ ((new, here), there). (new, of (here, there))),
    )

-- No two of the flags have the same name.
abbrev pub Distinct : List (Text × Text) → Type 0
Distinct [] = Unit
Distinct (f ∷ fs) = All (λ g. f.0 ≢ g.0) fs × Distinct fs

-- None of the flags was seen.
abbrev NoneSeen : List (Text × Text) → List (Text × Text) → Type 0
NoneSeen seen fs = All (λ f. has_seen f.0 seen ≡ false) fs

has_seen-append :
    (n : Text) (seen : List (Text × Text)) (g : Text × Text)
    → (has_seen n (seen ++ g ∷ []) ≡ false) ↔ ((has_seen n seen ≡ false) × (g.0 ≢ n))
unfolding has_seen
has_seen-append n [] (g, field) = elim (Bool-cases (same_text g n)) [
  | inl same ↦ rw same ((λ e. cc e), (λ (e, other). absurd (other ((same_text_iff g n).0 same))))
  | inr other ↦ rw other ((λ e. (refl, (λ p. cc (other, (same_text_iff g n).1 p)))), (λ e. refl))
]
has_seen-append n ((name, field) ∷ seen) g =
    let (to, of) = has_seen-append n seen g in
    elim (Bool-cases (same_text name n)) [
      | inl same ↦ rw same ((λ e. cc e), (λ (e, other). cc e))
      | inr other ↦ rw other (to, of)
    ]

NoneSeen-append :
    (seen : List (Text × Text)) (g : Text × Text) (fs : List (Text × Text))
    → NoneSeen (seen ++ g ∷ []) fs ↔ (NoneSeen seen fs × All (λ f. g.0 ≢ f.0) fs)
NoneSeen-append seen g [] = ((λ p. (tt, tt)), (λ p. tt))
NoneSeen-append seen g (f ∷ fs) =
    let (to, of) = has_seen-append f.0 seen g in
    let (to_all, of_all) = NoneSeen-append seen g fs in
    (
      (λ (p, ps). let (a, b) = to p in let (as1, bs) = to_all ps in ((a, as1), (b, bs))),
      (λ ((a, as1), (b, bs)). (of (a, b), of_all (as1, bs))),
    )

Fresh-Distinct : (seen fs : List (Text × Text)) → Fresh seen fs ↔ (NoneSeen seen fs × Distinct fs)
Fresh-Distinct seen [] = ((λ p. (tt, tt)), (λ p. tt))
Fresh-Distinct seen (f ∷ fs) =
    let (to, of) = Fresh-Distinct (seen ++ f ∷ []) fs in
    let (to_all, of_all) = NoneSeen-append seen f fs in
    (
      (λ (new, rest).
          let (unseen, distinct) = to rest in
          let (old, others) = to_all unseen in ((new, old), (others, distinct))),
      (λ ((new, old), (others, distinct)). (new, of (of_all (old, others), distinct))),
    )

NoneSeen-nil : (fs : List (Text × Text)) → NoneSeen [] fs
unfolding has_seen
NoneSeen-nil [] = tt
NoneSeen-nil (f ∷ fs) = (refl, NoneSeen-nil fs)

pub Fresh-iff : (fs : List (Text × Text)) → Fresh [] fs ↔ Distinct fs
Fresh-iff fs =
    let (to, of) = Fresh-Distinct [] fs in
    ((λ fresh. (to fresh).1), (λ distinct. of (NoneSeen-nil fs, distinct)))
