-- ===== src/Config/Flags/Bind/Tracked.antt =====
-- flags.go: the flags of a set while a struct is bound to it.
use k8s_controller_lib.Prelude.{
  ◌≡◌, refl, ap, ◌∙◌, ◌⊎◌, inl, inr, ◌||◌, Bool, true, false, Option, none, some, List, [], ◌∷◌,
  ◌++◌,
}
use k8s_controller_lib.Runtime.Exec.{ok, err}
use k8s_controller_lib.Util.Text.{Text, same_text, same_text_iff}
use k8s_controller_lib.Config.Fields.{Field, FieldValue}
use k8s_controller_lib.Config.Flags.{FlagBindingMetadata}
use k8s_controller_lib.Config.Flags.Registry.{
  FlagApi, FlagLaws, FlagBinder, Attempt, get, default_registry,
}
use k8s_controller_lib.Config.Flags.Registry.Adds.{Attempted, AddsIf, get-Adds}
use k8s_controller_lib.Config.Flags.Bind.{is_bound, bind_with, bind_field, has_seen}

pub has_seen_more :
    (n : Text) (seen ys : List (Text × Text))
    → has_seen n seen ≡ true
    → has_seen n (seen ++ ys) ≡ true
unfolding has_seen
has_seen_more n [] ys e = cc e
has_seen_more n ((name, field) ∷ seen) ys e = go (same_text name n) e (has_seen_more n seen ys)
  where
    go :
        (b : Bool)
        → (b || has_seen n seen) ≡ true
        → (has_seen n seen ≡ true → has_seen n (seen ++ ys) ≡ true)
        → (b || has_seen n (seen ++ ys)) ≡ true
    go true h more = refl
    go false h more = more h

pub has_seen_last :
    (n field : Text) (seen : List (Text × Text)) → has_seen n (seen ++ (n, field) ∷ []) ≡ true
unfolding has_seen
has_seen_last n field [] = rw ((same_text_iff n n).1 refl) refl
has_seen_last n field ((name, other) ∷ seen) = go (same_text name n) (has_seen_last n field seen)
  where
    go :
        (b : Bool)
        → has_seen n (seen ++ (n, field) ∷ []) ≡ true
        → (b || has_seen n (seen ++ (n, field) ∷ [])) ≡ true
    go true h = refl
    go false h = h

module _ {F V D : Type 0} (api : FlagApi F V D) (laws : FlagLaws api) where
  -- What `bindField` comes to, for the flag's name.
  abbrev pub BoundBy : Text → F → Option (Bool × F) → Type 0
  BoundBy name fs none = api.lookup name fs ≡ true
  BoundBy name fs (some (b, fs1)) =
      (b ≡ true → api.lookup name fs1 ≡ true)
      × ((n : Text) → api.lookup n fs1 ≡ true → (api.lookup n fs ≡ true) ⊎ (n ≡ name))

  is_bound-BoundBy :
      (name : Text) (fs : F) (answer : Attempt F)
      → Attempted api laws name fs answer
      → BoundBy name fs (is_bound api answer)
  unfolding is_bound
  is_bound-BoundBy name fs none there = there
  is_bound-BoundBy name fs (some (ok tt, fs1)) (adds, frame) = ((λ e. adds refl), frame)
  is_bound-BoundBy name fs (some (err e, fs1)) (adds, frame) = ((λ h. cc h), frame)

  bind_with-BoundBy :
      (found : Option (FlagBinder F D))
      → AddsIf api laws found
      → (field : Field) (v : FieldValue D) (meta : FlagBindingMetadata) (fs : F)
      → BoundBy meta.flag_name fs (bind_with api found field v meta fs)
  unfolding bind_with
  bind_with-BoundBy none adds field v meta fs = ((λ h. cc h), (λ n found. inl found))
  bind_with-BoundBy (some binder) adds field v meta fs =
      is_bound-BoundBy meta.flag_name fs _ (adds meta.flag_name _ meta.description fs)

  pub bind_field-BoundBy :
      (field : Field) (v : FieldValue D) (meta : FlagBindingMetadata) (fs : F)
      → BoundBy meta.flag_name fs (bind_field api field v meta fs)
  unfolding bind_field
  bind_field-BoundBy field v meta fs =
      bind_with-BoundBy (get api field.type (default_registry api)) (get-Adds api laws field.type)
        field v meta fs

  -- The flags of the set are those that it had before, or were seen.
  abbrev pub Tracks : F → F → List (Text × Text) → Type 0
  Tracks before fs seen =
      (n : Text) → api.lookup n fs ≡ true → (api.lookup n before ≡ true) ⊎ (has_seen n seen ≡ true)

  pub Tracks-step :
      (before fs fs1 : F) (seen : List (Text × Text)) (name field : Text)
      → Tracks before fs seen
      → ((n : Text) → api.lookup n fs1 ≡ true → (api.lookup n fs ≡ true) ⊎ (n ≡ name))
      → Tracks before fs1 (seen ++ (name, field) ∷ [])
  Tracks-step before fs fs1 seen name field tracks frame n found = elim (frame n found) [
    | inr same ↦
        inr (ap (λ m. has_seen m (seen ++ (name, field) ∷ [])) same ∙ has_seen_last name field seen)
    | inl old ↦ elim (tracks n old) [
      | inl there ↦ inl there
      | inr was_seen ↦ inr (has_seen_more n seen ((name, field) ∷ []) was_seen)
    ]
  ]
