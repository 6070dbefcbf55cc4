-- ===== src/Config/Flags/Bind/Parts.antt =====
-- flags.go: how the parts of the walk over a struct go together.
use k8s_controller_lib.Prelude.{
  ◌≡◌, ◌≢◌, refl, sym, ap, ◌∙◌, ◌⊎◌, inl, inr, false, Option, none, some, List, [], ◌∷◌, ◌++◌, All,
}
use mathlib.Core.Path.{subst}
use mathlib.Core.List.{append_assoc}
use k8s_controller_lib.Runtime.Exec.{ok, err}
use k8s_controller_lib.Util.Text.{Text}
use k8s_controller_lib.Config.Flags.Registry.{FlagApi, FlagLaws, Attempt}
use k8s_controller_lib.Config.Flags.Bind.{BindState, and_then}
use k8s_controller_lib.Config.Flags.Bind.Tracked.{Tracks}
use k8s_controller_lib.Config.Flags.Bind.Declared.{joined, Fresh, Fresh-append}

pub some_inj : {A : Type 0} {x y : A} → ◌≡◌ {A = Option A} (some x) (some y) → x ≡ y
some_inj e = cc e

All-append : {A : Type 0} (P : A → Type 0) (xs ys : List A) → All P (xs ++ ys) → All P xs × All P ys
All-append P [] ys all = (tt, all)
All-append P (x ∷ xs) ys (here, all) =
    let (left, right) = All-append P xs ys all in ((here, left), right)

module _ {F V D : Type 0} (api : FlagApi F V D) (laws : FlagLaws api) (before : F) where
  -- None of these flags is in the set.
  abbrev pub NotIn : List (Text × Text) → Type 0
  NotIn flags = All (λ f. api.lookup f.0 before ≡ false) flags

  abbrev pub Unused : Option (List (Text × Text)) → Type 0
  Unused none = Unit
  Unused (some flags) = NotIn flags

  -- What a part of the walk comes to, by the flags that this part declares.
  abbrev pub Accepted :
      List (Text × Text) → Option (List (Text × Text)) → Attempt (BindState F V) → Type 0
  Accepted seen declared none = ⊥
  Accepted seen declared (some (r, s1)) =
      (flags : List (Text × Text)) × (declared ≡ some flags)
      × Fresh seen flags
      × (r ≡ ok tt)
      × (s1.seen_flags ≡ seen ++ flags)
      × Tracks api laws before s1.flag_set s1.seen_flags

  abbrev pub Fails : Attempt (BindState F V) → Type 0
  Fails none = Unit
  Fails (some (r, s1)) = r ≢ ok tt

  abbrev pub Stale : List (Text × Text) → Option (List (Text × Text)) → Type 0
  Stale seen declared =
      (flags : List (Text × Text)) → declared ≡ some flags → Fresh seen flags → NotIn flags → ⊥

  abbrev pub Comes :
      List (Text × Text) → Option (List (Text × Text)) → Attempt (BindState F V) → Type 0
  Comes seen declared result = Accepted seen declared result ⊎ (Fails result × Stale seen declared)

  joined-some :
      {A : Type 0} (x y : Option (List A)) (zs : List A)
      → joined x y ≡ some zs
      → (xs ys : List A) × (x ≡ some xs) × (y ≡ some ys) × (zs ≡ xs ++ ys)
  joined-some none y zs e = cc e
  joined-some (some xs) none zs e = cc e
  joined-some (some xs) (some ys) zs e = (xs, ys, refl, refl, cc e)

  Stale-first :
      (seen : List (Text × Text)) (x y : Option (List (Text × Text)))
      → Stale seen x
      → Stale seen (joined x y)
  Stale-first seen x y stale flags whole fresh unused =
      let (xs, ys, is_x, is_y, is_whole) = joined-some x y flags whole in
      stale xs is_x ((Fresh-append seen xs ys).0 (subst (Fresh seen) is_whole fresh)).0
        (All-append (λ f. api.lookup f.0 before ≡ false) xs ys (subst NotIn is_whole unused)).0

  Stale-rest :
      (seen seen1 xs : List (Text × Text)) (x y : Option (List (Text × Text)))
      → x ≡ some xs
      → seen1 ≡ seen ++ xs
      → Stale seen1 y
      → Stale seen (joined x y)
  Stale-rest seen seen1 xs x y is_x more stale flags whole fresh unused =
      let (xs1, ys, is_x1, is_y, is_whole) = joined-some x y flags whole in
      let same : xs ≡ xs1 = some_inj (sym is_x ∙ is_x1) in
      let split = (Fresh-append seen xs1 ys).0 (subst (Fresh seen) is_whole fresh) in
      stale ys is_y (subst (λ z. Fresh z ys) (sym (more ∙ ap (λ z. seen ++ z) same)) split.1)
        (All-append (λ f. api.lookup f.0 before ≡ false) xs1 ys (subst NotIn is_whole unused)).1

  pub and_then-Comes :
      (seen : List (Text × Text)) (x y : Option (List (Text × Text)))
      (first : Attempt (BindState F V)) (next : BindState F V → Attempt (BindState F V))
      → Comes seen x first
      → ((s1 : BindState F V)
          → Tracks api laws before s1.flag_set s1.seen_flags
          → Comes s1.seen_flags y (next s1))
      → Comes seen (joined x y) (and_then api first next)
  unfolding and_then
  and_then-Comes seen x y none next comes rest = elim comes [
    | inl wrong ↦ absurd wrong
    | inr (fails, stale) ↦ inr (tt, Stale-first seen x y stale)
  ]
  and_then-Comes seen x y (some (err e, s1)) next comes rest = elim comes [
    | inl (flags, declared, fresh, succeeds, more, tracks) ↦ cc succeeds
    | inr (fails, stale) ↦ inr (fails, Stale-first seen x y stale)
  ]
  and_then-Comes seen x y (some (ok tt, s1)) next comes rest = elim comes [
    | inr (fails, stale) ↦ absurd (fails refl)
    | inl (xs, is_x, fresh, succeeds, more, tracks) ↦
        both seen x y xs s1 (next s1) is_x fresh more (rest s1 tracks)
  ]
    where
      both :
          (seen : List (Text × Text)) (x y : Option (List (Text × Text))) (xs : List (Text × Text))
          (s1 : BindState F V) (result : Attempt (BindState F V))
          → x ≡ some xs
          → Fresh seen xs
          → s1.seen_flags ≡ seen ++ xs
          → Comes s1.seen_flags y result
          → Comes seen (joined x y) result
      both seen x y xs s1 none is_x fresh more comes = elim comes [
        | inl wrong ↦ absurd wrong
        | inr (fails, stale) ↦ inr (tt, Stale-rest seen s1.seen_flags xs x y is_x more stale)
      ]
      both seen x y xs s1 (some (r, s2)) is_x fresh more comes = elim comes [
        | inr (fails, stale) ↦ inr (fails, Stale-rest seen s1.seen_flags xs x y is_x more stale)
        | inl (ys, is_y, fresh_y, succeeds, more_y, tracks) ↦ inl (
          xs ++ ys,
          rw (is_x, is_y) refl,
          (Fresh-append seen xs ys).1 (fresh, subst (λ z. Fresh z ys) more fresh_y),
          succeeds,
          more_y ∙ ap (λ z. z ++ ys) more ∙ append_assoc seen xs ys,
          tracks,
        )
      ]
