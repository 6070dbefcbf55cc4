-- ===== src/Hierarchical/Cache/Failing.antt =====
-- cache.go: why `deriveLocalGVKs` fails.
use k8s_controller_lib.Prelude.{
  String, ◌≡◌, ◌≢◌, refl, ◌⊎◌, inl, inr, Option, none, some, List, [], ◌∷◌, Any, ◌==◌, eq_iff,
  Bool-cases,
}
use k8s_controller_lib.Runtime.Errors.{GoError}
use k8s_controller_lib.Runtime.Exec.{Result, ok, err, Result-cases}
use k8s_controller_lib.Runtime.Objects.{Gvk}
use k8s_controller_lib.Hierarchical.Cache.{
  Schemes, KnownTypes, add_result, find_type, compare_type, local_types, by_object_gvk,
  by_object_gvks, derive_local_gvks,
}

module _ {O : Type 0} (schemes : Schemes O) where
  -- The parent's scheme has another type for the kind.
  abbrev pub Conflicts : KnownTypes schemes → Gvk × String → Type 0
  Conflicts parents (k, t) = (u : String) × (find_type schemes k parents ≡ some u) × (u ≢ t)

  -- A nil object, or one whose kind the child's scheme cannot tell
  abbrev pub HasNoKind : Option O → Type 0
  HasNoKind obj =
      (obj ≡ none) ⊎ ((o : O) × (e : GoError) × (obj ≡ some o) × (schemes.child_gvk o ≡ err e))

  add_result_fails :
      (a b : Result (List Gvk)) (e : GoError)
      → add_result schemes a b ≡ err e
      → ((e1 : GoError) × (a ≡ err e1)) ⊎ ((e1 : GoError) × (b ≡ err e1))
  unfolding add_result
  add_result_fails (err e1) b e h = inl (e1, refl)
  add_result_fails (ok ks) (err e1) e h = inr (e1, refl)
  add_result_fails (ok ks) (ok rest) e h = cc h

  compare_type_fails :
      (k : Gvk) (t : String) (o : Option String) (e : GoError)
      → compare_type schemes k t o ≡ err e
      → (u : String) × (o ≡ some u) × (u ≢ t)
  unfolding compare_type
  compare_type_fails k t none e h = cc h
  compare_type_fails k t (some u) e h = elim (Bool-cases (u == t)) [
    | inl same ↦ cc (rw same at h)
    | inr other ↦ (u, refl, (λ p. cc (other, (eq_iff u t).1 p)))
  ]

  local_types_fails :
      (child parents : KnownTypes schemes) (e : GoError)
      → local_types schemes child parents ≡ err e
      → Any (Conflicts parents) child
  unfolding local_types
  local_types_fails [] parents e h = cc h
  local_types_fails ((k, t) ∷ child) parents e h =
      elim (add_result_fails (compare_type schemes k t (find_type schemes k parents))
        (local_types schemes child parents) e h) [
          | inl (e1, first) ↦ inl (compare_type_fails k t (find_type schemes k parents) e1 first)
          | inr (e1, later) ↦ inr (local_types_fails child parents e1 later)
        ]

  by_object_gvk_fails :
      (obj : Option O) (e : GoError) → by_object_gvk schemes obj ≡ err e → HasNoKind obj
  unfolding by_object_gvk
  by_object_gvk_fails none e h = inl refl
  by_object_gvk_fails (some o) e h = elim (Result-cases (schemes.child_gvk o)) [
    | inl (k, known) ↦ cc (rw (known, by_object_gvk) at h)
    | inr (e1, unknown) ↦ inr (o, e1, refl, unknown)
  ]

  by_object_gvks_fails :
      (objs : List (Option O)) (e : GoError)
      → by_object_gvks schemes objs ≡ err e
      → Any HasNoKind objs
  unfolding by_object_gvks
  by_object_gvks_fails [] e h = cc h
  by_object_gvks_fails (obj ∷ objs) e h =
      elim (add_result_fails (by_object_gvk schemes obj) (by_object_gvks schemes objs) e h) [
        | inl (e1, first) ↦ inl (by_object_gvk_fails obj e1 first)
        | inr (e1, later) ↦ inr (by_object_gvks_fails objs e1 later)
      ]

  -- A kind that both schemes know with different types, or a `ByObject` object without a kind.
  pub derive_local_gvks_fails :
      (child parents : KnownTypes schemes) (objs : List (Option O)) (e : GoError)
      → derive_local_gvks schemes child parents objs ≡ err e
      → Any (Conflicts parents) child ⊎ Any HasNoKind objs
  unfolding derive_local_gvks
  derive_local_gvks_fails child parents objs e h =
      elim (add_result_fails (local_types schemes child parents) (by_object_gvks schemes objs) e
        h) [
          | inl (e1, first) ↦ inl (local_types_fails child parents e1 first)
          | inr (e1, later) ↦ inr (by_object_gvks_fails objs e1 later)
        ]
