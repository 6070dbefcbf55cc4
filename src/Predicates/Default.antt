-- ===== src/Predicates/Default.antt =====
-- predicates.go: which events the default predicate lets pass.
use k8s_controller_lib.Prelude.{
  String, ◌≡◌, ◌≢◌, refl, ◌⊎◌, ◌↔◌, inl, inr, Bool, true, false, not, Bool-cases, none, some, List,
  [], ◌∷◌, arith, Any,
}
use k8s_controller_lib.Prelude.Int.{ℤ, pos, negsuc, is_zero}
use k8s_controller_lib.Runtime.StringMap.{StringMap, entries, lookup}
use k8s_controller_lib.Runtime.Objects.{Object}
use k8s_controller_lib.Predicates.{
  ObjectEvent, object_created, object_deleted, object_generic, object_updated, EventFilter,
  PredicateApi, eqb_ℤ, update_passes, updated, deleted, generation_differs, generation_changed,
  label_changed, annotation_changed, any_of, default,
}

-- Two maps with the same keys and values; nil has none.
abbrev pub SameEntries : StringMap → StringMap → Type 0
SameEntries a b = (k : String) → lookup k (entries a) ≡ lookup k (entries b)

-- What the documentation of `maps.Equal` and of `predicate.Or` says.
pub record PredicateLaws (api : PredicateApi) : Type 0 where
  pub maps_equal_iff : (a b : StringMap) → (api.maps_equal a b ≡ true) ↔ SameEntries a b
  pub or_iff :
      (predicates : List EventFilter) (e : ObjectEvent)
      → (api.or_ predicates e ≡ true) ↔ Any (λ p. p e ≡ true) predicates

-- An update that changes the spec, as far as the generation tells, the labels or the annotations.
abbrev pub Changed : Object → Object → Type 0
Changed object_old object_new =
    (object_new.generation ≢ object_old.generation)
    ⊎ ((object_new.generation ≡ pos 0)
        ⊎ ((object_old.generation ≡ pos 0)
            ⊎ (¬ SameEntries object_new.labels object_old.labels
                ⊎ ¬ SameEntries object_new.annotations object_old.annotations)))

abbrev pub Reconciles : ObjectEvent → Type 0
Reconciles (object_created obj) = ⊥
Reconciles (object_generic obj) = ⊥
Reconciles (object_deleted obj) = Unit
Reconciles (object_updated none none) = ⊥
Reconciles (object_updated none (some object_new)) = Unit
Reconciles (object_updated (some object_old) none) = Unit
Reconciles (object_updated (some object_old) (some object_new)) = Changed object_old object_new

eqb_ℤ_iff : (a b : ℤ) → (eqb_ℤ a b ≡ true) ↔ (a ≡ b)
unfolding eqb_ℤ
eqb_ℤ_iff (pos a) (pos b) = ground arith
eqb_ℤ_iff (pos a) (negsuc b) = ground arith
eqb_ℤ_iff (negsuc a) (pos b) = ground arith
eqb_ℤ_iff (negsuc a) (negsuc b) = ground arith

is_zero_iff : (a : ℤ) → (is_zero a ≡ true) ↔ (a ≡ pos 0)
is_zero_iff (pos a) = ground arith
is_zero_iff (negsuc a) = ground arith

not_iff : (b : Bool) → (not b ≡ true) ↔ (¬ (b ≡ true))
not_iff true = ((λ e. cc e), (λ n. absurd (n refl)))
not_iff false = ((λ e t. cc t), (λ n. refl))

generation_differs_iff :
    (object_old object_new : Object)
    → (generation_differs object_old object_new ≡ true) ↔ (
        (object_new.generation ≢ object_old.generation)
        ⊎ ((object_new.generation ≡ pos 0) ⊎ (object_old.generation ≡ pos 0)))
unfolding generation_differs
generation_differs_iff object_old object_new = elim (Bool-cases (is_zero object_new.generation)) [
  | inl e ↦ rw e ((λ t. inr (inl ((is_zero_iff object_new.generation).0 e))), (λ w. refl))
  | inr ne ↦ elim (Bool-cases (is_zero object_old.generation)) [
    | inl e ↦ rw (ne, e) ((λ t. inr (inr ((is_zero_iff object_old.generation).0 e))), (λ w. refl))
    | inr neo ↦
        rw (ne, neo)
          (
            (λ t. inl (λ same.
                (not_iff (eqb_ℤ object_new.generation object_old.generation)).0 t
                  ((eqb_ℤ_iff object_new.generation object_old.generation).1 same))),
            (λ w. elim w [
              | inl differs ↦
                  (not_iff (eqb_ℤ object_new.generation object_old.generation)).1
                    (λ e. differs ((eqb_ℤ_iff object_new.generation object_old.generation).0 e))
              | inr (inl z) ↦ cc (ne, (is_zero_iff object_new.generation).1 z)
              | inr (inr z) ↦ cc (neo, (is_zero_iff object_old.generation).1 z)
            ]),
          )
  ]
]

module _ (api : PredicateApi) (laws : PredicateLaws api) where
  maps_differ_iff : (a b : StringMap) → (not (api.maps_equal a b) ≡ true) ↔ (¬ SameEntries a b)
  maps_differ_iff a b = (
    (λ t same. (not_iff (api.maps_equal a b)).0 t ((laws.maps_equal_iff a b).1 same)),
    (λ differs. (not_iff (api.maps_equal a b)).1 (λ e. differs ((laws.maps_equal_iff a b).0 e))),
  )

  -- Some predicate of `Default` lets the event pass.
  abbrev Passes : ObjectEvent → Type 0
  Passes e =
      Any (λ p. p e ≡ true)
        (generation_changed ∷ label_changed api ∷ annotation_changed api ∷ deleted ∷ [])

  Passes-Changed :
      (object_old object_new : Object)
      → Passes (object_updated (some object_old) (some object_new)) ↔ Changed object_old object_new
  unfolding generation_changed label_changed annotation_changed deleted updated update_passes
  Passes-Changed object_old object_new =
      let generation = generation_differs_iff object_old object_new in
      let labels = maps_differ_iff object_new.labels object_old.labels in
      let annotations = maps_differ_iff object_new.annotations object_old.annotations in
      (
        (λ t. elim t [
          | inl g ↦ elim (generation.0 g) [
            | inl differs ↦ inl differs
            | inr (inl zero_new) ↦ inr (inl zero_new)
            | inr (inr zero_old) ↦ inr (inr (inl zero_old))
          ]
          | inr (inl l) ↦ inr (inr (inr (inl (labels.0 l))))
          | inr (inr (inl a)) ↦ inr (inr (inr (inr (annotations.0 a))))
          | inr (inr (inr (inl d))) ↦ cc d
          | inr (inr (inr (inr bottom))) ↦ absurd bottom
        ]),
        (λ c. elim c [
          | inl differs ↦ inl (generation.1 (inl differs))
          | inr (inl zero_new) ↦ inl (generation.1 (inr (inl zero_new)))
          | inr (inr (inl zero_old)) ↦ inl (generation.1 (inr (inr zero_old)))
          | inr (inr (inr (inl l))) ↦ inr (inl (labels.1 l))
          | inr (inr (inr (inr a))) ↦ inr (inr (inl (annotations.1 a)))
        ]),
      )

  -- No predicate but `Deleted` looks at another event than an update.
  never :
      {b c d f : Bool}
      → b ≡ false
      → c ≡ false
      → d ≡ false
      → f ≡ false
      → ((b ≡ true) ⊎ ((c ≡ true) ⊎ ((d ≡ true) ⊎ ((f ≡ true) ⊎ ⊥)))) ↔ ⊥
  never nb nc nd nf = (
    (λ t. elim t [
      | inl e ↦ cc (nb, e)
      | inr (inl e) ↦ cc (nc, e)
      | inr (inr (inl e)) ↦ cc (nd, e)
      | inr (inr (inr (inl e))) ↦ cc (nf, e)
      | inr (inr (inr (inr bottom))) ↦ absurd bottom
    ]),
    (λ bottom. absurd bottom),
  )

  Passes-Reconciles : (e : ObjectEvent) → Passes e ↔ Reconciles e
  unfolding generation_changed label_changed annotation_changed deleted updated update_passes
  Passes-Reconciles (object_created obj) = never refl refl refl refl
  Passes-Reconciles (object_generic obj) = never refl refl refl refl
  Passes-Reconciles (object_deleted obj) = ((λ t. tt), (λ t. inr (inr (inr (inl refl)))))
  Passes-Reconciles (object_updated none none) = never refl refl refl refl
  Passes-Reconciles (object_updated none (some object_new)) = ((λ t. tt), (λ t. inl refl))
  Passes-Reconciles (object_updated (some object_old) none) = ((λ t. tt), (λ t. inl refl))
  Passes-Reconciles (object_updated (some object_old) (some object_new)) =
      Passes-Changed object_old object_new

  -- `Default` lets an event pass exactly when: it is a deletion; or it is an update of which one object
  -- is nil and the other is not; or it is an update of two objects of which the generations differ or
  -- one of them is 0, or the labels have different entries, or the annotations have. It lets no creation
  -- and no generic event pass. (The composite of controller-runtime and the equality of maps do what
  -- their documentation says.)
  pub default_iff : (e : ObjectEvent) → (default api e ≡ true) ↔ Reconciles e
  unfolding default any_of
  default_iff e =
      let (to_any, of_any) =
        laws.or_iff (generation_changed ∷ label_changed api ∷ annotation_changed api ∷ deleted ∷ [])
          e in
      let (reconciles, passes) = Passes-Reconciles e in
      ((λ t. reconciles (to_any t)), (λ r. of_any (passes r)))
