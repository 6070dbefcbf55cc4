-- ===== src/Hierarchical/Cache/Routing.antt =====
-- cache.go: what the set of `deriveLocalGVKs` says of the routing, and that the parent's cache keeps its
-- informers.
use k8s_controller_lib.Prelude.{
  String, ◌≡◌, refl, sym, ap, ◌∙◌, ◌↔◌, ◌⊎◌, inl, inr, true, Option, none, some, List, [], ◌∷◌, All,
  Any, ◌==◌, eq_iff, Bool-cases,
}
use k8s_controller_lib.Runtime.Errors.{GoError, wrap_before}
use k8s_controller_lib.Runtime.Exec.{Result, ok, err, Result-cases}
use k8s_controller_lib.Runtime.Objects.{Gvk, gvk_eq, gvk_eq_iff}
use k8s_controller_lib.Hierarchical.Cache.{
  Schemes, CacheApi, Caches, Side, local, parent, KnownTypes, holds_gvk, add_all, add_result,
  normalize_gvk, cache_for_gvk, cache_for_object, find_type, compare_type, local_types,
  by_object_gvk, by_object_gvks, derive_local_gvks, on_side, remove_selected, remove_resolved,
  remove_informer, shared_informer_removal,
}

holds-add_all :
    {O : Type 0} (schemes : Schemes O) (n : Gvk) (ks set : List Gvk)
    → (holds_gvk (add_all schemes ks set) n ≡ true)
      ↔ ((holds_gvk ks n ≡ true) ⊎ (holds_gvk set n ≡ true))
holds-add_all schemes n [] set = (λ h. inr h, λ h. elim h [ inl e ↦ cc e | inr e ↦ e ])
holds-add_all schemes n (k ∷ ks) set = elim (Bool-cases (gvk_eq k n)) [
  | inl e ↦ rw e (λ h. inl refl, λ h. refl)
  | inr e ↦ rw e (holds-add_all schemes n ks set)
]

holds_one : (k n : Gvk) → (holds_gvk (k ∷ []) n ≡ true) ↔ (k ≡ n)
holds_one k n = elim (Bool-cases (gvk_eq k n)) [
  | inl e ↦ rw e (λ h. (gvk_eq_iff k n).0 e, λ h. refl)
  | inr e ↦ rw e (λ h. cc h, λ h. cc (e, (gvk_eq_iff k n).1 h))
]

some_inj : {A : Type 0} {x y : A} → ◌≡◌ {A = Option A} (some x) (some y) → x ≡ y
some_inj e = cc e

ok_inj : {A : Type 0} {x y : A} → ◌≡◌ {A = Result A} (ok x) (ok y) → x ≡ y
ok_inj e = cc e

-- A sum on both sides of an equivalence.
either : {A B C D : Type 0} → (A ↔ B) → (C ↔ D) → (A ⊎ C) ↔ (B ⊎ D)
either f g = (
  λ x. elim x [ inl a ↦ inl (f.0 a) | inr c ↦ inr (g.0 c) ],
  λ x. elim x [ inl b ↦ inl (f.1 b) | inr d ↦ inr (g.1 d) ],
)

through : {A B C : Type 0} → (A ↔ B) → (B ↔ C) → A ↔ C
through f g = (λ a. g.0 (f.0 a), λ c. f.1 (g.1 c))

module _ {O : Type 0} (schemes : Schemes O) where
  add_result_inv :
      (a b : Result (List Gvk)) (set : List Gvk)
      → add_result schemes a b ≡ ok set
      → (ks rest : List Gvk) × (a ≡ ok ks) × (b ≡ ok rest) × (add_all schemes ks rest ≡ set)
  unfolding add_result
  add_result_inv (err e) b set h = cc h
  add_result_inv (ok ks) (err e) set h = cc h
  add_result_inv (ok ks) (ok rest) set h = (ks, rest, refl, refl, cc h)

  -- A set holds a kind just if one part of it does.
  holds-add_result :
      (n : Gvk) (a b : Result (List Gvk)) (set : List Gvk)
      → add_result schemes a b ≡ ok set
      → (ks rest : List Gvk) × (a ≡ ok ks)
        × (b ≡ ok rest)
        × ((holds_gvk set n ≡ true) ↔ ((holds_gvk ks n ≡ true) ⊎ (holds_gvk rest n ≡ true)))
  holds-add_result n a b set h =
      let (ks, rest, ea, eb, same) = add_result_inv a b set h in
      (ks, rest, ea, eb, rw (← same) (holds-add_all schemes n ks rest))

  -- Two kinds that differ in the suffix `List` at most
  abbrev pub SameKind : Gvk → Gvk → Type 0
  SameKind k gvk =
      (k.group ≡ gvk.group)
      × (k.version ≡ gvk.version)
      × (schemes.trim_list k.kind ≡ schemes.trim_list gvk.kind)

  SameKind-iff :
      (k gvk : Gvk) → (normalize_gvk schemes k ≡ normalize_gvk schemes gvk) ↔ SameKind k gvk
  unfolding normalize_gvk
  SameKind-iff k gvk = (
    (λ e. (ap (λ (g : Gvk). g.group) e, ap (λ (g : Gvk). g.version) e, ap (λ (g : Gvk). g.kind) e)),
    (λ (p, q, r). λ i. record { group = p i; version = q i; kind = r i }),
  )

  -- A child's kind that only the child knows, and a `ByObject` object, of this kind up to the suffix.
  abbrev pub OnlyChild : KnownTypes schemes → Gvk → Gvk × String → Type 0
  OnlyChild parents gvk (k, t) = (find_type schemes k parents ≡ none) × SameKind k gvk

  abbrev pub IsByObject : Gvk → Option O → Type 0
  IsByObject gvk obj =
      (o : O) × (k : Gvk) × (obj ≡ some o) × (schemes.child_gvk o ≡ ok k) × SameKind k gvk

  -- The parent does not know the kind, or knows it with the same type.
  abbrev pub Agrees : KnownTypes schemes → Gvk × String → Type 0
  Agrees parents (k, t) =
      (find_type schemes k parents ≡ none) ⊎ (find_type schemes k parents ≡ some t)

  compare_type_lem :
      (gvk k : Gvk) (t : String) (o : Option String) (ks : List Gvk)
      → compare_type schemes k t o ≡ ok ks
      → ((holds_gvk ks (normalize_gvk schemes gvk) ≡ true) ↔ ((o ≡ none) × SameKind k gvk))
        × ((o ≡ none) ⊎ (o ≡ some t))
  unfolding compare_type
  compare_type_lem gvk k t none ks h =
      let same : normalize_gvk schemes k ∷ [] ≡ ks = cc h in
      let (to, from) = holds_one (normalize_gvk schemes k) (normalize_gvk schemes gvk) in
      (
        (
          λ e. (
            refl,
            (SameKind-iff k gvk).0
                (to (ap (λ l. holds_gvk l (normalize_gvk schemes gvk)) same ∙ e)),
          ),
          λ p.
              ap (λ l. holds_gvk l (normalize_gvk schemes gvk)) (sym same)
              ∙ from ((SameKind-iff k gvk).1 p.1),
        ),
        inl refl,
      )
  compare_type_lem gvk k t (some u) ks h = elim (Bool-cases (u == t)) [
    | inl e ↦
        let same : [] ≡ ks = cc (rw e at h) in
        (
          (λ q. cc (ap (λ l. holds_gvk l (normalize_gvk schemes gvk)) same ∙ q), λ p. cc p.0),
          inr (ap some ((eq_iff u t).0 e)),
        )
    | inr e ↦ cc (rw e at h)
  ]

  local_types_lem :
      (gvk : Gvk) (child parents : KnownTypes schemes) (set : List Gvk)
      → local_types schemes child parents ≡ ok set
      → ((holds_gvk set (normalize_gvk schemes gvk) ≡ true) ↔ Any (OnlyChild parents gvk) child)
        × All (Agrees parents) child
  unfolding local_types
  local_types_lem gvk [] parents set h =
      let same : [] ≡ set = cc h in
      ((λ q. cc (ap (λ l. holds_gvk l (normalize_gvk schemes gvk)) same ∙ q), λ p. absurd p), tt)
  local_types_lem gvk ((k, t) ∷ child) parents set h =
      let (ks, rest, ea, eb, iff) =
        holds-add_result (normalize_gvk schemes gvk)
          (compare_type schemes k t (find_type schemes k parents))
          (local_types schemes child parents) set h in
      let (first, agrees) = compare_type_lem gvk k t (find_type schemes k parents) ks ea in
      let (others, all_agree) = local_types_lem gvk child parents rest eb in
      (through iff (either first others), (agrees, all_agree))

  by_object_gvk_inv :
      (obj : Option O) (ks : List Gvk)
      → by_object_gvk schemes obj ≡ ok ks
      → (o : O) × (k : Gvk) × (obj ≡ some o)
        × (schemes.child_gvk o ≡ ok k)
        × (normalize_gvk schemes k ∷ [] ≡ ks)
  unfolding by_object_gvk
  by_object_gvk_inv none ks h = cc h
  by_object_gvk_inv (some obj) ks h = elim (Result-cases (schemes.child_gvk obj)) [
    | inl (gvk, e) ↦ (obj, gvk, refl, e, cc (rw (e, by_object_gvk) at h))
    | inr (x, e) ↦ cc (rw (e, by_object_gvk) at h)
  ]

  by_object_gvk_lem :
      (gvk : Gvk) (obj : Option O) (ks : List Gvk)
      → by_object_gvk schemes obj ≡ ok ks
      → (holds_gvk ks (normalize_gvk schemes gvk) ≡ true) ↔ IsByObject gvk obj
  by_object_gvk_lem gvk obj ks h =
      let (o, k, is_o, is_k, same) = by_object_gvk_inv obj ks h in
      let (to, from) = holds_one (normalize_gvk schemes k) (normalize_gvk schemes gvk) in
      let holds = ap (λ l. holds_gvk l (normalize_gvk schemes gvk)) same in
      (
        λ q. (o, k, is_o, is_k, (SameKind-iff k gvk).0 (to (holds ∙ q))),
        λ (o1, k1, is_o1, is_k1, kinds).
            let same_o : o ≡ o1 = some_inj (sym is_o ∙ is_o1) in
            let same_k : k ≡ k1 = ok_inj (sym is_k ∙ ap schemes.child_gvk same_o ∙ is_k1) in
            sym holds ∙ from (ap (normalize_gvk schemes) same_k ∙ (SameKind-iff k1 gvk).1 kinds),
      )

  by_object_gvks_lem :
      (gvk : Gvk) (objs : List (Option O)) (set : List Gvk)
      → by_object_gvks schemes objs ≡ ok set
      → (holds_gvk set (normalize_gvk schemes gvk) ≡ true) ↔ Any (IsByObject gvk) objs
  unfolding by_object_gvks
  by_object_gvks_lem gvk [] set h =
      let same : [] ≡ set = cc h in
      (λ q. cc (ap (λ l. holds_gvk l (normalize_gvk schemes gvk)) same ∙ q), λ p. absurd p)
  by_object_gvks_lem gvk (obj ∷ objs) set h =
      let (ks, rest, ea, eb, iff) =
        holds-add_result (normalize_gvk schemes gvk) (by_object_gvk schemes obj)
          (by_object_gvks schemes objs) set h in
      through iff (either (by_object_gvk_lem gvk obj ks ea) (by_object_gvks_lem gvk objs rest eb))

  cache_for_gvk_lem :
      (set : List Gvk) (gvk : Gvk)
      → (cache_for_gvk schemes set gvk ≡ local) ↔ (holds_gvk set (normalize_gvk schemes gvk) ≡ true)
  unfolding cache_for_gvk
  cache_for_gvk_lem set gvk = elim (Bool-cases (holds_gvk set (normalize_gvk schemes gvk))) [
    | inl e ↦ rw e (λ h. refl, λ h. refl)
    | inr e ↦ rw e (λ h. cc h, λ h. cc h)
  ]

  -- If `deriveLocalGVKs` succeeds, the local cache serves a kind just if, up to the suffix `List`, it is a
  -- kind of the child's scheme that the parent's scheme does not know, or the kind of a `ByObject` object;
  -- and every kind of the child's scheme that the parent knows has the same type there.
  pub derive_local_gvks_lem :
      (child parents : KnownTypes schemes) (objs : List (Option O)) (set : List Gvk) (gvk : Gvk)
      → derive_local_gvks schemes child parents objs ≡ ok set
      → ((cache_for_gvk schemes set gvk ≡ local)
          ↔ (Any (OnlyChild parents gvk) child ⊎ Any (IsByObject gvk) objs))
        × All (Agrees parents) child
  unfolding derive_local_gvks
  derive_local_gvks_lem child parents objs set gvk h =
      let (ks, rest, ea, eb, iff) =
        holds-add_result (normalize_gvk schemes gvk) (local_types schemes child parents)
          (by_object_gvks schemes objs) set h in
      let (types, agree) = local_types_lem gvk child parents ks ea in
      (
        through (cache_for_gvk_lem set gvk)
            (through iff (either types (by_object_gvks_lem gvk objs rest eb))),
        agree,
      )

  module _ {I C : Type 0} (api : CacheApi O I C) where
    abbrev pub Keeps : Result (Side × Gvk) → Caches C → Result (Unit {0}) × Caches C → Type 0
    Keeps selected cs o =
        (o.1.parent_cache ≡ cs.parent_cache)
        × (((gvk : Gvk) × (selected ≡ ok (local, gvk)))
            ⊎ (((gvk : Gvk) × (selected ≡ ok (parent, gvk))
                  × (o ≡ (err (wrap_before shared_informer_removal (schemes.gvk_string gvk)), cs)))
                ⊎ ((e : GoError) × (selected ≡ err e) × (o ≡ (err e, cs)))))

    remove_resolved-Keeps :
        (obj : O) (selected : Result (Side × Gvk)) (cs : Caches C)
        → Keeps selected cs (remove_resolved schemes api obj selected cs)
    unfolding remove_resolved remove_selected on_side
    remove_resolved-Keeps obj (err e) cs = (refl, inr (inr (e, refl, refl)))
    remove_resolved-Keeps obj (ok (local, gvk)) cs = (refl, inl (gvk, refl))
    remove_resolved-Keeps obj (ok (parent, gvk)) cs = (refl, inr (inl (gvk, refl, refl)))

    -- `RemoveInformer` never changes the parent's cache. Either the object's kind is one that the local
    -- cache serves; or it is one of the parent's, and the call changes nothing and returns an error that
    -- wraps `ErrSharedInformerRemoval`; or the kind cannot be resolved, and the call changes nothing and
    -- returns that error.
    pub remove_informer-Keeps :
        (set : List Gvk) (obj : O) (cs : Caches C)
        → Keeps (cache_for_object schemes set obj) cs (remove_informer schemes api set obj cs)
    unfolding remove_informer
    remove_informer-Keeps set obj cs =
        remove_resolved-Keeps obj (cache_for_object schemes set obj) cs
