-- ===== src/Predicates/Tests.antt =====
-- The default predicate, with an equality of maps and a composite that meet their laws.
use k8s_controller_lib.Prelude.{
  String, ◌≡◌, refl, ap, sym, ◌∙◌, ◌↔◌, inl, inr, Bool, true, false, ◌&&◌, ◌||◌, Option, none, some,
  List, [], ◌∷◌, arith, Any, Option-cases, ◌==◌, eq_iff,
}
use k8s_controller_lib.Runtime.StringMap.{Entries, entries, lookup}
use k8s_controller_lib.Runtime.Sample.{config_map}
use k8s_controller_lib.Predicates.{ObjectEvent, object_updated, EventFilter, PredicateApi, default}
use k8s_controller_lib.Predicates.Default.{PredicateLaws, Reconciles, default_iff}

abbrev same_value : Option String → Option String → Bool
same_value none none = true
same_value none (some w) = false
same_value (some v) none = false
same_value (some v) (some w) = v == w

same_value_iff : (a b : Option String) → (same_value a b ≡ true) ↔ (a ≡ b)
same_value_iff none none = ((λ t. refl), (λ e. refl))
same_value_iff none (some w) = ((λ t. cc t), (λ e. cc e))
same_value_iff (some v) none = ((λ t. cc t), (λ e. cc e))
same_value_iff (some v) (some w) =
    ((λ t. ap (λ s. some s) ((eq_iff v w).0 t)), (λ e. (eq_iff v w).1 (cc e)))

-- The two maps agree on the keys of a third.
abbrev agree_on : Entries → Entries → Entries → Bool
agree_on [] a b = true
agree_on ((k, v) ∷ m) a b = same_value (lookup k a) (lookup k b) && agree_on m a b

agree_on-lookup :
    (m a b : Entries) (k v : String)
    → agree_on m a b ≡ true
    → lookup k m ≡ some v
    → lookup k a ≡ lookup k b
unfolding lookup
agree_on-lookup [] a b k v agree found = cc found
agree_on-lookup ((j, w) ∷ m) a b k v agree found = ground (
  arith,
  eq_iff j k,
  same_value_iff (lookup j a) (lookup j b),
  agree_on-lookup m a b k v,
  agree,
  found,
)

agree_on-same : (m a b : Entries) → ((k : String) → lookup k a ≡ lookup k b) → agree_on m a b ≡ true
agree_on-same [] a b same = refl
agree_on-same ((k, v) ∷ m) a b same =
    ground (arith, (same_value_iff (lookup k a) (lookup k b)).1 (same k), agree_on-same m a b same)

abbrev some_passes : List EventFilter → EventFilter
some_passes [] e = false
some_passes (p ∷ ps) e = let rest = some_passes ps e in p e || rest

abbrev all_pass : List EventFilter → EventFilter
all_pass [] e = true
all_pass (p ∷ ps) e = let rest = all_pass ps e in p e && rest

abbrev sample_api : PredicateApi
sample_api = record {
  maps_equal = λ a b.
      agree_on (entries a) (entries a) (entries b) && agree_on (entries b) (entries a) (entries b);
  and_ = all_pass;
  or_ = some_passes;
}

some_passes_iff :
    (ps : List EventFilter) (e : ObjectEvent) → (some_passes ps e ≡ true) ↔ Any (λ p. p e ≡ true) ps
some_passes_iff [] e = ((λ t. cc t), (λ bottom. absurd bottom))
some_passes_iff (p ∷ ps) e = let (to, of) = some_passes_iff ps e in ground (arith, to, of)

agree_lem :
    (a b : Entries)
    → ((agree_on a a b && agree_on b a b) ≡ true) ↔ ((k : String) → lookup k a ≡ lookup k b)
agree_lem a b = (
  (λ t k. elim (Option-cases (lookup k a)) [
    | inr (v, here) ↦ agree_on-lookup a a b k v (ground (arith, t)) here
    | inl absent ↦ elim (Option-cases (lookup k b)) [
      | inr (v, there) ↦ agree_on-lookup b a b k v (ground (arith, t)) there
      | inl missing ↦ absent ∙ sym missing
    ]
  ]),
  (λ same. ground (arith, agree_on-same a a b same, agree_on-same b a b same)),
)

sample_laws : PredicateLaws sample_api
sample_laws = record {
  maps_equal_iff = λ a b. agree_lem (entries a) (entries b);
  or_iff = some_passes_iff;
}

abbrev relabelled : ObjectEvent
relabelled =
    object_updated (some (config_map "ns" "settings"))
      (some (record (config_map "ns" "settings") { labels = some (("a", "b") ∷ []) }))

default_iff_example : (default sample_api relabelled ≡ true) ↔ Reconciles relabelled
default_iff_example = default_iff sample_api sample_laws relabelled
