-- ===== src/Conditions/Sample.antt =====
-- A value of `MetaApi`, for the tests: a list of conditions that is searched from its head. It shows
-- that what the model takes from k8s.io/apimachinery can be had.
use k8s_controller_lib.Prelude.{
  String, ◌≡◌, refl, false, Option, none, some, List, [], ◌∷◌, arith, if◌then◌else◌, ◌==◌, eq_iff,
  eq_refl,
}
use k8s_controller_lib.Conditions.Api.{MetaApi, Condition, is_condition_true, is_condition_false}

abbrev pub upsert : Condition → List Condition → List Condition
upsert c [] = c ∷ []
upsert c (d ∷ ds) = if d.type == c.type then c ∷ ds else d ∷ upsert c ds

abbrev pub find : List Condition → String → Option Condition
find [] t = none
find (d ∷ ds) t = if d.type == t then some d else find ds t

abbrev pub without : List Condition → String → List Condition
without [] t = []
without (d ∷ ds) t = let rest = without ds t in if d.type == t then rest else d ∷ rest

pub find-upsert_self : (cs : List Condition) (c : Condition) → find (upsert c cs) c.type ≡ some c
find-upsert_self [] c = ground (arith, eq_refl c.type)
find-upsert_self (d ∷ ds) c = ground (arith, eq_refl c.type, find-upsert_self ds c)

pub find-upsert_ne :
    (cs : List Condition) (c : Condition) (t : String)
    → (c.type == t) ≡ false
    → find (upsert c cs) t ≡ find cs t
find-upsert_ne [] c t h = ground arith
find-upsert_ne (d ∷ ds) c t h =
    ground (arith, eq_iff d.type c.type, eq_iff d.type t, eq_iff c.type t, find-upsert_ne ds c t h)

pub find-type : (cs : List Condition) (t : String) (c : Condition) → find cs t ≡ some c → c.type ≡ t
find-type [] t c h = ground arith
find-type (d ∷ ds) t c h = ground (arith, eq_iff d.type t, find-type ds t c)

pub find-without :
    (cs : List Condition) (t u : String)
    → find (without cs t) u ≡ (if t == u then none else find cs u)
find-without [] t u = ground arith
find-without (d ∷ ds) t u =
    ground (arith, eq_iff d.type t, eq_iff d.type u, eq_iff t u, find-without ds t u)

abbrev pub listed : MetaApi
listed = record {
  set_status_condition = λ now cs c. upsert c cs;
  find_status_condition = find;
  is_status_condition_true =
      λ cs t. elim (find cs t) [ none ↦ false | some c ↦ is_condition_true c.status ];
  is_status_condition_false =
      λ cs t. elim (find cs t) [ none ↦ false | some c ↦ is_condition_false c.status ];
  remove_status_condition = without;
  find-set_self = λ now cs c. (
    c,
    find-upsert_self cs c,
    record {
      type = refl;
      status = refl;
      reason = refl;
      message = refl;
      observed_generation = refl;
    },
  );
  find-set_ne = λ now cs c t h. find-upsert_ne cs c t h;
  find-type = find-type;
  find-remove = find-without;
  is_status_condition_true_lem = λ cs t. refl;
  is_status_condition_false_lem = λ cs t. refl;
}
