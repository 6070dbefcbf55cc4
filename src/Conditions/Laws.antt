-- ===== src/Conditions/Laws.antt =====
-- conditions.go: what the functions that write conditions leave for those that read them.
use k8s_controller_lib.Prelude.{
  ℕ, String, ◌≡◌, refl, ap, ◌∙◌, ◌⊎◌, inl, inr, Bool, true, false, Option, none, some, List, [],
  ◌∷◌, ◌++◌, arith, All, if◌then◌else◌, ◌==◌, eq_iff, Bool-cases,
}
use k8s_controller_lib.Prelude.Int.{ℤ, pos, negsuc, is_zero}
use k8s_controller_lib.Util.{apply_options}
use k8s_controller_lib.Conditions.Api.{
  MetaApi, Condition, ConditionStatus, SameContent, is_condition_false, is_condition_unknown,
}
use k8s_controller_lib.Conditions.Options.{ConditionOptions, ConditionOption, no_options}
use k8s_controller_lib.Conditions.Accessors.{Accessor, IsLawful}
use k8s_controller_lib.Conditions.Set.{build_condition, set, remove}
use k8s_controller_lib.Conditions.Find.{
  get, get-write, pass, or_else, first_with, first_false, first_unknown,
}

-- The tests that keep zero values out change nothing: a new condition holds zero values already.
keep_text : (s : String) → (if s == "" then "" else s) ≡ s
keep_text s = ground (arith, eq_iff s "")

keep_number : (n : ℤ) → (if is_zero n then pos 0 else n) ≡ n
keep_number (pos n) = ground arith
keep_number (negsuc n) = refl

-- A condition carries what the caller asked for.
pub record Reports (c : Condition) (t : String) (st : ConditionStatus) (o : ConditionOptions)
    : Type 0 where
  pub type : c.type ≡ t
  pub status : c.status ≡ st
  pub reason : c.reason ≡ o.reason
  pub message : c.message ≡ o.message
  pub observed_generation : c.observed_generation ≡ o.observed_generation

pub Reports-build_condition :
    (t : String) (status : ConditionStatus) (opts : List ConditionOption) (c : Condition)
    → SameContent c (build_condition t status opts)
    → Reports c t status (apply_options opts no_options)
unfolding build_condition
Reports-build_condition t status opts c same =
    let o : ConditionOptions = apply_options opts no_options in
    record {
      type = same.type;
      status = same.status;
      reason = same.reason ∙ keep_text o.reason;
      message = same.message ∙ keep_text o.message;
      observed_generation = same.observed_generation ∙ keep_number o.observed_generation;
    }

module _ (api : MetaApi) {S : Type 0} (accessor : Accessor S) (now : ℕ) (s : S)
    (lawful : IsLawful accessor s) where
  -- `Get` after `Set`
  pub get-set :
      (t : String) (status : ConditionStatus) (opts : List ConditionOption) (u : String)
      → (t == u) ≡ false
      → ((found : Condition) × (get api accessor (set api accessor now s t status opts) t
            ≡ some found)
          × Reports found t status (apply_options opts no_options))
        × (get api accessor (set api accessor now s t status opts) u ≡ get api accessor s u)
  unfolding set build_condition
  get-set t status opts u other =
      let c : Condition = build_condition t status opts in
      let cs : List Condition = accessor.get_conditions s in
      let (found, there, same) = api.find-set_self now cs c in
      (
        (
          found,
          get-write api accessor s (api.set_status_condition now cs c) t lawful ∙ there,
          Reports-build_condition t status opts found same,
        ),
        get-write api accessor s (api.set_status_condition now cs c) u lawful
            ∙ unfold get in api.find-set_ne now cs c u other,
      )

  -- `Get` after `Remove`
  pub get-remove :
      (t u : String)
      → get api accessor (remove api accessor now s t) u
        ≡ (if t == u then none else get api accessor s u)
  unfolding remove get
  get-remove t u =
      get-write api accessor s _ u lawful ∙ api.find-remove (accessor.get_conditions s) t u

  -- After `Set` (so after each `Mark…`), `Get` of that type gives a condition with the given status and
  -- with the reason, message and generation that the options add up to, later options over earlier
  -- ones; `Get` of another type `u` gives what it gave before. After `Remove` of a type `Get` finds no
  -- condition of it, and every other one as before.
  pub get_after :
      (t : String) (status : ConditionStatus) (opts : List ConditionOption) (u : String)
      → (t == u) ≡ false
      → ((found : Condition) × (get api accessor (set api accessor now s t status opts) t
            ≡ some found)
          × Reports found t status (apply_options opts no_options))
        × (get api accessor (set api accessor now s t status opts) u ≡ get api accessor s u)
        × (get api accessor (remove api accessor now s t) t ≡ none)
        × (get api accessor (remove api accessor now s t) u ≡ get api accessor s u)
  get_after t status opts u other =
      let (found, unchanged) = get-set t status opts u other in
      (
        found,
        unchanged,
        get-remove t t ∙ rw ((eq_iff t t).1 refl) refl,
        get-remove t u ∙ rw other refl,
      )

-- The condition of that type is missing, or its status fails the test.
abbrev pub Misses : (ConditionStatus → Bool) → (String → Option Condition) → String → Type 0
Misses test look t =
    (look t ≡ none) ⊎ ((c : Condition) × (look t ≡ some c) × (test c.status ≡ false))

abbrev pub FirstPassing :
    (ConditionStatus → Bool) → (String → Option Condition) → List String → Option Condition → Type 0
FirstPassing test look ts o =
    (All (Misses test look) ts × (o ≡ none))
    ⊎ ((before : List String) × (t : String) × (after : List String) × (c : Condition) × (ts
          ≡ before ++ t ∷ after)
        × All (Misses test look) before
        × (look t ≡ some c)
        × (test c.status ≡ true)
        × (o ≡ some c))

module _ (test : ConditionStatus → Bool) (look : String → Option Condition) where
  FirstPassing-cons :
      (t : String) (ts : List String) (o : Option Condition)
      → Misses test look t
      → FirstPassing test look ts o
      → FirstPassing test look (t ∷ ts) o
  FirstPassing-cons t ts o m (inl (all, e)) = inl ((m, all), e)
  FirstPassing-cons t ts o m (inr (before, u, after, c, e, misses, there, passes, found)) =
      inr (t ∷ before, u, after, c, ap (λ l. t ∷ l) e, (m, misses), there, passes, found)

  round-FirstPassing :
      (t : String) (ts : List String) (here rest : Option Condition)
      → look t ≡ here
      → FirstPassing test look ts rest
      → FirstPassing test look (t ∷ ts) (or_else (pass test here) rest)
  unfolding or_else pass
  round-FirstPassing t ts none rest e h = FirstPassing-cons t ts rest (inl e) h
  round-FirstPassing t ts (some c) rest e h = elim (Bool-cases (test c.status)) [
    | inl passes ↦ rw passes (inr ([], t, ts, c, refl, tt, e, passes, refl))
    | inr fails ↦ rw fails (FirstPassing-cons t ts rest (inr (c, e, fails)) h)
  ]

  pub first_with-FirstPassing :
      (api : MetaApi) {S : Type 0} (accessor : Accessor S) (s : S)
      → look ≡ get api accessor s
      → (ts : List String) → FirstPassing test look ts (first_with api accessor test s ts)
  unfolding first_with
  first_with-FirstPassing api accessor s e [] = inl (tt, refl)
  first_with-FirstPassing api accessor s e (t ∷ ts) =
      round-FirstPassing t ts (get api accessor s t) (first_with api accessor test s ts)
        (ap (λ f. f t) e) (first_with-FirstPassing api accessor s e ts)

-- `FirstFalse` by the types that are there with status False
pub first_false-FirstPassing :
    (api : MetaApi) {S : Type 0} (accessor : Accessor S) (s : S) (ts : List String)
    → FirstPassing is_condition_false (get api accessor s) ts (first_false api accessor s ts)
unfolding first_false
first_false-FirstPassing api accessor s ts =
    first_with-FirstPassing is_condition_false (get api accessor s) api accessor s refl ts

-- `FirstUnknown` by those with status Unknown
pub first_unknown-FirstPassing :
    (api : MetaApi) {S : Type 0} (accessor : Accessor S) (s : S) (ts : List String)
    → FirstPassing is_condition_unknown (get api accessor s) ts (first_unknown api accessor s ts)
unfolding first_unknown
first_unknown-FirstPassing api accessor s ts =
    first_with-FirstPassing is_condition_unknown (get api accessor s) api accessor s refl ts

-- `FirstFalse` gives the condition of the first listed type that is there with status False: none of
-- the types before it is. It gives nil exactly if no listed type is there with status False.
-- `FirstUnknown` does the same with status Unknown.
pub first_failing-FirstPassing :
    (api : MetaApi) {S : Type 0} (accessor : Accessor S) (s : S) (ts : List String)
    → FirstPassing is_condition_false (get api accessor s) ts (first_false api accessor s ts)
      × FirstPassing is_condition_unknown (get api accessor s) ts (first_unknown api accessor s ts)
first_failing-FirstPassing api accessor s ts =
    (first_false-FirstPassing api accessor s ts, first_unknown-FirstPassing api accessor s ts)
