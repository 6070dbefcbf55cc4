-- ===== src/Conditions/Manager/Summary.antt =====
-- manager.go: what the condition that `Compute` writes says of the contributors.
use k8s_controller_lib.Prelude.{
  ℕ, String, ◌≡◌, refl, ap, ◌≢◌, ◌∙◌, ◌⊎◌, inl, inr, Bool, true, false, Option, none, some, List,
  [], ◌∷◌, ◌++◌, arith, All, if◌then◌else◌, ◌==◌,
}
use k8s_controller_lib.Prelude.Int.{ℤ}
use k8s_controller_lib.Conditions.Api.{
  MetaApi, Condition, ConditionStatus, condition_true, condition_false,
}
use k8s_controller_lib.Conditions.Accessors.{Accessor, IsLawful}
use k8s_controller_lib.Conditions.Find.{get, get-write}
use k8s_controller_lib.Conditions.Manager.{
  Contributor, ConditionManager, Verdict, all_met, not_reported, healthy, round_verdict, verdict,
  compute,
}

-- The status that a healthy contributor has.
abbrev pub wanted : Contributor → ConditionStatus
wanted c = if c.negative then condition_false else condition_true

abbrev pub IsHealthy : (String → Option Condition) → Contributor → Type 0
IsHealthy look c = (found : Condition) × (look c.type ≡ some found) × (found.status ≡ wanted c)

-- Every contributor is healthy; or a first one is not, and is missing or has another status.
abbrev pub AllMet : (String → Option Condition) → List Contributor → Verdict → Type 0
AllMet look cs v = All (IsHealthy look) cs × (v ≡ all_met)

abbrev pub FirstMissing : (String → Option Condition) → List Contributor → Verdict → Type 0
FirstMissing look cs v =
    (before : List Contributor) × (c : Contributor) × (after : List Contributor) × (cs
      ≡ before ++ c ∷ after)
    × All (IsHealthy look) before
    × (look c.type ≡ none)
    × (v ≡ not_reported c)

abbrev pub FirstUnhealthy : (String → Option Condition) → List Contributor → Verdict → Type 0
FirstUnhealthy look cs v =
    (before : List Contributor) × (c : Contributor) × (after : List Contributor)
    × (found : Condition) × (cs ≡ before ++ c ∷ after)
    × All (IsHealthy look) before
    × (look c.type ≡ some found)
    × (found.status ≢ wanted c)
    × (v.status ≡ condition_false)
    × (v.reason ≡ found.reason)
    × (v.message ≡ found.message)

abbrev pub Summary : (String → Option Condition) → List Contributor → Verdict → Type 0
Summary look cs v = AllMet look cs v ⊎ (FirstMissing look cs v ⊎ FirstUnhealthy look cs v)

healthy→wanted :
    (c : Contributor) (found : Condition) → healthy c found ≡ true → found.status ≡ wanted c
unfolding healthy
healthy→wanted c found h = ground arith

unhealthy→other :
    (c : Contributor) (found : Condition) → healthy c found ≡ false → found.status ≢ wanted c
unfolding healthy
unhealthy→other c found h e = ground arith

module _ (look : String → Option Condition) where
  Summary-cons :
      (c : Contributor) (rest : List Contributor) (v : Verdict)
      → IsHealthy look c
      → Summary look rest v
      → Summary look (c ∷ rest) v
  Summary-cons c rest v h (inl s) = inl ((h, s.0), s.1)
  Summary-cons c rest v h (inr (inl (before, d, after, e, healthy_before, missing, said))) =
      inr (inl (c ∷ before, d, after, ap (λ l. c ∷ l) e, (h, healthy_before), missing, said))
  Summary-cons c rest v h
        (inr (inr (before, d, after, found, e, healthy_before, there, other, st, re, me))) =
      inr (
        inr (
          c ∷ before,
          d,
          after,
          found,
          ap (λ l. c ∷ l) e,
          (h, healthy_before),
          there,
          other,
          st,
          re,
          me,
        ))

  -- One round, for the status test of the contributor that was found.
  found-Summary :
      (c : Contributor) (rest : List Contributor) (found : Condition) (later : Verdict)
      (good : Bool)
      → look c.type ≡ some found
      → healthy c found ≡ good
      → Summary look rest later
      → Summary look (c ∷ rest) (round_verdict c (some found) later)
  unfolding round_verdict
  found-Summary c rest found later true there e s =
      rw e (Summary-cons c rest later (found, there, healthy→wanted c found e) s)
  found-Summary c rest found later false there e s =
      rw e (
        inr
          (inr ([], c, rest, found, refl, tt, there, unhealthy→other c found e, refl, refl, refl)))

  round-Summary :
      (c : Contributor) (rest : List Contributor) (o : Option Condition) (later : Verdict)
      → look c.type ≡ o
      → Summary look rest later
      → Summary look (c ∷ rest) (round_verdict c o later)
  unfolding round_verdict
  round-Summary c rest none later missing s = inr (inl ([], c, rest, refl, tt, missing, refl))
  round-Summary c rest (some found) later there s =
      found-Summary c rest found later (healthy c found) there refl s

  pub verdict-Summary : (cs : List Contributor) → Summary look cs (verdict look cs)
  unfolding verdict
  verdict-Summary [] = inl (tt, refl)
  verdict-Summary (c ∷ rest) =
      round-Summary c rest (look c.type) (verdict look rest) refl (verdict-Summary rest)

-- The condition of the manager's target, as `v` and the generation say.
abbrev pub ReportsVerdict : Option Condition → Verdict → ℤ → Type 0
ReportsVerdict o v generation =
    (found : Condition) × (o ≡ some found)
    × (found.status ≡ v.status)
    × (found.reason ≡ v.reason)
    × (found.message ≡ v.message)
    × (found.observed_generation ≡ generation)

-- After `Compute` the target condition has the given generation and reports the contributors as they
-- were before: True with reason "Ready" if each is there and healthy; if a first one is not and is
-- missing, Unknown, naming it; if a first one is not and is there, False with its reason and message.
-- The condition of another type `u` is as before.
pub compute-Summary :
    (api : MetaApi) {S : Type 0} (accessor : Accessor S) (now : ℕ) (m : ConditionManager) (s : S)
    (generation : ℤ) (u : String)
    → IsLawful accessor s
    → (m.target == u) ≡ false
    → ((v : Verdict) × Summary (get api accessor s) m.contributors v
        × ReportsVerdict
            (get api accessor (compute api accessor now m s generation) m.target)
            v
            generation)
      × (get api accessor (compute api accessor now m s generation) u ≡ get api accessor s u)
unfolding compute get
compute-Summary api accessor now m s generation u lawful other =
    let v : Verdict = verdict (get api accessor s) m.contributors in
    let c : Condition = record {
      type = m.target;
      status = v.status;
      reason = v.reason;
      message = v.message;
      observed_generation = generation;
      last_transition_time = 0;
    } in
    let (found, there, same) = api.find-set_self now (accessor.get_conditions s) c in
    (
      (
        v,
        verdict-Summary (get api accessor s) m.contributors,
        (
          found,
          get-write api accessor s _ m.target lawful ∙ there,
          same.status,
          same.reason,
          same.message,
          same.observed_generation,
        ),
      ),
      get-write api accessor s _ u lawful
          ∙ api.find-set_ne now (accessor.get_conditions s) c u other,
    )
