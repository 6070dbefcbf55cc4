-- ===== src/Resources/Applier/Skips.antt =====
-- applier.go: when `CachingApplier` may skip the inner apply.
use k8s_controller_lib.Prelude.{
  String, ◌≡◌, refl, sym, ap, ◌∙◌, ◌⊎◌, inl, inr, true, false, Option, none, some, ◌==◌,
  if◌then◌else◌, eq_iff, Bool-cases,
}
use k8s_controller_lib.Runtime.Errors.{GoError, wrap}
use k8s_controller_lib.Runtime.Exec.{Result, ok, err}
use k8s_controller_lib.Runtime.Api.{ClusterApi}
use k8s_controller_lib.Resources.Applier.{
  ApplierApi, ApplierState, object_terminating, is_same, is_cached, write_back_existing, remember,
  delegate, on_existing, on_answer, caching_apply,
}

-- Which resource version the inner applier left last for an object, by the object's UID.
abbrev pub Applied : Type 0
Applied = String → Option String

abbrev pub record_applied : String → String → Applied → Applied
record_applied uid rv log other = if uid == other then some rv else log other

module _ {W U K : Type 0} (api : ClusterApi W U) (applier : ApplierApi W U K) where
  -- The cache forgets entries, but what it answers is what was added last.
  abbrev pub Remembers : K → Applied → Type 0
  Remembers cache log =
      (uid : String)
      → ((applier.cache_get uid cache).0 ≡ none) ⊎ ((applier.cache_get uid cache).0 ≡ log uid)

  -- "LRUExpireCache is a cache that ensures the mostly recently accessed keys are returned with a ttl
  -- beyond which keys are forcibly expired."
  pub record CacheLaws : Type 0 where
    pub remembers-add :
        (cache : K) (log : Applied) (uid rv : String)
        → Remembers cache log
        → Remembers (applier.cache_add uid rv cache) (record_applied uid rv log)
    pub remembers-get :
        (cache : K) (log : Applied) (uid : String)
        → Remembers cache log
        → Remembers ((applier.cache_get uid cache).1) log

  -- How `Apply` may go on `existing`, from the state `s` to the outcome `o`.
  abbrev pub Skipped :
      Applied → U → ApplierState W K → Result (Unit {0}) × ApplierState W K → Type 0
  Skipped log existing s o =
      (applier.is_terminating existing ≡ false)
      × (log (applier.uid existing) ≡ some (applier.resource_version existing))
      × (o.1.world ≡ s.world)
      × Remembers o.1.cache log

  abbrev pub Terminating :
      Applied → U → ApplierState W K → Result (Unit {0}) × ApplierState W K → Type 0
  Terminating log existing s o =
      (applier.is_terminating existing ≡ true)
      × ((text : String) × (o.0 ≡ err (wrap text object_terminating)))
      × (o.1 ≡ s)

  -- The inner applier was called, and what it left is known if it succeeded.
  abbrev pub Delegated : Applied → ApplierState W K → Result (Unit {0}) × ApplierState W K → Type 0
  Delegated log s o =
      let (r, (obj, w)) = applier.inner_apply (s.object, s.world) in
      (o.1.world ≡ w)
      × (o.1.object ≡ obj)
      × (((r ≡ ok tt)
            × (o.0 ≡ ok tt)
            × Remembers o.1.cache (record_applied obj.uid obj.resource_version log))
          ⊎ ((e : GoError) × (text : String) × (r ≡ err e)
              × (o.0 ≡ err (wrap text e))
              × Remembers o.1.cache log))

  module _ (laws : CacheLaws) (log : Applied) where
    -- What `remember` leaves of the cache, by the result of the inner applier.
    abbrev Noted :
        Result (Unit {0}) → ApplierState W K → Result (Unit {0}) × ApplierState W K → Type 0
    Noted r s o =
        ((r ≡ ok tt)
          × (o.0 ≡ ok tt)
          × Remembers o.1.cache (record_applied s.object.uid s.object.resource_version log))
        ⊎ ((e : GoError) × (text : String) × (r ≡ err e)
            × (o.0 ≡ err (wrap text e))
            × Remembers o.1.cache log)

    remember-Noted :
        (r : Result (Unit {0})) (s : ApplierState W K)
        → Remembers s.cache log
        → ((remember api applier r s).1.world ≡ s.world)
          × ((remember api applier r s).1.object ≡ s.object)
          × Noted r s (remember api applier r s)
    unfolding remember
    remember-Noted (ok x) s known = (
      refl,
      refl,
      inl (refl, refl, laws.remembers-add s.cache log s.object.uid s.object.resource_version known),
    )
    remember-Noted (err e) s known = (refl, refl, inr (e, _, refl, refl, known))

    delegate-Delegated :
        (s : ApplierState W K) → Remembers s.cache log → Delegated log s (delegate api applier s)
    unfolding delegate
    delegate-Delegated s known =
        let (r, (obj, w)) = applier.inner_apply (s.object, s.world) in
        remember-Noted r (record { object = obj; world = w; cache = s.cache }) known

    is_same_lem : (o : Option String) (rv : String) → is_same o rv ≡ true → o ≡ some rv
    is_same_lem none rv e = cc e
    is_same_lem (some c) rv e = ap some ((eq_iff c rv).0 e)

    -- A hit in the cache is the version that was applied last.
    known_version :
        (o logged : Option String) (rv : String)
        → ((o ≡ none) ⊎ (o ≡ logged))
        → is_same o rv ≡ true
        → logged ≡ some rv
    known_version o logged rv (inl absent) e = cc (absent, is_same_lem o rv e)
    known_version o logged rv (inr same) e = sym same ∙ is_same_lem o rv e

    existing_cases :
        (existing : U) (s : ApplierState W K)
        → Remembers s.cache log
        → Skipped log existing s (on_existing api applier existing s)
          ⊎ (Terminating log existing s (on_existing api applier existing s)
              ⊎ ((s1 : ApplierState W K) × (s1.object ≡ s.object)
                  × (s1.world ≡ s.world)
                  × Delegated log s1 (on_existing api applier existing s)))
    unfolding on_existing is_cached write_back_existing
    existing_cases existing s known =
        let (found, cache1) = applier.cache_get (applier.uid existing) s.cache in
        let s1 : ApplierState W K = record s { cache = cache1 } in
        let known1 = laws.remembers-get s.cache log (applier.uid existing) known in
        elim (Bool-cases (applier.is_terminating existing)) [
          | inl dying ↦ rw dying (inr (inl (refl, (_, refl), refl)))
          | inr live ↦ elim (Bool-cases (is_same found (applier.resource_version existing))) [
            | inl hit ↦
                rw (live, hit)
                  (inl (
                    refl,
                    known_version found _ _ (known (applier.uid existing)) hit,
                    refl,
                    known1,
                  ))
            | inr miss ↦ rw (live, miss) (inr (inr (s1, refl, refl, delegate-Delegated s1 known1)))
          ]
        ]

    -- How `Apply` may end, once `Get` has answered.
    abbrev pub Ends : Result U → ApplierState W K → Result (Unit {0}) × ApplierState W K → Type 0
    Ends answer s o =
        ((s1 : ApplierState W K) × (s1.object ≡ s.object)
          × (s1.world ≡ s.world)
          × Delegated log s1 o)
        ⊎ (((existing : U) × (answer ≡ ok existing)
              × (Skipped log existing s o ⊎ Terminating log existing s o))
            ⊎ ((e : GoError) × (text : String) × (answer ≡ err e)
                × (api.is_not_found e ≡ false)
                × (o ≡ (err (wrap text e), s))))

    answer-Ends :
        (answer : Result U) (s : ApplierState W K)
        → Remembers s.cache log
        → Ends answer s (on_answer api applier answer s)
    unfolding on_answer
    answer-Ends (ok existing) s known = elim (existing_cases existing s known) [
      | inl skipped ↦ inr (inl (existing, refl, inl skipped))
      | inr (inl dying) ↦ inr (inl (existing, refl, inr dying))
      | inr (inr delegated) ↦ inl delegated
    ]
    answer-Ends (err e) s known = elim (Bool-cases (api.is_not_found e)) [
      | inl gone ↦ rw gone (inl (s, refl, refl, delegate-Delegated s known))
      | inr other ↦ rw other (inr (inr (e, _, refl, other, refl)))
    ]

    -- Let the cache answer no other versions than those that successful calls of the inner applier left
    -- last, which `log` says. Then `Apply` ends in one of four ways. It calls the inner applier once,
    -- whose error it returns; if that succeeds, so does `Apply`, and the version that the call left is
    -- from then on the last one. It skips the call: then the object that `Get` found is not being
    -- deleted, and its version is the one that the inner applier left last for its UID. It refuses an
    -- object that is being deleted. Or it returns the error of `Get`, which is not that the object is
    -- missing. After the first two the cache still answers no other versions than those left last, and
    -- after the last two the cache is as it was.
    pub caching_apply-Ends :
        (s : ApplierState W K)
        → Remembers s.cache log
        → Ends
            (applier.get_existing s.object s.world).0
            (record s { world = (applier.get_existing s.object s.world).1 })
            (caching_apply api applier s)
    unfolding caching_apply
    caching_apply-Ends s known =
        answer-Ends (applier.get_existing s.object s.world).0
          (record s { world = (applier.get_existing s.object s.world).1 }) known
