-- ===== src/Builder/Events/Wrap/Once.antt =====
-- builder_conversion.go: to convert an event once, in one handler, is the same as to convert it for each
-- predicate and for the handler.
use k8s_controller_lib.Prelude.{
  String, ◌≡◌, refl, sym, ◌∙◌, ◌⊎◌, inl, inr, Bool, true, false, Option, none, some, List, [], ◌∷◌,
  ◌++◌, map,
}
use k8s_controller_lib.Runtime.Errors.{GoError}
use k8s_controller_lib.Runtime.Exec.{Result, ok, err, Exec}
use k8s_controller_lib.Runtime.Objects.{Gvk, Object}
use k8s_controller_lib.Runtime.Api.{ClusterApi}
use k8s_controller_lib.Resources.Util.{from_unstructured}
use k8s_controller_lib.Builder.Events.Convert.{
  AnyObject, unstructured, partial_metadata, typed, Event, create_event, update_event, delete_event,
  generic_event, Counter, ConversionFailure, NewObject, Converter, count_failure, converted,
  convert_into, present, convert, converted_event, convert_update, convert_event,
}
use k8s_controller_lib.Builder.Events.Wrap.{
  EventState, Predicate, EventHandler, call_predicate, wrap_predicate, wrap_predicates,
  call_handler, handler_wrapper, wrap_handler, when_all, when_passed, call_converting,
  new_converting_handler,
}

-- What a call does does not depend on the counter: it leaves it alone, or adds one failure to it.
abbrev pub Steady : {A : Type 0} → Exec Counter A → Type 0
Steady {A} m =
    ((a : A) × ((c : Counter) → m c ≡ (ok a, c)))
    ⊎ ((e : GoError) × (f : ConversionFailure) × ((c : Counter) → m c ≡ (err e, c ++ f ∷ [])))

-- The same of an event.
abbrev pub SteadyEvent : {U : Type 0} → (Counter → Option (Event U) × Counter) → Type 0
SteadyEvent {U} m =
    ((e : Event U) × ((c : Counter) → m c ≡ (some e, c)))
    ⊎ ((f : ConversionFailure) × ((c : Counter) → m c ≡ (none, c ++ f ∷ [])))

module _ {W U : Type 0} (api : ClusterApi W U) (converter : Converter) where
  converted-Steady :
      (gvk : Gvk) (o : Result (Unit {0}) × Object) → Steady (converted api converter gvk o)
  unfolding converted count_failure
  converted-Steady gvk (ok x, target) = inl (typed target, λ c. refl)
  converted-Steady gvk (err e, target) = inr (_, _, λ c. refl)

  convert_into-Steady :
      (gvk : Gvk) (u : U) (r : Result (Option Object)) → Steady (convert_into api converter gvk u r)
  unfolding convert_into count_failure
  convert_into-Steady gvk u (err e) = inr (_, _, λ c. refl)
  convert_into-Steady gvk u (ok none) = inr (_, _, λ c. refl)
  convert_into-Steady gvk u (ok (some target)) =
      converted-Steady gvk (from_unstructured api u target)

  convert-Steady : (obj : Option (AnyObject U)) → Steady (convert api converter obj)
  unfolding convert present
  convert-Steady none = inl (none, λ c. refl)
  convert-Steady (some (partial_metadata p)) = inl (_, λ c. refl)
  convert-Steady (some (typed obj)) = inl (_, λ c. refl)
  convert-Steady (some (unstructured u)) =
      elim (convert_into-Steady (api.unstructured_gvk u) u
        (converter.scheme_new (api.unstructured_gvk u))) [
          | inl (a, same) ↦ inl (some a, λ c. rw (same c))
          | inr (e, f, fails) ↦ inr (e, f, λ c. rw (fails c))
        ]

  one_object :
      (make : Option (AnyObject U) → Event U) (obj : Option (AnyObject U))
      → SteadyEvent (λ c. converted_event api converter make (convert api converter obj c))
  unfolding converted_event
  one_object make obj = elim (convert-Steady obj) [
    | inl (a, same) ↦ inl (make a, λ c. rw (same c))
    | inr (e, f, fails) ↦ inr (f, λ c. rw (fails c))
  ]

  convert_event-Steady : (e : Event U) → SteadyEvent (convert_event api converter e)
  unfolding convert_event convert_update
  convert_event-Steady (create_event obj) = one_object create_event obj
  convert_event-Steady (delete_event obj unknown) = one_object (λ o. delete_event o unknown) obj
  convert_event-Steady (generic_event obj) = one_object generic_event obj
  convert_event-Steady (update_event object_old object_new) = elim (convert-Steady object_old) [
    | inr (e, f, fails) ↦ inr (f, λ c. rw (fails c))
    | inl (a, same) ↦ elim (one_object (update_event a) object_new) [
      | inl (e, fine) ↦ inl (e, λ c. rw (same c) (fine c))
      | inr (f, fails) ↦ inr (f, λ c. rw (same c) (fails c))
    ]
  ]

-- How controller-runtime calls the predicates and the handler of a source: "all of the predicates must
-- pass" for the handler to be called, they are evaluated in their order, and the first that does not
-- pass ends it.
module _ {U S : Type 0}
    (dispatch : List (Predicate U S) → EventHandler U S → EventHandler U S) where
  pub record DispatchLaws : Type 0 where
    pub dispatch_nil :
        (h : EventHandler U S) (e : Event U) (s : EventState S) → dispatch [] h e s ≡ h e s
    pub dispatch_pass :
        (p : Predicate U S) (ps : List (Predicate U S)) (h : EventHandler U S) (e : Event U)
        (s s1 : EventState S)
        → p e s ≡ (true, s1)
        → dispatch (p ∷ ps) h e s ≡ dispatch ps h e s1
    pub dispatch_drop :
        (p : Predicate U S) (ps : List (Predicate U S)) (h : EventHandler U S) (e : Event U)
        (s s1 : EventState S)
        → p e s ≡ (false, s1)
        → dispatch (p ∷ ps) h e s ≡ s1

module _ {W U S : Type 0} (api : ClusterApi W U)
    (dispatch : List (Predicate U S) → EventHandler U S → EventHandler U S)
    (laws : DispatchLaws dispatch) where
  round :
      (converter : Converter) (h : EventHandler U S) (p : Predicate U S) (ps : List (Predicate U S))
      (e e1 : Event U) (s : EventState S) (r : Bool × EventState S)
      → ((c : Counter) → convert_event api converter e c ≡ (some e1, c))
      → p e1 s ≡ r
      → ((t : EventState S)
          → dispatch (map (wrap_predicate api converter) ps) (handler_wrapper api converter h) e t
            ≡ when_all api ps e1 (h e1) t)
      → dispatch (map (wrap_predicate api converter) (p ∷ ps)) (handler_wrapper api converter h) e s
        ≡ when_all api (p ∷ ps) e1 (h e1) s
  unfolding when_all when_passed wrap_predicate call_predicate
  round converter h p ps e e1 s (true, s1) fine called rest =
      laws.dispatch_pass _ _ _ e s s1 (rw (fine s.counter) called) ∙ rest s1 ∙ rw called
  round converter h p ps e e1 s (false, s1) fine called rest =
      laws.dispatch_drop _ _ _ e s s1 (rw (fine s.counter) called) ∙ rw called

  dispatch_wrapped :
      (converter : Converter) (h : EventHandler U S) (ps : List (Predicate U S)) (e e1 : Event U)
      → ((c : Counter) → convert_event api converter e c ≡ (some e1, c))
      → (s : EventState S)
      → dispatch (map (wrap_predicate api converter) ps) (handler_wrapper api converter h) e s
        ≡ when_all api ps e1 (h e1) s
  unfolding when_all handler_wrapper call_handler
  dispatch_wrapped converter h [] e e1 fine s =
      laws.dispatch_nil (handler_wrapper api converter h) e s ∙ rw (fine s.counter)
  dispatch_wrapped converter h (p ∷ ps) e e1 fine s =
      round converter h p ps e e1 s (p e1 s) fine refl (dispatch_wrapped converter h ps e e1 fine)

  -- A watch whose events need conversion, with at least one predicate: the combined handler, with no
  -- predicates of its own, does to the counter, to the user's state and to the queue what the wrapped
  -- predicates and the wrapped handler together do. So an event that cannot be converted is dropped and
  -- counted once in both, and on any other the predicates and the handler see the same converted
  -- objects.
  pub converting_handler_once :
      (scheme_new : NewObject) (controller_name : String) (h : EventHandler U S) (p : Predicate U S)
      (ps : List (Predicate U S)) (e : Event U) (s : EventState S)
      → dispatch [] (new_converting_handler api scheme_new h (p ∷ ps) controller_name) e s
        ≡ dispatch
            (wrap_predicates api scheme_new (p ∷ ps) true controller_name)
            (wrap_handler api scheme_new h true controller_name)
            e
            s
  unfolding new_converting_handler wrap_predicates wrap_handler call_converting wrap_predicate
      call_predicate
  converting_handler_once scheme_new controller_name h p ps e s =
      let converter : Converter = record {
        scheme_new = scheme_new;
        controller_name = controller_name;
      } in
      laws.dispatch_nil (new_converting_handler api scheme_new h (p ∷ ps) controller_name) e s
      ∙ elim (convert_event-Steady api converter e) [
        | inl (e1, fine) ↦
            rw (fine s.counter) (sym (dispatch_wrapped converter h (p ∷ ps) e e1 fine s))
        | inr (f, fails) ↦
            rw (fails s.counter) (sym (laws.dispatch_drop _ _ _ e s _ (rw (fails s.counter))))
      ]
