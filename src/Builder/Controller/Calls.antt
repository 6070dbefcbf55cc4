-- ===== src/Builder/Controller/Calls.antt =====
-- builder.go: what a sequence of declarations leaves in the builder.
use k8s_controller_lib.Prelude.{
  ℕ, suc, ◌+◌, ◌≤◌, ◌≡◌, refl, ap, ◌∙◌, ◌⊎◌, inl, inr, Bool, true, false, not, ◌&&◌, Option, none,
  some, List, [], ◌∷◌, ◌++◌, length, length-append, arith, Bool-cases, if◌then◌else◌, ◌==◌,
}
use k8s_controller_lib.Util.{Setting, apply_options}
use k8s_controller_lib.Runtime.Errors.{GoError, plain}
use k8s_controller_lib.Runtime.Objects.{Gvk}
use k8s_controller_lib.Builder.Events.Convert.{AnyObject, unstructured, partial_metadata, typed}
use k8s_controller_lib.Builder.Events.Wrap.{Predicate, EventHandler}
use k8s_controller_lib.Builder.Events.Mapper.{MapperFactory}
use k8s_controller_lib.Builder.Options.{
  WatchOptions, no_watch_options, has_mapper, is_partial, is_set,
}
use k8s_controller_lib.Builder.Controller.Names.{GoType, derive_controller_name}
use k8s_controller_lib.Builder.Controller.Validate.{validate_gvk}
use k8s_controller_lib.Builder.Controller.{
  declare_for, for_, own_with, declare_owned, owns, watch_mapped, declare_watch, watches,
}
use k8s_controller_lib.Builder.Controller.State.{
  WatchRegistration, Builder, DeclareApi, register_watch, register_watch_gvk,
}

-- A call of one of the three methods.
pub data Call (U S : Type 0) : Type 0 where
  call_for : AnyObject U → GoType → List (Setting (WatchOptions U S)) → Call U S
  call_owns : Gvk → List (Setting (WatchOptions U S)) → Call U S
  call_watches : Gvk → List (Setting (WatchOptions U S)) → Call U S

-- 1 for a call of `For`.
abbrev pub for_bit : {U S : Type 0} → Call U S → ℕ
for_bit (call_for obj go_type opts) = 1
for_bit (call_owns gvk opts) = 0
for_bit (call_watches gvk opts) = 0

abbrev pub for_calls : {U S : Type 0} → List (Call U S) → ℕ
for_calls [] = 0
for_calls (c ∷ cs) = for_bit c + for_calls cs

module _ {U S K L R : Type 0} where
  -- One error more and the same watches, or the same errors and one watch more.
  abbrev pub Recorded : Builder U S K L R → Builder U S K L R → Type 0
  Recorded b b1 =
      ((e : GoError) × (b1.errors ≡ b.errors ++ e ∷ []) × (b1.watches ≡ b.watches))
      ⊎ ((w : WatchRegistration U S) × (b1.errors ≡ b.errors) × (b1.watches ≡ b.watches ++ w ∷ []))

  register_watch-Recorded :
      (obj : AnyObject U) (h : Option (EventHandler U S)) (predicates : List (Predicate U S))
      (partial : Bool) (b : Builder U S K L R)
      → Recorded b (register_watch obj h predicates partial b)
        × ((register_watch obj h predicates partial b).for_set ≡ b.for_set)
  unfolding register_watch
  register_watch-Recorded (typed obj) h predicates true b = (inl (_, refl, refl), refl)
  register_watch-Recorded (typed obj) h predicates false b = (inr (_, refl, refl), refl)
  register_watch-Recorded (unstructured u) h predicates partial b = (inr (_, refl, refl), refl)
  register_watch-Recorded (partial_metadata p) h predicates partial b = (inr (_, refl, refl), refl)

  module _ (outside : DeclareApi U S) where
    for_-Recorded :
        (obj : AnyObject U) (go_type : GoType) (opts : List (Setting (WatchOptions U S)))
        (b : Builder U S K L R)
        → Recorded b (for_ outside obj go_type opts b)
          × ((for_ outside obj go_type opts b).for_set ≡ true)
          × ((b.for_set ≡ false)
              ⊎ (length (for_ outside obj go_type opts b).errors ≡ suc (length b.errors)))
    unfolding for_ declare_for
    for_-Recorded obj go_type opts b =
        let o = apply_options opts no_watch_options in
        elim (Bool-cases b.for_set) [
          | inl again ↦ rw again (
            inl (_, refl, refl),
            refl,
            inr (length-append b.errors (plain "For() can only be called once" ∷ []) ∙ omega arith),
          )
          | inr first ↦ rw first (elim (Bool-cases (is_set o.handler)) [
            | inl handled ↦ rw handled (inl (_, refl, refl), refl, inl refl)
            | inr free ↦ rw free (elim (Bool-cases (has_mapper o)) [
              | inl mapped ↦ rw mapped (inl (_, refl, refl), refl, inl refl)
              | inr plain_ ↦ rw plain_ (
                  let (recorded, same) =
                    register_watch-Recorded obj (some outside.enqueue_for_object) o.predicates
                      (is_partial o)
                      (record b {
                        for_set = true;
                        name = if b.name == "" then derive_controller_name go_type else b.name;
                      }) in
                  (recorded, same, inl refl))
            ])
          ])
        ]

    -- The two others leave `forSet` as it is.
    abbrev pub Quiet : Builder U S K L R → Builder U S K L R → Type 0
    Quiet b b1 = Recorded b b1 × (b1.for_set ≡ b.for_set)

    own_with-Quiet :
        (obj : AnyObject U) (h : Option (EventHandler U S)) (predicates : List (Predicate U S))
        (b : Builder U S K L R)
        → Quiet b (own_with outside obj h predicates b)
    unfolding own_with register_watch_gvk
    own_with-Quiet obj none predicates b = (inl (_, refl, refl), refl)
    own_with-Quiet obj (some h) predicates b = (inr (_, refl, refl), refl)

    declare_owned-Quiet :
        (gvk : Gvk) (o : WatchOptions U S) (e : Option GoError) (b : Builder U S K L R)
        → Quiet b (declare_owned outside gvk o e b)
    unfolding declare_owned
    declare_owned-Quiet gvk o (some e) b = (inl (_, refl, refl), refl)
    declare_owned-Quiet gvk o none b = own_with-Quiet _ _ _ b

    owns-Quiet :
        (gvk : Gvk) (opts : List (Setting (WatchOptions U S))) (b : Builder U S K L R)
        → Quiet b (owns outside gvk opts b)
    unfolding owns
    owns-Quiet gvk opts b = elim (Bool-cases (has_mapper (apply_options opts no_watch_options))) [
      | inl mapped ↦ rw mapped (inl (_, refl, refl), refl)
      | inr plain_ ↦ rw plain_ (
          declare_owned-Quiet gvk (apply_options opts no_watch_options) (validate_gvk gvk "Owns") b)
    ]

    watch_mapped-Quiet :
        (gvk : Gvk) (o : WatchOptions U S) (factory : MapperFactory U S) (e : Option GoError)
        (b : Builder U S K L R)
        → Quiet b (watch_mapped outside gvk o factory e b)
    unfolding watch_mapped register_watch_gvk
    watch_mapped-Quiet gvk o factory (some e) b = (inl (_, refl, refl), refl)
    watch_mapped-Quiet gvk o factory none b = (inr (_, refl, refl), refl)

    declare_watch-Quiet :
        (gvk : Gvk) (o : WatchOptions U S) (mapper : Option (MapperFactory U S))
        (e : Option GoError) (b : Builder U S K L R)
        → Quiet b (declare_watch outside gvk o mapper e b)
    unfolding declare_watch register_watch_gvk
    declare_watch-Quiet gvk o mapper (some e) b = (inl (_, refl, refl), refl)
    declare_watch-Quiet gvk o (some factory) none b = watch_mapped-Quiet gvk o factory _ b
    declare_watch-Quiet gvk o none none b = (inr (_, refl, refl), refl)

    watches-Quiet :
        (gvk : Gvk) (opts : List (Setting (WatchOptions U S))) (b : Builder U S K L R)
        → Quiet b (watches outside gvk opts b)
    unfolding watches
    watches-Quiet gvk opts b =
        let o = apply_options opts no_watch_options in
        elim (Bool-cases (has_mapper o && is_set o.handler)) [
          | inl both ↦ rw both (inl (_, refl, refl), refl)
          | inr not_both ↦
              rw not_both (elim (Bool-cases (not (has_mapper o) && not (is_set o.handler))) [
                | inl neither ↦ rw neither (inl (_, refl, refl), refl)
                | inr one ↦
                    rw one
                      (declare_watch-Quiet gvk o o.mapper_factory (validate_gvk gvk "Watches") b)
              ])
        ]

    abbrev pub call : Call U S → Builder U S K L R → Builder U S K L R
    call (call_for obj go_type opts) b = for_ outside obj go_type opts b
    call (call_owns gvk opts) b = owns outside gvk opts b
    call (call_watches gvk opts) b = watches outside gvk opts b

    pub call_all : List (Call U S) → Builder U S K L R → Builder U S K L R
    call_all [] b = b
    call_all (c ∷ cs) b = call_all cs (call c b)

    -- 1 once `For` was called.
    abbrev set_bit : Builder U S K L R → ℕ
    set_bit b = if b.for_set then 1 else 0

    Recorded-length :
        (b b1 : Builder U S K L R)
        → Recorded b b1
        → (length b1.errors + length b1.watches ≡ suc (length b.errors + length b.watches))
          × (length b.errors ≤ length b1.errors)
    Recorded-length b b1 (inl (e, errors, watches)) =
        let more = ap length errors ∙ length-append b.errors (e ∷ []) in
        (omega (arith, more, ap length watches), omega (arith, more))
    Recorded-length b b1 (inr (w, errors, watches)) =
        let more = ap length watches ∙ length-append b.watches (w ∷ []) in
        (omega (arith, more, ap length errors), omega (arith, ap length errors))

    -- One call of `For` that is not the first one leaves an error.
    call_bits :
        (c : Call U S) (b : Builder U S K L R)
        → (set_bit b + for_bit c ≤ set_bit (call c b))
          ⊎ (suc (length b.errors) ≤ length (call c b).errors)
    call_bits (call_for obj go_type opts) b =
        let (recorded, set, how) = for_-Recorded obj go_type opts b in
        elim how [
          | inl first ↦ inl (rw (set, first) (omega arith))
          | inr more ↦ inr (omega (arith, more))
        ]
    call_bits (call_owns gvk opts) b = inl (rw (owns-Quiet gvk opts b).1 (omega arith))
    call_bits (call_watches gvk opts) b = inl (rw (watches-Quiet gvk opts b).1 (omega arith))

    call-Recorded : (c : Call U S) (b : Builder U S K L R) → Recorded b (call c b)
    call-Recorded (call_for obj go_type opts) b = (for_-Recorded obj go_type opts b).0
    call-Recorded (call_owns gvk opts) b = (owns-Quiet gvk opts b).0
    call-Recorded (call_watches gvk opts) b = (watches-Quiet gvk opts b).0

    call_all_bits :
        (cs : List (Call U S)) (b : Builder U S K L R)
        → (length (call_all cs b).errors + length (call_all cs b).watches
            ≡ length b.errors + length b.watches + length cs)
          × (length b.errors ≤ length (call_all cs b).errors)
          × ((set_bit b + for_calls cs ≤ set_bit (call_all cs b))
              ⊎ (suc (length b.errors) ≤ length (call_all cs b).errors))
    unfolding call_all
    call_all_bits [] b = (omega arith, omega arith, inl (omega arith))
    call_all_bits (c ∷ cs) b =
        let (sum, grows) = Recorded-length b (call c b) (call-Recorded c b) in
        let (rest, more, bits) = call_all_bits cs (call c b) in
        (
          omega (arith, sum, rest),
          omega (arith, grows, more),
          elim (call_bits c b) [
            | inr e ↦ inr (omega (arith, e, more))
            | inl here ↦ elim bits [
              | inr e ↦ inr (omega (arith, e, grows))
              | inl there ↦ inl (omega (arith, here, there))
            ]
          ],
        )

    set_bit-le : (b : Builder U S K L R) → set_bit b ≤ 1
    set_bit-le b = ground arith

    -- After any calls of `For`, `Owns` and `Watches`, in any order and with any options, on a builder with
    -- no errors and no watches: each call has left exactly one error or exactly one watch, so the errors
    -- and the watches together are as many as the calls; and `For` was called at most once, or there is
    -- an error.
    pub calls_counted :
        (cs : List (Call U S)) (b : Builder U S K L R)
        → b.errors ≡ []
        → b.watches ≡ []
        → (length (call_all cs b).errors + length (call_all cs b).watches ≡ length cs)
          × ((for_calls cs ≤ 1) ⊎ (1 ≤ length (call_all cs b).errors))
    calls_counted cs b clean empty =
        let (sum, more, bits) = call_all_bits cs b in
        (
          omega (arith, sum, ap length clean, ap length empty),
          elim bits [
            | inl few ↦ inl (omega (arith, few, set_bit-le (call_all cs b)))
            | inr e ↦ inr (omega (arith, e, ap length clean))
          ],
        )
