-- ===== src/Builder/Controller/Complete/Attempts.antt =====
-- builder.go: the watches that `Complete` attempts, as a relation on the errors and the world.
use k8s_controller_lib.Prelude.{
  ◌≡◌, refl, sym, ap, ◌∙◌, Bool, Option, none, some, List, [], ◌∷◌, ◌++◌,
}
use mathlib.Core.List.{append-nil, append_assoc}
use k8s_controller_lib.Runtime.Errors.{GoError, wrap}
use k8s_controller_lib.Runtime.Exec.{Result, ok, err}
use k8s_controller_lib.Runtime.Api.{ClusterApi}
use k8s_controller_lib.Builder.Events.Convert.{AnyObject}
use k8s_controller_lib.Builder.Events.Wrap.{EventHandler}
use k8s_controller_lib.Builder.Controller.State.{WatchRegistration, Builder, DeclareApi}
use k8s_controller_lib.Builder.Controller.Complete.{
  CompleteApi, kind_of, process_object, wrap_watch, count_static, watched, watch_processed,
  do_register_watch, register_all,
}

-- The builder with other errors
abbrev pub with_errors : {U S K L R : Type 0} → Builder U S K L R → List GoError → Builder U S K L R
with_errors b errs = record b { errors = errs }

module _ {W U S K L R : Type 0} (api : ClusterApi W U) (declare : DeclareApi U S)
    (complete_api : CompleteApi W U S K L R) where
  -- What `processObject` gives for a watch
  abbrev pub processed : WatchRegistration U S → Result (AnyObject U × Bool)
  processed reg =
      process_object api declare.unstructured_of declare.partial_of reg.obj reg.as_partial

  -- The watches were attempted one after the other, from one world to another, with these errors. No
  -- failure keeps a later watch from its attempt.
  pub data Registered (b : Builder U S K L R)
      : List (WatchRegistration U S) → W → List GoError → W → Type 0 where
    no_more : {w : W} → Registered b [] w [] w
    unprocessed :
        {reg : WatchRegistration U S} {regs : List (WatchRegistration U S)} {w w1 : W} {e : GoError}
        {es : List GoError}
        → processed reg ≡ err e
        → Registered b regs w es w1
        → Registered b (reg ∷ regs) w (e ∷ es) w1
    refused :
        {reg : WatchRegistration U S} {regs : List (WatchRegistration U S)} {w w1 w2 : W}
        {e : GoError} {es : List GoError} (obj : AnyObject U) (needs_conversion : Bool)
        → processed reg ≡ ok (obj, needs_conversion)
        → complete_api.watch
            (wrap_watch api declare complete_api b reg obj needs_conversion reg.handler)
            w
          ≡ (err e, w1)
        → Registered b regs w1 es w2
        → Registered b (reg ∷ regs) w (wrap "failed to watch" e ∷ es) w2
    accepted :
        {reg : WatchRegistration U S} {regs : List (WatchRegistration U S)} {w w1 w2 : W}
        {es : List GoError} (obj : AnyObject U) (needs_conversion : Bool)
        → processed reg ≡ ok (obj, needs_conversion)
        → complete_api.watch
            (wrap_watch api declare complete_api b reg obj needs_conversion reg.handler)
            w
          ≡ (ok tt, w1)
        → Registered b regs
            (count_static api declare complete_api b.name (kind_of api obj) w1)
            es
            w2
        → Registered b (reg ∷ regs) w es w2

  -- What the watches come to, from a builder with some errors.
  abbrev pub RegistersFrom :
      Builder U S K L R
      → List (WatchRegistration U S)
      → W
      → List GoError
      → Builder U S K L R × W
      → Type 0
  RegistersFrom b regs w errs s =
      (es : List GoError) × (w1 : W) × Registered b regs w es w1
      × (s ≡ (with_errors b (errs ++ es), w1))

  wrap_watch-errors :
      (b : Builder U S K L R) (errs : List GoError) (reg : WatchRegistration U S)
      (obj : AnyObject U) (needs_conversion : Bool) (h : Option (EventHandler U S))
      → wrap_watch api declare complete_api (with_errors b errs) reg obj needs_conversion h
        ≡ wrap_watch api declare complete_api b reg obj needs_conversion h
  unfolding wrap_watch
  wrap_watch-errors b errs reg obj needs_conversion none = refl
  wrap_watch-errors b errs reg obj needs_conversion (some h) = refl

  module _ (b : Builder U S K L R) (reg : WatchRegistration U S)
      (regs : List (WatchRegistration U S)) (w : W) (errs : List GoError)
      (go_on : (w1 : W) (errs1 : List GoError)
        → RegistersFrom b regs w1 errs1
            (register_all api declare complete_api regs (with_errors b errs1, w1))) where
    after_error :
        (e : GoError) (w1 : W)
        → ((es : List GoError) (w2 : W)
            → Registered b regs w1 es w2
            → Registered b (reg ∷ regs) w (e ∷ es) w2)
        → RegistersFrom b
            (reg ∷ regs)
            w
            errs
            (register_all api declare complete_api regs (with_errors b (errs ++ e ∷ []), w1))
    after_error e w1 step =
        let (es, w2, registered, computes) = go_on w1 (errs ++ e ∷ []) in
        (
          e ∷ es,
          w2,
          step es w2 registered,
          computes ∙ ap (λ es1. (with_errors b es1, w2)) (append_assoc errs (e ∷ []) es),
        )

    -- From the answer of the controller's `Watch`
    after_watch :
        (obj : AnyObject U) (needs_conversion : Bool)
        → processed reg ≡ ok (obj, needs_conversion)
        → (answer : Result (Unit {0}) × W)
        → complete_api.watch
            (wrap_watch api declare complete_api b reg obj needs_conversion reg.handler)
            w
          ≡ answer
        → RegistersFrom b (reg ∷ regs) w errs (
            register_all api declare complete_api regs
              (watched api declare complete_api obj (with_errors b errs) answer))
    unfolding watched
    after_watch obj needs_conversion gives (err e, w1) answers =
        after_error (wrap "failed to watch" e) w1
          (λ es w2 rest. refused obj needs_conversion gives answers rest)
    after_watch obj needs_conversion gives (ok tt, w1) answers =
        let (es, w2, rest, computes) =
          go_on (count_static api declare complete_api b.name (kind_of api obj) w1) errs in
        (es, w2, accepted obj needs_conversion gives answers rest, computes)

    after_processed :
        (outcome : Result (AnyObject U × Bool))
        → processed reg ≡ outcome
        → RegistersFrom b (reg ∷ regs) w errs (
            register_all api declare complete_api regs
              (watch_processed api declare complete_api reg outcome (with_errors b errs, w)))
    unfolding watch_processed
    after_processed (err e) gives = after_error e w (λ es w2 rest. unprocessed gives rest)
    after_processed (ok (obj, needs_conversion)) gives = after_watch obj needs_conversion gives _ (
        ap (λ source. complete_api.watch source w)
          (sym (wrap_watch-errors b errs reg obj needs_conversion reg.handler)))

  pub register_all-Registered :
      (b : Builder U S K L R) (regs : List (WatchRegistration U S)) (w : W) (errs : List GoError)
      → RegistersFrom b regs w errs
          (register_all api declare complete_api regs (with_errors b errs, w))
  unfolding register_all do_register_watch
  register_all-Registered b [] w errs =
      ([], w, no_more, ap (λ es. (with_errors b es, w)) (sym (append-nil errs)))
  register_all-Registered b (reg ∷ regs) w errs =
      after_processed b reg regs w errs (register_all-Registered b regs) (processed reg) refl
