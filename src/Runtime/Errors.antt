-- ===== src/Runtime/Errors.antt =====
-- Go errors, and pkg/reconciler/pipeline/pipeline_errors.go.
use k8s_controller_lib.Prelude.{
  String, concat, ◌≡◌, refl, ◌↔◌, ◌⊎◌, inl, inr, Bool, true, false, ◌||◌, Option, none, some, arith,
}

-- `plain` is an error with no `Unwrap`, `wrap` is `fmt.Errorf("text: %w", err)`, `wrap_before` is
-- `fmt.Errorf("%w: text", err)`, and `wrap_all` is an error with this text whose `Unwrap` gives several
-- errors, as those of `errors.Join` and of a format with more than one `%w` do. The two others are
-- `&StopError{Cause: …}` without and with a cause. No error has a method `As`.
mutual
  pub data GoError : Type 0 where
    plain : String → GoError
    wrap : String → GoError → GoError
    wrap_before : GoError → String → GoError
    wrap_all : String → GoErrors → GoError
    stop_bare : GoError
    stop_with : GoError → GoError

  pub data GoErrors : Type 0 where
    no_errors : GoErrors
    and_error : GoError → GoErrors → GoErrors

-- `Stop(err)`; a nil error is `none`.
unfoldable pub stop : Option GoError → GoError
stop none = stop_bare
stop (some cause) = stop_with cause

-- `err.Error()`; for a `StopError` the method `Error`.
pub error_text : GoError → String
error_text (plain text) = text
error_text (wrap text e) = concat text (concat ": " (error_text e))
error_text (wrap_before e text) = concat (error_text e) (concat ": " text)
error_text (wrap_all text es) = text
error_text stop_bare = "pipeline stopped"
error_text (stop_with cause) = concat "pipeline stopped: " (error_text cause)

-- The errors that `Unwrap` gives, one or several.
unfoldable pub unwrap : GoError → GoErrors
unwrap (plain text) = no_errors
unwrap (wrap text e) = and_error e no_errors
unwrap (wrap_before e text) = and_error e no_errors
unwrap (wrap_all text es) = es
unwrap stop_bare = no_errors
unwrap (stop_with cause) = and_error cause no_errors

-- `IsStopError`: `errors.As` looks for a `StopError` in the tree of `Unwrap`, in depth and in order.
unfoldable mutual
  pub is_stop_error : GoError → Bool
  is_stop_error (plain text) = false
  is_stop_error (wrap text e) = is_stop_error e
  is_stop_error (wrap_before e text) = is_stop_error e
  is_stop_error (wrap_all text es) = any_stop_error es
  is_stop_error stop_bare = true
  is_stop_error (stop_with cause) = true

  pub any_stop_error : GoErrors → Bool
  any_stop_error no_errors = false
  any_stop_error (and_error e es) = is_stop_error e || any_stop_error es

-- One of several errors
pub data Among (e : GoError) : GoErrors → Type 0 where
  first : {es : GoErrors} → Among e (and_error e es)
  later : {e1 : GoError} {es : GoErrors} → Among e es → Among e (and_error e1 es)

-- Some error of the tree of `Unwrap` is this one.
pub data Wraps (target : GoError) : GoError → Type 0 where
  here : Wraps target target
  below : {e inner : GoError} → Among inner (unwrap e) → Wraps target inner → Wraps target e

or_inv : (a b : Bool) → (a || b) ≡ true → (a ≡ true) ⊎ (b ≡ true)
or_inv true b h = inl refl
or_inv false b h = inr h

any_of_Among :
    {e : GoError} {es : GoErrors} → Among e es → is_stop_error e ≡ true → any_stop_error es ≡ true
unfolding any_stop_error
any_of_Among first h = ground (arith, h)
any_of_Among (later among) h = ground (arith, any_of_Among among h)

of_unwrapped : (e : GoError) → any_stop_error (unwrap e) ≡ true → is_stop_error e ≡ true
unfolding is_stop_error unwrap any_stop_error
of_unwrapped (plain t) h = cc h
of_unwrapped (wrap t e) h = ground (arith, h)
of_unwrapped (wrap_before e t) h = ground (arith, h)
of_unwrapped (wrap_all t es) h = h
of_unwrapped stop_bare h = refl
of_unwrapped (stop_with cause) h = refl

is_stop_error_of_Wraps :
    (cause : Option GoError) {e : GoError} → Wraps (stop cause) e → is_stop_error e ≡ true
unfolding is_stop_error stop
is_stop_error_of_Wraps none here = refl
is_stop_error_of_Wraps (some c) here = refl
is_stop_error_of_Wraps cause (below {e = e} among w) =
    of_unwrapped e (any_of_Among among (is_stop_error_of_Wraps cause w))

mutual
  unfolding is_stop_error any_stop_error stop unwrap

  is_stop_error_gives_Wraps :
      (e : GoError) → is_stop_error e ≡ true → (cause : Option GoError) × Wraps (stop cause) e
  is_stop_error_gives_Wraps (plain t) h = cc h
  is_stop_error_gives_Wraps (wrap t e) h =
      let (cause, w) = is_stop_error_gives_Wraps e h in (cause, below first w)
  is_stop_error_gives_Wraps (wrap_before e t) h =
      let (cause, w) = is_stop_error_gives_Wraps e h in (cause, below first w)
  is_stop_error_gives_Wraps (wrap_all t es) h =
      let (inner, among, cause, w) = any_stop_error_gives_Wraps es h in (cause, below among w)
  is_stop_error_gives_Wraps stop_bare h = (none, here)
  is_stop_error_gives_Wraps (stop_with c) h = (some c, here)

  any_stop_error_gives_Wraps :
      (es : GoErrors)
      → any_stop_error es ≡ true
      → (inner : GoError) × Among inner es × (cause : Option GoError) × Wraps (stop cause) inner
  any_stop_error_gives_Wraps no_errors h = cc h
  any_stop_error_gives_Wraps (and_error e es) h =
      elim (or_inv (is_stop_error e) (any_stop_error es) h) [
        | inl now ↦ let (cause, w) = is_stop_error_gives_Wraps e now in (e, first, cause, w)
        | inr then_ ↦
            let (inner, among, cause, w) = any_stop_error_gives_Wraps es then_ in
            (inner, later among, cause, w)
      ]

-- `IsStopError` holds of an error exactly when the error that `Stop` makes of some cause, which may be
-- nil, is in the tree of the errors that `Unwrap` calls lead to, where an error may unwrap to several.
pub is_stop_error-Wraps :
    (e : GoError) → (is_stop_error e ≡ true) ↔ ((cause : Option GoError) × Wraps (stop cause) e)
is_stop_error-Wraps e = (is_stop_error_gives_Wraps e, λ w. is_stop_error_of_Wraps w.0 w.1)
