-- ===== src/Pipeline/Steps/Cleanup/Reverse.antt =====
-- pipeline.go: the loop of `cleanup` calls every cleanup action once, the last one first.
use k8s_controller_lib.Prelude.{
  ℕ, zero, suc, ◌≡◌, refl, sym, ap, ◌∙◌, Option, none, some, List, [], ◌∷◌, ◌++◌, reverse, length,
  get_elem?,
}
use mathlib.Core.List.{append-nil, append_assoc, reverse-cons}
use k8s_controller_lib.Runtime.Errors.{GoError}
use k8s_controller_lib.Reconciler.Types.{Context}
use k8s_controller_lib.Reconciler.Adapter.{Target}
use k8s_controller_lib.Pipeline.Options.{CleanupFunc}
use k8s_controller_lib.Pipeline.Steps.Cleanup.{append_error, cleanup_round, cleanup_loop}

module _ {ℓ} {A : Type ℓ} where
  abbrev maybe_cons : Option A → List A → List A
  maybe_cons none xs = xs
  maybe_cons (some x) xs = x ∷ xs

  -- The elements at the indices i - 1, …, 0.
  descending : List A → ℕ → List A
  descending xs zero = []
  descending xs (suc i) = maybe_cons (get_elem? xs i) (descending xs i)

  maybe_cons-append :
      (o : Option A) (xs ys : List A) → maybe_cons o (xs ++ ys) ≡ maybe_cons o xs ++ ys
  maybe_cons-append none xs ys = refl
  maybe_cons-append (some x) xs ys = refl

  descending-cons :
      (x : A) (xs : List A) (i : ℕ) → descending (x ∷ xs) (suc i) ≡ descending xs i ++ x ∷ []
  unfolding descending
  descending-cons x xs zero = refl
  descending-cons x xs (suc i) =
      ap (maybe_cons (get_elem? xs i)) (descending-cons x xs i)
      ∙ maybe_cons-append (get_elem? xs i) (descending xs i) (x ∷ [])

  descending-length : (xs : List A) → descending xs (length xs) ≡ reverse xs
  descending-length [] = unfold descending in refl
  descending-length (x ∷ xs) =
      descending-cons x xs (length xs)
      ∙ ap (λ l. l ++ x ∷ []) (descending-length xs)
      ∙ sym (reverse-cons x xs)

module _ {W : Type 0} (ctx : Context) where
  -- Each of the actions was called once, in the order of the list, from `t` on, and the errors that they
  -- returned are the second list.
  pub data Cleaned : List (CleanupFunc W) → Target W → List GoError → Target W → Type 0 where
    done : {t : Target W} → Cleaned [] t [] t
    passed :
        {a : CleanupFunc W} {acts : List (CleanupFunc W)} {t t1 t2 : Target W} {errs : List GoError}
        → a ctx t ≡ (none, t1)
        → Cleaned acts t1 errs t2
        → Cleaned (a ∷ acts) t errs t2
    failed :
        {a : CleanupFunc W} {acts : List (CleanupFunc W)} {t t1 t2 : Target W} {errs : List GoError}
        (e : GoError)
        → a ctx t ≡ (some e, t1)
        → Cleaned acts t1 errs t2
        → Cleaned (a ∷ acts) t (e ∷ errs) t2

  call_each : List (CleanupFunc W) → List GoError × Target W → List GoError × Target W
  call_each [] s = s
  call_each (a ∷ acts) s = call_each acts (cleanup_round ctx (some a) s)

  call_each-maybe :
      (o : Option (CleanupFunc W)) (acts : List (CleanupFunc W)) (s : List GoError × Target W)
      → call_each acts (cleanup_round ctx o s) ≡ call_each (maybe_cons o acts) s
  unfolding call_each cleanup_round
  call_each-maybe none acts s = refl
  call_each-maybe (some a) acts s = refl

  loop-descending :
      (acts : List (CleanupFunc W)) (i : ℕ) (s : List GoError × Target W)
      → cleanup_loop ctx acts i s ≡ call_each (descending acts i) s
  unfolding cleanup_loop descending
  loop-descending acts zero s = unfold call_each in refl
  loop-descending acts (suc i) s =
      loop-descending acts i (cleanup_round ctx (get_elem? acts i) s)
      ∙ call_each-maybe (get_elem? acts i) (descending acts i) s

  abbrev Calls : List (CleanupFunc W) → List GoError → Target W → List GoError × Target W → Type 0
  Calls acts errs t o =
      (new : List GoError) × (t1 : Target W) × Cleaned acts t new t1 × (o ≡ (errs ++ new, t1))

  round-Calls :
      (a : CleanupFunc W) (acts : List (CleanupFunc W)) (errs : List GoError) (t t1 : Target W)
      (r : Option GoError) (o : List GoError × Target W)
      → a ctx t ≡ (r, t1)
      → Calls acts (append_error errs r) t1 o
      → Calls (a ∷ acts) errs t o
  round-Calls a acts errs t t1 none o h (new, t2, c, e) = (new, t2, passed h c, e)
  round-Calls a acts errs t t1 (some x) o h (new, t2, c, e) =
      (x ∷ new, t2, failed x h c, e ∙ ap (λ l. (l, t2)) (append_assoc errs (x ∷ []) new))

  call_each-Calls :
      (acts : List (CleanupFunc W)) (errs : List GoError) (t : Target W)
      → Calls acts errs t (call_each acts (errs, t))
  unfolding call_each cleanup_round
  call_each-Calls [] errs t = ([], t, done, ap (λ l. (l, t)) (sym (append-nil errs)))
  call_each-Calls (a ∷ acts) errs t =
      let (r, t1) = a ctx t in
      round-Calls a acts errs t t1 r _ refl (call_each-Calls acts (append_error errs r) t1)

  -- Whatever the actions return, the loop calls each of them once, from the last to the first, and ends
  -- with the errors in that order.
  pub cleanup_loop-Cleaned :
      (acts : List (CleanupFunc W)) (t : Target W)
      → (errs : List GoError) × (t1 : Target W) × Cleaned (reverse acts) t errs t1
        × (cleanup_loop ctx acts (length acts) ([], t) ≡ (errs, t1))
  cleanup_loop-Cleaned acts t =
      let (errs, t1, c, e) = call_each-Calls (reverse acts) [] t in
      (
        errs,
        t1,
        c,
        loop-descending acts (length acts) ([], t)
            ∙ ap (λ l. call_each l ([], t)) (descending-length acts)
            ∙ e,
      )
