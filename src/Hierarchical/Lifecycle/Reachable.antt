-- ===== src/Hierarchical/Lifecycle/Reachable.antt =====
-- lifecycle.go: the steps of the goroutine, and all reachable states.
use k8s_controller_lib.Prelude.{
  ℕ, suc, ◌≡◌, ◌≢◌, refl, sym, ap, ◌∙◌, Bool, true, Option, some, Bool-cases, inl, inr,
}
use mathlib.Core.Path.{subst}
use k8s_controller_lib.Hierarchical.Lifecycle.{
  Lifecycle, controller_group, cache_group, Waiter, not_started, waits_controllers, waits_cache,
  finished, end, waiter_step,
}
use k8s_controller_lib.Hierarchical.Lifecycle.Steps.{
  System, Step, enter_controller, enter_cache, leave_controller, leave_cache, call_stop, receive,
  Reach, here, next,
}
use k8s_controller_lib.Hierarchical.Lifecycle.Groups.{idle_of_closed}
use k8s_controller_lib.Hierarchical.Lifecycle.Phases.{Phase}
use k8s_controller_lib.Hierarchical.Lifecycle.Invariant.{
  Inv, begin_open, enter_controller-Inv, enter_cache-Inv, leave_controller-Inv, leave_cache-Inv,
  stop-Inv,
}

-- The goroutine writes no more than the two flags.
flags-Inv :
    (s : System) (w : Waiter) (cancel finish : Bool)
    → Inv s
    → Phase w (record s.lifecycle { cache_cancelled = cancel; done = finish })
    → Inv (record s {
      waiter = w;
      lifecycle = record s.lifecycle { cache_cancelled = cancel; done = finish };
    })
flags-Inv s w cancel finish inv p = record {
  controllers_counted = inv.controllers_counted;
  caches_counted = inv.caches_counted;
  controllers = inv.controllers;
  caches = inv.caches;
  distinct = inv.distinct;
  once = inv.once;
  cancelled = inv.cancelled;
  phase = p;
}

abbrev received : System → Waiter × Lifecycle → System
received s r = record s { waiter = r.0; lifecycle = r.1 }

waits_controllers_lem :
    (c k : ℕ) (l : Lifecycle) (r : Waiter × Lifecycle)
    → waiter_step (waits_controllers c k) l ≡ some r
    → (l.channels.closed c ≡ true) × ((waits_cache k, record l { cache_cancelled = true }) ≡ r)
unfolding waiter_step
waits_controllers_lem c k l r e = elim (Bool-cases (l.channels.closed c)) [
  | inl y ↦ (y, cc (y, e))
  | inr n ↦ cc (n, e)
]

waits_cache_lem :
    (k : ℕ) (l : Lifecycle) (r : Waiter × Lifecycle)
    → waiter_step (waits_cache k) l ≡ some r
    → (l.channels.closed k ≡ true) × ((finished, record l { done = true }) ≡ r)
unfolding waiter_step
waits_cache_lem k l r e = elim (Bool-cases (l.channels.closed k)) [
  | inl y ↦ (y, cc (y, e))
  | inr n ↦ cc (n, e)
]

not_started_lem : (l : Lifecycle) (r : Waiter × Lifecycle) → waiter_step not_started l ≢ some r
unfolding waiter_step
not_started_lem l r e = cc e

finished_lem : (l : Lifecycle) (r : Waiter × Lifecycle) → waiter_step finished l ≢ some r
unfolding waiter_step
finished_lem l r e = cc e

receive-Inv :
    (s : System) (w0 : Waiter) (r : Waiter × Lifecycle)
    → Inv s
    → s.waiter ≡ w0
    → waiter_step w0 s.lifecycle ≡ some r
    → Inv (received s r)
receive-Inv s not_started r inv at e = absurd (not_started_lem s.lifecycle r e)
receive-Inv s finished r inv at e = absurd (finished_lem s.lifecycle r e)
receive-Inv s (waits_controllers c k) r inv at e =
    let (y, same) = waits_controllers_lem c k s.lifecycle r e in
    let p = subst (λ x. Phase x s.lifecycle) at inv.phase in
    let idle =
      idle_of_closed s.lifecycle.controllers s.lifecycle.channels inv.controllers
        (ap s.lifecycle.channels.closed (sym p.3) ∙ y) in
    subst (λ q. Inv (received s q)) same
      (flags-Inv s (waits_cache k) true s.lifecycle.done inv (p.0, refl, p.2, idle, p.4))
receive-Inv s (waits_cache k) r inv at e =
    let (y, same) = waits_cache_lem k s.lifecycle r e in
    let p = subst (λ x. Phase x s.lifecycle) at inv.phase in
    let idle =
      idle_of_closed s.lifecycle.caches s.lifecycle.channels inv.caches
        (ap s.lifecycle.channels.closed (sym p.4) ∙ y) in
    subst (λ q. Inv (received s q)) same
      (flags-Inv s finished s.lifecycle.cache_cancelled true inv (p.0, p.1, refl, p.3, idle))

some_same : {A : Type 0} (a b : A) (x : Option A) → x ≡ some a → x ≡ some b → a ≡ b
some_same a b x p q = cc (p, q)

pub Step-Inv : (s t : System) → Inv s → Step s t → Inv t
Step-Inv s t inv (enter_controller e q) =
    let (let_in, same) = begin_open controller_group s.lifecycle e in
    subst Inv (sym q) (
      subst (λ l. Inv (record s { lifecycle = l; running_controllers = suc s.running_controllers }))
        (sym same) (enter_controller-Inv s inv let_in))
Step-Inv s t inv (enter_cache e q) =
    let (let_in, same) = begin_open cache_group s.lifecycle e in
    subst Inv (sym q) (
      subst (λ l. Inv (record s { lifecycle = l; running_caches = suc s.running_caches }))
        (sym same) (enter_cache-Inv s inv let_in))
Step-Inv s t inv (leave_controller n l e ended q) =
    let (l1, ok, inv1) = leave_controller-Inv s n inv e in
    subst Inv (sym q) (
      subst (λ x. Inv (record s { lifecycle = x; running_controllers = n }))
        (some_same l1 l (end controller_group s.lifecycle) ok ended) inv1)
Step-Inv s t inv (leave_cache n l e ended q) =
    let (l1, ok, inv1) = leave_cache-Inv s n inv e in
    subst Inv (sym q) (
      subst (λ x. Inv (record s { lifecycle = x; running_caches = n }))
        (some_same l1 l (end cache_group s.lifecycle) ok ended) inv1)
Step-Inv s t inv (call_stop q) = subst Inv (sym q) (stop-Inv s inv)
Step-Inv s t inv (receive w l e q) = subst Inv (sym q) (receive-Inv s s.waiter (w, l) inv refl e)

pub Reach-Inv : (s t : System) → Inv s → Reach s t → Inv t
Reach-Inv s t inv here = inv
Reach-Inv s t inv (next {t = u} reach step) = Step-Inv u t (Reach-Inv s u inv reach) step
