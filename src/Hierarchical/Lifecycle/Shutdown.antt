-- ===== src/Hierarchical/Lifecycle/Shutdown.antt =====
-- lifecycle.go: the order of a shutdown, and that it can always be finished.
use k8s_controller_lib.Prelude.{
  ℕ, zero, suc, ◌≡◌, refl, sym, ap, ◌∙◌, ◌⊎◌, inl, inr, true, false, some, eqb, Bool-cases,
}
use mathlib.Core.Path.{subst}
use k8s_controller_lib.Hierarchical.Lifecycle.{
  Lifecycle, Members, Channels, controller_group, cache_group, Waiter, not_started,
  waits_controllers, waits_cache, finished, end, stop_first, stop, waiter_step,
}
use k8s_controller_lib.Hierarchical.Lifecycle.Steps.{
  System, init, leave_controller, leave_cache, call_stop, receive, Reach, here, next,
}
use k8s_controller_lib.Hierarchical.Lifecycle.Groups.{IsTracked}
use k8s_controller_lib.Hierarchical.Lifecycle.Phases.{Phase}
use k8s_controller_lib.Hierarchical.Lifecycle.Invariant.{
  Inv, Inv-init, leave_controller-Inv, leave_cache-Inv, stop-Inv, stop_again, stop_once,
}
use k8s_controller_lib.Hierarchical.Lifecycle.Reachable.{Reach-Inv}

-- What the place of the goroutine gives of the order.
abbrev InOrder : Lifecycle → Type 0
InOrder l =
    ((l.cache_cancelled ≡ false) ⊎ ((l.stopped ≡ true) × (l.controllers.active ≡ 0)))
    × ((l.done ≡ false)
        ⊎ ((l.cache_cancelled ≡ true) × (l.controllers.active ≡ 0) × (l.caches.active ≡ 0)))

Phase-InOrder : (w : Waiter) (l : Lifecycle) → Phase w l → InOrder l
Phase-InOrder not_started l p = (inl p.1, inl p.2)
Phase-InOrder (waits_controllers c k) l p = (inl p.1, inl p.2)
Phase-InOrder (waits_cache k) l p = (inr (p.0, p.3), inl p.2)
Phase-InOrder finished l p = (inr (p.0, p.3), inr (p.1, p.3, p.4))

-- In every reachable state: the context of the caches is cancelled only once `stop` was called and no
-- controller is running, and `Done` is closed only after that, when no cache is running either.
pub shutdown_order :
    (s : System)
    → Reach init s
    → ((s.lifecycle.cache_cancelled ≡ false)
        ⊎ ((s.lifecycle.stopped ≡ true) × (s.running_controllers ≡ 0)))
      × ((s.lifecycle.done ≡ false)
          ⊎ ((s.lifecycle.cache_cancelled ≡ true)
              × (s.running_controllers ≡ 0)
              × (s.running_caches ≡ 0)))
shutdown_order s reach =
    let inv = Reach-Inv init s Inv-init reach in
    let order = Phase-InOrder s.waiter s.lifecycle inv.phase in
    subst
      (λ n.
        ((s.lifecycle.cache_cancelled ≡ false) ⊎ ((s.lifecycle.stopped ≡ true) × (n ≡ 0)))
        × ((s.lifecycle.done ≡ false)
            ⊎ ((s.lifecycle.cache_cancelled ≡ true) × (n ≡ 0) × (s.running_caches ≡ 0))))
      inv.controllers_counted
      (subst
        (λ n.
          ((s.lifecycle.cache_cancelled ≡ false)
            ⊎ ((s.lifecycle.stopped ≡ true) × (s.lifecycle.controllers.active ≡ 0)))
          × ((s.lifecycle.done ≡ false)
              ⊎ ((s.lifecycle.cache_cancelled ≡ true)
                  × (s.lifecycle.controllers.active ≡ 0)
                  × (n ≡ 0))))
        inv.caches_counted order)

-- In every reachable state, a call of `run` that was let in can end: `end` neither counts below zero nor
-- closes a channel that is closed already. This holds of the controllers and of the caches.
pub end_never_panics :
    (s : System)
    → Reach init s
    → ((s.running_controllers ≡ 0)
        ⊎ ((l : Lifecycle) × (end controller_group s.lifecycle ≡ some l)))
      × ((s.running_caches ≡ 0) ⊎ ((l : Lifecycle) × (end cache_group s.lifecycle ≡ some l)))
end_never_panics s reach =
    let inv = Reach-Inv init s Inv-init reach in
    (controller_ends s.running_controllers refl inv, cache_ends s.running_caches refl inv)
  where
    controller_ends :
        (n : ℕ)
        → s.running_controllers ≡ n
        → Inv s
        → (s.running_controllers ≡ 0)
          ⊎ ((l : Lifecycle) × (end controller_group s.lifecycle ≡ some l))
    controller_ends zero e inv = inl e
    controller_ends (suc n) e inv = let (l, ok, _) = leave_controller-Inv s n inv e in inr (l, ok)

    cache_ends :
        (n : ℕ)
        → s.running_caches ≡ n
        → Inv s
        → (s.running_caches ≡ 0) ⊎ ((l : Lifecycle) × (end cache_group s.lifecycle ≡ some l))
    cache_ends zero e inv = inl e
    cache_ends (suc n) e inv = let (l, ok, _) = leave_cache-Inv s n inv e in inr (l, ok)

Reach-trans : (s t u : System) → Reach s t → Reach t u → Reach s u
Reach-trans s t u p here = p
Reach-trans s t u p (next {t = v} q step) = next (Reach-trans s t v p q) step

-- All members of a group leave.
drain_controllers :
    (n : ℕ) (s : System)
    → Inv s
    → s.running_controllers ≡ n
    → (t : System) × Reach s t × Inv t × (t.running_controllers ≡ 0)
drain_controllers zero s inv e = (s, here, inv, e)
drain_controllers (suc n) s inv e =
    let (l, ok, inv1) = leave_controller-Inv s n inv e in
    let s1 : System = record s { lifecycle = l; running_controllers = n } in
    let (t, reach, inv2, idle) = drain_controllers n s1 inv1 refl in
    (t, Reach-trans s s1 t (next here (leave_controller n l e ok refl)) reach, inv2, idle)

drain_caches :
    (n : ℕ) (s : System)
    → Inv s
    → s.running_caches ≡ n
    → s.running_controllers ≡ 0
    → (t : System) × Reach s t × Inv t × (t.running_controllers ≡ 0) × (t.running_caches ≡ 0)
drain_caches zero s inv e idle = (s, here, inv, idle, e)
drain_caches (suc n) s inv e idle =
    let (l, ok, inv1) = leave_cache-Inv s n inv e in
    let s1 : System = record s { lifecycle = l; running_caches = n } in
    let (t, reach, inv2, none_left, gone) = drain_caches n s1 inv1 refl idle in
    (t, Reach-trans s s1 t (next here (leave_cache n l e ok refl)) reach, inv2, none_left, gone)

stopped_after_stop : (s : System) → Inv s → (stop s.waiter s.lifecycle).1.stopped ≡ true
unfolding stop_first
stopped_after_stop s inv = elim (Bool-cases s.lifecycle.stop_called) [
  | inl again ↦ ap (λ r. r.1.stopped) (stop_again s again) ∙ (sym inv.once ∙ again)
  | inr first ↦ ap (λ r. r.1.stopped) (stop_once s first)
]

closed_of_idle :
    (m : Members) (ch : Channels) → IsTracked m ch → m.active ≡ 0 → ch.closed m.idle ≡ true
closed_of_idle m ch tracked e = tracked.idle_closed ∙ ap (λ n. eqb n 0) e

-- With nobody running, the goroutine comes to its end.
abbrev Finishes : System → Waiter → Type 0
Finishes s w = (t : System) × Reach (record s { waiter = w }) t × (t.lifecycle.done ≡ true)

finish_caches :
    (s : System) (k : ℕ) → s.lifecycle.channels.closed k ≡ true → Finishes s (waits_cache k)
unfolding waiter_step
finish_caches s k closed = (
  record s { waiter = finished; lifecycle = record s.lifecycle { done = true } },
  next here (receive finished (record s.lifecycle { done = true }) (rw closed) refl),
  refl,
)

finish_controllers :
    (s : System) (c k : ℕ)
    → s.lifecycle.channels.closed c ≡ true
    → s.lifecycle.channels.closed k ≡ true
    → Finishes s (waits_controllers c k)
unfolding waiter_step
finish_controllers s c k closed_c closed_k =
    let l : Lifecycle = record s.lifecycle { cache_cancelled = true } in
    let (t, reach, done) = finish_caches (record s { lifecycle = l }) k closed_k in
    (
      t,
      Reach-trans (record s { waiter = waits_controllers c k })
          (record s { waiter = waits_cache k; lifecycle = l }) t
          (next here (receive (waits_cache k) l (rw closed_c) refl)) reach,
      done,
    )

finish :
    (s : System) (w : Waiter)
    → Phase w s.lifecycle
    → s.lifecycle.stopped ≡ true
    → s.lifecycle.channels.closed s.lifecycle.controllers.idle ≡ true
    → s.lifecycle.channels.closed s.lifecycle.caches.idle ≡ true
    → Finishes s w
finish s not_started p stopped c k = cc (p.0, stopped)
finish s (waits_controllers i j) p stopped c k =
    finish_controllers s i j (ap s.lifecycle.channels.closed p.3 ∙ c)
      (ap s.lifecycle.channels.closed p.4 ∙ k)
finish s (waits_cache j) p stopped c k = finish_caches s j (ap s.lifecycle.channels.closed p.4 ∙ k)
finish s finished p stopped c k = (record s { waiter = finished }, here, p.2)

-- From every reachable state, whoever is running at that time, there are steps that lead to a state in
-- which `Done` is closed.
pub shutdown_can_finish :
    (s : System) → Reach init s → (t : System) × Reach s t × (t.lifecycle.done ≡ true)
shutdown_can_finish s reach =
    let inv = Reach-Inv init s Inv-init reach in
    let (s1, reach1, inv1, idle1) = drain_controllers s.running_controllers s inv refl in
    let (s2, reach2, inv2, idle2, idle3) = drain_caches s1.running_caches s1 inv1 refl idle1 in
    let s3 : System = record s2 {
      waiter = (stop s2.waiter s2.lifecycle).0;
      lifecycle = (stop s2.waiter s2.lifecycle).1;
    } in
    let inv3 : Inv s3 = stop-Inv s2 inv2 in
    let (t, reach3, done) =
      finish s3 s3.waiter inv3.phase (stopped_after_stop s2 inv2)
        (closed_of_idle s3.lifecycle.controllers s3.lifecycle.channels inv3.controllers
          (inv3.controllers_counted ∙ idle2))
        (closed_of_idle s3.lifecycle.caches s3.lifecycle.channels inv3.caches
          (inv3.caches_counted ∙ idle3)) in
    (
      t,
      Reach-trans s s1 t reach1
          (Reach-trans s1 s2 t reach2 (Reach-trans s2 s3 t (next here (call_stop refl)) reach3)),
      done,
    )
