-- ===== src/Hierarchical/Lifecycle/Invariant.antt =====
-- lifecycle.go: what holds in every reachable state, and that the calls keep it.
use k8s_controller_lib.Prelude.{
  ℕ, suc, ◌≡◌, ◌≢◌, refl, sym, ap, ◌∙◌, true, false, some, arith, Bool-cases, inl, inr,
}
use mathlib.Core.Path.{subst}
use k8s_controller_lib.Hierarchical.Lifecycle.{
  Lifecycle, LifecycleGroup, controller_group, cache_group, begin_group, begin, leave_at, end,
  stop_first, stop,
}
use k8s_controller_lib.Hierarchical.Lifecycle.Steps.{System, init}
use k8s_controller_lib.Hierarchical.Lifecycle.Groups.{
  IsTracked, join-IsTracked, join-IsTracked_other, leave-IsTracked, leave-IsTracked_other,
}
use k8s_controller_lib.Hierarchical.Lifecycle.Phases.{
  Phase, Phase-open, Phase-leave_controller, Phase-leave_cache, Phase-stop,
}

pub record Inv (s : System) : Type 0 where
  pub controllers_counted : s.lifecycle.controllers.active ≡ s.running_controllers
  pub caches_counted : s.lifecycle.caches.active ≡ s.running_caches
  pub controllers : IsTracked s.lifecycle.controllers s.lifecycle.channels
  pub caches : IsTracked s.lifecycle.caches s.lifecycle.channels
  pub distinct : s.lifecycle.controllers.idle ≢ s.lifecycle.caches.idle
  pub once : s.lifecycle.stop_called ≡ s.lifecycle.stopped
  pub cancelled : s.lifecycle.controllers_cancelled ≡ s.lifecycle.stopped
  pub phase : Phase s.waiter s.lifecycle

pub Inv-init : Inv init
Inv-init = record {
  controllers_counted = refl;
  caches_counted = refl;
  controllers = record { idle_closed = refl; made = omega arith };
  caches = record { idle_closed = refl; made = omega arith };
  distinct = omega arith;
  once = refl;
  cancelled = refl;
  phase = (refl, refl, refl);
}

pub begin_open :
    (group : LifecycleGroup) (l : Lifecycle)
    → (begin group l).0 ≡ true
    → (l.stopped ≡ false) × ((begin group l).1 ≡ begin_group group l)
unfolding begin
begin_open group l e = (ground arith, ground arith)

-- The steps, one by one.
pub enter_controller-Inv :
    (s : System)
    → Inv s
    → s.lifecycle.stopped ≡ false
    → Inv (record s {
      lifecycle = begin_group controller_group s.lifecycle;
      running_controllers = suc s.running_controllers;
    })
unfolding begin_group
enter_controller-Inv s inv let_in =
    let l = s.lifecycle in
    let (mine, count) = join-IsTracked l.controllers l.channels inv.controllers in
    let (other, apart) =
      join-IsTracked_other l.controllers l.caches l.channels inv.controllers inv.caches
        inv.distinct in
    record {
      controllers_counted = count ∙ ap suc inv.controllers_counted;
      caches_counted = inv.caches_counted;
      controllers = mine;
      caches = other;
      distinct = apart;
      once = inv.once;
      cancelled = inv.cancelled;
      phase =
          Phase-open s.waiter l (begin_group controller_group l) inv.phase let_in refl refl refl;
    }

pub enter_cache-Inv :
    (s : System)
    → Inv s
    → s.lifecycle.stopped ≡ false
    → Inv (record s {
      lifecycle = begin_group cache_group s.lifecycle;
      running_caches = suc s.running_caches;
    })
unfolding begin_group
enter_cache-Inv s inv let_in =
    let l = s.lifecycle in
    let (mine, count) = join-IsTracked l.caches l.channels inv.caches in
    let (other, apart) =
      join-IsTracked_other l.caches l.controllers l.channels inv.caches inv.controllers
        (λ e. inv.distinct (sym e)) in
    record {
      controllers_counted = inv.controllers_counted;
      caches_counted = count ∙ ap suc inv.caches_counted;
      controllers = other;
      caches = mine;
      distinct = λ e. apart (sym e);
      once = inv.once;
      cancelled = inv.cancelled;
      phase = Phase-open s.waiter l (begin_group cache_group l) inv.phase let_in refl refl refl;
    }

-- Whoever was let in can leave, with no panic, and the invariant holds after it.
pub leave_controller-Inv :
    (s : System) (n : ℕ)
    → Inv s
    → s.running_controllers ≡ suc n
    → (l : Lifecycle) × (end controller_group s.lifecycle ≡ some l)
      × Inv (record s { lifecycle = l; running_controllers = n })
unfolding end
leave_controller-Inv s n inv e =
    let l = s.lifecycle in
    let active = inv.controllers_counted ∙ e in
    let (m, ch, left) = leave-IsTracked l.controllers l.channels n active inv.controllers in
    (
      record l { controllers = m; channels = ch },
      rw (left.0),
      record {
        controllers_counted = left.2;
        caches_counted = inv.caches_counted;
        controllers = left.1;
        caches =
            leave-IsTracked_other n l.controllers.idle l.caches m l.channels ch
              (ap (λ a. leave_at a l.controllers.idle l.channels) (sym active) ∙ left.0) inv.caches
              inv.distinct;
        distinct = rw (left.3) inv.distinct;
        once = inv.once;
        cancelled = inv.cancelled;
        phase = Phase-leave_controller s.waiter l n m ch inv.phase active left.3;
      },
    )

pub leave_cache-Inv :
    (s : System) (n : ℕ)
    → Inv s
    → s.running_caches ≡ suc n
    → (l : Lifecycle) × (end cache_group s.lifecycle ≡ some l)
      × Inv (record s { lifecycle = l; running_caches = n })
unfolding end
leave_cache-Inv s n inv e =
    let l = s.lifecycle in
    let active = inv.caches_counted ∙ e in
    let (m, ch, left) = leave-IsTracked l.caches l.channels n active inv.caches in
    (
      record l { caches = m; channels = ch },
      rw (left.0),
      record {
        controllers_counted = inv.controllers_counted;
        caches_counted = left.2;
        controllers =
            leave-IsTracked_other n l.caches.idle l.controllers m l.channels ch
              (ap (λ a. leave_at a l.caches.idle l.channels) (sym active) ∙ left.0) inv.controllers
              (λ q. inv.distinct (sym q));
        caches = left.1;
        distinct = rw (left.3) inv.distinct;
        once = inv.once;
        cancelled = inv.cancelled;
        phase = Phase-leave_cache s.waiter l n m ch inv.phase active left.3;
      },
    )

pub stop_again :
    (s : System)
    → s.lifecycle.stop_called ≡ true
    → stop s.waiter s.lifecycle ≡ (s.waiter, s.lifecycle)
unfolding stop
stop_again s e = ground arith

pub stop_once :
    (s : System)
    → s.lifecycle.stop_called ≡ false
    → stop s.waiter s.lifecycle ≡ stop_first s.lifecycle
unfolding stop
stop_once s e = ground arith

pub stop-Inv :
    (s : System)
    → Inv s
    → Inv (record s {
      waiter = (stop s.waiter s.lifecycle).0;
      lifecycle = (stop s.waiter s.lifecycle).1;
    })
unfolding stop_first
stop-Inv s inv = elim (Bool-cases s.lifecycle.stop_called) [
  | inl again ↦
      subst (λ r. Inv (record s { waiter = r.0; lifecycle = r.1 })) (sym (stop_again s again)) inv
  | inr first ↦
      let (not_cancelled, not_done) =
        Phase-stop s.waiter s.lifecycle inv.phase (sym inv.once ∙ first) in
      subst (λ r. Inv (record s { waiter = r.0; lifecycle = r.1 })) (sym (stop_once s first))
        (record {
          controllers_counted = inv.controllers_counted;
          caches_counted = inv.caches_counted;
          controllers = inv.controllers;
          caches = inv.caches;
          distinct = inv.distinct;
          once = refl;
          cancelled = refl;
          phase = (refl, not_cancelled, not_done, refl, refl);
        })
]
