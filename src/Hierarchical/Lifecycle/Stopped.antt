-- ===== src/Hierarchical/Lifecycle/Stopped.antt =====
-- lifecycle.go: what is stopped stays so.
use k8s_controller_lib.Prelude.{
  ◌≤◌, ◌≡◌, refl, sym, ap, ◌∙◌, Bool, true, false, Option, none, some, arith,
}
use mathlib.Core.Path.{subst}
use mathlib.Core.Option
use k8s_controller_lib.Hierarchical.Lifecycle.{
  Lifecycle, LifecycleGroup, controller_group, cache_group, Waiter, not_started, waits_controllers,
  waits_cache, finished, begin, end, is_stopped, stop_first, stop, waiter_step,
}
use k8s_controller_lib.Hierarchical.Lifecycle.Steps.{
  System, Step, enter_controller, enter_cache, leave_controller, leave_cache, call_stop, receive,
  Reach, here, next,
}

-- Nothing makes a stopped lifecycle open again.
map_stopped :
    {A : Type 0} (f : A → Lifecycle) (b : Bool) (o : Option A) (l : Lifecycle)
    → ((a : A) → (f a).stopped ≡ b)
    → Option.map f o ≡ some l
    → l.stopped ≡ b
map_stopped f b none l keeps e = cc e
map_stopped f b (some a) l keeps e = cc (keeps a, e)

end_stopped :
    (group : LifecycleGroup) (l l1 : Lifecycle) → end group l ≡ some l1 → l1.stopped ≡ l.stopped
unfolding end
end_stopped controller_group l l1 e = map_stopped _ l.stopped _ l1 (λ r. refl) e
end_stopped cache_group l l1 e = map_stopped _ l.stopped _ l1 (λ r. refl) e

waiter_step_stopped :
    (w : Waiter) (l : Lifecycle) (r : Waiter × Lifecycle)
    → waiter_step w l ≡ some r
    → r.1.stopped ≡ l.stopped
unfolding waiter_step
waiter_step_stopped not_started l r e = cc e
waiter_step_stopped (waits_controllers c k) l r e = ground (arith, e)
waiter_step_stopped (waits_cache k) l r e = ground (arith, e)
waiter_step_stopped finished l r e = cc e

stop_stopped : (w : Waiter) (l : Lifecycle) → l.stopped ≡ true → (stop w l).1.stopped ≡ true
unfolding stop stop_first
stop_stopped w l e = ground (arith, e)

begin_refuses :
    (group : LifecycleGroup) (l : Lifecycle) → l.stopped ≡ true → begin group l ≡ (false, l)
unfolding begin
begin_refuses group l e = rw e

abbrev Stays : System → System → Type 0
Stays s t =
    (t.lifecycle.stopped ≡ true)
    × (t.running_controllers ≤ s.running_controllers)
    × (t.running_caches ≤ s.running_caches)

Step-Stays : (s t : System) → s.lifecycle.stopped ≡ true → Step s t → Stays s t
Step-Stays s t e (enter_controller let_in q) =
    cc (let_in, ap (λ r. r.0) (begin_refuses controller_group s.lifecycle e))
Step-Stays s t e (enter_cache let_in q) =
    cc (let_in, ap (λ r. r.0) (begin_refuses cache_group s.lifecycle e))
Step-Stays s t e (leave_controller n l count ok q) =
    subst (Stays s) (sym q)
      (end_stopped controller_group s.lifecycle l ok ∙ e, omega (arith, count), omega arith)
Step-Stays s t e (leave_cache n l count ok q) =
    subst (Stays s) (sym q)
      (end_stopped cache_group s.lifecycle l ok ∙ e, omega arith, omega (arith, count))
Step-Stays s t e (call_stop q) =
    subst (Stays s) (sym q) (stop_stopped s.waiter s.lifecycle e, omega arith, omega arith)
Step-Stays s t e (receive w l ok q) =
    subst (Stays s) (sym q)
      (waiter_step_stopped s.waiter s.lifecycle (w, l) ok ∙ e, omega arith, omega arith)

stays : (s t : System) → s.lifecycle.stopped ≡ true → Reach s t → Stays s t
stays s t e here = (e, omega arith, omega arith)
stays s t e (next {t = u} reach step) =
    let (open_, few, few2) = stays s u e reach in
    let (closed, less, less2) = Step-Stays u t open_ step in
    (closed, omega (arith, few, less), omega (arith, few2, less2))

-- Once the lifecycle is stopped, and whatever happens after that: it stays stopped, `begin` refuses every
-- call and changes nothing, and the number of running controllers and of running caches never grows.
pub stopped_for_good :
    (s t : System) (group : LifecycleGroup)
    → s.lifecycle.stopped ≡ true
    → Reach s t
    → (is_stopped t.lifecycle ≡ true)
      × (begin group t.lifecycle ≡ (false, t.lifecycle))
      × (t.running_controllers ≤ s.running_controllers)
      × (t.running_caches ≤ s.running_caches)
unfolding is_stopped
stopped_for_good s t group e reach =
    let (closed, few, few2) = stays s t e reach in
    (closed, begin_refuses group t.lifecycle closed, few, few2)
