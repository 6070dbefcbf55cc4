-- ===== src/Hierarchical/Lifecycle/Phases.antt =====
-- lifecycle.go: the place of the goroutine of `stop`, and what each call keeps of it.
use k8s_controller_lib.Prelude.{ℕ, suc, ◌≡◌, sym, ◌∙◌, true, false, arith}
use k8s_controller_lib.Hierarchical.Lifecycle.{
  Lifecycle, Members, Channels, Waiter, not_started, waits_controllers, waits_cache, finished,
}

-- What the place of the goroutine says of the lifecycle.
abbrev pub Phase : Waiter → Lifecycle → Type 0
Phase not_started l = (l.stopped ≡ false) × (l.cache_cancelled ≡ false) × (l.done ≡ false)
Phase (waits_controllers c k) l =
    (l.stopped ≡ true)
    × (l.cache_cancelled ≡ false)
    × (l.done ≡ false)
    × (c ≡ l.controllers.idle)
    × (k ≡ l.caches.idle)
Phase (waits_cache k) l =
    (l.stopped ≡ true)
    × (l.cache_cancelled ≡ true)
    × (l.done ≡ false)
    × (l.controllers.active ≡ 0)
    × (k ≡ l.caches.idle)
Phase finished l =
    (l.stopped ≡ true)
    × (l.cache_cancelled ≡ true)
    × (l.done ≡ true)
    × (l.controllers.active ≡ 0)
    × (l.caches.active ≡ 0)

-- Nothing that the phase speaks of changes while the lifecycle is not stopped.
pub Phase-open :
    (w : Waiter) (l l1 : Lifecycle)
    → Phase w l
    → l.stopped ≡ false
    → l1.stopped ≡ l.stopped
    → l1.cache_cancelled ≡ l.cache_cancelled
    → l1.done ≡ l.done
    → Phase w l1
Phase-open not_started l l1 p open_ s c d = (s ∙ p.0, c ∙ p.1, d ∙ p.2)
Phase-open (waits_controllers c k) l l1 p open_ s _ _ = cc (p.0, open_)
Phase-open (waits_cache k) l l1 p open_ s _ _ = cc (p.0, open_)
Phase-open finished l l1 p open_ s _ _ = cc (p.0, open_)

-- A member of the controllers leaves, in whatever phase: a member is there, so the goroutine has not come
-- past the controllers.
pub Phase-leave_controller :
    (w : Waiter) (l : Lifecycle) (n : ℕ) (m : Members) (ch : Channels)
    → Phase w l
    → l.controllers.active ≡ suc n
    → m.idle ≡ l.controllers.idle
    → Phase w (record l { controllers = m; channels = ch })
Phase-leave_controller not_started l n m ch p e i = p
Phase-leave_controller (waits_controllers c k) l n m ch p e i = (p.0, p.1, p.2, p.3 ∙ sym i, p.4)
Phase-leave_controller (waits_cache k) l n m ch p e i = absurd (omega (arith, p.3, e))
Phase-leave_controller finished l n m ch p e i = absurd (omega (arith, p.3, e))

pub Phase-leave_cache :
    (w : Waiter) (l : Lifecycle) (n : ℕ) (m : Members) (ch : Channels)
    → Phase w l
    → l.caches.active ≡ suc n
    → m.idle ≡ l.caches.idle
    → Phase w (record l { caches = m; channels = ch })
Phase-leave_cache not_started l n m ch p e i = p
Phase-leave_cache (waits_controllers c k) l n m ch p e i = (p.0, p.1, p.2, p.3, p.4 ∙ sym i)
Phase-leave_cache (waits_cache k) l n m ch p e i = (p.0, p.1, p.2, p.3, p.4 ∙ sym i)
Phase-leave_cache finished l n m ch p e i = absurd (omega (arith, p.4, e))

-- The goroutine is not there before `stop` is called.
pub Phase-stop :
    (w : Waiter) (l : Lifecycle)
    → Phase w l
    → l.stopped ≡ false
    → (l.cache_cancelled ≡ false) × (l.done ≡ false)
Phase-stop not_started l p e = (p.1, p.2)
Phase-stop (waits_controllers c k) l p e = cc (p.0, e)
Phase-stop (waits_cache k) l p e = cc (p.0, e)
Phase-stop finished l p e = cc (p.0, e)
