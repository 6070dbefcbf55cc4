-- ===== src/Hierarchical/Lifecycle/Steps.antt =====
-- lifecycle.go: the calls of `run` and `stop`, and the goroutine of `stop`, in any interleaving.
use k8s_controller_lib.Prelude.{ℕ, suc, ◌≡◌, true, some}
use k8s_controller_lib.Hierarchical.Lifecycle.{
  Lifecycle, controller_group, cache_group, Waiter, not_started, new_lifecycle, begin, end, stop,
  waiter_step,
}

-- The lifecycle, the goroutine, and how many calls of `run` are between their `begin` and their `end`.
pub record System : Type 0 where
  pub lifecycle : Lifecycle
  pub waiter : Waiter
  pub running_controllers : ℕ
  pub running_caches : ℕ

abbrev pub init : System
init = record {
  lifecycle = new_lifecycle;
  waiter = not_started;
  running_controllers = 0;
  running_caches = 0;
}

-- A call of `run` begins and is let in; one that is refused returns and changes nothing. A call that was
-- let in ends. Somebody calls `stop`. The goroutine receives.
pub data Step : System → System → Type 0 where
  enter_controller :
      {s t : System}
      → (begin controller_group s.lifecycle).0 ≡ true
      → t ≡ record s {
        lifecycle = (begin controller_group s.lifecycle).1;
        running_controllers = suc s.running_controllers;
      }
      → Step s t
  enter_cache :
      {s t : System}
      → (begin cache_group s.lifecycle).0 ≡ true
      → t ≡ record s {
        lifecycle = (begin cache_group s.lifecycle).1;
        running_caches = suc s.running_caches;
      }
      → Step s t
  leave_controller :
      {s t : System} (n : ℕ) (l : Lifecycle)
      → s.running_controllers ≡ suc n
      → end controller_group s.lifecycle ≡ some l
      → t ≡ record s { lifecycle = l; running_controllers = n }
      → Step s t
  leave_cache :
      {s t : System} (n : ℕ) (l : Lifecycle)
      → s.running_caches ≡ suc n
      → end cache_group s.lifecycle ≡ some l
      → t ≡ record s { lifecycle = l; running_caches = n }
      → Step s t
  call_stop :
      {s t : System}
      → t ≡ record s {
        waiter = (stop s.waiter s.lifecycle).0;
        lifecycle = (stop s.waiter s.lifecycle).1;
      }
      → Step s t
  receive :
      {s t : System} (w : Waiter) (l : Lifecycle)
      → waiter_step s.waiter s.lifecycle ≡ some (w, l)
      → t ≡ record s { waiter = w; lifecycle = l }
      → Step s t

pub data Reach (s : System) : System → Type 0 where
  here : Reach s s
  next : {t u : System} → Reach s t → Step t u → Reach s u
