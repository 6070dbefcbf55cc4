-- ===== src/Hierarchical/Lifecycle.antt =====
-- pkg/hierarchical/lifecycle.go: the order in which a child cluster starts and stops. Each part that
-- holds the lock is one function here.
pub mod Steps
pub mod Groups
pub mod Phases
pub mod Invariant
pub mod Reachable
pub mod Shutdown
pub mod Stopped
mod Tests
use k8s_controller_lib.Prelude.{
  ℕ, zero, suc, ◌+◌, ◌-◌, Bool, true, false, Option, none, some, eqb, if◌then◌else◌,
}
use mathlib.Core.Option

-- The channels that were made, by number; one that is not closed is open.
pub record Channels : Type 0 where
  pub closed : ℕ → Bool
  pub next : ℕ

abbrev pub set_closed : ℕ → Bool → (ℕ → Bool) → ℕ → Bool
set_closed c b closed j = if eqb c j then b else closed j

-- `make(chan struct{})`
unfoldable pub make_channel : Channels → ℕ × Channels
make_channel ch =
    (ch.next, record { closed = set_closed ch.next false ch.closed; next = suc ch.next })

-- `close(c)`, which panics on a closed channel
unfoldable pub close_channel : ℕ → Channels → Option Channels
close_channel c ch =
    if ch.closed c then none else some (record ch { closed = set_closed c true ch.closed })

-- `controllerActive` and `controllerIdle`, or `cacheActive` and `cacheIdle`
pub record Members : Type 0 where
  pub active : ℕ
  pub idle : ℕ

pub data LifecycleGroup : Type 0 where
  controller_group cache_group : LifecycleGroup

-- `lifecycle`; a context's `Done` channel is closed once it is cancelled. `stop_called` is the state of
-- `stopOnce`.
pub record Lifecycle : Type 0 where
  pub stopped : Bool
  pub done : Bool
  pub controllers : Members
  pub controllers_cancelled : Bool
  pub caches : Members
  pub cache_cancelled : Bool
  pub stop_called : Bool
  pub channels : Channels

-- `newLifecycle`, with two channels of `closedChannel`
abbrev pub new_lifecycle : Lifecycle
new_lifecycle = record {
  stopped = false;
  done = false;
  controllers = record { active = 0; idle = 0 };
  controllers_cancelled = false;
  caches = record { active = 0; idle = 1 };
  cache_cancelled = false;
  stop_called = false;
  channels = record { closed = λ c. true; next = 2 };
}

-- The body of a case of `begin`: the first member of a group opens a new idle channel.
unfoldable pub join : Members → Channels → Members × Channels
unfolding make_channel
join m ch =
    if eqb m.active 0
    then (let (c, ch') = make_channel ch in (record { active = suc m.active; idle = c }, ch'))
    else (record m { active = suc m.active }, ch)

unfoldable pub begin_group : LifecycleGroup → Lifecycle → Lifecycle
begin_group controller_group l =
    let (m, ch) = join l.controllers l.channels in record l { controllers = m; channels = ch }
begin_group cache_group l =
    let (m, ch) = join l.caches l.channels in record l { caches = m; channels = ch }

-- `begin`: false, and no change, once the lifecycle is stopped
unfoldable pub begin : LifecycleGroup → Lifecycle → Bool × Lifecycle
unfolding begin_group
begin group l = if l.stopped then (false, l) else (true, begin_group group l)

-- The body of a case of `end`: the last member closes the idle channel. `none` stands for a count below
-- zero, or for the panic of closing a closed channel.
unfoldable pub leave_at : ℕ → ℕ → Channels → Option (Members × Channels)
unfolding close_channel
leave_at zero idle ch = none
leave_at (suc n) idle ch =
    if eqb n 0
    then Option.map (λ ch'. (record { active = n; idle = idle }, ch')) (close_channel idle ch)
    else some (record { active = n; idle = idle }, ch)

-- `end`
unfoldable pub end : LifecycleGroup → Lifecycle → Option Lifecycle
end controller_group l =
    Option.map (λ (m, ch). record l { controllers = m; channels = ch })
      (leave_at l.controllers.active l.controllers.idle l.channels)
end cache_group l =
    Option.map (λ (m, ch). record l { caches = m; channels = ch })
      (leave_at l.caches.active l.caches.idle l.channels)

-- The goroutine that `stop` starts, by the channel receive at which it stands.
pub data Waiter : Type 0 where
  not_started : Waiter
  waits_controllers : (controller_idle cache_idle : ℕ) → Waiter
  waits_cache : (cache_idle : ℕ) → Waiter
  finished : Waiter

-- The function of `stopOnce.Do` in `stop`: it captures the idle channels, and starts the goroutine.
unfoldable pub stop_first : Lifecycle → Waiter × Lifecycle
stop_first l = (
  waits_controllers l.controllers.idle l.caches.idle,
  record l { stopped = true; controllers_cancelled = true; stop_called = true },
)

-- `stopOnce.Do`: a second call does nothing.
unfoldable pub stop : Waiter → Lifecycle → Waiter × Lifecycle
unfolding stop_first
stop waiter l = if l.stop_called then (waiter, l) else stop_first l

-- The goroutine goes on when the channel that it waits for is closed; `none` while it is open.
unfoldable pub waiter_step : Waiter → Lifecycle → Option (Waiter × Lifecycle)
waiter_step not_started l = none
waiter_step (waits_controllers controller_idle cache_idle) l =
    if l.channels.closed controller_idle
    then some (waits_cache cache_idle, record l { cache_cancelled = true })
    else none
waiter_step (waits_cache cache_idle) l =
    if l.channels.closed cache_idle then some (finished, record l { done = true }) else none
waiter_step finished l = none

-- `isStopped`
unfoldable pub is_stopped : Lifecycle → Bool
is_stopped l = l.stopped

-- `lifecycleCache.WaitForCacheSync`: `synced` is the answer of the wrapped cache, and the second state
-- the one in which the lock is taken again.
unfoldable pub wait_for_cache_sync : Lifecycle → Bool → Lifecycle → Bool
wait_for_cache_sync before synced after =
    if is_stopped before then true else if synced then true else is_stopped after
