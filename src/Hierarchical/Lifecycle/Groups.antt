-- ===== src/Hierarchical/Lifecycle/Groups.antt =====
-- lifecycle.go: a group's count and its idle channel.
use k8s_controller_lib.Prelude.{ℕ, zero, suc, ◌<◌, ◌≡◌, ◌≢◌, refl, true, some, arith, eqb}
use k8s_controller_lib.Hierarchical.Lifecycle.{Members, Channels, join, leave_at, set_closed}

-- A group's channel is closed just while the group has no member, and it was made.
pub record IsTracked (m : Members) (ch : Channels) : Type 0 where
  pub idle_closed : ch.closed m.idle ≡ eqb m.active 0
  pub made : m.idle < ch.next

-- A member joins a group: the group stays tracked, and so does any other.
pub join-IsTracked :
    (m : Members) (ch : Channels)
    → IsTracked m ch
    → IsTracked (join m ch).0 (join m ch).1 × ((join m ch).0.active ≡ suc m.active)
unfolding join
join-IsTracked m ch tracked = ground arith

pub join-IsTracked_other :
    (m o : Members) (ch : Channels)
    → IsTracked m ch
    → IsTracked o ch
    → m.idle ≢ o.idle
    → IsTracked o (join m ch).1 × ((join m ch).0.idle ≢ o.idle)
unfolding join
join-IsTracked_other m o ch tracked other distinct = ground arith

-- A member leaves: the call does not panic, and the groups stay tracked.
abbrev pub Left : Members → Channels → ℕ → Members → Channels → Type 0
Left m ch n m1 ch1 =
    (leave_at m.active m.idle ch ≡ some (m1, ch1))
    × IsTracked m1 ch1
    × (m1.active ≡ n)
    × (m1.idle ≡ m.idle)
    × (ch1.next ≡ ch.next)

pub leave-IsTracked :
    (m : Members) (ch : Channels) (n : ℕ)
    → m.active ≡ suc n
    → IsTracked m ch
    → (m1 : Members) × (ch1 : Channels) × Left m ch n m1 ch1
unfolding leave_at
leave-IsTracked m ch zero e tracked = (
  record { active = 0; idle = m.idle },
  record ch { closed = set_closed m.idle true ch.closed },
  (ground arith, record { idle_closed = ground arith; made = tracked.made }, refl, refl, refl),
)
leave-IsTracked m ch (suc k) e tracked = (
  record { active = suc k; idle = m.idle },
  ch,
  (ground arith, record { idle_closed = ground arith; made = tracked.made }, refl, refl, refl),
)

pub leave-IsTracked_other :
    (n idle : ℕ) (o m1 : Members) (ch ch1 : Channels)
    → leave_at (suc n) idle ch ≡ some (m1, ch1)
    → IsTracked o ch
    → idle ≢ o.idle
    → IsTracked o ch1
unfolding leave_at
leave-IsTracked_other n idle o m1 ch ch1 e other distinct = ground arith

-- A channel that is closed belongs to a group that has no member.
pub idle_of_closed :
    (m : Members) (ch : Channels) → IsTracked m ch → ch.closed m.idle ≡ true → m.active ≡ 0
idle_of_closed m ch tracked e = ground (arith, tracked.idle_closed)
