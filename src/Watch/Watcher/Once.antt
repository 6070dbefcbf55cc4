-- ===== src/Watch/Watcher/Once.antt =====
-- watch.go: a kind is watched at most once, however the calls of `watchObject` interleave.
use k8s_controller_lib.Prelude.{
  ℕ, ◌+◌, ◌≤◌, String, ◌≡◌, refl, inl, inr, Option, none, some, List, [], ◌∷◌, arith, if◌then◌else◌,
  Bool-cases,
}
use k8s_controller_lib.Util.{Setting, apply_options}
use k8s_controller_lib.Runtime.Exec.{ok, err}
use k8s_controller_lib.Runtime.Objects.{Gvk, gvk_eq, gvk_eq_iff}
use k8s_controller_lib.Watch.Config.{Config}
use k8s_controller_lib.Watch.Watcher.{
  WatchState, States, Registered, Answers, lookup_state, put_state, state_or_new, setup_source,
  register, mark_watched, try_register, locked_watch,
}

-- A call of `watchObject` that has come past its fast path, whatever the map held at that time.
pub record Call (P H : Type 0) : Type 0 where
  pub gvk : Gvk
  pub kind_text : String
  pub opts : List (Setting (Config P H))
  pub answers : Answers

module _ {P H : Type 0} where
  pub lookup-put_state :
      (k j : Gvk) (s : WatchState P H) (m : States P H)
      → lookup_state j (put_state k s m) ≡ (if gvk_eq k j then some s else lookup_state j m)
  unfolding lookup_state put_state
  lookup-put_state k j s [] = refl
  lookup-put_state k j s ((i, old) ∷ m) = ground (
    arith,
    gvk_eq_iff i k,
    gvk_eq_iff i j,
    gvk_eq_iff k j,
    gvk_eq_iff k k,
    lookup-put_state k j s m,
  )

  -- 1 for a kind that has a watch.
  abbrev pub watched_bit : Option (WatchState P H) → ℕ
  watched_bit none = 0
  watched_bit (some s) = if s.watched then 1 else 0

  watched_bit-le : (o : Option (WatchState P H)) → watched_bit o ≤ 1
  watched_bit-le none = omega arith
  watched_bit-le (some s) = ground arith

  -- 1 for a call that registered a watch.
  abbrev pub registered_bit : Registered P H → ℕ
  registered_bit (err e) = 0
  registered_bit (ok none) = 0
  registered_bit (ok (some src)) = 1

  module _ (default : P) where
    abbrev pub outcome : Call P H → States P H → Registered P H × States P H
    outcome c states = locked_watch default c.kind_text c.gvk c.opts c.answers states

    -- The calls come to hold the write lock in the order of the list.
    pub run : List (Call P H) → States P H → States P H
    run [] states = states
    run (c ∷ rest) states = run rest (outcome c states).1

    -- How many of the calls registered a watch for a kind.
    pub registrations : Gvk → List (Call P H) → States P H → ℕ
    registrations gvk [] states = 0
    registrations gvk (c ∷ rest) states =
        (if gvk_eq c.gvk gvk then registered_bit (outcome c states).0 else 0)
        + registrations gvk rest (outcome c states).1

    register_bit :
        (kind_text : String) (answers : Answers) (s : WatchState P H)
        → registered_bit (try_register default kind_text answers s) + (if s.watched then 1 else 0)
          ≡ watched_bit (some (mark_watched (try_register default kind_text answers s) s))
    unfolding try_register mark_watched register setup_source
    register_bit kind_text answers s = ground arith

    fresh_bit :
        (gvk : Gvk) (o : Option (WatchState P H))
        → (if (state_or_new gvk o).watched then 1 else 0) ≡ watched_bit o
    unfolding state_or_new
    fresh_bit gvk none = refl
    fresh_bit gvk (some s) = refl

    step_bits :
        (gvk : Gvk) (c : Call P H) (states : States P H)
        → (if gvk_eq c.gvk gvk then registered_bit (outcome c states).0 else 0)
            + watched_bit (lookup_state gvk states)
          ≡ watched_bit (lookup_state gvk (outcome c states).1)
    unfolding locked_watch
    step_bits gvk c states =
        let o = lookup_state c.gvk states in
        let s0 : WatchState P H = state_or_new c.gvk o in
        let s : WatchState P H = record s0 { config = apply_options c.opts s0.config } in
        let r = try_register default c.kind_text c.answers s in
        let written = lookup-put_state c.gvk gvk (mark_watched r s) states in
        elim (Bool-cases (gvk_eq c.gvk gvk)) [
          | inl same ↦
              rw (written, same, ← (gvk_eq_iff c.gvk gvk).0 same)
                (omega (arith, register_bit c.kind_text c.answers s, fresh_bit c.gvk o))
          | inr other ↦ rw (written, other) (omega arith)
        ]

    -- Whatever the calls are, and in whatever order they get the write lock: the number of watches that
    -- are registered for a kind is 1 if the kind had none before and has one after, and else 0; so no
    -- kind is ever watched twice, and a kind counts as watched just if it was, or was registered.
    pub registrations_lem :
        (gvk : Gvk) (calls : List (Call P H)) (states : States P H)
        → (registrations gvk calls states + watched_bit (lookup_state gvk states)
            ≡ watched_bit (lookup_state gvk (run calls states)))
          × (registrations gvk calls states ≤ 1)
    unfolding registrations run
    registrations_lem gvk [] states = (omega arith, omega arith)
    registrations_lem gvk (c ∷ rest) states =
        let (after, few) = registrations_lem gvk rest (outcome c states).1 in
        let total : registrations gvk (c ∷ rest) states + watched_bit (lookup_state gvk states)
            ≡ watched_bit (lookup_state gvk (run (c ∷ rest) states)) =
          omega (arith, after, step_bits gvk c states) in
        (total, omega (arith, total, watched_bit-le (lookup_state gvk (run (c ∷ rest) states))))
