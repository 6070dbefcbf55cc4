-- ===== src/Watch/All/Settled.antt =====
-- watch.go: after `All`, the kinds of its objects are watched.
use k8s_controller_lib.Prelude.{
  String, ◌≡◌, refl, ◌∙◌, ◌⊎◌, inl, inr, ◌↔◌, ◌||◌, Bool, true, false, Bool-cases, Option, none,
  some, List, [], ◌∷◌, All, arith, if◌then◌else◌,
}
use k8s_controller_lib.Util.{apply_options}
use k8s_controller_lib.Runtime.Exec.{Result, ok, err}
use k8s_controller_lib.Runtime.Objects.{Gvk, gvk_eq, gvk_eq_iff}
use k8s_controller_lib.Watch.Watcher.{
  WatchState, States, Watcher, Registered, Answers, Source, lookup_state, state_or_new, settled,
  already_settled, setup_source, register, mark_watched, try_register, locked_watch, watch_object,
  watch, ready,
}
use k8s_controller_lib.Watch.Watcher.Once.{lookup-put_state}
use k8s_controller_lib.Watch.All.{Applied, after_watch, watch_all}

or_left : (b : Bool) → (true || b) ≡ true
or_left b = refl

or_right : (b : Bool) → (b || true) ≡ true
or_right true = refl
or_right false = refl

some_inj : {A : Type 0} {x y : A} → ◌≡◌ {A = Option A} (some x) (some y) → x ≡ y
some_inj e = cc e

if_true : (b c : Bool) → c ≡ true → (if b then true else c) ≡ true
if_true true c e = refl
if_true false c e = e

module _ {P H : Type 0} where
  -- The fast path of `Watch` ends the call for this kind.
  abbrev IsSettled : Gvk → States P H → Type 0
  IsSettled gvk states = already_settled (lookup_state gvk states) ≡ true

  -- Every kind that was settled is settled.
  abbrev Keeps : States P H → States P H → Type 0
  Keeps states states1 = (gvk : Gvk) → IsSettled gvk states → IsSettled gvk states1

  -- A registration that returns no error leaves the state settled.
  try_register-settled :
      (default : P) (kind_text : String) (answers : Answers) (s : WatchState P H)
      (src : Option (Source P H))
      → try_register default kind_text answers s ≡ ok src
      → settled (mark_watched (try_register default kind_text answers s) s) ≡ true
  unfolding try_register mark_watched register setup_source
  try_register-settled default kind_text answers s src e = ground (arith, e)

  locked_watch-IsSettled :
      (default : P) (kind_text : String) (gvk : Gvk) (answers : Answers) (states : States P H)
      (src : Option (Source P H))
      → (locked_watch default kind_text gvk [] answers states).0 ≡ ok src
      → (k : Gvk)
      → already_settled (lookup_state k (locked_watch default kind_text gvk [] answers states).1)
        ≡ (if gvk_eq gvk k then true else already_settled (lookup_state k states))
  unfolding locked_watch apply_options already_settled
  locked_watch-IsSettled default kind_text gvk answers states src e k =
      let s = state_or_new gvk (lookup_state gvk states) in
      let r = try_register default kind_text answers s in
      let written = lookup-put_state gvk k (mark_watched r s) states in
      elim (Bool-cases (gvk_eq gvk k)) [
        | inl same ↦ rw (written, same) (try_register-settled default kind_text answers s src e)
        | inr other ↦ rw (written, other) refl
      ]

  -- What a call that returns no error does to the states.
  abbrev Settles : Gvk → States P H → States P H → Type 0
  Settles gvk states states1 = IsSettled gvk states1 × Keeps states states1

  watch_object-Settles :
      (default : P) (kind_text : String) (gvk : Gvk) (answers : Answers) (states : States P H)
      (src : Option (Source P H))
      → (watch_object default kind_text (ok gvk) [] answers states).0 ≡ ok src
      → Settles gvk states (watch_object default kind_text (ok gvk) [] answers states).1
  unfolding watch_object
  watch_object-Settles default kind_text gvk answers states src =
      elim (Bool-cases (already_settled (lookup_state gvk states))) [
        | inl before ↦ rw before (λ e. (before, λ k settled_. settled_))
        | inr open_ ↦ rw open_ (λ e.
            let after = locked_watch-IsSettled default kind_text gvk answers states src e in
            (
              after gvk ∙ rw ((gvk_eq_iff gvk gvk).1 refl) refl,
              λ k settled_. after k ∙ if_true (gvk_eq gvk k) _ settled_,
            ))
      ]

  ready_with :
      (w : Watcher P H) (states : States P H)
      → ready w ≡ true
      → ready (record w { states = states }) ≡ true
  unfolding ready
  ready_with w states e = e

  -- What a call of `Watch` that returns no error has done, for the kind that the scheme gave.
  abbrev WatchSettles : Result Gvk → Watcher P H → Watcher P H → Type 0
  WatchSettles gvk w w1 =
      (g : Gvk) × (gvk ≡ ok g) × Settles g w.states w1.states × (ready w1 ≡ true)

  watch-Settles :
      (default : P) (kind_text : String) (gvk : Result Gvk) (answers : Answers) (w : Watcher P H)
      (src : Option (Source P H))
      → ready w ≡ true
      → (watch default kind_text true gvk [] answers w).0 ≡ ok src
      → WatchSettles gvk w (watch default kind_text true gvk [] answers w).1
  unfolding watch watch_object
  watch-Settles default kind_text (err e) answers w src is_ready = rw is_ready (λ fails. cc fails)
  watch-Settles default kind_text (ok g) answers w src is_ready = rw is_ready (λ succeeds. (
    g,
    refl,
    watch_object-Settles default kind_text g answers w.states src succeeds,
    ready_with w (watch_object default kind_text (ok g) [] answers w.states).1 is_ready,
  ))

  -- The kinds of the objects that are not nil
  abbrev AllSettled : List (Option Applied) → States P H → Type 0
  AllSettled objs states =
      All
        (λ obj. elim obj [
          | none ↦ Unit
          | some o ↦ (gvk : Gvk) × (o.gvk ≡ ok gvk) × IsSettled gvk states
        ])
        objs

  -- Once a kind is settled, the calls for the later objects keep it so.
  abbrev AllDone : List (Option Applied) → Watcher P H → Watcher P H → Type 0
  AllDone objs w w1 = AllSettled objs w1.states × Keeps w.states w1.states

  after_watch-AllDone :
      (obj : Applied) (objs : List (Option Applied)) (w : Watcher P H)
      (next : Watcher P H → Result (Unit {0}) × Watcher P H) (answer : Registered P H × Watcher P H)
      → ((src : Option (Source P H)) → answer.0 ≡ ok src → WatchSettles obj.gvk w answer.1)
      → ((w1 : Watcher P H) → ready w1 ≡ true → (next w1).0 ≡ ok tt → AllDone objs w1 (next w1).1)
      → (after_watch answer next).0 ≡ ok tt
      → AllDone (some obj ∷ objs) w (after_watch answer next).1
  unfolding after_watch
  after_watch-AllDone obj objs w next (err e, w1) settles rest succeeds = cc succeeds
  after_watch-AllDone obj objs w next (ok src, w1) settles rest succeeds =
      let (g, has_kind, (settled_, keeps), is_ready) = settles src refl in
      let (others, keeps_on) = rest w1 is_ready succeeds in
      (((g, has_kind, keeps_on g settled_), others), (λ k before. keeps_on k (keeps k before)))

  watch_all-AllDone :
      (default : P) (objs : List (Option Applied)) (w : Watcher P H)
      → ready w ≡ true
      → (watch_all default objs w).0 ≡ ok tt
      → AllDone objs w (watch_all default objs w).1
  unfolding watch_all
  watch_all-AllDone default [] w is_ready succeeds = (tt, (λ k before. before))
  watch_all-AllDone default (none ∷ objs) w is_ready succeeds =
      let (others, keeps) = watch_all-AllDone default objs w is_ready succeeds in
      ((tt, others), keeps)
  watch_all-AllDone default (some obj ∷ objs) w is_ready succeeds =
      after_watch-AllDone obj objs w (watch_all default objs)
        (watch default obj.kind_text true obj.gvk [] obj.answers w)
        (λ src e. watch-Settles default obj.kind_text obj.gvk obj.answers w src is_ready e)
        (watch_all-AllDone default objs) succeeds

  -- The kind has a state that is marked as watched, or whose configuration disables the watch.
  abbrev pub IsWatched : Gvk → States P H → Type 0
  IsWatched gvk states =
      (s : WatchState P H) × (lookup_state gvk states ≡ some s)
      × ((s.watched ≡ true) ⊎ (s.config.disabled ≡ true))

  -- The kinds of the objects that are not nil are known, and watched or disabled.
  abbrev pub AllWatched : List (Option Applied) → States P H → Type 0
  AllWatched [] states = Unit
  AllWatched (none ∷ objs) states = AllWatched objs states
  AllWatched (some o ∷ objs) states =
      ((gvk : Gvk) × (o.gvk ≡ ok gvk) × IsWatched gvk states) × AllWatched objs states

  IsWatched_iff :
      (state : Option (WatchState P H))
      → (already_settled state ≡ true) ↔ (
          (s : WatchState P H) × (state ≡ some s)
          × ((s.watched ≡ true) ⊎ (s.config.disabled ≡ true)))
  unfolding already_settled
  IsWatched_iff none = ((λ e. cc e), (λ (s, e, o). cc e))
  IsWatched_iff (some s) = (
    (λ e. elim (Bool-cases s.watched) [
      | inl watched ↦ (s, refl, inl watched)
      | inr open_ ↦ (s, refl, inr (rw open_ at e))
    ]),
    (λ (s1, e, o). elim o [
      | inl watched ↦ cc (some_inj e, watched, or_left s1.config.disabled)
      | inr disabled ↦ cc (some_inj e, disabled, or_right s.watched)
    ]),
  )

  AllSettled-AllWatched :
      (objs : List (Option Applied)) (states : States P H)
      → AllSettled objs states
      → AllWatched objs states
  AllSettled-AllWatched [] states all = tt
  AllSettled-AllWatched (none ∷ objs) states (first, all) = AllSettled-AllWatched objs states all
  AllSettled-AllWatched (some o ∷ objs) states ((gvk, known, settled_), all) = (
    (gvk, known, (IsWatched_iff (lookup_state gvk states)).0 settled_),
    AllSettled-AllWatched objs states all,
  )

  -- If the watcher has its client, cache and controller, and `All` returns no error, the kind of every
  -- object that is not nil is known, and afterwards has a state that is marked as watched or disabled; and
  -- so has every kind that had such a state before.
  pub watch_all-AllWatched :
      (default : P) (objs : List (Option Applied)) (w : Watcher P H) (gvk : Gvk)
      → ready w ≡ true
      → (watch_all default objs w).0 ≡ ok tt
      → AllWatched objs (watch_all default objs w).1.states
        × ((¬ IsWatched gvk w.states) ⊎ IsWatched gvk (watch_all default objs w).1.states)
  watch_all-AllWatched default objs w gvk is_ready succeeds =
      let (all, keeps) = watch_all-AllDone default objs w is_ready succeeds in
      (
        AllSettled-AllWatched objs (watch_all default objs w).1.states all,
        elim (Bool-cases (already_settled (lookup_state gvk w.states))) [
          | inl before ↦ inr (
              (IsWatched_iff (lookup_state gvk (watch_all default objs w).1.states)).0
                (keeps gvk before))
          | inr open_ ↦
              inl (λ watched. cc (open_, (IsWatched_iff (lookup_state gvk w.states)).1 watched))
        ],
      )
