-- ===== src/Watch/Watcher.antt =====
-- pkg/reconciler/watch/watch.go: the watcher. Each part that holds a lock is one step; a call of
-- `watchObject` is the step under the read lock and then, if that did not end it, the one under the write
-- lock, between which other calls may come.
pub mod Once
use k8s_controller_lib.Prelude.{
  String, concat, Bool, true, false, not, ◌&&◌, ◌||◌, Option, none, some, List, [], ◌∷◌, length,
  eqb, if◌then◌else◌,
}
use k8s_controller_lib.Util.{Setting, apply_options}
use k8s_controller_lib.Runtime.Errors.{GoError, wrap}
use k8s_controller_lib.Runtime.Exec.{Result, ok, err}
use k8s_controller_lib.Runtime.Objects.{Gvk, gvk_eq}
use k8s_controller_lib.Watch.Config.{Config, Options, bare_config}

-- `State`
pub record WatchState (P H : Type 0) : Type 0 where
  pub config : Config P H
  pub watched : Bool

-- The map from kinds to states.
abbrev pub States : Type 0 → Type 0 → Type 0
States P H = List (Gvk × WatchState P H)

module _ {P H : Type 0} where
  unfoldable pub lookup_state : Gvk → States P H → Option (WatchState P H)
  lookup_state gvk [] = none
  lookup_state gvk ((k, s) ∷ m) = if gvk_eq k gvk then some s else lookup_state gvk m

  -- `w.states[gvk] = state`
  unfoldable pub put_state : Gvk → WatchState P H → States P H → States P H
  put_state gvk s [] = (gvk, s) ∷ []
  put_state gvk s ((k, old) ∷ m) = if gvk_eq k gvk then (k, s) ∷ m else (k, old) ∷ put_state gvk s m

pub record Watcher (P H : Type 0) : Type 0 where
  pub controller : Bool
  pub cache : Bool
  pub client : Bool
  pub states : States P H

-- What `source.Kind` is given: the object or its metadata alone, the predicates, and the handler, `none`
-- for `EnqueueRequestForOwnerOrLabel`.
pub record Source (P H : Type 0) : Type 0 where
  pub metadata_only : Bool
  pub predicates : List P
  pub handler : Option H

-- What a call meets outside this package: whether the object is already metadata alone, the answer of
-- its conversion to that, and the answer of `controller.Watch`.
pub record Answers : Type 0 where
  pub is_partial_object : Bool
  pub to_partial : Option GoError
  pub watch : Option GoError

-- `len(preds) == 0 && !resources.IsPartialObjectMetadata(watchObj)`; `default` is the predicate of
-- `predicates.Default()`.
unfoldable pub choose_predicates : {P : Type 0} → P → List P → Bool → List P
choose_predicates default preds metadata_only =
    if eqb (length preds) 0 && not metadata_only then default ∷ [] else preds

-- The outcome of the part under the write lock: the source that `controller.Watch` accepted, if it got
-- one and accepted it, and the error that is returned.
abbrev pub Registered : Type 0 → Type 0 → Type 0
Registered P H = Result (Option (Source P H))

module _ {P H : Type 0} where
  unfoldable pub add_configs : List (Config P H) → States P H → States P H
  unfolding put_state
  add_configs [] states = states
  add_configs (cfg ∷ rest) states =
      add_configs rest (put_state cfg.gvk (record { config = cfg; watched = false }) states)

  -- `New`
  unfoldable pub new : List (Setting (Options P H)) → Watcher P H
  unfolding add_configs apply_options
  new opts =
      let o =
        apply_options opts
          (record { configs = []; client = false; cache = false; controller = false }) in
      record {
        controller = o.controller;
        cache = o.cache;
        client = o.client;
        states = add_configs o.configs [];
      }

  -- `SetClient`, `SetCache` and `SetController`
  unfoldable pub set_client : Watcher P H → Bool → Watcher P H
  set_client w c = record w { client = c }

  unfoldable pub set_cache : Watcher P H → Bool → Watcher P H
  set_cache w c = record w { cache = c }

  unfoldable pub set_controller : Watcher P H → Bool → Watcher P H
  set_controller w ctrl = record w { controller = ctrl }

  unfoldable pub ready : Watcher P H → Bool
  ready w = w.controller && (w.cache && w.client)

  -- `State`; `Clone` is the identity on values.
  unfoldable pub state : Watcher P H → Gvk → Option (WatchState P H)
  unfolding lookup_state
  state w gvk = lookup_state gvk w.states

  abbrev pub settled : WatchState P H → Bool
  settled s = s.watched || s.config.disabled

  -- The fast path, under the read lock: true if the call ends there.
  unfoldable pub already_settled : Option (WatchState P H) → Bool
  already_settled none = false
  already_settled (some s) = settled s

  -- `setupState`; the state that it creates is put into the map.
  unfoldable pub state_or_new : Gvk → Option (WatchState P H) → WatchState P H
  state_or_new gvk none = record { config = bare_config gvk; watched = false }
  state_or_new gvk (some s) = s

  -- `setupSource`
  unfoldable pub build_source : P → Bool → Config P H → Source P H
  unfolding choose_predicates
  build_source default metadata_only cfg = record {
    metadata_only = metadata_only;
    predicates = choose_predicates default cfg.predicates metadata_only;
    handler = cfg.handler;
  }

  unfoldable pub setup_source : P → Answers → Config P H → Result (Source P H)
  unfolding build_source
  setup_source default answers cfg =
      if cfg.partial
      then elim answers.to_partial [
        | some e ↦ err (wrap "failed to convert to PartialObjectMetadata" e)
        | none ↦ ok (build_source default true cfg)
      ]
      else ok (build_source default answers.is_partial_object cfg)

  -- The call of `controller.Watch`, for a source or the error in its place; `kind_text` is the text of
  -- the kind.
  unfoldable pub register : String → Answers → Result (Source P H) → Registered P H
  register kind_text answers (err e) = err (wrap (concat "unable to setup watch for " kind_text) e)
  register kind_text answers (ok src) = elim answers.watch [
    | some e ↦ err (wrap (concat "failed to watch " kind_text) e)
    | none ↦ ok (some src)
  ]

  -- `state.Watched = true`, after a registration
  unfoldable pub mark_watched : Registered P H → WatchState P H → WatchState P H
  mark_watched (err e) s = s
  mark_watched (ok none) s = s
  mark_watched (ok (some src)) s = record s { watched = true }

  unfoldable pub try_register : P → String → Answers → WatchState P H → Registered P H
  unfolding setup_source register
  try_register default kind_text answers s =
      if settled s
      then ok none
      else register kind_text answers (setup_source default answers s.config)

  -- The part of `watchObject` under the write lock. The options of the call are applied to the state
  -- before it is known whether a watch is needed, and stay applied.
  unfoldable pub locked_watch :
      P
      → String
      → Gvk
      → List (Setting (Config P H))
      → Answers
      → States P H
      → Registered P H × States P H
  unfolding lookup_state put_state state_or_new try_register mark_watched apply_options
  locked_watch default kind_text gvk opts answers states =
      let s0 = state_or_new gvk (lookup_state gvk states) in
      let s = record s0 { config = apply_options opts s0.config } in
      let r = try_register default kind_text answers s in
      (r, put_state gvk (mark_watched r s) states)

  -- `watchObject` with nobody in between; `gvk` is what the scheme says of the object.
  unfoldable pub watch_object :
      P
      → String
      → Result Gvk
      → List (Setting (Config P H))
      → Answers
      → States P H
      → Registered P H × States P H
  unfolding already_settled locked_watch
  watch_object default kind_text (err e) opts answers states =
      (err (wrap "unable to get GVK" e), states)
  watch_object default kind_text (ok gvk) opts answers states =
      if already_settled (lookup_state gvk states)
      then (ok none, states)
      else locked_watch default kind_text gvk opts answers states

  -- `Watch`; `present` is false for a nil object.
  unfoldable pub watch :
      P
      → String
      → Bool
      → Result Gvk
      → List (Setting (Config P H))
      → Answers
      → Watcher P H
      → Registered P H × Watcher P H
  unfolding ready watch_object
  watch default kind_text present gvk opts answers w =
      if not present || not (ready w)
      then (ok none, w)
      else let (r, states) = watch_object default kind_text gvk opts answers w.states in
        (r, record w { states = states })
