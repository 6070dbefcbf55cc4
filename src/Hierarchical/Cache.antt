-- ===== src/Hierarchical/Cache.antt =====
-- pkg/hierarchical/cache.go: which of two caches serves a kind. The texts of errors leave out
-- what `%T` prints, and the key of an object in `Get`.
pub mod Routing
pub mod Failing
mod Tests
use k8s_controller_lib.Prelude.{
  String, concat, Bool, true, false, Option, none, some, List, [], ◌∷◌, not, ◌&&◌, if◌then◌else◌,
  ◌==◌,
}
use k8s_controller_lib.Runtime.Errors.{GoError, plain, wrap, wrap_before}
use k8s_controller_lib.Runtime.Exec.{Result, ok, err, Exec, wrap_result}
use k8s_controller_lib.Runtime.Objects.{Gvk, gvk_eq, NamespacedName}

-- `ErrSharedInformerRemoval`
abbrev pub shared_informer_removal : GoError
shared_informer_removal = plain "cannot remove an informer owned by the parent cache"

-- What the code uses of Go and of controller-runtime: `strings.TrimSuffix(kind, "List")`, `gvk.String()`,
-- and `apiutil.GVKForObject` with the child's scheme and with the parent's.
pub record Schemes (O : Type 0) : Type 0 where
  pub trim_list : String → String
  pub gvk_string : Gvk → String
  pub child_gvk : O → Result Gvk
  pub parent_gvk : O → Result Gvk

-- What the code uses of a `cache.Cache`, over its state `C`: `Get` and `List` into an object, the
-- informers, and an index.
pub record CacheApi (O I C : Type 0) : Type 0 where
  pub get : NamespacedName → Exec (O × C) (Unit {0})
  pub list : Exec (O × C) (Unit {0})
  pub get_informer : O → Exec C I
  pub get_informer_for_kind : Gvk → Exec C I
  pub remove_informer : O → Exec C (Unit {0})
  pub index_field : O → String → Exec C (Unit {0})
  pub start : Exec C (Unit {0})
  pub wait_for_cache_sync : C → Bool

-- A set of kinds, for the map to empty structs.
abbrev pub holds_gvk : List Gvk → Gvk → Bool
holds_gvk [] gvk = false
holds_gvk (k ∷ ks) gvk = if gvk_eq k gvk then true else holds_gvk ks gvk

pub data Side : Type 0 where
  local parent : Side

-- The states of the two caches.
pub record Caches (C : Type 0) : Type 0 where
  pub local_cache : C
  pub parent_cache : C

module _ {O : Type 0} (schemes : Schemes O) where
  -- `normalizeGVK`
  unfoldable pub normalize_gvk : Gvk → Gvk
  normalize_gvk gvk = record gvk { kind = schemes.trim_list gvk.kind }

  -- `cacheForGVK`
  unfoldable pub cache_for_gvk : List Gvk → Gvk → Side
  unfolding normalize_gvk
  cache_for_gvk local_gvks gvk = if holds_gvk local_gvks (normalize_gvk gvk) then local else parent

  -- `gvkForObject`
  unfoldable pub gvk_for_object : O → Result Gvk
  gvk_for_object obj = elim (schemes.child_gvk obj) [
    | ok gvk ↦ ok gvk
    | err e ↦ wrap_result "resolve cache GVK" (schemes.parent_gvk obj)
  ]

  -- `cacheForObject`
  unfoldable pub cache_for_object : List Gvk → O → Result (Side × Gvk)
  unfolding gvk_for_object cache_for_gvk normalize_gvk
  cache_for_object local_gvks obj = elim (gvk_for_object obj) [
    | err e ↦ err e
    | ok gvk ↦ ok (cache_for_gvk local_gvks (normalize_gvk gvk), normalize_gvk gvk)
  ]

  -- The types that a scheme knows, by kind; a Go type is given by its text.
  abbrev pub KnownTypes : Type 0
  KnownTypes = List (Gvk × String)

  unfoldable pub find_type : Gvk → KnownTypes → Option String
  find_type gvk [] = none
  find_type gvk ((k, t) ∷ rest) = if gvk_eq k gvk then some t else find_type gvk rest

  -- One round of the first loop of `deriveLocalGVKs`, from what the parent's scheme has for the kind: the
  -- kinds that it adds.
  unfoldable pub compare_type : Gvk → String → Option String → Result (List Gvk)
  unfolding normalize_gvk
  compare_type gvk child_type none = ok (normalize_gvk gvk ∷ [])
  compare_type gvk child_type (some parent_type) =
      if parent_type == child_type
      then ok []
      else err (
          plain (
            concat "GVK " (
              concat (schemes.gvk_string gvk) (
                concat " maps to child type "
                  (concat child_type (concat " and parent type " parent_type))))))

  -- A set that grows by what a round adds, unless it failed.
  abbrev pub add_all : List Gvk → List Gvk → List Gvk
  add_all [] set = set
  add_all (k ∷ ks) set = k ∷ add_all ks set

  unfoldable pub add_result : Result (List Gvk) → Result (List Gvk) → Result (List Gvk)
  add_result (err e) rest = err e
  add_result (ok ks) (err e) = err e
  add_result (ok ks) (ok set) = ok (add_all ks set)

  unfoldable pub local_types : KnownTypes → KnownTypes → Result (List Gvk)
  unfolding compare_type find_type add_result
  local_types [] parent_types = ok []
  local_types ((gvk, t) ∷ rest) parent_types =
      add_result (compare_type gvk t (find_type gvk parent_types)) (local_types rest parent_types)

  -- One round of the second loop; `none` is a nil object.
  unfoldable pub by_object_gvk : Option O → Result (List Gvk)
  unfolding normalize_gvk
  by_object_gvk none = err (plain "ByObject contains a nil object")
  by_object_gvk (some obj) = elim (schemes.child_gvk obj) [
    | err e ↦ err (wrap "resolve ByObject GVK" e)
    | ok gvk ↦ ok (normalize_gvk gvk ∷ [])
  ]

  unfoldable pub by_object_gvks : List (Option O) → Result (List Gvk)
  unfolding by_object_gvk add_result
  by_object_gvks [] = ok []
  by_object_gvks (obj ∷ rest) = add_result (by_object_gvk obj) (by_object_gvks rest)

  -- `deriveLocalGVKs`, with the maps in the order in which Go visits them
  unfoldable pub derive_local_gvks : KnownTypes → KnownTypes → List (Option O) → Result (List Gvk)
  unfolding local_types by_object_gvks add_result
  derive_local_gvks child_types parent_types by_object =
      add_result (local_types child_types parent_types) (by_object_gvks by_object)

  module _ {I C : Type 0} (api : CacheApi O I C) where
    -- A call on the cache that was selected.
    unfoldable pub on_side : {A : Type 0} → Side → Exec C A → Exec (Caches C) A
    on_side local m cs = let (r, c) = m cs.local_cache in (r, record cs { local_cache = c })
    on_side parent m cs = let (r, c) = m cs.parent_cache in (r, record cs { parent_cache = c })

    -- The same for a call that fills an object.
    unfoldable pub fill_on_side : Side → Exec (O × C) (Unit {0}) → Exec (O × Caches C) (Unit {0})
    fill_on_side local m (obj, cs) =
        let (r, (obj1, c)) = m (obj, cs.local_cache) in (r, (obj1, record cs { local_cache = c }))
    fill_on_side parent m (obj, cs) =
        let (r, (obj1, c)) = m (obj, cs.parent_cache) in (r, (obj1, record cs { parent_cache = c }))

    -- `Get` and `List`
    unfoldable pub get : List Gvk → NamespacedName → Exec (O × Caches C) (Unit {0})
    unfolding fill_on_side cache_for_object
    get local_gvks key (obj, cs) = elim (cache_for_object local_gvks obj) [
      | err e ↦ (err e, (obj, cs))
      | ok (side, gvk) ↦
          let (r, s) = fill_on_side side (api.get key) (obj, cs) in (wrap_result "get" r, s)
    ]

    unfoldable pub list : List Gvk → Exec (O × Caches C) (Unit {0})
    unfolding fill_on_side cache_for_object
    list local_gvks (objs, cs) = elim (cache_for_object local_gvks objs) [
      | err e ↦ (err e, (objs, cs))
      | ok (side, gvk) ↦
          let (r, s) = fill_on_side side api.list (objs, cs) in (wrap_result "list" r, s)
    ]

    -- `Start` and `WaitForCacheSync`, which concern the local cache alone
    unfoldable pub start : Exec (Caches C) (Unit {0})
    unfolding on_side
    start cs = let (r, cs1) = on_side local api.start cs in (wrap_result "start local cache" r, cs1)

    unfoldable pub wait_for_cache_sync : Caches C → Bool
    wait_for_cache_sync cs = api.wait_for_cache_sync cs.local_cache

    -- `GetInformer`, `GetInformerForKind` and `IndexField`
    unfoldable pub get_informer : List Gvk → O → Exec (Caches C) I
    unfolding on_side cache_for_object
    get_informer local_gvks obj cs = elim (cache_for_object local_gvks obj) [
      | err e ↦ (err e, cs)
      | ok (side, gvk) ↦
          let (r, cs1) = on_side side (api.get_informer obj) cs in
          (wrap_result "get informer" r, cs1)
    ]

    unfoldable pub get_informer_for_kind : List Gvk → Gvk → Exec (Caches C) I
    unfolding on_side cache_for_gvk
    get_informer_for_kind local_gvks gvk cs =
        let (r, cs1) = on_side (cache_for_gvk local_gvks gvk) (api.get_informer_for_kind gvk) cs in
        (wrap_result (concat "get informer for GVK " (schemes.gvk_string gvk)) r, cs1)

    unfoldable pub index_field : List Gvk → O → String → Exec (Caches C) (Unit {0})
    unfolding on_side cache_for_object
    index_field local_gvks obj field cs = elim (cache_for_object local_gvks obj) [
      | err e ↦ (err e, cs)
      | ok (side, gvk) ↦
          let (r, cs1) = on_side side (api.index_field obj field) cs in
          (wrap_result (concat "index field " field) r, cs1)
    ]

    -- `RemoveInformer`
    unfoldable pub remove_selected : O → Side × Gvk → Exec (Caches C) (Unit {0})
    unfolding on_side
    remove_selected obj (parent, gvk) cs =
        (err (wrap_before shared_informer_removal (schemes.gvk_string gvk)), cs)
    remove_selected obj (local, gvk) cs =
        let (r, cs1) = on_side local (api.remove_informer obj) cs in
        (wrap_result (concat "remove local informer for " (schemes.gvk_string gvk)) r, cs1)

    unfoldable pub remove_resolved : O → Result (Side × Gvk) → Exec (Caches C) (Unit {0})
    unfolding remove_selected
    remove_resolved obj (err e) cs = (err e, cs)
    remove_resolved obj (ok selected) cs = remove_selected obj selected cs

    unfoldable pub remove_informer : List Gvk → O → Exec (Caches C) (Unit {0})
    unfolding remove_resolved cache_for_object
    remove_informer local_gvks obj cs = remove_resolved obj (cache_for_object local_gvks obj) cs
