-- ===== src/Hierarchical/Cache/Tests.antt =====
-- The routing on concrete kinds: an object is its kind, and a cache the number of calls that it got.
use k8s_controller_lib.Prelude.{
  ℕ, suc, String, ◌≡◌, refl, ◌↔◌, ◌⊎◌, true, Option, some, List, [], ◌∷◌, All, Any, if◌then◌else◌,
  ◌==◌,
}
use k8s_controller_lib.Runtime.Exec.{ok}
use k8s_controller_lib.Runtime.Objects.{Gvk, gvk_eq}
use k8s_controller_lib.Hierarchical.Cache.{
  Schemes, CacheApi, Caches, KnownTypes, local, normalize_gvk, cache_for_gvk, cache_for_object,
  find_type, compare_type, add_result, local_types, by_object_gvk, by_object_gvks,
  derive_local_gvks, remove_informer,
}
use k8s_controller_lib.Hierarchical.Cache.Routing.{
  OnlyChild, IsByObject, Agrees, Keeps, derive_local_gvks_lem, remove_informer-Keeps,
}

abbrev kind : String → Gvk
kind name = record { group = ""; version = "v1"; kind = name }

abbrev schemes : Schemes Gvk
schemes = record {
  trim_list = λ k. if k == "PodList" then "Pod" else k;
  gvk_string = λ g. g.kind;
  child_gvk = λ obj. ok obj;
  parent_gvk = λ obj. ok obj;
}

abbrev child : KnownTypes schemes
child = (kind "PodList", "core.PodList") ∷ (kind "Node", "core.Node") ∷ []

abbrev parents : KnownTypes schemes
parents = (kind "Node", "core.Node") ∷ []

abbrev objs : List (Option Gvk)
objs = some (kind "Secret") ∷ []

abbrev set : List Gvk
set = kind "Pod" ∷ kind "Secret" ∷ []

derived : derive_local_gvks schemes child parents objs ≡ ok set
unfolding derive_local_gvks local_types by_object_gvks add_result compare_type find_type gvk_eq
    by_object_gvk normalize_gvk
derived = refl

derive_local_gvks_lem_example :
    ((cache_for_gvk schemes set (kind "PodList") ≡ local) ↔ (
      Any (OnlyChild schemes parents (kind "PodList")) child
      ⊎ Any (IsByObject schemes (kind "PodList")) objs))
    × All (Agrees schemes parents) child
derive_local_gvks_lem_example =
    derive_local_gvks_lem schemes child parents objs set (kind "PodList") derived

abbrev counts : CacheApi Gvk ℕ ℕ
counts = record {
  get = λ key (obj, c). (ok tt, (obj, suc c));
  list = λ (obj, c). (ok tt, (obj, suc c));
  get_informer = λ obj c. (ok c, suc c);
  get_informer_for_kind = λ gvk c. (ok c, suc c);
  remove_informer = λ obj c. (ok tt, suc c);
  index_field = λ obj field c. (ok tt, suc c);
  start = λ c. (ok tt, suc c);
  wait_for_cache_sync = λ c. true;
}

abbrev caches : Caches ℕ
caches = record { local_cache = 0; parent_cache = 0 }

remove_informer-Keeps_example :
    Keeps schemes counts
      (cache_for_object schemes set (kind "Node"))
      caches
      (remove_informer schemes counts set (kind "Node") caches)
remove_informer-Keeps_example = remove_informer-Keeps schemes counts set (kind "Node") caches
