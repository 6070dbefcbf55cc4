-- ===== src/Hierarchical/Cluster/Tests.antt =====
-- A child cluster on concrete kinds: a scheme is the list of its types.
use k8s_controller_lib.Prelude.{
  ℕ, suc, String, Bool, true, false, Option, none, some, List, [], ◌∷◌, if◌then◌else◌, ◌==◌,
}
use k8s_controller_lib.Runtime.Exec.{ok}
use k8s_controller_lib.Runtime.Objects.{Gvk, gvk_eq}
use k8s_controller_lib.Util.{Setting}
use k8s_controller_lib.Util.Text.{Text, runes}
use k8s_controller_lib.Hierarchical.Cluster.{ParentManager, ChildApi, new_cluster}
use k8s_controller_lib.Hierarchical.Cluster.Options.{
  ClusterOptions, with_name, with_scheme, with_by_object,
}
use k8s_controller_lib.Hierarchical.Cluster.Made.{Made}

abbrev Types : Type 0
Types = List (Gvk × String)

abbrev kind : String → Gvk
kind name = record { group = ""; version = "v1"; kind = name }

-- The world counts the calls of `cluster.New`.
abbrev child_api : ChildApi ℕ Types Text Gvk ℕ ℕ (List Gvk)
child_api = record {
  schemes_of = λ child parent. record {
    trim_list = λ k. if k == "PodList" then "Pod" else k;
    gvk_string = λ g. g.kind;
    child_gvk = λ obj. ok obj;
    parent_gvk = λ obj. ok obj;
  };
  known_types = λ scheme. scheme;
  named = λ logger name. logger;
  new_cluster = λ options w. (ok options.local_gvks, suc w);
}

abbrev parent : ParentManager Types Text ℕ
parent = record { scheme = some ((kind "Node", "core.Node") ∷ []); logger = none; config = some 7 }

abbrev same_object : Option Gvk → Option Gvk → Bool
same_object none none = true
same_object none (some b) = false
same_object (some a) none = false
same_object (some a) (some b) = gvk_eq a b

abbrev opts : List (Setting (ClusterOptions Types Text Gvk ℕ))
opts =
    with_name (runes "child")
    ∷ with_scheme (some ((kind "PodList", "core.PodList") ∷ (kind "Node", "core.Node") ∷ []))
    ∷ with_by_object same_object (some (kind "Secret")) 0
    ∷ []
