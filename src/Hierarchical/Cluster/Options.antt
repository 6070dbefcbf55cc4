-- ===== src/Hierarchical/Cluster/Options.antt =====
-- pkg/hierarchical/cluster_opts.go.
use k8s_controller_lib.Prelude.{
  Bool, true, false, ◌||◌, Option, none, some, List, [], ◌∷◌, ◌++◌, if◌then◌else◌,
}
use k8s_controller_lib.Runtime.Errors.{GoError, plain}
use k8s_controller_lib.Util.{Setting}
use k8s_controller_lib.Util.Text.{Text, trim_space, is_empty}
use k8s_controller_lib.Watch.Config.{or_keep}

-- `ClusterOptions`, over the types of schemes, loggers, objects and their cache settings. A logger with no
-- sink and a nil map are `none`.
pub record ClusterOptions (S G O B : Type 0) : Type 0 where
  pub name : Text
  pub scheme : Option S
  pub logger : Option G
  pub by_object : Option (List (Option O × B))
  pub namespaces : List Text

-- The entries of a map that may be nil
abbrev pub entries_of : {A : Type 0} → Option (List A) → List A
entries_of none = []
entries_of (some xs) = xs

-- `slices.Contains(…, "")`
unfoldable pub any_empty : List Text → Bool
any_empty [] = false
any_empty (n ∷ ns) = is_empty n || any_empty ns

abbrev pub is_nil : {A : Type 0} → Option A → Bool
is_nil none = true
is_nil (some a) = false

module _ {O B : Type 0} where
  -- `m[obj] = byObject`; `same` compares two objects, which are pointers.
  unfoldable pub put_object :
      (Option O → Option O → Bool) → Option O → B → List (Option O × B) → List (Option O × B)
  put_object same obj b [] = (obj, b) ∷ []
  put_object same obj b ((o, c) ∷ rest) =
      let others = put_object same obj b rest in
      if same o obj then (obj, b) ∷ rest else (o, c) ∷ others

  unfoldable pub put_objects :
      (Option O → Option O → Bool)
      → List (Option O × B)
      → Option (List (Option O × B))
      → Option (List (Option O × B))
  unfolding put_object
  put_objects same [] target = target
  put_objects same ((obj, b) ∷ rest) target =
      put_objects same rest (some (put_object same obj b (entries_of target)))

module _ {S G O B : Type 0} where
  -- `Validate`
  unfoldable pub validate : Option (ClusterOptions S G O B) → Option GoError
  unfolding any_empty
  validate none = some (plain "child cluster options are required")
  validate (some o) =
      if is_empty (trim_space o.name)
      then some (plain "child cluster name is required")
      else if is_nil o.scheme
      then some (plain "child cluster scheme is required")
      else if any_empty o.namespaces
      then some (plain "child cache namespace must not be empty")
      else none

  -- `ApplyTo`
  unfoldable pub apply_to :
      (Option O → Option O → Bool)
      → ClusterOptions S G O B
      → ClusterOptions S G O B
      → ClusterOptions S G O B
  unfolding put_objects
  apply_to same o target = record {
    name = if is_empty o.name then target.name else o.name;
    scheme = or_keep o.scheme target.scheme;
    logger = or_keep o.logger target.logger;
    by_object = put_objects same (entries_of o.by_object) target.by_object;
    namespaces = target.namespaces ++ o.namespaces;
  }

  abbrev pub with_name : Text → Setting (ClusterOptions S G O B)
  with_name name = record { apply_to = λ opts. record opts { name = name } }

  abbrev pub with_scheme : Option S → Setting (ClusterOptions S G O B)
  with_scheme scheme = record { apply_to = λ opts. record opts { scheme = scheme } }

  abbrev pub with_logger : Option G → Setting (ClusterOptions S G O B)
  with_logger logger = record { apply_to = λ opts. record opts { logger = logger } }

  abbrev pub with_by_object :
      (Option O → Option O → Bool) → Option O → B → Setting (ClusterOptions S G O B)
  with_by_object same obj b = record {
    apply_to = λ opts. record opts {
      by_object = some (put_object same obj b (entries_of opts.by_object));
    };
  }

  abbrev pub with_namespaces : List Text → Setting (ClusterOptions S G O B)
  with_namespaces namespaces = record {
    apply_to = λ opts. record opts { namespaces = opts.namespaces ++ namespaces };
  }
