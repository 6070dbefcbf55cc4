-- ===== src/Runtime/Objects.antt =====
-- Kubernetes objects, with the metadata that the library reads and writes.
use k8s_controller_lib.Prelude.{
  ℕ, String, Bool, true, false, Option, none, some, List, eqb, not, ◌&&◌, ◌==◌, ◌≡◌, ◌↔◌, eq_iff,
  eq_refl, arith,
}
use k8s_controller_lib.Prelude.Int.{ℤ}
use k8s_controller_lib.Runtime.StringMap.{StringMap}
use k8s_controller_lib.Conditions.Accessors.{Status}

-- `schema.GroupVersionKind`
pub record Gvk : Type 0 where
  pub group : String
  pub version : String
  pub kind : String

-- `==` of two such structs.
unfoldable pub gvk_eq : Gvk → Gvk → Bool
gvk_eq a b = a.group == b.group && (a.version == b.version && a.kind == b.kind)

-- `metav1.OwnerReference`; `controller` is a pointer to a Boolean.
pub record OwnerReference : Type 0 where
  pub api_version : String
  pub kind : String
  pub name : String
  pub controller : Option Bool

-- `client.Object`: the type's own fields, spec and data, are the text `content`. The deletion time is a
-- pointer to a time, 0 the zero time.
pub record Object : Type 0 where
  pub gvk : Gvk
  pub name : String
  pub namespace : String
  pub uid : String
  pub resource_version : String
  pub generation : ℤ
  pub deletion_timestamp : Option ℕ
  pub labels : StringMap
  pub annotations : StringMap
  pub owner_references : List OwnerReference
  pub finalizers : List String
  pub content : String

-- `!obj.GetDeletionTimestamp().IsZero()`
abbrev pub is_deleted : Option ℕ → Bool
is_deleted none = false
is_deleted (some t) = not (eqb t 0)

-- `ManagedObject`: an object with a status, which `GetStatus` may give as nil.
pub record ManagedObject : Type 0 where
  pub object : Object
  pub status : Option Status

-- `types.NamespacedName`, the key of a reconcile request.
pub record NamespacedName : Type 0 where
  pub namespace : String
  pub name : String

pub gvk_eq_iff : (a b : Gvk) → (gvk_eq a b ≡ true) ↔ (a ≡ b)
unfolding gvk_eq
gvk_eq_iff a b = (
  λ h. ground (arith, eq_iff a.group b.group, eq_iff a.version b.version, eq_iff a.kind b.kind),
  λ e. rw e (simp eq_refl),
)
