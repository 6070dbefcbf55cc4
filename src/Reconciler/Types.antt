-- ===== src/Reconciler/Types.antt =====
-- pkg/reconciler/types.go, types_opts.go and context.go
use k8s_controller_lib.Prelude.{
  String, ◌≡◌, refl, ◌∙◌, Bool, Option, none, some, List, [], ◌∷◌, ◌++◌, map,
}
use mathlib.Core.List.{append-nil, append_assoc, map-append}
use k8s_controller_lib.Prelude.Int.{ℤ, pos}
use k8s_controller_lib.Util.{Setting, apply_options}
use k8s_controller_lib.Runtime.Objects.{Object}

-- `context.Context`, as far as the library reads it: the controller's name, if it was attached.
pub record Context : Type 0 where
  pub controller_name : Option String

-- `WithControllerName`
unfoldable pub with_controller_name : Context → String → Context
with_controller_name ctx name = record ctx { controller_name = some name }

-- `ControllerNameFromContext`; the context may be nil.
unfoldable pub controller_name_from_context : Option Context → Option String
controller_name_from_context none = none
controller_name_from_context (some ctx) = ctx.controller_name

-- `ObjectOptions`; the pointer is nil for the pipeline's default.
pub record ObjectOptions : Type 0 where
  pub ownership : Option Bool

-- `WithOwnership` of types_opts.go
abbrev pub with_ownership : Bool → Setting ObjectOptions
with_ownership enabled = record { apply_to = λ opts. record opts { ownership = some enabled } }

-- `objectEntry` and `ObjectEntry`
pub record ObjectEntry : Type 0 where
  pub object : Object
  pub options : ObjectOptions

-- `Response`; a `time.Duration` is an `int64` of nanoseconds.
pub record Response : Type 0 where
  pub entries : List ObjectEntry
  pub requeue_after : ℤ

abbrev pub new_response : Response
new_response = record { entries = []; requeue_after = pos 0 }

abbrev pub default_entry : Object → ObjectEntry
default_entry obj = record { object = obj; options = record { ownership = none } }

-- `Objects`: the loop appends one entry for each object.
unfoldable pub objects : Response → List Object → Response
objects r [] = r
objects r (obj ∷ objs) = objects (record r { entries = r.entries ++ default_entry obj ∷ [] }) objs

-- `Object`
unfoldable pub object : Response → Object → List (Setting ObjectOptions) → Response
unfolding apply_options
object r obj opts = record r {
  entries =
      r.entries
      ++ record { object = obj; options = apply_options opts (record { ownership = none }) } ∷ [];
}

-- `Requeue`
unfoldable pub requeue : Response → ℤ → Response
requeue r duration = record r { requeue_after = duration }

-- `GetObjects`, `GetEntries` and `ShouldRequeue`
unfoldable pub get_objects : Response → List Object
get_objects r = map (λ e. e.object) r.entries

unfoldable pub get_entries : Response → List ObjectEntry
get_entries r = r.entries

unfoldable pub should_requeue : Response → ℤ
should_requeue r = r.requeue_after

-- What `Objects` adds are the objects in their order, behind those that were there, and every one with
-- the default options; the requeue time stays.
pub objects_lem :
    (r : Response) (objs : List Object)
    → (get_objects (objects r objs) ≡ get_objects r ++ objs)
      × (get_entries (objects r objs) ≡ get_entries r ++ map default_entry objs)
      × (should_requeue (objects r objs) ≡ should_requeue r)
unfolding objects get_objects get_entries should_requeue
objects_lem r [] = (rw append-nil refl, rw append-nil refl, refl)
objects_lem r (obj ∷ objs) =
    let (o, e, q) = objects_lem (record r { entries = r.entries ++ default_entry obj ∷ [] }) objs in
    (
      o ∙ rw map-append (rw append_assoc refl),
      e ∙ append_assoc r.entries (default_entry obj ∷ []) (map default_entry objs),
      q,
    )
