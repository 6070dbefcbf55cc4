-- ===== src/Resources/Meta.antt =====
-- pkg/resources/meta.go. The object argument may be nil, so each function takes an `Option`. The
-- functions on annotations are those on labels with the other field.
use k8s_controller_lib.Prelude.{
  String, ◌≡◌, refl, Bool, false, Option, none, some, List, [], ◌∷◌, arith, if◌then◌else◌, ◌==◌,
  ◌||◌,
}
use k8s_controller_lib.Runtime.StringMap.{
  StringMap, Entries, entries, lookup, put, delete, copy, value_or_empty, lookup-put, lookup-delete,
}
use k8s_controller_lib.Runtime.Objects.{Object}

-- `slices.Contains`
unfoldable pub contains : List String → String → Bool
contains [] v = false
contains (x ∷ xs) v = x == v || contains xs v

-- The bodies that the two families share, over the map that they read or write.
unfoldable pub has_value : StringMap → String → List String → Bool
unfolding lookup contains
has_value none k values = false
has_value (some target) k values = elim (lookup k target) [
  | none ↦ false
  | some val ↦ contains values val
]

unfoldable pub set_values : StringMap → Entries → StringMap
unfolding copy
set_values target values = some (copy (entries target) values)

unfoldable pub set_value : StringMap → String → String → String × StringMap
unfolding lookup put
set_value target k v = (value_or_empty (lookup k (entries target)), some (put k v (entries target)))

unfoldable pub remove_value : StringMap → String → StringMap
unfolding delete
remove_value none k = none
remove_value (some target) k = some (delete k target)

unfoldable pub get_value : StringMap → String → String
unfolding lookup
get_value none k = ""
get_value (some target) k = value_or_empty (lookup k target)

-- `HasLabel`, `SetLabels`, `SetLabel`, `RemoveLabel` and `GetLabel`
unfoldable pub has_label : Option Object → String → List String → Bool
unfolding has_value
has_label none k values = false
has_label (some obj) k values = has_value obj.labels k values

unfoldable pub set_labels : Option Object → Entries → Option Object
unfolding set_values
set_labels none values = none
set_labels (some obj) values = some (record obj { labels = set_values obj.labels values })

unfoldable pub set_label : Option Object → String → String → String × Option Object
unfolding set_value
set_label none k v = ("", none)
set_label (some obj) k v =
    let (old, target) = set_value obj.labels k v in (old, some (record obj { labels = target }))

unfoldable pub remove_label : Option Object → String → Option Object
unfolding remove_value
remove_label none k = none
remove_label (some obj) k = some (record obj { labels = remove_value obj.labels k })

unfoldable pub get_label : Option Object → String → String
unfolding get_value
get_label none k = ""
get_label (some obj) k = get_value obj.labels k

-- `HasAnnotation`, `SetAnnotations`, `SetAnnotation`, `RemoveAnnotation` and `GetAnnotation`
unfoldable pub has_annotation : Option Object → String → List String → Bool
unfolding has_value
has_annotation none k values = false
has_annotation (some obj) k values = has_value obj.annotations k values

unfoldable pub set_annotations : Option Object → Entries → Option Object
unfolding set_values
set_annotations none values = none
set_annotations (some obj) values =
    some (record obj { annotations = set_values obj.annotations values })

unfoldable pub set_annotation : Option Object → String → String → String × Option Object
unfolding set_value
set_annotation none k v = ("", none)
set_annotation (some obj) k v =
    let (old, target) = set_value obj.annotations k v in
    (old, some (record obj { annotations = target }))

unfoldable pub remove_annotation : Option Object → String → Option Object
unfolding remove_value
remove_annotation none k = none
remove_annotation (some obj) k = some (record obj { annotations = remove_value obj.annotations k })

unfoldable pub get_annotation : Option Object → String → String
unfolding get_value
get_annotation none k = ""
get_annotation (some obj) k = get_value obj.annotations k

-- What is read of a map that `set_value` wrote.
pub get-set_value :
    (target : StringMap) (k v j : String)
    → get_value ((set_value target k v).1) j ≡ (if k == j then v else get_value target j)
unfolding get_value set_value
get-set_value none k v j = ground (arith, lookup-put k v j [])
get-set_value (some m) k v j = ground (arith, lookup-put k v j m)

pub get-remove_value :
    (target : StringMap) (k j : String)
    → get_value (remove_value target k) j ≡ (if k == j then "" else get_value target j)
unfolding get_value remove_value
get-remove_value none k j = ground arith
get-remove_value (some m) k j = ground (arith, lookup-delete k j m)

has-set_value :
    (target : StringMap) (k v j : String) (values : List String)
    → has_value ((set_value target k v).1) j values
      ≡ (if k == j then contains values v else has_value target j values)
unfolding has_value set_value
has-set_value none k v j values = ground (arith, lookup-put k v j [])
has-set_value (some m) k v j values = ground (arith, lookup-put k v j m)

old_value : (target : StringMap) (k v : String) → (set_value target k v).0 ≡ get_value target k
unfolding set_value get_value
old_value none k v = refl
old_value (some m) k v = refl

-- After `SetLabel` of `k` to `v` on an object, `GetLabel` gives `v` at `k` and what it gave before at any
-- other key, `HasLabel` agrees with it, the returned text is what `GetLabel` gave before, and
-- `RemoveLabel` of `k` leaves an empty text there and the other labels as they were.
pub get_label-set_label :
    (obj : Object) (k v j : String) (values : List String)
    → let (old, after) = set_label (some obj) k v in
      (get_label after j ≡ (if k == j then v else get_label (some obj) j))
      × (has_label after j values
          ≡ (if k == j then contains values v else has_label (some obj) j values))
      × (old ≡ get_label (some obj) k)
      × (get_label (remove_label after k) j ≡ (if k == j then "" else get_label (some obj) j))
unfolding get_label set_label has_label remove_label
get_label-set_label obj k v j values = (
  get-set_value obj.labels k v j,
  has-set_value obj.labels k v j values,
  old_value obj.labels k v,
  ground
      (arith, get-remove_value ((set_value obj.labels k v).1) k j, get-set_value obj.labels k v j),
)
