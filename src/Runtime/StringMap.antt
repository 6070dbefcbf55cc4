-- ===== src/Runtime/StringMap.antt =====
-- Go's `map[string]string`, which may be nil, as labels and annotations use it.
use k8s_controller_lib.Prelude.{
  String, ◌≡◌, refl, Option, none, some, List, [], ◌∷◌, arith, if◌then◌else◌, ◌==◌, eq_iff,
}

abbrev pub Entries : Type 0
Entries = List (String × String)

unfoldable pub lookup : String → Entries → Option String
lookup k [] = none
lookup k ((j, v) ∷ m) = if j == k then some v else lookup k m

unfoldable pub delete : String → Entries → Entries
delete k [] = []
delete k ((j, v) ∷ m) = let rest = delete k m in if j == k then rest else (j, v) ∷ rest

unfoldable pub put : String → String → Entries → Entries
unfolding delete
put k v m = (k, v) ∷ delete k m

-- `maps.Copy(dst, src)`: the entries of `src` are put one by one.
unfoldable pub copy : Entries → Entries → Entries
copy dst [] = dst
copy dst ((k, v) ∷ src) = put k v (copy dst src)

-- The nil map reads as an empty one.
abbrev pub StringMap : Type 0
StringMap = Option Entries

abbrev pub entries : StringMap → Entries
entries none = []
entries (some m) = m

-- `m[k]`, the empty string if there is no such key.
abbrev pub value_or_empty : Option String → String
value_or_empty none = ""
value_or_empty (some v) = v

pub lookup-delete :
    (k j : String) (m : Entries) → lookup j (delete k m) ≡ (if k == j then none else lookup j m)
unfolding lookup delete
lookup-delete k j [] = ground arith
lookup-delete k j ((i, v) ∷ m) =
    ground (arith, eq_iff i k, eq_iff i j, eq_iff k j, lookup-delete k j m)

pub lookup-put :
    (k v j : String) (m : Entries) → lookup j (put k v m) ≡ (if k == j then some v else lookup j m)
unfolding lookup put
lookup-put k v j m = ground (arith, lookup-delete k j m)

-- A key of `src` overrides; any other reads as in `dst`.
abbrev pub over : Option String → Option String → Option String
over none old = old
over (some v) old = some v

pub lookup-copy :
    (j : String) (dst src : Entries) → lookup j (copy dst src) ≡ over (lookup j src) (lookup j dst)
unfolding lookup copy
lookup-copy j dst [] = refl
lookup-copy j dst ((k, v) ∷ src) =
    ground (arith, lookup-put k v j (copy dst src), lookup-copy j dst src)

pub ruleset map_laws = (lookup-put, lookup-delete, lookup-copy)
