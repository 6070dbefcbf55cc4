-- ===== src/Resources/Tests.antt =====
-- Labels, server-side apply and the caching applier on concrete values.
use k8s_controller_lib.Prelude.{
  String, ◌≡◌, refl, ◌⊎◌, inl, inr, Bool-cases, true, false, none, some, List, [], ◌∷◌,
  if◌then◌else◌, ◌==◌,
}
use k8s_controller_lib.Runtime.Exec.{ok}
use k8s_controller_lib.Runtime.Objects.{Object}
use k8s_controller_lib.Runtime.Sample.{Content, config_map, recorder, recorder_fields}
use k8s_controller_lib.Resources.Meta.{
  contains, has_label, set_label, remove_label, get_label, get_label-set_label,
}
use k8s_controller_lib.Resources.Util.{to_unstructured}
use k8s_controller_lib.Resources.Applier.{ApplierApi, ApplierState, caching_apply}
use k8s_controller_lib.Resources.Applier.Skips.{
  Applied, record_applied, Remembers, CacheLaws, Ends, caching_apply-Ends,
}
use k8s_controller_lib.Resources.Apply.{status, apply, apply_status}
use k8s_controller_lib.Resources.Apply.Sends.{
  NotSent, IsStripped, Sent, StatusSent, apply-Sent, apply_status-StatusSent,
}

abbrev obj : Object
obj = config_map "ns" "a"

get_label-set_label_example :
    (get_label ((set_label (some obj) "app" "web").1) "tier"
      ≡ (if "app" == "tier" then "web" else get_label (some obj) "tier"))
    × (has_label ((set_label (some obj) "app" "web").1) "tier" ("db" ∷ []) ≡ (
        if "app" == "tier"
        then contains ("db" ∷ []) "web"
        else has_label (some obj) "tier" ("db" ∷ [])))
    × ((set_label (some obj) "app" "web").0 ≡ get_label (some obj) "app")
    × (get_label (remove_label ((set_label (some obj) "app" "web").1) "app") "tier"
        ≡ (if "app" == "tier" then "" else get_label (some obj) "tier"))
get_label-set_label_example = get_label-set_label obj "app" "web" "tier" ("db" ∷ [])

apply-Sent_example :
    NotSent recorder [] (apply recorder "me" (obj, []))
    ⊎ ((sent : Content) × (IsStripped recorder sent
          × (recorder.has_nested_field sent status ≡ false))
        × Sent recorder (recorder.apply "me" (sent, [])) (apply recorder "me" (obj, [])))
apply-Sent_example = apply-Sent recorder recorder_fields "me" obj []

apply_status-StatusSent_example :
    NotSent recorder [] (apply_status recorder "me" (obj, []))
    ⊎ ((u sent : Content) × ((to_unstructured recorder obj).0 ≡ ok u)
        × IsStripped recorder sent
        × (recorder.has_nested_field sent status ≡ recorder.has_nested_field u status)
        × StatusSent recorder recorder_fields
            (recorder.apply_status "me" (sent, []))
            (apply_status recorder "me" (obj, [])))
apply_status-StatusSent_example = apply_status-StatusSent recorder recorder_fields "me" obj []

-- A cache that forgets nothing, and an inner applier that sets a new resource version.
abbrev applier : ApplierApi (List String) Content Applied
applier = record {
  get_existing = λ o w. (ok (record { object = o; fields = λ p. true }), "get" ∷ w);
  is_terminating = λ u. false;
  uid = λ u. u.object.uid;
  resource_version = λ u. u.object.resource_version;
  inner_apply = λ (o, w). (ok tt, (record o { resource_version = "2" }, "apply" ∷ w));
  cache_get = λ uid cache. (cache uid, cache);
  cache_add = record_applied;
}

applier_laws : CacheLaws recorder applier
applier_laws = record {
  remembers-add = λ cache log uid rv known other. elim (Bool-cases (uid == other)) [
    | inl e ↦ rw e (inr refl)
    | inr e ↦ rw e (known other)
  ];
  remembers-get = λ cache log uid known. known;
}

abbrev start : ApplierState (List String) Applied
start = record { object = obj; world = []; cache = λ uid. none }

abbrev nothing_applied : Applied
nothing_applied uid = none

nothing_known : Remembers recorder applier start.cache nothing_applied
nothing_known uid = inl refl

caching_apply-Ends_example :
    Ends recorder applier applier_laws nothing_applied
      (applier.get_existing obj []).0
      (record start { world = "get" ∷ [] })
      (caching_apply recorder applier start)
caching_apply-Ends_example =
    caching_apply-Ends recorder applier applier_laws nothing_applied start nothing_known
