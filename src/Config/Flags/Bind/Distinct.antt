-- ===== src/Config/Flags/Bind/Distinct.antt =====
-- flags.go: when `BindStruct` succeeds.
use k8s_controller_lib.Prelude.{
  ◌≡◌, refl, sym, ap, ◌↔◌, inl, inr, Bool, true, false, Bool-cases, Option, none, some, List, [],
  ◌∷◌, ◌++◌, if◌then◌else◌,
}
use mathlib.Core.Path.{subst}
use mathlib.Core.List.{append-nil}
use k8s_controller_lib.Runtime.Exec.{Result, ok, err}
use k8s_controller_lib.Util.Text.{Text}
use k8s_controller_lib.Config.Fields.{
  Field, FieldValue, Struct, no_fields, value_field, struct_field,
}
use k8s_controller_lib.Config.Flags.{
  FlagBindingMetadata, get_flag_name, get_config_key, get_description, extract,
  extract_flag_metadata, nested_prefix,
}
use k8s_controller_lib.Config.Flags.Registry.{FlagApi, FlagLaws, Attempt}
use k8s_controller_lib.Config.Flags.Bind.{
  BindState, has_seen, bound_pflag, bind_flag, bind_metadata, is_skipped, bind_value,
  bind_struct_with_tracking, bind_struct,
}
use k8s_controller_lib.Config.Flags.Bind.Tracked.{BoundBy, bind_field-BoundBy, Tracks, Tracks-step}
use k8s_controller_lib.Config.Flags.Bind.Declared.{
  flag_of, declared_flags, Fresh, Distinct, Fresh-iff,
}
use k8s_controller_lib.Config.Flags.Bind.Parts.{some_inj, NotIn, Unused, Comes, and_then-Comes}

module _ {F V D : Type 0} (api : FlagApi F V D) (laws : FlagLaws api) (before : F) where
  bind_flag-Comes :
      (field : Field) (meta : FlagBindingMetadata) (s : BindState F V) (bound : Option (Bool × F))
      → has_seen meta.flag_name s.seen_flags ≡ false
      → Tracks api laws before s.flag_set s.seen_flags
      → BoundBy api laws meta.flag_name s.flag_set bound
      → Comes api laws before s.seen_flags
          (some ((meta.flag_name, field.name) ∷ []))
          (bind_flag api meta s.viper (s.seen_flags ++ (meta.flag_name, field.name) ∷ []) bound)
  unfolding bind_flag bound_pflag
  bind_flag-Comes field meta s none new tracks there = inr (
    tt,
    (λ flags one fresh unused.
        let (not_in, rest) = subst (NotIn api laws before) (sym (some_inj one)) unused in
        elim (tracks meta.flag_name there) [
          | inl old ↦ cc (old, not_in)
          | inr was_seen ↦ cc (was_seen, new)
        ]),
  )
  bind_flag-Comes field meta s (some (false, fs1)) new tracks (adds, frame) = inl (
    (meta.flag_name, field.name) ∷ [],
    refl,
    (new, tt),
    refl,
    refl,
    Tracks-step api laws before s.flag_set fs1 s.seen_flags meta.flag_name field.name tracks frame,
  )
  bind_flag-Comes field meta s (some (true, fs1)) new tracks (adds, frame) =
      let (v1, fine) = laws.bind_pflag_ok meta.config_key meta.flag_name s.viper in
      rw (adds refl, fine)
        (inl (
          (meta.flag_name, field.name) ∷ [],
          refl,
          (new, tt),
          refl,
          refl,
          Tracks-step api laws before s.flag_set fs1 s.seen_flags meta.flag_name field.name tracks
              frame,
        ))

  no_flag-Comes :
      (s : BindState F V)
      → Tracks api laws before s.flag_set s.seen_flags
      → Comes api laws before s.seen_flags (some []) (some (ok tt, s))
  no_flag-Comes s tracks = inl ([], refl, tt, refl, sym (append-nil s.seen_flags), tracks)

  bind_metadata-Comes :
      (field : Field) (v : FieldValue D) (prefix : Text) (name : Result (Option Text))
      (s : BindState F V)
      → Tracks api laws before s.flag_set s.seen_flags
      → Comes api laws before s.seen_flags
          (flag_of field name)
          (bind_metadata api field v (extract field prefix name) s)
  unfolding bind_metadata extract
  bind_metadata-Comes field v prefix (err e) s tracks =
      inr ((λ h. cc h), (λ flags none_ fresh unused. cc none_))
  bind_metadata-Comes field v prefix (ok none) s tracks = no_flag-Comes s tracks
  bind_metadata-Comes field v prefix (ok (some name)) s tracks =
      elim (Bool-cases (has_seen name s.seen_flags)) [
        | inl stale ↦ rw stale (
            inr (
              (λ h. cc h),
              (λ flags one fresh unused.
                  let first : Fresh s.seen_flags ((name, field.name) ∷ []) =
                    subst (Fresh s.seen_flags) (sym (some_inj one)) fresh in
                  cc (first.0, stale)),
            ))
        | inr new ↦
            let meta : FlagBindingMetadata = record {
              flag_name = name;
              config_key = get_config_key field prefix;
              description = get_description field;
            } in
            rw new (
              bind_flag-Comes field meta s _ new tracks
                (bind_field-BoundBy api laws field v meta s.flag_set))
      ]

  -- A part that is skipped declares no flag.
  skipped-Comes :
      (skipped : Bool) (declared : Option (List (Text × Text))) (s : BindState F V)
      (result : Attempt (BindState F V))
      → Tracks api laws before s.flag_set s.seen_flags
      → Comes api laws before s.seen_flags declared result
      → Comes api laws before s.seen_flags
          (if skipped then some [] else declared)
          (if skipped then some (ok tt, s) else result)
  skipped-Comes true declared s result tracks comes = no_flag-Comes s tracks
  skipped-Comes false declared s result tracks comes = comes

  bind_struct_with_tracking-Comes :
      (fields : Struct D) (prefix separator : Text) (s : BindState F V)
      → Tracks api laws before s.flag_set s.seen_flags
      → Comes api laws before s.seen_flags
          (declared_flags fields prefix separator)
          (bind_struct_with_tracking api fields prefix separator s)
  unfolding bind_struct_with_tracking bind_value extract_flag_metadata
  bind_struct_with_tracking-Comes no_fields prefix separator s tracks = no_flag-Comes s tracks
  bind_struct_with_tracking-Comes (value_field field v rest) prefix separator s tracks =
      and_then-Comes api laws before s.seen_flags _ (declared_flags rest prefix separator) _
        (bind_struct_with_tracking api rest prefix separator)
        (skipped-Comes (is_skipped field) _ s _ tracks
          (bind_metadata-Comes field v prefix (get_flag_name field prefix separator) s tracks))
        (bind_struct_with_tracking-Comes rest prefix separator)
  bind_struct_with_tracking-Comes (struct_field field v inner rest) prefix separator s tracks =
      and_then-Comes api laws before s.seen_flags _ (declared_flags rest prefix separator) _
        (bind_struct_with_tracking api rest prefix separator)
        (skipped-Comes (is_skipped field) _ s _ tracks (
          bind_struct_with_tracking-Comes inner (nested_prefix field prefix separator) separator s
            tracks))
        (bind_struct_with_tracking-Comes rest prefix separator)

  Comes-iff :
      (declared : Option (List (Text × Text))) (result : Attempt (BindState F V))
      → Comes api laws before [] declared result
      → Unused api laws before declared
      → ((s1 : BindState F V) × (result ≡ some (ok tt, s1)))
        ↔ ((flags : List (Text × Text)) × (declared ≡ some flags) × Distinct flags)
  Comes-iff declared none comes unused = elim comes [
    | inl wrong ↦ absurd wrong
    | inr (fails, stale) ↦ (
      (λ (s1, e). cc e),
      (λ (flags, is_flags, distinct). absurd (
          stale flags is_flags ((Fresh-iff flags).1 distinct)
            (subst (Unused api laws before) is_flags unused))),
    )
  ]
  Comes-iff declared (some (r, s1)) comes unused = elim comes [
    | inl (flags, is_flags, fresh, succeeds, more, tracks) ↦ (
      (λ e. (flags, is_flags, (Fresh-iff flags).0 fresh)),
      (λ e. (s1, ap (λ r1. some (r1, s1)) succeeds)),
    )
    | inr (fails, stale) ↦ (
      (λ (s2, e). absurd (fails (ap (λ p. p.0) (some_inj e)))),
      (λ (flags, is_flags, distinct). absurd (
          stale flags is_flags ((Fresh-iff flags).1 distinct)
            (subst (Unused api laws before) is_flags unused))),
    )
  ]

-- For a flag set that has none of the flags that the fields declare, `BindStruct` succeeds, and pflag does
-- not panic, exactly when the flag tags of the fields that it does not skip are valid and no two of these
-- fields, nested ones included, have the same flag name. (The laws: pflag panics only for a name that is
-- in the set, a flag that was added is found beside those that were there, and `BindPFlag` does not fail.)
pub bind_struct_iff :
    {F V D : Type 0} (api : FlagApi F V D) (laws : FlagLaws api) (fs : F) (fields : Struct D)
    (prefix separator : Text) (v : V)
    → Unused api laws fs (declared_flags fields prefix separator)
    → ((s1 : BindState F V) × (bind_struct api fields prefix separator fs v ≡ some (ok tt, s1))) ↔ (
        (flags : List (Text × Text)) × (declared_flags fields prefix separator ≡ some flags)
        × Distinct flags)
unfolding bind_struct
bind_struct_iff api laws fs fields prefix separator v unused =
    Comes-iff api laws fs (declared_flags fields prefix separator) _
      (bind_struct_with_tracking-Comes api laws fs fields prefix separator
        (record { flag_set = fs; viper = v; seen_flags = [] }) (λ n found. inl found))
      unused
