-- ===== src/Builder/Controller/Primary.antt =====
-- builder.go: the options of `For` that the builder does not read.
use k8s_controller_lib.Prelude.{◌≡◌, refl, ap, Bool, List, [], ◌∷◌, ◌++◌, String, if◌then◌else◌}
use k8s_controller_lib.Util.{Setting, apply_options}
use k8s_controller_lib.Runtime.Errors.{plain}
use k8s_controller_lib.Runtime.Objects.{Object}
use k8s_controller_lib.Runtime.Api.{ClusterApi}
use k8s_controller_lib.Builder.Events.Convert.{AnyObject}
use k8s_controller_lib.Builder.Events.Mapper.{ObjectType}
use k8s_controller_lib.Builder.Options.{WatchOptions, no_watch_options, typed_predicate}
use k8s_controller_lib.Builder.Controller.Names.{GoType}
use k8s_controller_lib.Builder.Controller.{declare_for, for_}
use k8s_controller_lib.Builder.Controller.State.{Builder, DeclareApi, add_error}

apply_options-append {ℓ} :
    {T : Type ℓ} (opts : List (Setting T)) (opt : Setting T) (target : T)
    → apply_options (opts ++ opt ∷ []) target ≡ opt.apply_to (apply_options opts target)
unfolding apply_options
apply_options-append [] opt target = refl
apply_options-append (o ∷ opts) opt target = apply_options-append opts opt (o.apply_to target)

module _ {W U S K L R : Type 0} (api : ClusterApi W U) (outside : DeclareApi U S) where
  -- A `TypedPredicate` among the options of `For`, given after the others, has no effect: the builder is
  -- the same with and without it, so the filter is called on no event. (`Owns` and `Watches` resolve
  -- their typed predicates.)
  pub for_-typed_predicate :
      (object_type : Object → String) (type : ObjectType) (filter : AnyObject U → S → Bool × S)
      (obj : AnyObject U) (go_type : GoType) (opts : List (Setting (WatchOptions U S)))
      (b : Builder U S K L R)
      → for_ outside obj go_type (opts ++ typed_predicate api object_type type filter ∷ []) b
        ≡ for_ outside obj go_type opts b
  unfolding for_ declare_for typed_predicate
  for_-typed_predicate object_type type filter obj go_type opts b =
      ap
        (λ o.
          if b.for_set
          then add_error (plain "For() can only be called once") b
          else declare_for outside obj go_type o b)
        (apply_options-append opts (typed_predicate api object_type type filter) no_watch_options)
