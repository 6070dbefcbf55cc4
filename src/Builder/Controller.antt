-- ===== src/Builder/Controller.antt =====
-- pkg/builder/builder.go: the declarations `For`, `Owns` and `Watches`. Complete is its method `Complete`.
pub mod Names
pub mod State
pub mod Validate
pub mod Complete
pub mod Calls
pub mod Accepts
pub mod Primary
use k8s_controller_lib.Prelude.{
  String, concat, Bool, true, false, not, ◌&&◌, ◌||◌, Option, none, some, List, [], ◌∷◌, ◌++◌, map,
  if◌then◌else◌, ◌==◌,
}
use k8s_controller_lib.Util.{Setting, apply_options}
use k8s_controller_lib.Runtime.Errors.{GoError, plain}
use k8s_controller_lib.Runtime.Exec.{Result, ok, err}
use k8s_controller_lib.Runtime.Objects.{Gvk, Object}
use k8s_controller_lib.Builder.Events.Convert.{
  AnyObject, unstructured, partial_metadata, typed, NewObject,
}
use k8s_controller_lib.Builder.Events.Wrap.{Predicate, EventHandler}
use k8s_controller_lib.Builder.Events.Mapper.{
  MapperFactory, MapperExpectation, expects_unstructured, expects_partial, expects_client_object,
  expects_typed, PredicateFactory,
}
use k8s_controller_lib.Builder.Options.{
  ControllerOptions, no_controller_options, WatchOptions, no_watch_options, has_mapper, is_partial,
  is_set,
}
use k8s_controller_lib.Builder.Controller.Validate.{validate_gvk, validate_mapper_expectation}
use k8s_controller_lib.Builder.Controller.Names.{GoType, derive_controller_name}
use k8s_controller_lib.Builder.Controller.State.{
  Builder, DeclareApi, Manager, WatchRegistration, add_error, add_watch, handler_or_default,
  new_controller_builder, or_default, register_watch, register_watch_gvk, resolve_predicates,
  watch_object_of,
}

module _ {U S K L R : Type 0} where
  module _ (outside : DeclareApi U S) where
    -- `For`, after the test and the setting of `forSet`; `go_type` is the object's Go type.
    unfoldable pub declare_for :
        AnyObject U → GoType → WatchOptions U S → Builder U S K L R → Builder U S K L R
    unfolding register_watch derive_controller_name
    declare_for obj go_type o b =
        let b1 : Builder U S K L R = record b {
          for_set = true;
          name = if b.name == "" then derive_controller_name go_type else b.name;
        } in
        if is_set o.handler
        then add_error (plain "For() does not support WithHandler") b1
        else if has_mapper o
        then add_error (plain "For() does not support WithMapper") b1
        else register_watch obj (some outside.enqueue_for_object) o.predicates (is_partial o) b1

    -- `For`
    unfoldable pub for_ :
        AnyObject U
        → GoType
        → List (Setting (WatchOptions U S))
        → Builder U S K L R
        → Builder U S K L R
    unfolding declare_for apply_options
    for_ obj go_type opts b =
        if b.for_set
        then add_error (plain "For() can only be called once") b
        else declare_for obj go_type (apply_options opts no_watch_options) b

    -- The end of `Owns`: the handler is the given one, or the default one if it can be made.
    unfoldable pub own_with :
        AnyObject U
        → Option (EventHandler U S)
        → List (Predicate U S)
        → Builder U S K L R
        → Builder U S K L R
    unfolding register_watch_gvk
    own_with obj none predicates b = add_error (plain "failed to create owner type instance") b
    own_with obj (some h) predicates b = register_watch_gvk obj (some h) predicates b

    -- `Owns`, from its validation on
    unfoldable pub declare_owned :
        Gvk → WatchOptions U S → Option GoError → Builder U S K L R → Builder U S K L R
    unfolding own_with watch_object_of resolve_predicates
    declare_owned gvk o (some e) b = add_error e b
    declare_owned gvk o none b =
        own_with (watch_object_of outside gvk (is_partial o)) (handler_or_default outside o.handler)
          (resolve_predicates b o) b

    unfoldable pub owns :
        Gvk → List (Setting (WatchOptions U S)) → Builder U S K L R → Builder U S K L R
    unfolding declare_owned apply_options validate_gvk
    owns gvk opts b =
        let o = apply_options opts no_watch_options in
        if has_mapper o
        then add_error (plain "Owns() does not support WithMapper; use Watches() instead") b
        else declare_owned gvk o (validate_gvk gvk "Owns") b

    -- `Watches` with a mapper, from the validation of its expectation on: the mapper's handler gets the
    -- predicates, and the watch has none.
    unfoldable pub watch_mapped :
        Gvk
        → WatchOptions U S
        → MapperFactory U S
        → Option GoError
        → Builder U S K L R
        → Builder U S K L R
    unfolding register_watch_gvk watch_object_of resolve_predicates
    watch_mapped gvk o factory (some e) b = add_error e b
    watch_mapped gvk o factory none b =
        register_watch_gvk (watch_object_of outside gvk (is_partial o))
          (some (factory.create b.scheme_new false b.name (resolve_predicates b o))) [] b

    -- `Watches`, from the validation of the kind on
    unfoldable pub declare_watch :
        Gvk
        → WatchOptions U S
        → Option (MapperFactory U S)
        → Option GoError
        → Builder U S K L R
        → Builder U S K L R
    unfolding watch_mapped register_watch_gvk watch_object_of resolve_predicates
        validate_mapper_expectation
    declare_watch gvk o mapper (some e) b = add_error e b
    declare_watch gvk o (some factory) none b =
        watch_mapped gvk o factory (validate_mapper_expectation factory.expectation (is_partial o))
          b
    declare_watch gvk o none none b =
        register_watch_gvk (watch_object_of outside gvk (is_partial o)) o.handler
          (resolve_predicates b o) b

    unfoldable pub watches :
        Gvk → List (Setting (WatchOptions U S)) → Builder U S K L R → Builder U S K L R
    unfolding declare_watch apply_options validate_gvk
    watches gvk opts b =
        let o = apply_options opts no_watch_options in
        if has_mapper o && is_set o.handler
        then add_error (plain "WithMapper and WithHandler are mutually exclusive") b
        else if not (has_mapper o) && not (is_set o.handler)
        then add_error (plain "Watches() requires either WithMapper or WithHandler") b
        else declare_watch gvk o o.mapper_factory (validate_gvk gvk "Watches") b
