-- ===== src/Builder/Controller/Validate.antt =====
-- builder.go: what the declarations check of a kind and of a mapper.
use k8s_controller_lib.Prelude.{String, concat, Bool, not, Option, none, some, if◌then◌else◌, ◌==◌}
use k8s_controller_lib.Runtime.Errors.{GoError, plain}
use k8s_controller_lib.Runtime.Objects.{Gvk}
use k8s_controller_lib.Builder.Events.Mapper.{
  MapperExpectation, expects_unstructured, expects_partial, expects_client_object, expects_typed,
}

-- `validateGVK`
unfoldable pub validate_gvk : Gvk → String → Option GoError
validate_gvk gvk method =
    if gvk.kind == ""
    then some (plain (concat method "(): GVK must have a Kind"))
    else if gvk.version == ""
    then some (plain (concat method "(): GVK must have a Version"))
    else none

-- `validateMapperExpectation`, by the mapper's expectation and `isPartial`
unfoldable pub validate_mapper_expectation : MapperExpectation → Bool → Option GoError
validate_mapper_expectation expects_unstructured partial =
    if partial
    then some (
        plain
          "mapper expects *unstructured.Unstructured but WatchPartial is set; use WatchFull or a mapper that accepts *metav1.PartialObjectMetadata or client.Object")
    else none
validate_mapper_expectation expects_partial partial =
    if not partial
    then some (
        plain
          "mapper expects *metav1.PartialObjectMetadata but WatchFull is set; use AsPartial() or a mapper that accepts *unstructured.Unstructured or client.Object")
    else none
validate_mapper_expectation expects_typed partial =
    if partial
    then some (
        plain
          "mapper expects typed object but WatchPartial is set; partial metadata lacks data for conversion to typed objects; use WatchFull")
    else none
validate_mapper_expectation expects_client_object partial = none
