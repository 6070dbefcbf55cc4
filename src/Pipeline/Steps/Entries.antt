-- ===== src/Pipeline/Steps/Entries.antt =====
-- pipeline.go: `processEntries`.
use k8s_controller_lib.Prelude.{String, concat, Bool, List, [], ◌∷◌}
use k8s_controller_lib.Runtime.Exec.{Result, ok, err, Exec, wrap_result}
use k8s_controller_lib.Runtime.Objects.{Object}
use k8s_controller_lib.Runtime.Api.{ClusterApi}
use k8s_controller_lib.Reconciler.Types.{ObjectEntry}
use k8s_controller_lib.Resources.Util.{format_object_reference}
use k8s_controller_lib.Resources.Apply.{apply}
use k8s_controller_lib.Pipeline.Options.{Options}
use k8s_controller_lib.Pipeline.Steps.Ownership.{effective_ownership, claim}

abbrev pub put_object : Object → ObjectEntry → ObjectEntry
put_object obj entry = record entry { object = obj }

module _ {W U : Type 0} (api : ClusterApi W U) (opts : Options W) (owner : Object)
    (field_owner : String) where
  -- The second half of the loop's body.
  unfoldable pub apply_object : Exec (Object × W) (Unit {0})
  apply_object (obj, w) =
      let (r, (obj1, w1)) = apply api field_owner (obj, w) in
      (wrap_result (concat "unable to apply " (format_object_reference api obj1)) r, (obj1, w1))

  unfoldable pub apply_claimed : Result (Unit {0}) → Exec (Object × W) (Unit {0})
  unfolding apply_object
  apply_claimed (err e) s = (err e, s)
  apply_claimed (ok x) s = apply_object s

  -- The body of the loop: the object is claimed, and then applied.
  unfoldable pub process_object : Bool → Exec (Object × W) (Unit {0})
  unfolding apply_claimed
  process_object with_ownership (obj, w) =
      let (r, obj1) = claim api opts with_ownership owner obj in apply_claimed r (obj1, w)

  -- `processEntries`; the entries come back with their objects as they are then.
  unfoldable pub after_entry :
      Result (Unit {0})
      → ObjectEntry
      → List ObjectEntry
      → (W → Result (Unit {0}) × (List ObjectEntry × W))
      → W
      → Result (Unit {0}) × (List ObjectEntry × W)
  after_entry (err e) entry rest next w = (err e, (entry ∷ rest, w))
  after_entry (ok x) entry rest next w = let (r, (rest1, w1)) = next w in (r, (entry ∷ rest1, w1))

  unfoldable pub process_entries : List ObjectEntry → W → Result (Unit {0}) × (List ObjectEntry × W)
  unfolding process_object after_entry effective_ownership
  process_entries [] w = (ok tt, ([], w))
  process_entries (entry ∷ rest) w =
      let (r, (obj, w1)) =
        process_object (effective_ownership api opts entry.options) (entry.object, w) in
      after_entry r (put_object obj entry) rest (process_entries rest) w1
