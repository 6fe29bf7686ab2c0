-- ===== src/Constraints/Merging.antt =====
-- MergeConstraints of internal/service/constraints.go
pub mod Keeping
use dcm_policy_manager.Prelude.{
  String, Option, none, some, Result, ok, err, ◌>>=◌, Assoc, lookup, assign,
}
use dcm_policy_manager.Value.{Value, Fields, end, field, as_map}
use dcm_policy_manager.Value.Copy.{deep_copy_schema_map}
use dcm_policy_manager.Runtime.{Runtime}
use dcm_policy_manager.Constraints.{ConstraintContext, ConstraintConflictError}
use dcm_policy_manager.Constraints.Keywords.{merge_schema_keywords}

-- `m[key]` of a `map[string]string`, the empty text where the key is missing
unfoldable pub text_at : String → Assoc String → String
text_at key m = elim (lookup key m) [ some s ↦ s | none ↦ "" ]

module _ {C S : Type 0} (rt : Runtime C S) where
  -- one field of which both policies speak, or the new one alone
  merge_existing :
      ConstraintContext
      → String
      → Fields
      → Option Fields
      → String
      → ConstraintContext × Option ConstraintConflictError
  merge_existing c field_path new_constraint none policy_id = (
    record c {
      constrained_fields_by_field_path =
          assign field_path (deep_copy_schema_map rt.copy new_constraint)
            c.constrained_fields_by_field_path;
      policy_id_by_field_path = assign field_path policy_id c.policy_id_by_field_path;
    },
    none,
  )
  merge_existing c field_path new_constraint (some existing) policy_id =
      elim (merge_schema_keywords rt existing new_constraint field_path
        (text_at field_path c.policy_id_by_field_path)) [
          | err e ↦ (c, some e)
          | ok merged ↦ (
            record c {
              constrained_fields_by_field_path =
                  assign field_path merged c.constrained_fields_by_field_path;
            },
            none,
          )
        ]

  -- one round of the loop; a constraint that is no map is skipped
  unfoldable pub merge_constraint :
      ConstraintContext
      → String
      → Value
      → String
      → ConstraintContext × Option ConstraintConflictError
  unfolding merge_existing text_at
  merge_constraint c field_path constraint policy_id = elim (as_map constraint) [
    | none ↦ (c, none)
    | some new_constraint ↦
        merge_existing c field_path new_constraint
          (lookup field_path c.constrained_fields_by_field_path) policy_id
  ]

  -- The context after the loop, which keeps what was written before an error, and the error.
  unfoldable pub merge_constraints :
      ConstraintContext → Fields → String → ConstraintContext × Option ConstraintConflictError
  merge_constraints c end policy_id = (c, none)
  merge_constraints c (field field_path constraint rest) policy_id =
      let (c', failed) = merge_constraint c field_path constraint policy_id in
      let later = merge_constraints c' rest policy_id in
      elim failed [ none ↦ later | some e ↦ (c', some e) ]
