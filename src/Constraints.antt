-- ===== src/Constraints.antt =====
-- internal/service/constraints.go: the constraints that the policies of one evaluation add up.
pub mod Keywords
pub mod Merging
pub mod Providers
pub mod Validation
pub mod Views
use dcm_policy_manager.Prelude.{String, Option, none, List, [], Assoc}
use dcm_policy_manager.Value.{Fields}

pub record AccumulatedSpConstraints : Type 0 where
  pub allow_list : List String
  pub patterns : List String
  pub set_by_policy : String

pub record ConstraintContext : Type 0 where
  pub constrained_fields_by_field_path : Assoc Fields
  pub policy_id_by_field_path : Assoc String
  pub service_provider_constraints : Option AccumulatedSpConstraints

pub record ConstraintConflictError : Type 0 where
  pub field_path : String
  pub set_by_policy : String
  pub reason : String

pub record ConstraintViolation : Type 0 where
  pub field_path : String
  pub reason : String
  pub set_by_policy : String

abbrev pub new_constraint_context : ConstraintContext
new_constraint_context = record {
  constrained_fields_by_field_path = [];
  policy_id_by_field_path = [];
  service_provider_constraints = none;
}
