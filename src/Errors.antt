-- ===== src/Errors.antt =====
-- internal/service/errors.go: the errors of the service layer. A wrapped error is its text.
use dcm_policy_manager.Prelude.{String, Option, none, some, List, [], ◌∷◌, concat, join, map}
use dcm_policy_manager.Constraints.{ConstraintViolation}

pub data ErrorType : Type 0 where
  invalid_argument not_found already_exists internal failed_precondition rejected policy_conflict :
      ErrorType

pub record ServiceError : Type 0 where
  pub type : ErrorType
  pub message : String
  pub detail : String
  pub cause : Option String

abbrev pub new_error : ErrorType → String → String → ServiceError
new_error type message detail = record {
  type = type;
  message = message;
  detail = detail;
  cause = none;
}

unfoldable pub new_invalid_argument_error : String → String → ServiceError
new_invalid_argument_error message detail = new_error invalid_argument message detail

unfoldable pub new_not_found_error : String → String → ServiceError
new_not_found_error message detail = new_error not_found message detail

unfoldable pub new_policy_not_found_error : String → ServiceError
unfolding new_not_found_error
new_policy_not_found_error policy_id =
    new_not_found_error "Policy not found"
      (concat ("Policy with ID '" ∷ policy_id ∷ "' does not exist" ∷ []))

unfoldable pub new_already_exists_error : String → String → ServiceError
new_already_exists_error message detail = new_error already_exists message detail

unfoldable pub new_policy_already_exists_error : String → ServiceError
unfolding new_already_exists_error
new_policy_already_exists_error policy_id =
    new_already_exists_error "Policy already exists"
      (concat ("A policy with ID '" ∷ policy_id ∷ "' already exists" ∷ []))

unfoldable pub new_internal_error : String → String → String → ServiceError
new_internal_error message detail cause = record {
  type = internal;
  message = message;
  detail = detail;
  cause = some cause;
}

unfoldable pub new_failed_precondition_error : String → String → ServiceError
new_failed_precondition_error message detail = new_error failed_precondition message detail

unfoldable pub new_policy_rejected_error : String → String → ServiceError
new_policy_rejected_error policy_id reason =
    new_error rejected (concat ("Request rejected by policy '" ∷ policy_id ∷ "'" ∷ [])) reason

violation_text : ConstraintViolation → String
violation_text v = concat (
    "field '" ∷ v.field_path ∷ "': " ∷ v.reason ∷ " (constrained by policy '" ∷ v.set_by_policy
    ∷ "')" ∷ [])

unfoldable pub new_constraint_violation_error : String → List ConstraintViolation → ServiceError
unfolding violation_text
new_constraint_violation_error policy_id violations =
    new_error policy_conflict
      (concat (
        "Policy '" ∷ policy_id
        ∷ "' produced values that violate constraints set by higher-priority policies" ∷ []))
      (concat ("Constraint violations: " ∷ join (map violation_text violations) "; " ∷ []))

unfoldable pub new_constraint_conflict_error : String → String → String → String → ServiceError
new_constraint_conflict_error policy_id field_path existing_policy_id reason =
    new_error policy_conflict
      (concat (
        "Policy '" ∷ policy_id ∷ "' attempted to loosen constraint on field '" ∷ field_path
        ∷ "' set by higher-priority policy '" ∷ existing_policy_id ∷ "'" ∷ []))
      reason

unfoldable pub new_service_provider_constraint_error : String → String → ServiceError
new_service_provider_constraint_error policy_id detail =
    new_error policy_conflict
      (concat
        ("Policy '" ∷ policy_id ∷ "' selected a service provider that violates constraints" ∷ []))
      detail
