-- ===== src/PolicyApi/Statuses.antt =====
-- The status codes of errors, against the kind of error that is logged, and the conversions.
use dcm_policy_manager.Prelude.{◌<◌, true, ◌≡◌, ◌↔◌, refl, arith}
use dcm_policy_manager.Errors.{
  ServiceError, ErrorType, invalid_argument, not_found, already_exists, internal,
  failed_precondition, rejected, policy_conflict,
}
use dcm_policy_manager.PolicyApi.{is_client_error, handle_update_policy_error, update_error}

by_type :
    (t : ErrorType) (e : ServiceError)
    → ((update_error t e).status < 500) ↔ (is_client_error t ≡ true)
unfolding is_client_error
by_type invalid_argument e = (λ h. refl, λ h. omega arith)
by_type not_found e = (λ h. refl, λ h. omega arith)
by_type already_exists e = (λ h. refl, λ h. omega arith)
by_type failed_precondition e = (λ h. refl, λ h. omega arith)
by_type internal e = (λ h. absurd (omega (arith, h)), λ h. cc)
by_type rejected e = (λ h. absurd (omega (arith, h)), λ h. cc)
by_type policy_conflict e = (λ h. absurd (omega (arith, h)), λ h. cc)

-- An error of an update is answered with a status below 500 exactly if it is logged as an error of
-- the client.
pub handle_update_policy_error_iff :
    (e : ServiceError)
    → ((handle_update_policy_error e).status < 500) ↔ (is_client_error e.type ≡ true)
unfolding handle_update_policy_error
handle_update_policy_error_iff e = by_type e.type e
