-- ===== src/PolicyApi.antt =====
-- internal/handlers/v1alpha1: the handlers of the policy API. The policy service is an argument,
-- as a function for each of its operations; a state `W` is what the operations change.
pub mod Statuses
pub mod Causes
pub mod Outcomes
use dcm_policy_manager.Prelude.{
  ℕ, String, Bool, true, false, Option, none, some, List, map, Result, ok, err, Assoc,
}
use dcm_policy_manager.Prelude.Int.{ℤ}
use dcm_policy_manager.Convert.{ApiPolicy}
use dcm_policy_manager.Listings.{PolicyList}
use dcm_policy_manager.Errors.{
  ServiceError, ErrorType, invalid_argument, not_found, already_exists, internal,
  failed_precondition, rejected, policy_conflict,
}

-- api/v1alpha1.ErrorType, the ones that the handlers use
pub data ErrorCode : Type 0 where
  invalid_argument_code not_found_code already_exists_code internal_code : ErrorCode

pub record ErrorBody : Type 0 where
  pub status : ℕ
  pub type : ErrorCode
  pub title : String
  pub detail : Option String

-- A response object of an operation that answers with an `A`, or with an error.
pub data Response {ℓ} (A : Type ℓ) : Type ℓ where
  success : A → Response A
  failure : ErrorBody → Response A

unfoldable pub is_client_error : ErrorType → Bool
is_client_error invalid_argument = true
is_client_error not_found = true
is_client_error already_exists = true
is_client_error failed_precondition = true
is_client_error _ = false

abbrev build_error_response : ℕ → ErrorCode → String → String → ErrorBody
build_error_response status type title detail = record {
  status = status;
  type = type;
  title = title;
  detail = some detail;
}

abbrev bad_request : ServiceError → ErrorBody
bad_request e = build_error_response 400 invalid_argument_code e.message e.detail

abbrev missing : ServiceError → ErrorBody
missing e = build_error_response 404 not_found_code e.message e.detail

abbrev conflict : ServiceError → ErrorBody
conflict e = build_error_response 409 already_exists_code e.message e.detail

abbrev internal_error : ServiceError → ErrorBody
internal_error e = build_error_response 500 internal_code "Internal server error" e.detail

abbrev create_error : ErrorType → ServiceError → ErrorBody
create_error invalid_argument e = bad_request e
create_error already_exists e = conflict e
create_error _ e = internal_error e

unfoldable pub handle_create_policy_error : ServiceError → ErrorBody
handle_create_policy_error e = create_error e.type e

abbrev get_error : ErrorType → ServiceError → ErrorBody
get_error not_found e = missing e
get_error _ e = internal_error e

unfoldable pub handle_get_policy_error : ServiceError → ErrorBody
handle_get_policy_error e = get_error e.type e

abbrev list_error : ErrorType → ServiceError → ErrorBody
list_error invalid_argument e = bad_request e
list_error _ e = internal_error e

unfoldable pub handle_list_policies_error : ServiceError → ErrorBody
handle_list_policies_error e = list_error e.type e

abbrev update_error : ErrorType → ServiceError → ErrorBody
update_error invalid_argument e = bad_request e
update_error failed_precondition e = bad_request e
update_error not_found e = missing e
update_error already_exists e = conflict e
update_error _ e = internal_error e

unfoldable pub handle_update_policy_error : ServiceError → ErrorBody
handle_update_policy_error e = update_error e.type e

-- handleDeletePolicyError has the cases of handleGetPolicyError.
unfoldable pub handle_delete_policy_error : ServiceError → ErrorBody
handle_delete_policy_error e = get_error e.type e

-- server.Policy, the generated server's record of a policy
pub record ServerPolicy : Type 0 where
  pub create_time : Option ℕ
  pub description : Option String
  pub display_name : Option String
  pub enabled : Option Bool
  pub id : Option String
  pub label_selector : Option (Assoc String)
  pub path : Option String
  pub policy_type : Option String
  pub priority : Option ℤ
  pub rego_code : Option String
  pub update_time : Option ℕ

unfoldable pub policy_server_to_v1_alpha1 : ServerPolicy → ApiPolicy
policy_server_to_v1_alpha1 p = record {
  create_time = p.create_time;
  description = p.description;
  display_name = p.display_name;
  enabled = p.enabled;
  id = p.id;
  label_selector = p.label_selector;
  path = p.path;
  policy_type = p.policy_type;
  priority = p.priority;
  rego_code = p.rego_code;
  update_time = p.update_time;
}

unfoldable pub policy_v1_alpha1_to_server : ApiPolicy → ServerPolicy
policy_v1_alpha1_to_server p = record {
  create_time = p.create_time;
  description = p.description;
  display_name = p.display_name;
  enabled = p.enabled;
  id = p.id;
  label_selector = p.label_selector;
  path = p.path;
  policy_type = p.policy_type;
  priority = p.priority;
  rego_code = p.rego_code;
  update_time = p.update_time;
}

pub record ServerPolicyList : Type 0 where
  pub next_page_token : Option String
  pub policies : List ServerPolicy

unfoldable pub list_response_v1_alpha1_to_server : PolicyList → ServerPolicyList
unfolding policy_v1_alpha1_to_server
list_response_v1_alpha1_to_server r = record {
  next_page_token = r.next_page_token;
  policies = map policy_v1_alpha1_to_server r.policies;
}

abbrev body_required : ErrorBody
body_required =
    build_error_response 400 invalid_argument_code "Invalid request body" "Request body is required"

abbrev pub respond {ℓ κ} :
    {A : Type ℓ} {B : Type κ}
    → (A → B)
    → (ServiceError → ErrorBody)
    → Result ServiceError A
    → Response B
respond convert handle (ok a) = success (convert a)
respond convert handle (err e) = failure (handle e)

module _ {W : Type 0} where
  unfoldable pub create_policy :
      (W → ApiPolicy → Option String → W × Result ServiceError ApiPolicy)
      → W
      → Option ServerPolicy
      → Option String
      → W × Response ServerPolicy
  unfolding policy_server_to_v1_alpha1 policy_v1_alpha1_to_server handle_create_policy_error
  create_policy service w none id = (w, failure body_required)
  create_policy service w (some body) id =
      let result = service w (policy_server_to_v1_alpha1 body) id in
      (result.0, respond policy_v1_alpha1_to_server handle_create_policy_error result.1)

  unfoldable pub update_policy :
      (W → String → Option ApiPolicy → W × Result ServiceError ApiPolicy)
      → W
      → String
      → Option ServerPolicy
      → W × Response ServerPolicy
  unfolding policy_server_to_v1_alpha1 policy_v1_alpha1_to_server handle_update_policy_error
  update_policy service w id none = (w, failure body_required)
  update_policy service w id (some body) =
      let result = service w id (some (policy_server_to_v1_alpha1 body)) in
      (result.0, respond policy_v1_alpha1_to_server handle_update_policy_error result.1)

unfoldable pub get_policy :
    (String → Result ServiceError ApiPolicy) → String → Response ServerPolicy
unfolding policy_v1_alpha1_to_server handle_get_policy_error
get_policy service id = respond policy_v1_alpha1_to_server handle_get_policy_error (service id)

unfoldable pub list_policies : Result ServiceError PolicyList → Response ServerPolicyList
unfolding list_response_v1_alpha1_to_server handle_list_policies_error
list_policies result = respond list_response_v1_alpha1_to_server handle_list_policies_error result

unfoldable pub delete_policy : Option ServiceError → Response (Unit {0})
unfolding handle_delete_policy_error
delete_policy none = success tt
delete_policy (some e) = failure (handle_delete_policy_error e)
