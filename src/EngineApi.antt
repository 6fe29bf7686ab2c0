-- ===== src/EngineApi.antt =====
-- internal/handlers/engine: the handler of the evaluation API. The evaluation service is an
-- argument.
pub mod RequestLabels
pub mod Server
pub mod Client
pub mod Exchange
use dcm_policy_manager.Prelude.{
  ℕ, String, Option, none, some, List, [], ◌∷◌, Result, ok, err, Assoc, assign,
}
use dcm_policy_manager.Value.{Value, Fields, end, field, get, as_map, as_string, assert}
use dcm_policy_manager.Errors.{
  ServiceError, ErrorType, invalid_argument, not_found, already_exists, internal,
  failed_precondition, rejected, policy_conflict,
}
use dcm_policy_manager.Evaluation.{EvaluationRequest, EvaluationResponse, EvaluationStatus}

-- the body of an error
pub record Problem : Type 0 where
  pub type : String
  pub status : ℕ
  pub title : String
  pub detail : Option String

pub record ApiResponse : Type 0 where
  pub evaluated_service_instance : Fields
  pub selected_provider : String
  pub status : EvaluationStatus

-- EvaluateRequestResponseObject: 200, 400, 406, 409 or 500
pub data Response : Type 0 where
  evaluated : ApiResponse → Response
  bad_request_response rejected_response conflict_response internal_error_response :
      Problem → Response

abbrev about_blank : ℕ → String → String → Problem
about_blank status title detail = record {
  type = "about:blank";
  status = status;
  title = title;
  detail = some detail;
}

-- spec["metadata"] and its "labels", if they are maps
abbrev pub metadata_labels : Fields → Option Fields
metadata_labels spec = elim (assert as_map (get "metadata" spec)) [
  | none ↦ none
  | some metadata ↦ assert as_map (get "labels" metadata)
]

abbrev pub add_label : String → Option String → Assoc String → Assoc String
add_label k none result = result
add_label k (some v) result = assign k v result

-- the loop over the labels
unfoldable pub add_labels : Fields → Assoc String → Assoc String
add_labels end result = result
add_labels (field k v labels) result = add_labels labels (add_label k (as_string v) result)

abbrev pub with_labels : Option Fields → Assoc String → Assoc String
with_labels none result = result
with_labels (some labels) result = add_labels labels result

unfoldable pub extract_request_labels : Fields → Result String (Assoc String)
extract_request_labels spec = elim (assert as_string (get "service_type" spec)) [
  | none ↦ err "service type is required"
  | some service_type ↦
      ok (with_labels (metadata_labels spec) (assign "service_type" service_type []))
]

unfoldable pub to_service_evaluation_request : Fields → Result String EvaluationRequest
unfolding extract_request_labels
to_service_evaluation_request spec = elim (extract_request_labels spec) [
  | err e ↦ err e
  | ok labels ↦ ok (record { service_instance = spec; request_labels = labels })
]

abbrev pub to_engine_evaluation_response : EvaluationResponse → ApiResponse
to_engine_evaluation_response response = record {
  evaluated_service_instance = response.evaluated_service_instance;
  selected_provider = response.selected_provider;
  status = response.status;
}

abbrev pub bad_request : String → Response
bad_request message = bad_request_response (about_blank 400 "Bad Request" message)

abbrev by_type : ErrorType → ServiceError → Response
by_type rejected e = rejected_response (about_blank 406 e.message e.detail)
by_type policy_conflict e = conflict_response (about_blank 409 e.message e.detail)
by_type invalid_argument e = bad_request e.message
by_type t e =
    internal_error_response (about_blank 500 "Internal server error" "An unexpected error occurred")

unfoldable pub handle_error : ServiceError → Response
handle_error e = by_type e.type e

answer : Result ServiceError EvaluationResponse → Response
unfolding handle_error
answer (err e) = handle_error e
answer (ok response) = evaluated (to_engine_evaluation_response response)

-- the handler, on the specification in the request's body
unfoldable pub handle_evaluate_request :
    (EvaluationRequest → Result ServiceError EvaluationResponse) → Fields → Response
unfolding answer to_service_evaluation_request
handle_evaluate_request evaluate_request spec = elim (to_service_evaluation_request spec) [
  | err e ↦ bad_request e
  | ok request ↦ answer (evaluate_request request)
]
