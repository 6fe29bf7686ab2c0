-- ===== src/Evaluation.antt =====
-- internal/service/evaluation.go: a request goes through all enabled policies in order. The store
-- and the engine are arguments: `list` is List of the store, `evaluate` EvaluatePolicy of the
-- engine, each of which returns an error's text where it fails.
pub mod Step
pub mod Pages
pub mod Listing
pub mod Whole
use Prim.Native.Nat.{ℕ, zero, suc}
use dcm_policy_manager.Prelude.{
  String, Bool, true, false, not, Option, none, some, List, [], ◌∷◌, ◌==◌, Result, ok, err, ◌>>=◌,
  ◌>>◌, check, map_err, if◌then◌else◌, Assoc, concat,
}
use dcm_policy_manager.Prelude.Int.{pos}
use dcm_policy_manager.Value.{Value, str, obj, Fields, end, field, put}
use dcm_policy_manager.Runtime.{Runtime}
use dcm_policy_manager.Labels.{matches_label_selector}
use dcm_policy_manager.Decision.{
  EvaluationResult, ServiceProviderConstraints, PolicyDecision, parse_policy_decision,
}
use dcm_policy_manager.Patch.{merge_patch}
use dcm_policy_manager.Constraints.{
  ConstraintContext, ConstraintConflictError, ConstraintViolation, new_constraint_context,
}
use dcm_policy_manager.Constraints.Merging.{merge_constraints}
use dcm_policy_manager.Constraints.Providers.{merge_sp_constraints, validate_service_provider}
use dcm_policy_manager.Constraints.Validation.{validate_patch}
use dcm_policy_manager.Constraints.Views.{get_constraints_map, get_sp_constraints_map}
use dcm_policy_manager.Errors.{
  ServiceError, new_internal_error, new_policy_rejected_error, new_constraint_violation_error,
  new_constraint_conflict_error, new_service_provider_constraint_error,
}
use dcm_policy_manager.Policy.{Policy, PolicyFilter, PolicyListOptions, PolicyListResult}

pub data EvaluationStatus : Type 0 where
  approved modified : EvaluationStatus

pub record EvaluationRequest : Type 0 where
  pub service_instance : Fields
  pub request_labels : Assoc String

pub record EvaluationResponse : Type 0 where
  pub evaluated_service_instance : Fields
  pub selected_provider : String
  pub status : EvaluationStatus

-- The variables of EvaluateRequest that its loop changes.
pub record Progress : Type 0 where
  pub current_spec : Fields
  pub selected_provider : String
  pub constraint_ctx : ConstraintContext

abbrev with_map : String → Option Fields → Fields → Fields
with_map key none input = input
with_map key (some m) input = put key (obj m) input

-- step 1 of evaluatePolicy
unfoldable pub opa_input : Progress → Fields
opa_input p = with_map "service_provider_constraints" (get_sp_constraints_map p.constraint_ctx) (
    with_map "constraints" (get_constraints_map p.constraint_ctx)
      (field "spec" (obj p.current_spec) (field "provider" (str p.selected_provider) end)))

-- the options of every listing of EvaluateRequest
abbrev pub page_options : Option String → PolicyListOptions
page_options page_token = record {
  filter = some (record { policy_type = none; enabled = some true });
  order_by = "";
  page_token = page_token;
  page_size = pos 1000;
}

module _ {C S : Type 0} (rt : Runtime C S) where
  -- step 4
  merged_constraints :
      String
      → ConstraintContext × Option ConstraintConflictError
      → Result ServiceError ConstraintContext
  merged_constraints policy_id (c, none) = ok c
  merged_constraints policy_id (c, some e) =
      err (new_constraint_conflict_error policy_id e.field_path e.set_by_policy e.reason)

  unfoldable pub merge_step :
      String → Option Fields → ConstraintContext → Result ServiceError ConstraintContext
  unfolding merged_constraints
  merge_step policy_id none c = ok c
  merge_step policy_id (some constraints) c =
      merged_constraints policy_id (merge_constraints rt c constraints policy_id)

  -- steps 6 and 7
  reject_violations : String → List ConstraintViolation → Result ServiceError (Unit {0})
  reject_violations policy_id [] = ok tt
  reject_violations policy_id (v ∷ vs) = err (new_constraint_violation_error policy_id (v ∷ vs))

  abbrev merge_failure : String → ServiceError
  merge_failure e = new_internal_error "Failed to merge patch into current spec" e e

  unfoldable pub patch_step :
      String → Option Fields → ConstraintContext → Fields → Result ServiceError Fields
  unfolding reject_violations
  patch_step policy_id none c spec = ok spec
  patch_step policy_id (some patch) c spec =
      reject_violations policy_id (validate_patch rt c patch)
      >> map_err merge_failure (merge_patch rt.copy spec patch)

  -- step 8
  unfoldable pub provider_step :
      String → String → ConstraintContext → String → Result ServiceError String
  provider_step policy_id chosen c selected = if chosen == "" then ok selected else (do
    map_err (new_service_provider_constraint_error policy_id)
        (check (validate_service_provider rt c chosen))
    ok chosen)

  -- steps 3 to 8
  unfoldable pub apply_decision : String → PolicyDecision → Progress → Result ServiceError Progress
  unfolding merge_step patch_step provider_step
  apply_decision policy_id d p =
      if d.rejected then err (new_policy_rejected_error policy_id d.rejection_reason) else (do
        c ← merge_step policy_id d.constraints p.constraint_ctx
        c' ←
            map_err (new_service_provider_constraint_error policy_id)
              (merge_sp_constraints rt c d.service_provider_constraints policy_id)
        spec ← patch_step policy_id d.patch c' p.current_spec
        provider ← provider_step policy_id d.selected_provider c' p.selected_provider
        ok (record { current_spec = spec; selected_provider = provider; constraint_ctx = c' }))

  module _ (evaluate : String → Fields → Result String EvaluationResult) where
    abbrev evaluation_failure : String → String → ServiceError
    evaluation_failure policy_id e =
        new_internal_error (concat ("Failed to evaluate policy '" ∷ policy_id ∷ "'" ∷ [])) e e

    unfoldable pub evaluate_policy : Policy → Progress → Result ServiceError Progress
    unfolding apply_decision opa_input
    evaluate_policy policy p = do
      eval_result ← map_err (evaluation_failure policy.id) (evaluate policy.id (opa_input p))
      if eval_result.defined
          then apply_decision policy.id (parse_policy_decision eval_result.result) p
          else ok p

    module _ (request_labels : Assoc String) where
      -- the policies of one page
      unfoldable pub evaluate_page : List Policy → Progress → Result ServiceError Progress
      evaluate_page [] p = ok p
      evaluate_page (policy ∷ rest) p =
          elim (matches_label_selector policy.label_selector request_labels) [
            | true ↦ do p' ← evaluate_policy policy p; evaluate_page rest p'
            | false ↦ evaluate_page rest p
          ]

      module _ (list : PolicyListOptions → Result String PolicyListResult) where
        abbrev list_failure : String → ServiceError
        list_failure e = new_internal_error "Failed to retrieve policies" e e

        -- The loop over the pages; `none` if the fuel runs out before the last page.
        unfoldable pub evaluate_pages :
            ℕ → Option String → Progress → Option (Result ServiceError Progress)
        evaluate_pages zero page_token p = none
        evaluate_pages (suc fuel) page_token p =
            elim (map_err list_failure (list (page_options page_token))) [
              | err e ↦ some (err e)
              | ok page ↦ elim (evaluate_page page.policies p) [
                | err e ↦ some (err e)
                | ok p' ↦ elim (page.next_page_token == "") [
                  | true ↦ some (ok p')
                  | false ↦ evaluate_pages fuel (some page.next_page_token) p'
                ]
              ]
            ]

    respond : EvaluationRequest → Progress → EvaluationResponse
    respond req p = record {
      evaluated_service_instance = p.current_spec;
      selected_provider = p.selected_provider;
      status = if not (rt.equal req.service_instance p.current_spec) then modified else approved;
    }

    unfoldable pub evaluate_request :
        (PolicyListOptions → Result String PolicyListResult)
        → ℕ
        → EvaluationRequest
        → Option (Result ServiceError EvaluationResponse)
    unfolding respond evaluate_pages
    evaluate_request list fuel req = elim (rt.copy req.service_instance) [
      | err e ↦
          some
            (err (new_internal_error "Failed to make a deep copy of the service instance spec" e e))
      | ok spec ↦
          elim (evaluate_pages req.request_labels list fuel none (record {
            current_spec = spec;
            selected_provider = "";
            constraint_ctx = new_constraint_context;
          })) [
            | none ↦ none
            | some (err e) ↦ some (err e)
            | some (ok p) ↦ some (ok (respond req p))
          ]
    ]
