-- ===== src/Evaluation/Whole.antt =====
-- EvaluateRequest over the policy store: what it returns, without pages.
use dcm_policy_manager.Prelude.{
  ℕ, suc, ◌*◌, ◌≤◌, String, true, List, [], ◌∷◌, ◌≡◌, some, Result, ok, err, length, inl, inr,
  Result-cases,
}
use dcm_policy_manager.Value.{Fields}
use dcm_policy_manager.Runtime.{Runtime}
use dcm_policy_manager.Decision.{EvaluationResult}
use dcm_policy_manager.Errors.{ServiceError, new_internal_error}
use dcm_policy_manager.Constraints.{new_constraint_context}
use dcm_policy_manager.Policy.{Policy}
use dcm_policy_manager.Store.{Gorm, enabled_is, default_order}
use dcm_policy_manager.Store.Paging.{IsTable, IsTokenCodec}
use dcm_policy_manager.Evaluation.{
  Progress, EvaluationRequest, EvaluationResponse, evaluate_page, evaluate_request, respond,
}
use dcm_policy_manager.Evaluation.Listing.{stored, evaluate_pages-stored}

module _ {C S : Type 0} (rt : Runtime C S)
    (evaluate : String → Fields → Result String EvaluationResult) where
  -- what an evaluation begins with
  abbrev pub begin : Fields → Progress
  begin spec = record {
    current_spec = spec;
    selected_provider = "";
    constraint_ctx = new_constraint_context;
  }

  -- The policies of a table are evaluated in one go, on a copy of the specification.
  pub evaluate_all : List Policy → EvaluationRequest → Result ServiceError EvaluationResponse
  unfolding respond
  evaluate_all table req = elim (rt.copy req.service_instance) [
    | err e ↦ err (new_internal_error "Failed to make a deep copy of the service instance spec" e e)
    | ok spec ↦ elim (evaluate_page rt evaluate req.request_labels table (begin spec)) [
      | err e ↦ err e
      | ok p ↦ ok (respond rt evaluate req p)
    ]
  ]

  pub evaluate_request-evaluate_all :
      {D : Type 0} (gorm : Gorm D) (d : D) (table : List Policy)
      → IsTable gorm d (enabled_is true ∷ []) default_order table
      → IsTokenCodec gorm
      → (fuel : ℕ) (req : EvaluationRequest) → length table ≤ 1000 * suc fuel
      → evaluate_request rt evaluate (stored gorm d) (suc fuel) req ≡ some (evaluate_all table req)
  unfolding evaluate_all evaluate_request
  evaluate_request-evaluate_all gorm d table ordered codec fuel req h =
      elim (Result-cases (rt.copy req.service_instance)) [
        | inr (e, f) ↦ rw (f, evaluate_request, evaluate_all)
        | inl (spec, f) ↦
            let whole =
              evaluate_pages-stored gorm d table ordered codec rt evaluate req.request_labels fuel
                (begin spec) h in
            elim (Result-cases (evaluate_page rt evaluate req.request_labels table (begin spec))) [
              | inl (p, g) ↦ rw (f, whole, g, evaluate_request, evaluate_all)
              | inr (e, g) ↦ rw (f, whole, g, evaluate_request, evaluate_all)
            ]
      ]
