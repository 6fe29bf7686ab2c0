-- ===== src/PolicyApi/Outcomes.antt =====
-- The answers to a request to create a policy, through the handler, the service and the store, with
-- the causes of errors.
use dcm_policy_manager.Prelude.{String, Option, none, some, ◌≡◌, ok}
use dcm_policy_manager.Prelude.Int.{ℤ}
use dcm_policy_manager.Policy.{Policy}
use dcm_policy_manager.Convert.{api_to_db_model, db_to_api_model}
use dcm_policy_manager.Service.{
  PolicyStore, Engine, World, EngineError, invalid_rego, engine_internal, unexpected, create_checks,
  finish_create, store_created, recompile_engine, process_policy_store_error, handle_engine_error,
}
use dcm_policy_manager.Service as Service
use dcm_policy_manager.Service.Rollback.{Undone}
use dcm_policy_manager.PolicyApi.Causes.{Failed}
use dcm_policy_manager.PolicyApi.{
  ErrorBody, invalid_argument_code, Response, success, failure, ServerPolicy, create_policy,
  policy_server_to_v1_alpha1, policy_v1_alpha1_to_server,
}

module _ {D N : Type 0} (store : PolicyStore D) (engine : Engine N)
    (show_priority : ℤ → String) where
  -- CreatePolicy of the handler over the policy service
  abbrev pub post :
      String → World D N → Option ServerPolicy → Option String → World D N × Response ServerPolicy
  post generated =
      create_policy
        (λ w policy id. Service.create_policy store engine show_priority w policy id generated)

  -- What a request to create a policy does and answers.
  pub data Outcome (Same : D → D → Type 0) (generated : String) (w : World D N)
      : Option ServerPolicy → Option String → World D N × Response ServerPolicy → Type 0 where
    created :
        {client_id : Option String} {w' : World D N} (body : ServerPolicy) (id : String)
        (row : Policy)
        → create_checks store engine show_priority
            (policy_server_to_v1_alpha1 body)
            client_id
            generated
          ≡ ok id
        → store.create w.db (api_to_db_model (policy_server_to_v1_alpha1 body) id) ≡ (w'.db, ok row)
        → Outcome Same generated w
            (some body)
            client_id
            (w', success (policy_v1_alpha1_to_server (db_to_api_model row)))
    unread :
        {client_id : Option String} (answer : ErrorBody)
        → answer.status ≡ 400
        → answer.type ≡ invalid_argument_code
        → Outcome Same generated w none client_id (w, failure answer)
    failed :
        {client_id : Option String} {w' : World D N} (body : ServerPolicy) (answer : ErrorBody)
        → Failed store engine show_priority w
            (policy_server_to_v1_alpha1 body)
            client_id
            generated
            answer.status
            answer.type
        → Undone Same w' w
        → Outcome Same generated w (some body) client_id (w', failure answer)
