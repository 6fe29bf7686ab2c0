-- ===== src/PolicyApi/Causes.antt =====
-- Why a creation of a policy fails in the service (internal/service/policy.go), and how the handler
-- answers it (internal/handlers/v1alpha1/errors.go).
use dcm_policy_manager.Prelude.{
  ℕ, String, Bool, true, false, Option, none, some, ◌≡◌, refl, sym, ap, ◌∙◌, subst, arith, Result,
  ok, err, inl, inr, Result-cases, Option-cases,
}
use dcm_policy_manager.Prelude.Int.{ℤ}
use dcm_policy_manager.Policy.{Policy}
use dcm_policy_manager.Convert.{ApiPolicy, api_to_db_model, deref_or}
use dcm_policy_manager.Checks.{validate_post_input, validate_priority, get_policy_id}
use dcm_policy_manager.Errors.{
  ServiceError, ErrorType, invalid_argument, not_found, already_exists, internal,
  new_invalid_argument_error, new_internal_error, new_already_exists_error,
  new_policy_already_exists_error, new_policy_not_found_error, new_not_found_error,
}
use dcm_policy_manager.Store.{
  StoreError, policy_not_found, policy_id_taken, display_name_policy_type_taken,
  priority_policy_type_taken, db, record_not_found, duplicated_key, driver,
}
use dcm_policy_manager.Service.{
  PolicyStore, Engine, World, EngineError, invalid_rego, engine_internal, unexpected, create_checks,
  finish_create, store_created, recompile_engine, process_policy_store_error, handle_engine_error,
}
use dcm_policy_manager.Service as Service
use dcm_policy_manager.PolicyApi.{
  ErrorCode, invalid_argument_code, already_exists_code, internal_code, handle_create_policy_error,
  create_error,
}

-- A unique index of the table refuses the row.
abbrev pub is_taken : StoreError → Bool
is_taken policy_id_taken = true
is_taken display_name_policy_type_taken = true
is_taken priority_policy_type_taken = true
is_taken policy_not_found = false
is_taken (db e) = false

abbrev pub is_invalid_rego : EngineError → Bool
is_invalid_rego (invalid_rego text) = true
is_invalid_rego (engine_internal text) = false
is_invalid_rego (unexpected text) = false

module _ {D N : Type 0} (store : PolicyStore D) (engine : Engine N)
    (show_priority : ℤ → String) where
  -- Why a creation fails, by the status and the type of error that it is answered with.
  pub data Failed (w : World D N) (policy : ApiPolicy) (client_id : Option String)
      (generated : String) : ℕ → ErrorCode → Type 0 where
    invalid_policy :
        (e : ServiceError)
        → validate_post_input policy ≡ some e
        → Failed w policy client_id generated 400 invalid_argument_code
    invalid_id :
        (e : ServiceError)
        → validate_post_input policy ≡ none
        → get_policy_id client_id generated ≡ err e
        → Failed w policy client_id generated 400 invalid_argument_code
    invalid_code :
        (id : String) (e : EngineError)
        → validate_post_input policy ≡ none
        → get_policy_id client_id generated ≡ ok id
        → engine.validate_rego (deref_or "" policy.rego_code) ≡ some e
        → is_invalid_rego e ≡ true
        → Failed w policy client_id generated 400 invalid_argument_code
    unchecked_code :
        (id : String) (e : EngineError)
        → validate_post_input policy ≡ none
        → get_policy_id client_id generated ≡ ok id
        → engine.validate_rego (deref_or "" policy.rego_code) ≡ some e
        → is_invalid_rego e ≡ false
        → Failed w policy client_id generated 500 internal_code
    taken :
        (id : String) (e : StoreError)
        → create_checks store engine show_priority policy client_id generated ≡ ok id
        → (store.create w.db (api_to_db_model policy id)).1 ≡ err e
        → is_taken e ≡ true
        → Failed w policy client_id generated 409 already_exists_code
    not_stored :
        (id : String) (e : StoreError)
        → create_checks store engine show_priority policy client_id generated ≡ ok id
        → (store.create w.db (api_to_db_model policy id)).1 ≡ err e
        → is_taken e ≡ false
        → Failed w policy client_id generated 500 internal_code
    not_compiled :
        (id : String) (row : Policy)
        → create_checks store engine show_priority policy client_id generated ≡ ok id
        → (store.create w.db (api_to_db_model policy id)).1 ≡ ok row
        → Failed w policy client_id generated 500 internal_code

  abbrev pub Answered : World D N → ApiPolicy → Option String → String → ServiceError → Type 0
  Answered w policy client_id generated e =
      Failed w policy client_id generated (handle_create_policy_error e).status
        (handle_create_policy_error e).type

  post_input_type :
      (policy : ApiPolicy) (e : ServiceError)
      → validate_post_input policy ≡ some e
      → e.type ≡ invalid_argument
  unfolding validate_post_input validate_priority new_invalid_argument_error
  post_input_type policy e h = ground (arith, h)

  policy_id_type :
      (client_id : Option String) (generated : String) (e : ServiceError)
      → get_policy_id client_id generated ≡ err e
      → e.type ≡ invalid_argument
  unfolding get_policy_id new_invalid_argument_error
  policy_id_type client_id generated e h = ground (arith, h)

  by_type :
      (w : World D N) (policy : ApiPolicy) (client_id : Option String) (generated : String)
      (e : ServiceError) (t : ErrorType)
      → e.type ≡ t
      → Failed w policy client_id generated (create_error t e).status (create_error t e).type
      → Answered w policy client_id generated e
  unfolding handle_create_policy_error
  by_type w policy client_id generated e t same failed =
      subst
        (λ t. Failed w policy client_id generated (create_error t e).status (create_error t e).type)
        (sym same) failed

  code_answer :
      (w : World D N) (policy : ApiPolicy) (client_id : Option String) (generated id : String)
      (e : ServiceError) (x : EngineError)
      → validate_post_input policy ≡ none
      → get_policy_id client_id generated ≡ ok id
      → engine.validate_rego (deref_or "" policy.rego_code) ≡ some x
      → handle_engine_error x "create" ≡ e
      → Answered w policy client_id generated e
  unfolding handle_engine_error new_invalid_argument_error new_internal_error
  code_answer w policy client_id generated id e (invalid_rego text) f g v same =
      by_type w policy client_id generated e invalid_argument (ap (λ y. y.type) (sym same))
        (invalid_code id (invalid_rego text) f g v refl)
  code_answer w policy client_id generated id e (engine_internal text) f g v same =
      by_type w policy client_id generated e internal (ap (λ y. y.type) (sym same))
        (unchecked_code id (engine_internal text) f g v refl)
  code_answer w policy client_id generated id e (unexpected text) f g v same =
      by_type w policy client_id generated e internal (ap (λ y. y.type) (sym same))
        (unchecked_code id (unexpected text) f g v refl)

  checks_answer :
      (w : World D N) (policy : ApiPolicy) (client_id : Option String) (generated : String)
      (e : ServiceError)
      → create_checks store engine show_priority policy client_id generated ≡ err e
      → Answered w policy client_id generated e
  unfolding create_checks
  checks_answer w policy client_id generated e h =
      elim (Option-cases (validate_post_input policy)) [
        | inr (x, f) ↦
            let same : x ≡ e = ground (arith, f, h) in
            by_type w policy client_id generated e invalid_argument
              (ap (λ y. y.type) (sym same) ∙ post_input_type policy x f) (invalid_policy x f)
        | inl f ↦ elim (Result-cases (get_policy_id client_id generated)) [
          | inr (x, g) ↦
              let same : x ≡ e = ground (arith, f, g, h) in
              by_type w policy client_id generated e invalid_argument
                (ap (λ y. y.type) (sym same) ∙ policy_id_type client_id generated x g)
                (invalid_id x f g)
          | inl (id, g) ↦
              elim (Option-cases (engine.validate_rego (deref_or "" policy.rego_code))) [
                | inl v ↦ absurd (ground (arith, f, g, v, h))
                | inr (x, v) ↦
                    code_answer w policy client_id generated id e x f g v
                      (ground (arith, f, g, v, h))
              ]
        ]
      ]

  write_answer :
      (w : World D N) (policy : ApiPolicy) (client_id : Option String) (generated id : String)
      (x : StoreError) (e : ServiceError)
      → create_checks store engine show_priority policy client_id generated ≡ ok id
      → (store.create w.db (api_to_db_model policy id)).1 ≡ err x
      → process_policy_store_error show_priority x (api_to_db_model policy id) "create" ≡ e
      → Answered w policy client_id generated e
  unfolding process_policy_store_error new_internal_error new_already_exists_error
      new_policy_already_exists_error new_policy_not_found_error new_not_found_error
  write_answer w policy client_id generated id policy_id_taken e checked c same =
      by_type w policy client_id generated e already_exists (ap (λ y. y.type) (sym same))
        (taken id policy_id_taken checked c refl)
  write_answer w policy client_id generated id display_name_policy_type_taken e checked c same =
      by_type w policy client_id generated e already_exists (ap (λ y. y.type) (sym same))
        (taken id display_name_policy_type_taken checked c refl)
  write_answer w policy client_id generated id priority_policy_type_taken e checked c same =
      by_type w policy client_id generated e already_exists (ap (λ y. y.type) (sym same))
        (taken id priority_policy_type_taken checked c refl)
  write_answer w policy client_id generated id policy_not_found e checked c same =
      by_type w policy client_id generated e not_found (ap (λ y. y.type) (sym same))
        (not_stored id policy_not_found checked c refl)
  write_answer w policy client_id generated id (db record_not_found) e checked c same =
      by_type w policy client_id generated e not_found (ap (λ y. y.type) (sym same))
        (not_stored id (db record_not_found) checked c refl)
  write_answer w policy client_id generated id (db duplicated_key) e checked c same =
      by_type w policy client_id generated e internal (ap (λ y. y.type) (sym same))
        (not_stored id (db duplicated_key) checked c refl)
  write_answer w policy client_id generated id (db (driver text)) e checked c same =
      by_type w policy client_id generated e internal (ap (λ y. y.type) (sym same))
        (not_stored id (db (driver text)) checked c refl)

  finish_create_type :
      (id : String) (row : Policy) (r : World D N × Option String) (e : ServiceError)
      → (finish_create store engine show_priority id row r).1 ≡ err e
      → e.type ≡ internal
  unfolding finish_create new_internal_error
  finish_create_type id row (w, none) e h = cc
  finish_create_type id row (w, some x) e h = ground (arith, h)

  store_answer :
      (w : World D N) (policy : ApiPolicy) (client_id : Option String) (generated id : String)
      (write : D × Result StoreError Policy) (e : ServiceError)
      → create_checks store engine show_priority policy client_id generated ≡ ok id
      → store.create w.db (api_to_db_model policy id) ≡ write
      → (store_created store engine show_priority w (api_to_db_model policy id) write).1 ≡ err e
      → Answered w policy client_id generated e
  unfolding store_created
  store_answer w policy client_id generated id (d, err x) e checked c h =
      write_answer w policy client_id generated id x e checked (ap (λ r. r.1) c) (cc)
  store_answer w policy client_id generated id (d, ok row) e checked c h =
      by_type w policy client_id generated e internal (finish_create_type _ row _ e h)
        (not_compiled id row checked (ap (λ r. r.1) c))

  -- The error of the service is answered by its cause.
  pub service_answer :
      (w : World D N) (policy : ApiPolicy) (client_id : Option String) (generated : String)
      (e : ServiceError)
      → (Service.create_policy store engine show_priority w policy client_id generated).1 ≡ err e
      → Answered w policy client_id generated e
  unfolding Service.create_policy
  service_answer w policy client_id generated e h =
      elim (Result-cases (create_checks store engine show_priority policy client_id generated)) [
        | inr (x, f) ↦ checks_answer w policy client_id generated e (f ∙ ground (arith, f, h))
        | inl (id, f) ↦
            store_answer w policy client_id generated id
              (store.create w.db (api_to_db_model policy id)) e f refl
              (rw (f, Service.create_policy) at h)
      ]
