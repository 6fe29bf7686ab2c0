-- ===== src/Service.antt =====
-- internal/service/policy.go and engine_errors.go: the operations on policies. The store and the
-- engine are interfaces of the source, and records of operations here; `D` is the store's state
-- and `N` the engine's, which an operation returns as it leaves them.
pub mod Rollback
pub mod Publishing
pub mod Remaining
pub mod Checked
use dcm_policy_manager.Prelude.{
  ℕ, String, Bool, true, false, Option, none, some, List, [], ◌∷◌, ◌==◌, Result, ok, err, map_err,
  if◌then◌else◌, map, concat, check, ◌>>=◌, ◌>>◌,
}
use dcm_policy_manager.Prelude.Int.{ℤ}
use dcm_policy_manager.Policy.{Policy, PolicyListOptions, PolicyListResult}
use dcm_policy_manager.Errors.{
  ServiceError, new_invalid_argument_error, new_policy_not_found_error,
  new_policy_already_exists_error, new_already_exists_error, new_internal_error,
}
use dcm_policy_manager.Store.{
  DbError, duplicated_key, record_not_found, driver, StoreError, policy_not_found, policy_id_taken,
  display_name_policy_type_taken, priority_policy_type_taken, db,
}
use dcm_policy_manager.Convert.{ApiPolicy, api_to_db_model, db_to_api_model, deref_or}
use dcm_policy_manager.Checks.{
  validate_post_input, get_policy_id, validate_patch_input, validate_patch_immutable_fields,
  merge_policy_onto_policy,
}

pub record PolicyModule : Type 0 where
  pub id : String
  pub rego_code : String

-- The errors of the engine, by the sentinel that they wrap, with their text.
pub data EngineError : Type 0 where
  invalid_rego engine_internal unexpected : String → EngineError

pub record PolicyStore (D : Type 0) : Type 0 where
  pub list : D → Option PolicyListOptions → Result DbError PolicyListResult
  pub list_all : D → Result DbError (List Policy)
  pub create : D → Policy → D × Result StoreError Policy
  pub delete : D → String → D × Option StoreError
  pub update : D → Policy → D × Result StoreError Policy
  pub get : D → String → Result StoreError Policy

pub record Engine (N : Type 0) : Type 0 where
  pub compile : N → List PolicyModule → N × Option EngineError
  pub validate_rego : String → Option EngineError

-- `err.Error()` of the store's errors
unfoldable pub db_error_text : DbError → String
db_error_text duplicated_key = "duplicated key not allowed"
db_error_text record_not_found = "record not found"
db_error_text (driver text) = text

unfoldable pub store_error_text : StoreError → String
unfolding db_error_text
store_error_text policy_not_found = "policy not found"
store_error_text policy_id_taken = "policy ID already taken"
store_error_text display_name_policy_type_taken =
    "display_name and policy_type combination already taken"
store_error_text priority_policy_type_taken = "priority and policy_type combination already taken"
store_error_text (db e) = db_error_text e

abbrev pub engine_error_text : EngineError → String
engine_error_text (invalid_rego text) = text
engine_error_text (engine_internal text) = text
engine_error_text (unexpected text) = text

-- handleEngineError
abbrev engine_failure : String → String → ServiceError
engine_failure operation text =
    new_internal_error (concat ("Policy engine error during " ∷ operation ∷ []))
      "An unexpected error occurred in the policy engine" text

unfoldable pub handle_engine_error : EngineError → String → ServiceError
handle_engine_error (invalid_rego text) operation =
    new_invalid_argument_error "Invalid Rego code"
      (concat ("The Rego code contains syntax errors: " ∷ text ∷ []))
handle_engine_error (engine_internal text) operation = engine_failure operation text
handle_engine_error (unexpected text) operation = engine_failure operation text

-- processPolicyStoreError; `show_priority` prints an int32
unfoldable pub process_policy_store_error :
    (ℤ → String) → StoreError → Policy → String → ServiceError
unfolding store_error_text
process_policy_store_error show_priority policy_id_taken p operation =
    new_policy_already_exists_error p.id
process_policy_store_error show_priority display_name_policy_type_taken p operation =
    new_already_exists_error "Policy display name and policy type already exists" (
      concat (
        "A policy with display name '" ∷ p.display_name ∷ "' and policy type '" ∷ p.policy_type
        ∷ "' already exists" ∷ []))
process_policy_store_error show_priority priority_policy_type_taken p operation =
    new_already_exists_error "Policy priority and policy type already exists" (
      concat (
        "A policy with priority '"
        ∷ show_priority p.priority
        ∷ "' and policy type '"
        ∷ p.policy_type
        ∷ "' already exists"
        ∷ []))
process_policy_store_error show_priority policy_not_found p operation =
    new_policy_not_found_error p.id
process_policy_store_error show_priority (db record_not_found) p operation =
    new_policy_not_found_error p.id
process_policy_store_error show_priority (db e) p operation =
    new_internal_error (concat ("Failed to " ∷ operation ∷ " policy" ∷ []))
      (store_error_text (db e)) (store_error_text (db e))

-- An error of a read by ID.
abbrev read_failure : String → String → StoreError → ServiceError
read_failure message id policy_not_found = new_policy_not_found_error id
read_failure message id e = new_internal_error message (store_error_text e) (store_error_text e)

pub record World (D N : Type 0) : Type 0 where
  pub db : D
  pub engine : N

abbrev pub module_of : Policy → PolicyModule
module_of p = record { id = p.id; rego_code = p.rego_code }

module _ {D N : Type 0} (store : PolicyStore D) (engine : Engine N)
    (show_priority : ℤ → String) where
  recompiled : World D N → N × Option EngineError → World D N × Option String
  recompiled w (n, none) = (record w { engine = n }, none)
  recompiled w (n, some e) = (record w { engine = n }, some (engine_error_text e))

  -- CompileAll too; the error is its text
  unfoldable pub recompile_engine : World D N → World D N × Option String
  unfolding recompiled db_error_text
  recompile_engine w = elim (store.list_all w.db) [
    | err e ↦
        (w, some (concat ("failed to list policies for recompilation: " ∷ db_error_text e ∷ [])))
    | ok policies ↦ recompiled w (engine.compile w.engine (map module_of policies))
  ]

  -- the end of CreatePolicy, after the recompilation: a failure deletes the new row
  unfoldable pub finish_create :
      String → Policy → World D N × Option String → World D N × Result ServiceError ApiPolicy
  finish_create id row (w, none) = (w, ok (db_to_api_model row))
  finish_create id row (w, some e) = (
    record w { db = (store.delete w.db id).0 },
    err (new_internal_error "Failed to compile policies after create" e e),
  )

  unfoldable pub store_created :
      World D N → Policy → D × Result StoreError Policy → World D N × Result ServiceError ApiPolicy
  unfolding finish_create
  store_created w policy (d, err e) =
      (record w { db = d }, err (process_policy_store_error show_priority e policy "create"))
  store_created w policy (d, ok row) =
      finish_create policy.id row (recompile_engine (record w { db = d }))

  -- the checks before the store is touched
  unfoldable pub create_checks : ApiPolicy → Option String → String → Result ServiceError String
  create_checks policy client_id generated = do
    check (validate_post_input policy)
    id ← get_policy_id client_id generated
    elim (engine.validate_rego (deref_or "" policy.rego_code)) [
      | none ↦ ok id
      | some e ↦ err (handle_engine_error e "create")
    ]

  -- `generated` is the UUID that the call would draw
  unfoldable pub create_policy :
      World D N → ApiPolicy → Option String → String → World D N × Result ServiceError ApiPolicy
  unfolding store_created create_checks
  create_policy w policy client_id generated = elim (create_checks policy client_id generated) [
    | err e ↦ (w, err e)
    | ok id ↦ let row = api_to_db_model policy id in store_created w row (store.create w.db row)
  ]

  unfoldable pub get_policy : World D N → String → Result ServiceError ApiPolicy
  get_policy w id = elim (store.get w.db id) [
    | err e ↦ err (read_failure "Failed to get policy" id e)
    | ok row ↦ ok (db_to_api_model row)
  ]

  -- the end of UpdatePolicy: a failure writes the previous row back
  finish_update :
      Policy → Policy → World D N × Option String → World D N × Result ServiceError ApiPolicy
  finish_update previous row (w, none) = (w, ok (db_to_api_model row))
  finish_update previous row (w, some e) = (
    record w { db = (store.update w.db previous).0 },
    err (new_internal_error "Failed to compile policies after update" e e),
  )

  store_updated :
      World D N
      → Bool
      → Policy
      → Policy
      → D × Result StoreError Policy
      → World D N × Result ServiceError ApiPolicy
  unfolding finish_update
  store_updated w rego_changed previous policy (d, err e) =
      (record w { db = d }, err (process_policy_store_error show_priority e policy "update"))
  store_updated w true previous policy (d, ok row) =
      finish_update previous row (recompile_engine (record w { db = d }))
  store_updated w false previous policy (d, ok row) =
      (record w { db = d }, ok (db_to_api_model row))

  -- `patch != nil && patch.RegoCode != nil`, with the code
  abbrev pub new_rego : Option ApiPolicy → Option String
  new_rego none = none
  new_rego (some patch) = patch.rego_code

  abbrev pub rego_changed : Option ApiPolicy → Bool
  rego_changed patch = elim (new_rego patch) [ none ↦ false | some code ↦ true ]

  abbrev rego_error : Option String → Option ServiceError
  rego_error none = none
  rego_error (some code) = elim (engine.validate_rego code) [
    | none ↦ none
    | some e ↦ some (handle_engine_error e "update")
  ]

  -- the checks before the store is written, and the row that was read
  pub update_checks : World D N → String → Option ApiPolicy → Result ServiceError Policy
  update_checks w id patch = do
    check (validate_patch_input patch)
    existing ← map_err (read_failure "Failed to get existing policy" id) (store.get w.db id)
    check (validate_patch_immutable_fields patch (db_to_api_model existing))
    check (rego_error (new_rego patch))
    ok existing

  unfoldable pub update_policy :
      World D N → String → Option ApiPolicy → World D N × Result ServiceError ApiPolicy
  unfolding store_updated update_checks
  update_policy w id patch = elim (update_checks w id patch) [
    | err e ↦ (w, err e)
    | ok existing ↦
        let row = api_to_db_model (merge_policy_onto_policy patch (db_to_api_model existing)) id in
        store_updated w (rego_changed patch) existing row (store.update w.db row)
  ]

  pub deleted : String → World D N → D × Option StoreError → World D N × Option ServiceError
  deleted id w (d, some e) =
      (record w { db = d }, some (read_failure "Failed to delete policy" id e))
  deleted id w (d, none) = ((recompile_engine (record w { db = d })).0, none)

  -- a failed recompilation is only logged
  unfoldable pub delete_policy : World D N → String → World D N × Option ServiceError
  unfolding deleted
  delete_policy w id = deleted id w (store.delete w.db id)
