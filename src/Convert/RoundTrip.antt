-- ===== src/Convert/RoundTrip.antt =====
-- A row survives the way to an API policy and back, but for its times.
use dcm_policy_manager.Prelude.{◌≡◌, arith, eq_iff}
use dcm_policy_manager.Policy.{Policy}
use dcm_policy_manager.Convert.{api_to_db_model, db_to_api_model}

-- The API policy of a row, converted back under the row's ID, is the row with the times reset.
pub api_to_db_model-db_to_api_model :
    (db : Policy)
    → api_to_db_model (db_to_api_model db) db.id ≡ record db { create_time = 0; update_time = 0 }
unfolding api_to_db_model db_to_api_model
api_to_db_model-db_to_api_model db = ground (arith, eq_iff db.description "")
