-- ===== src/Tests/Reaching.antt =====
-- An evaluation of the policy that Tests/Running created and updated.
use mathlib.Core.List.{Memᴰ}
use dcm_policy_manager.Prelude.{true, some, [], ◌∷◌, All, ◌≡◌, refl, arith}
use dcm_policy_manager.Value.{field, str, end}
use dcm_policy_manager.Store.{enabled_is, default_order}
use dcm_policy_manager.Store.Paging.{IsTable}
use dcm_policy_manager.Convert.{api_to_db_model, db_to_api_model}
use dcm_policy_manager.Checks.{merge_policy_onto_policy}
use dcm_policy_manager.Evaluation.{EvaluationRequest}
use dcm_policy_manager.Evaluation.Whole.{evaluate_all}
use dcm_policy_manager.System.Served.{Served}
use dcm_policy_manager.System.Evaluations.{evaluate_by, evaluate_request, Reach-evaluate_request}
use dcm_policy_manager.Tests.Libraries.{library}
use dcm_policy_manager.Tests.Serving.{show_priority}
use dcm_policy_manager.Tests.Publishing.{echo}
use dcm_policy_manager.Tests.Tables.{
  rows_of, one_row_db, one_row_db-IsDatabase, one_row_db-IsUp, one_row_db-IsTokenCodec,
}
use dcm_policy_manager.Tests.Running.{with_new_code, updated_p1, reached}

abbrev small_request : EvaluationRequest
small_request = record { service_instance = field "size" (str "small") end; request_labels = [] }

one-IsTable :
    IsTable one_row_db with_new_code.db (enabled_is true ∷ []) default_order (updated_p1 ∷ [])
unfolding api_to_db_model db_to_api_model merge_policy_onto_policy
one-IsTable = record { window = λ limit offset. refl }

Reach-evaluate_request_example :
    (evaluate_request library one_row_db echo 1 with_new_code small_request
      ≡ some (
          evaluate_all library
            (evaluate_by library one_row_db echo with_new_code.engine)
            (updated_p1 ∷ [])
            small_request))
    × All (Served echo with_new_code.engine) (updated_p1 ∷ [])
Reach-evaluate_request_example =
    Reach-evaluate_request library one_row_db echo rows_of one_row_db-IsDatabase one_row_db-IsUp
      show_priority with_new_code (updated_p1 ∷ []) 0 small_request reached one-IsTable
      (Memᴰ.head refl, tt) one_row_db-IsTokenCodec (omega arith)
