-- ===== src/System/Evaluations.antt =====
-- An evaluation in a state that the program reaches: EvaluateRequest over the store and the
-- embedded engine, as NewEvaluationService of cmd/policy-manager/main.go puts them together.
use mathlib.Core.List.{Memᴰ}
use dcm_policy_manager.Prelude.{
  ℕ, suc, ◌*◌, ◌≤◌, String, true, List, [], ◌∷◌, All, All_at, All_of, ◌≡◌, Option, some, Result,
  map_err, length, Assoc,
}
use dcm_policy_manager.Prelude.Int.{ℤ}
use dcm_policy_manager.Value.{Fields}
use dcm_policy_manager.Runtime.{Runtime}
use dcm_policy_manager.Decision.{EvaluationResult}
use dcm_policy_manager.Errors.{ServiceError}
use dcm_policy_manager.Policy.{Policy}
use dcm_policy_manager.Store.{Gorm, enabled_is, default_order}
use dcm_policy_manager.Store.Paging.{IsTable, IsTokenCodec}
use dcm_policy_manager.Store.Database.{IsDatabase, IsUp}
use dcm_policy_manager.Service.{World, engine_error_text}
use dcm_policy_manager.Evaluation.{EvaluationRequest, EvaluationResponse}
use dcm_policy_manager.Evaluation as Evaluation
use dcm_policy_manager.Evaluation.Listing.{stored}
use dcm_policy_manager.Evaluation.Whole.{evaluate_all, evaluate_request-evaluate_all}
use dcm_policy_manager.Opa.{Library, evaluate_policy}
use dcm_policy_manager.System.{Reach}
use dcm_policy_manager.System.Served.{Served}
use dcm_policy_manager.System.Serving.{Reach-Serving}

module _ {C S D K Q : Type 0} (rt : Runtime C S) (gorm : Gorm D) (opa : Library K Q) where
  -- EvaluatePolicy of the engine, an error by its text
  abbrev pub evaluate_by : Assoc Q → String → Fields → Result String EvaluationResult
  evaluate_by queries policy_id input =
      map_err engine_error_text (evaluate_policy opa queries policy_id input)

  unfoldable pub evaluate_request :
      ℕ → World D (Assoc Q) → EvaluationRequest → Option (Result ServiceError EvaluationResponse)
  evaluate_request fuel w req =
      Evaluation.evaluate_request rt (evaluate_by w.engine) (stored gorm w.db) fuel req

  -- In every state that the program reaches, if the database does as documented and answers, its
  -- queries for the enabled policies in the default order are windows of a table of its rows and
  -- page tokens can be read back, an evaluation with fuel for all pages ends: its outcome is that
  -- of evaluating each policy of the table once, in order, and the query of each was prepared from
  -- its present Rego code.
  pub Reach-evaluate_request :
      (rows : D → List Policy) (database : IsDatabase gorm rows) (up : IsUp gorm rows)
      (show_priority : ℤ → String) (w : World D (Assoc Q)) (table : List Policy) (fuel : ℕ)
      (req : EvaluationRequest)
      → Reach gorm opa show_priority w
      → IsTable gorm w.db (enabled_is true ∷ []) default_order table
      → All (λ p. Memᴰ p (rows w.db)) table
      → IsTokenCodec gorm
      → length table ≤ 1000 * suc fuel
      → (evaluate_request (suc fuel) w req
          ≡ some (evaluate_all rt (evaluate_by w.engine) table req))
        × All (Served opa w.engine) table
  unfolding evaluate_request
  Reach-evaluate_request rows database up show_priority w table fuel req reached ordered inside
        codec h =
      (
        evaluate_request-evaluate_all rt (evaluate_by w.engine) gorm w.db table ordered codec fuel
            req h,
        All_of (Served opa w.engine) table (λ p m.
            All_at (Served opa w.engine) p (rows w.db)
              (Reach-Serving opa gorm rows database up show_priority reached)
              (All_at (λ p. Memᴰ p (rows w.db)) p table inside m)),
      )
