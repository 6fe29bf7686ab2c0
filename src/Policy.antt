-- ===== src/Policy.antt =====
-- internal/store/model/policy.go, and the parts of internal/store/policy.go that its callers share:
-- the record of a policy, the filter and the options of a listing, and what a listing returns.
use dcm_policy_manager.Prelude.{ℕ, String, Bool, Option, List, Assoc}
use dcm_policy_manager.Prelude.Int.{ℤ}

-- Times are counted in the store's unit.
pub record Policy : Type 0 where
  pub id : String
  pub display_name : String
  pub description : String
  pub policy_type : String
  pub label_selector : Assoc String
  pub priority : ℤ
  pub rego_code : String
  pub enabled : Bool
  pub create_time : ℕ
  pub update_time : ℕ

pub record PolicyFilter : Type 0 where
  pub policy_type : Option String
  pub enabled : Option Bool

pub record PolicyListOptions : Type 0 where
  pub filter : Option PolicyFilter
  pub order_by : String
  pub page_token : Option String
  pub page_size : ℤ

pub record PolicyListResult : Type 0 where
  pub policies : List Policy
  pub next_page_token : String
