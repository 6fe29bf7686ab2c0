-- ===== src/Listings.antt =====
-- ListPolicies of internal/service/policy.go, with getListOptions.
pub mod Options
use dcm_policy_manager.Prelude.{
  ℕ, String, Bool, true, false, Option, none, some, List, [], ◌∷◌, ◌==◌, Result, ok, err, ◌>>=◌,
  if◌then◌else◌, map, map_err,
}
use dcm_policy_manager.Prelude.Int.{ℤ, pos, ltb_ℤ}
use dcm_policy_manager.Policy.{Policy, PolicyFilter, PolicyListOptions, PolicyListResult}
use dcm_policy_manager.Errors.{ServiceError, new_invalid_argument_error, new_internal_error}
use dcm_policy_manager.Store.{DbError}
use dcm_policy_manager.Convert.{ApiPolicy, db_to_api_model, deref_or}
use dcm_policy_manager.Filter.{parse_filter}
use dcm_policy_manager.OrderBy.{parse_order_by}
use dcm_policy_manager.Service.{PolicyStore, db_error_text}

pub record PolicyList : Type 0 where
  pub next_page_token : Option String
  pub policies : List ApiPolicy

abbrev pub filter_or_none : Option String → Result ServiceError (Option PolicyFilter)
filter_or_none none = ok none
filter_or_none (some filter) = if filter == "" then ok none else parse_filter filter

unfoldable pub page_size_or_default : Option ℤ → Result ServiceError ℤ
page_size_or_default none = ok (pos 50)
page_size_or_default (some page_size) =
    if ltb_ℤ page_size (pos 1)
    then err (new_invalid_argument_error "Invalid page size" "Page size must be at least 1")
    else if ltb_ℤ (pos 1000) page_size
    then err (new_invalid_argument_error "Invalid page size" "Page size must not exceed 1000")
    else ok page_size

unfoldable pub get_list_options :
    Option String → Option String → Option String → Option ℤ → Result ServiceError PolicyListOptions
unfolding page_size_or_default
get_list_options filter order_by page_token page_size = do
  policy_filter ← filter_or_none filter
  order ← parse_order_by (deref_or "" order_by)
  size ← page_size_or_default page_size
  ok (record {
    filter = policy_filter;
    order_by = order;
    page_token = page_token;
    page_size = size;
  })

abbrev next_token : String → Option String
next_token token = if token == "" then none else some token

abbrev to_list : PolicyListResult → PolicyList
to_list result = record {
  next_page_token = next_token result.next_page_token;
  policies = map db_to_api_model result.policies;
}

abbrev list_failure : DbError → ServiceError
list_failure e = new_internal_error "Failed to list policies" (db_error_text e) (db_error_text e)

unfoldable pub list_policies :
    {D : Type 0}
    → PolicyStore D
    → D
    → Option String
    → Option String
    → Option String
    → Option ℤ
    → Result ServiceError PolicyList
unfolding get_list_options
list_policies store d filter order_by page_token page_size = do
  opts ← get_list_options filter order_by page_token page_size
  result ← map_err list_failure (store.list d (some opts))
  ok (to_list result)
