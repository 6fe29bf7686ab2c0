-- ===== src/Tests/Calling.antt =====
-- Calls of the policy API on the program started over the empty database of Tests/Tables: a
-- creation, one that the checks refuse, a change of the Rego code, a listing, and a deletion of a
-- policy that is not there.
use dcm_policy_manager.Prelude.{map, none, some, List, [], ◌∷◌, ◌≡◌, refl, assign, concat}
use dcm_policy_manager.Prelude.Int.{pos}
use dcm_policy_manager.Text.{trim_space}
use dcm_policy_manager.Convert.{api_to_db_model, db_to_api_model}
use dcm_policy_manager.Checks.{
  validate_post_input, validate_priority, get_policy_id, validate_patch_input,
  validate_patch_immutable_fields, merge_policy_onto_policy,
}
use dcm_policy_manager.Service as Service
use dcm_policy_manager.Store as Store
use dcm_policy_manager.PolicyApi as Handlers
use dcm_policy_manager.Opa.{
  compile, new_queries, build_queries, main_query, trim_prefix, validate_rego,
}
use dcm_policy_manager.PolicyApi.{ServerPolicy}
use dcm_policy_manager.System.Requests.{
  ApiCall, create_policy, update_policy, list_policies, delete_policy, handle, after,
}
use dcm_policy_manager.Tests.Serving.{show_priority}
use dcm_policy_manager.Tests.Publishing.{echo}
use dcm_policy_manager.Tests.Tables.{rows_of, one_row_db}
use dcm_policy_manager.Tests.Running.{at_start}

abbrev pub empty_body : ServerPolicy
empty_body = record {
  create_time = none;
  description = none;
  display_name = none;
  enabled = none;
  id = none;
  label_selector = none;
  path = none;
  policy_type = none;
  priority = none;
  rego_code = none;
  update_time = none;
}

abbrev first_body : ServerPolicy
first_body = record empty_body {
  display_name = some "first";
  policy_type = some "GLOBAL";
  rego_code = some "package policies.p1";
}

abbrev calls : List ApiCall
calls =
    create_policy "g" (some first_body) (some "p1")
    ∷ create_policy "g" (some (record first_body { priority = some (pos 2000) })) (some "p2")
    ∷ update_policy "p1" (some (record empty_body { rego_code = some "package policies.p1 # v2" }))
    ∷ list_policies none none none none
    ∷ delete_policy "p9"
    ∷ []

-- the Rego code of the rows after the calls
codes_after :
    map (λ p. p.rego_code) (rows_of (after one_row_db echo show_priority at_start calls).db)
    ≡ "package policies.p1 # v2" ∷ []
unfolding after handle Handlers.create_policy Handlers.update_policy Service.create_policy
    Service.update_policy Service.delete_policy Service.recompile_engine validate_post_input
    validate_priority trim_space get_policy_id validate_patch_input validate_patch_immutable_fields
    api_to_db_model db_to_api_model merge_policy_onto_policy Handlers.policy_server_to_v1_alpha1
    compile new_queries build_queries main_query trim_prefix validate_rego assign concat
    Store.list_all Store.create Store.update Store.get Store.delete
codes_after = refl
