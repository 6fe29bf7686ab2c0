-- ===== src/Tests/Answering.antt =====
-- A request to create a policy whose code does not compile.
use dcm_policy_manager.Prelude.{Option, List, none, some, ◌≡◌, refl}
use dcm_policy_manager.Text.{trim_space}
use dcm_policy_manager.Convert.{api_to_db_model}
use dcm_policy_manager.Checks.{validate_post_input, get_policy_id}
use dcm_policy_manager.Errors.{new_internal_error}
use dcm_policy_manager.Service as Service
use dcm_policy_manager.PolicyApi.{
  ErrorBody, internal_code, Response, failure, ServerPolicy, create_policy,
}
use dcm_policy_manager.Policy.{Policy}
use dcm_policy_manager.Service.{World, PolicyModule}
use dcm_policy_manager.PolicyApi.Outcomes.{post}
use dcm_policy_manager.Tests.Serving.{one_row, picky, show_priority, empty_world}

abbrev bad_body : ServerPolicy
bad_body = record {
  create_time = none;
  description = none;
  display_name = some "second";
  enabled = none;
  id = none;
  label_selector = none;
  path = none;
  policy_type = some "USER";
  priority = none;
  rego_code = some "bad";
  update_time = none;
}

abbrev refused : World (Option Policy) (List PolicyModule) × Response ServerPolicy
refused = post one_row picky show_priority "g" empty_world (some bad_body) (some "p2")

abbrev bad_answer : ErrorBody
bad_answer = record {
  status = 500;
  type = internal_code;
  title = "Internal server error";
  detail = some "bad";
}

bad_posted : refused.1 ≡ failure bad_answer
unfolding create_policy Service.create_policy Service.recompile_engine validate_post_input
    trim_space get_policy_id api_to_db_model new_internal_error
bad_posted = refl
