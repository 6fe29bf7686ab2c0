-- ===== src/Tests/Evaluating.antt =====
-- An evaluation of two policies on two pages.
use dcm_policy_manager.Prelude.{
  String, true, false, Option, none, some, [], ◌∷◌, ◌==◌, ◌≡◌, refl, arith, eq_iff, Result, ok,
  Assoc, lookup,
}
use dcm_policy_manager.Prelude.Int.{pos}
use dcm_policy_manager.Value.{str, obj, Fields, end, field, get, put}
use dcm_policy_manager.Labels.{matches_label_selector}
use dcm_policy_manager.Decision.{EvaluationResult, parse_policy_decision}
use dcm_policy_manager.Patch.{merge_patch, merge_entries}
use dcm_policy_manager.Constraints.{new_constraint_context}
use dcm_policy_manager.Constraints.Validation.{validate_patch, validate_field}
use dcm_policy_manager.Constraints.Providers.{merge_sp_constraints, validate_service_provider}
use dcm_policy_manager.Policy.{Policy, PolicyListOptions, PolicyListResult}
use dcm_policy_manager.Evaluation.{Progress, evaluate_policy, evaluate_page}
use dcm_policy_manager.Evaluation.Step.{Narrows, Advances, evaluate_policy-Advances}
use dcm_policy_manager.Evaluation.Pages.{Pages, last, more, evaluate_page-Narrows}
use dcm_policy_manager.Tests.Libraries.{library, copy_faithful}

abbrev pub policy : String → Assoc String → Policy
policy id selector = record {
  id = id;
  display_name = id;
  description = "";
  policy_type = "GLOBAL";
  label_selector = selector;
  priority = pos 1;
  rego_code = "package p";
  enabled = true;
  create_time = 0;
  update_time = 0;
}

abbrev pub small : Policy
small = policy "small" []

abbrev silent : Policy
silent = policy "silent" []

abbrev for_gold : Policy
for_gold = policy "gold" (("tier", "gold") ∷ [])

abbrev pub decision : Fields
decision =
    field "patch" (obj (field "size" (str "small") end)) (field "selected_provider" (str "aws") end)

-- The policy "small" patches the size and chooses a provider; the others are undefined.
abbrev pub evaluate : String → Fields → Result String EvaluationResult
evaluate id input = ok (record { result = decision; defined = id == "small" })

abbrev pub start : Progress
start = record {
  current_spec = field "size" (str "large") end;
  selected_provider = "";
  constraint_ctx = new_constraint_context;
}

abbrev after_small : Progress
after_small = record {
  current_spec = field "size" (str "small") end;
  selected_provider = "aws";
  constraint_ctx = new_constraint_context;
}

small_evaluated : evaluate_policy library evaluate small start ≡ ok after_small
unfolding evaluate_policy parse_policy_decision merge_patch merge_entries validate_patch
    validate_field validate_service_provider merge_sp_constraints lookup get put
small_evaluated = refl

evaluate_policy-Advances_example : Advances library start after_small
evaluate_policy-Advances_example =
    evaluate_policy-Advances library evaluate small start after_small copy_faithful small_evaluated

page_evaluated : evaluate_page library evaluate [] (small ∷ silent ∷ []) start ≡ ok after_small
unfolding evaluate_page matches_label_selector evaluate_policy parse_policy_decision merge_patch
    merge_entries validate_patch validate_field validate_service_provider merge_sp_constraints
    lookup get put
page_evaluated = refl

evaluate_page-Narrows_example : Narrows library start.constraint_ctx after_small.constraint_ctx
evaluate_page-Narrows_example =
    evaluate_page-Narrows library evaluate [] (small ∷ silent ∷ []) start after_small copy_faithful
      page_evaluated

gold_skipped : matches_label_selector for_gold.label_selector [] ≡ false
unfolding matches_label_selector lookup
gold_skipped = refl

abbrev page_at : Option String → PolicyListResult
page_at none = record { policies = small ∷ []; next_page_token = "next" }
page_at (some token) = record { policies = silent ∷ []; next_page_token = "" }

abbrev listing : PolicyListOptions → Result String PolicyListResult
listing opts = ok (page_at opts.page_token)

listing-Pages : Pages listing none (small ∷ silent ∷ []) 2
listing-Pages = more refl (ground (arith, eq_iff "next" "")) (last refl refl)
