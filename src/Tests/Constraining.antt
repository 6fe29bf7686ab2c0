-- ===== src/Tests/Constraining.antt =====
-- Constraints, patches and labels at concrete inputs.
use dcm_policy_manager.Prelude.{
  String, true, Option, none, some, List, [], ◌∷◌, ◌≡◌, ◌↔◌, refl, arith, eq_iff, ok, Assoc, lookup,
  assign, All,
}
use dcm_policy_manager.Prelude.Int.{pos}
use dcm_policy_manager.Value.{null, str, float64, obj, Fields, end, field, get, put, delete, IsMap}
use dcm_policy_manager.Value.Copy.{deep_copy_schema_map}
use dcm_policy_manager.Labels.{matches_label_selector, HasLabel, matches_label_selector_iff}
use dcm_policy_manager.Decision.{ServiceProviderConstraints}
use dcm_policy_manager.Patch.{merge_patch, merge_entries}
use dcm_policy_manager.Patch.Entries.{merged_field, merge_patch-get}
use dcm_policy_manager.Constraints.{
  ConstraintContext, AccumulatedSpConstraints, new_constraint_context,
}
use dcm_policy_manager.Constraints.Keywords.{
  rule_of, merge_keyword, to_float64, max_ℤ, merge_schema_keywords,
}
use dcm_policy_manager.Constraints.Keywords.Tightening.{StaysTight, merge_schema_keywords-tight}
use dcm_policy_manager.Constraints.Merging.{merge_constraint, merge_constraints}
use dcm_policy_manager.Constraints.Merging.Keeping.{
  InForce, StaysInForce, merge_constraints-StaysInForce,
}
use dcm_policy_manager.Constraints.Providers.{
  intersect_string_slices, merge_sp_constraints, validate_service_provider,
}
use dcm_policy_manager.Constraints.Providers.Meaning.{
  AllowsProvider, DecisionAllows, validate_service_provider_iff,
}
use dcm_policy_manager.Constraints.Providers.Narrowing.{merge_sp_constraints_iff}
use dcm_policy_manager.Tests.Libraries.{library, copy_faithful}

abbrev selector : Assoc String
selector = ("tier", "gold") ∷ []

abbrev labels : Assoc String
labels = ("service_type", "vm") ∷ ("tier", "gold") ∷ []

matches_label_selector_iff_example :
    (matches_label_selector selector labels ≡ true) ↔ All (HasLabel labels) selector
matches_label_selector_iff_example = matches_label_selector_iff selector labels

labels_match : matches_label_selector selector labels ≡ true
unfolding matches_label_selector lookup
labels_match = refl

abbrev base : Fields
base = field "size" (str "large") (field "disk" (obj (field "gb" (float64 (pos 8)) end)) end)

abbrev patch : Fields
patch = field "size" (str "small") (field "disk" (obj (field "gb" null end)) end)

abbrev patched : Fields
patched = field "size" (str "small") (field "disk" (obj end) end)

base_patched : merge_patch library.copy base patch ≡ ok patched
unfolding merge_patch merge_entries get put delete
base_patched = refl

patch-IsMap : IsMap patch
patch-IsMap = ((ground (arith, eq_iff "disk" "size"), tt), (tt, tt))

merge_patch-get_example :
    merged_field library.copy (get "disk" base) (get "disk" patch) ≡ ok (get "disk" patched)
merge_patch-get_example =
    merge_patch-get library.copy base patch patched "disk" copy_faithful patch-IsMap base_patched

abbrev at_least_two : Fields
at_least_two = field "minimum" (float64 (pos 2)) end

abbrev at_least_four : Fields
at_least_four = field "minimum" (float64 (pos 4)) end

bounds_merged :
    merge_schema_keywords library at_least_two at_least_four "cpu" "policy-1" ≡ ok at_least_four
unfolding merge_schema_keywords merge_keyword deep_copy_schema_map rule_of to_float64 max_ℤ get put
bounds_merged = refl

merge_schema_keywords-tight_example :
    StaysTight library (rule_of "minimum") "minimum" (float64 (pos 2)) at_least_four
unfolding get
merge_schema_keywords-tight_example =
    merge_schema_keywords-tight library at_least_two at_least_four at_least_four "cpu" "policy-1"
      "minimum" (float64 (pos 2)) copy_faithful refl bounds_merged

abbrev constrained : Fields → ConstraintContext
constrained schema = record new_constraint_context {
  constrained_fields_by_field_path = ("cpu", schema) ∷ [];
  policy_id_by_field_path = ("cpu", "policy-1") ∷ [];
}

cpu-InForce : InForce (constrained at_least_two) "cpu" "minimum" (float64 (pos 2))
unfolding lookup get
cpu-InForce = record { schema = at_least_two; constrained = refl; given = refl }

constraints_merged :
    merge_constraints library
      (constrained at_least_two)
      (field "cpu" (obj at_least_four) end)
      "policy-2"
    ≡ (constrained at_least_four, none)
unfolding merge_constraints merge_constraint merge_schema_keywords merge_keyword
    deep_copy_schema_map rule_of to_float64 max_ℤ get put lookup assign
constraints_merged = refl

merge_constraints-StaysInForce_example :
    StaysInForce library (constrained at_least_four) "cpu" "minimum" (float64 (pos 2))
merge_constraints-StaysInForce_example =
    merge_constraints-StaysInForce library (constrained at_least_two) (constrained at_least_four)
      "cpu" "minimum" (float64 (pos 2)) (field "cpu" (obj at_least_four) end) "policy-2"
      copy_faithful cpu-InForce constraints_merged

abbrev sp : List String → AccumulatedSpConstraints
sp allow_list = record { allow_list = allow_list; patterns = []; set_by_policy = "policy-1" }

abbrev with_providers : List String → ConstraintContext
with_providers allow_list = record new_constraint_context {
  service_provider_constraints = some (sp allow_list);
}

abbrev asked : Option ServiceProviderConstraints
asked = some (record { allow_list = "gcp" ∷ "aws" ∷ []; patterns = [] })

providers_merged :
    merge_sp_constraints library (with_providers ("aws" ∷ "azure" ∷ [])) asked "policy-2"
    ≡ ok (with_providers ("aws" ∷ []))
unfolding merge_sp_constraints intersect_string_slices
providers_merged = refl

merge_sp_constraints_iff_example : AllowsProvider library (with_providers ("aws" ∷ [])) "aws" ↔ (
    AllowsProvider library (with_providers ("aws" ∷ "azure" ∷ [])) "aws"
    × DecisionAllows library asked "aws")
merge_sp_constraints_iff_example =
    merge_sp_constraints_iff library (with_providers ("aws" ∷ "azure" ∷ []))
      (with_providers ("aws" ∷ [])) asked "policy-2" "aws" providers_merged

validate_service_provider_iff_example :
    (validate_service_provider library (with_providers ("aws" ∷ [])) "aws" ≡ none)
    ↔ AllowsProvider library (with_providers ("aws" ∷ [])) "aws"
validate_service_provider_iff_example =
    validate_service_provider_iff library (with_providers ("aws" ∷ [])) "aws"
      (ground (arith, eq_iff "aws" ""))
