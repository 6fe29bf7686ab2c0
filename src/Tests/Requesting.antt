-- ===== src/Tests/Requesting.antt =====
-- A request with a label, and a listing with a filter and an order.
use dcm_policy_manager.Prelude.{
  String, true, none, some, [], ◌∷◌, ◌≡◌, refl, arith, eq_iff, ok, Assoc, lookup, assign,
  if◌then◌else◌, ◌==◌, ◌↔◌, join, concat,
}
use dcm_policy_manager.Prelude.Int.{pos}
use dcm_policy_manager.Value.{Fields, end, field, str, obj, float64, get, IsMap, as_string, assert}
use dcm_policy_manager.Policy.{PolicyFilter, PolicyListOptions}
use dcm_policy_manager.Text.{trim_space, fields, split_at}
use dcm_policy_manager.EngineApi.{extract_request_labels, add_labels}
use dcm_policy_manager.EngineApi.RequestLabels.{labels_of, or_else, extract_request_labels-lookup}
use dcm_policy_manager.Filter.{parse_filter, parse_conditions, filter_of, check_and}
use dcm_policy_manager.Filter.Meaning.{IsFilterOf, parse_filter_iff}
use dcm_policy_manager.OrderBy.{parse_order_by, parse_parts, parse_tokens, parse_direction}
use dcm_policy_manager.Listings.{get_list_options, page_size_or_default}
use dcm_policy_manager.Listings.Options.{IsSafe, get_list_options-IsSafe}

abbrev gold_labels : Fields
gold_labels = field "tier" (str "gold") (field "replicas" (float64 (pos 3)) end)

abbrev gold_spec : Fields
gold_spec =
    field "service_type" (str "vm")
      (field "metadata" (obj (field "labels" (obj gold_labels) end)) end)

abbrev extracted : Assoc String
extracted = ("service_type", "vm") ∷ ("tier", "gold") ∷ []

gold_extracted : extract_request_labels gold_spec ≡ ok extracted
unfolding extract_request_labels add_labels get assign
gold_extracted = refl

gold_labels-IsMap : IsMap gold_labels
gold_labels-IsMap = ((ground (arith, eq_iff "replicas" "tier"), tt), (tt, tt))

labels_found : labels_of gold_spec ≡ gold_labels
unfolding get
labels_found = refl

extract_request_labels-lookup_example :
    lookup "tier" extracted
    ≡ or_else
        (assert as_string (get "tier" (labels_of gold_spec)))
        (if "service_type" == "tier" then some "vm" else none)
unfolding get
extract_request_labels-lookup_example =
    extract_request_labels-lookup gold_spec extracted "vm" "tier" gold_labels-IsMap refl
      gold_extracted

by_time : parse_order_by "create_time desc, priority" ≡ ok "create_time DESC, priority ASC"
unfolding parse_order_by parse_parts parse_tokens parse_direction trim_space fields split_at concat
    join
by_time = refl

abbrev user_options : PolicyListOptions
user_options = record {
  filter = some (record { policy_type = some "USER"; enabled = some true });
  order_by = "priority ASC";
  page_token = none;
  page_size = pos 20;
}

user_listing :
    get_list_options
      (some "policy_type = 'USER' AND enabled=true")
      (some "priority")
      none
      (some (pos 20))
    ≡ ok user_options
unfolding get_list_options page_size_or_default parse_filter parse_conditions filter_of check_and
    parse_order_by parse_parts parse_tokens parse_direction trim_space fields split_at concat join
user_listing = refl

get_list_options-IsSafe_example : IsSafe user_options
get_list_options-IsSafe_example =
    get_list_options-IsSafe (some "policy_type = 'USER' AND enabled=true") (some "priority") none
      (some (pos 20)) user_options user_listing

abbrev users : PolicyFilter
users = record { policy_type = some "USER"; enabled = none }

parse_filter_iff_example :
    (parse_filter "x policy_type = 'USER' y" ≡ ok (some users))
    ↔ IsFilterOf "x policy_type = 'USER' y" users
parse_filter_iff_example =
    parse_filter_iff "x policy_type = 'USER' y" users
      (ground (arith, eq_iff "x policy_type = 'USER' y" ""))

users_parsed : parse_filter "x policy_type = 'USER' y" ≡ ok (some users)
unfolding parse_filter parse_conditions
users_parsed = refl
