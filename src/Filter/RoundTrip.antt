-- ===== src/Filter/RoundTrip.antt =====
-- The filters that the API documents, written as it documents them, are read back as they are.
use dcm_policy_manager.Prelude.{
  String, Bool, true, false, Option, none, some, ◌≡◌, refl, ok, concat, [], ◌∷◌,
}
use dcm_policy_manager.Policy.{PolicyFilter}
use dcm_policy_manager.Filter.{parse_filter, parse_conditions}

-- The types that a policy can have.
data PolicyType : Type 0 where
  global user : PolicyType

abbrev type_name : PolicyType → String
type_name global = "GLOBAL"
type_name user = "USER"

abbrev bool_name : Bool → String
bool_name true = "true"
bool_name false = "false"

abbrev type_condition : PolicyType → String
type_condition t = concat ("policy_type='" ∷ type_name t ∷ "'" ∷ [])

abbrev enabled_condition : Bool → String
enabled_condition b = concat ("enabled=" ∷ bool_name b ∷ [])

abbrev filter_expr : Option PolicyType → Option Bool → String
filter_expr none none = ""
filter_expr (some t) none = type_condition t
filter_expr none (some b) = enabled_condition b
filter_expr (some t) (some b) = concat (type_condition t ∷ " AND " ∷ enabled_condition b ∷ [])

abbrev filter_of_conditions : Option PolicyType → Option Bool → Option PolicyFilter
filter_of_conditions none none = none
filter_of_conditions (some t) none =
    some (record { policy_type = some (type_name t); enabled = none })
filter_of_conditions none (some b) = some (record { policy_type = none; enabled = some b })
filter_of_conditions (some t) (some b) =
    some (record { policy_type = some (type_name t); enabled = some b })

-- A filter expression of a condition on the type, one on the flag, both joined by AND, or neither
-- is parsed to these conditions.
parse_filter-filter_expr :
    (t : Option PolicyType) (b : Option Bool)
    → parse_filter (filter_expr t b) ≡ ok (filter_of_conditions t b)
unfolding parse_filter parse_conditions concat
parse_filter-filter_expr none none = refl
parse_filter-filter_expr none (some true) = refl
parse_filter-filter_expr none (some false) = refl
parse_filter-filter_expr (some global) none = refl
parse_filter-filter_expr (some user) none = refl
parse_filter-filter_expr (some global) (some true) = refl
parse_filter-filter_expr (some global) (some false) = refl
parse_filter-filter_expr (some user) (some true) = refl
parse_filter-filter_expr (some user) (some false) = refl
