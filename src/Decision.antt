-- ===== src/Decision.antt =====
-- internal/opa/evaluation.go: the decision that is read from a policy's result.
use dcm_policy_manager.Prelude.{String, Bool, false, Option, none, some, List, [], ◌∷◌, ◌++◌}
use dcm_policy_manager.Value.{
  Items, nil, cons, Fields, get, as_map, as_slice, as_string, as_bool, assert,
}

pub record EvaluationResult : Type 0 where
  pub result : Fields
  pub defined : Bool

pub record ServiceProviderConstraints : Type 0 where
  pub allow_list : List String
  pub patterns : List String

-- A nil map is `none`.
pub record PolicyDecision : Type 0 where
  pub rejected : Bool
  pub rejection_reason : String
  pub patch : Option Fields
  pub constraints : Option Fields
  pub service_provider_constraints : Option ServiceProviderConstraints
  pub selected_provider : String

-- A value that is read if the assertion holds, and the zero value if it does not.
abbrev or_zero {ℓ} : {A : Type ℓ} → A → Option A → A
or_zero zero_value none = zero_value
or_zero zero_value (some a) = a

-- the loop that appends the items that are strings
append_strings : List String → Items → List String
append_strings out nil = out
append_strings out (cons item rest) =
    append_strings (elim (as_string item) [ some s ↦ out ++ s ∷ [] | none ↦ out ]) rest

strings_at : String → Fields → List String
unfolding append_strings
strings_at key spc = elim (assert as_slice (get key spc)) [
  | some list ↦ append_strings [] list
  | none ↦ []
]

parse_sp_constraints : Option Fields → Option ServiceProviderConstraints
unfolding strings_at
parse_sp_constraints none = none
parse_sp_constraints (some spc) =
    some (record { allow_list = strings_at "allow_list" spc; patterns = strings_at "patterns" spc })

unfoldable pub parse_policy_decision : Fields → PolicyDecision
unfolding parse_sp_constraints
parse_policy_decision result = record {
  rejected = or_zero false (assert as_bool (get "rejected" result));
  rejection_reason = or_zero "" (assert as_string (get "rejection_reason" result));
  patch = assert as_map (get "patch" result);
  constraints = assert as_map (get "constraints" result);
  service_provider_constraints =
      parse_sp_constraints (assert as_map (get "service_provider_constraints" result));
  selected_provider = or_zero "" (assert as_string (get "selected_provider" result));
}
