-- ===== src/Constraints/Views.antt =====
-- GetConstraintsMap and GetSPConstraintsMap of internal/service/constraints.go: what a policy sees
-- of the accumulated constraints. A `[]string` is passed on as an array of texts.
use dcm_policy_manager.Prelude.{
  String, Option, none, some, List, [], ◌∷◌, map, Assoc, if◌then◌else◌, is_empty,
}
use dcm_policy_manager.Value.{Value, str, arr, obj, Fields, end, field, put, from_items}
use dcm_policy_manager.Constraints.{ConstraintContext}

-- the loop that copies each entry into the result
to_fields : Assoc Fields → Fields
to_fields [] = end
to_fields ((k, v) ∷ rest) = field k (obj v) (to_fields rest)

unfoldable pub get_constraints_map : ConstraintContext → Option Fields
unfolding to_fields
get_constraints_map c = elim c.constrained_fields_by_field_path [
  | [] ↦ none
  | e ∷ es ↦ some (to_fields (e ∷ es))
]

abbrev strings : List String → Value
strings ss = arr (from_items (map str ss))

unfoldable pub get_sp_constraints_map : ConstraintContext → Option Fields
get_sp_constraints_map c = elim c.service_provider_constraints [
  | none ↦ none
  | some sp ↦
      let lists =
        if is_empty sp.allow_list then end else put "allow_list" (strings sp.allow_list) end in
      some (if is_empty sp.patterns then lists else put "patterns" (strings sp.patterns) lists)
]
