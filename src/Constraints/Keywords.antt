-- ===== src/Constraints/Keywords.antt =====
-- mergeSchemaKeywords of internal/service/constraints.go: the JSON Schema keywords of two policies
-- for one field. The cases of the source's switch are the constructors of `Rule`.
pub mod Cases
pub mod Tightening
use dcm_policy_manager.Prelude.{
  ℕ, ◌+◌, ◌%◌, String, Bool, true, false, not, Option, none, some, List, [], ◌∷◌, ◌++◌, ◌==◌, ◌||◌,
  Result, ok, err, ◌>>=◌, if◌then◌else◌, nat_eq, concat,
}
use dcm_policy_manager.Prelude.Int.{ℤ, pos, negsuc, ltb_ℤ, magnitude}
use dcm_policy_manager.Value.{
  Value, null, float64, number, str, arr, obj, Items, nil, cons, Fields, end, field, get, put,
  items, from_items, as_slice, as_string, assert,
}
use dcm_policy_manager.Value.Copy.{deep_copy_schema_map}
use dcm_policy_manager.Runtime.{Runtime}
use dcm_policy_manager.Constraints.{ConstraintConflictError}

pub data Rule : Type 0 where
  const_rule enum_rule at_least at_most above below pattern_rule multiple_of_rule other : Rule

unfoldable pub rule_of : String → Rule
rule_of keyword =
    if keyword == "const"
    then const_rule
    else if keyword == "enum"
    then enum_rule
    else if keyword == "minimum"
        || keyword == "minLength"
        || keyword == "minItems"
        || keyword == "minProperties"
    then at_least
    else if keyword == "maximum"
        || keyword == "maxLength"
        || keyword == "maxItems"
        || keyword == "maxProperties"
    then at_most
    else if keyword == "exclusiveMinimum"
    then above
    else if keyword == "exclusiveMaximum"
    then below
    else if keyword == "pattern"
    then pattern_rule
    else if keyword == "multipleOf"
    then multiple_of_rule
    else other

-- math.Max and math.Min on finite numbers
unfoldable pub max_ℤ : ℤ → ℤ → ℤ
max_ℤ a b = if ltb_ℤ a b then b else a

unfoldable pub min_ℤ : ℤ → ℤ → ℤ
min_ℤ a b = if ltb_ℤ b a then b else a

-- `math.Mod(a, b) == 0` for finite numbers and b not 0: the remainder is that of the magnitudes,
-- with the sign of a.
unfoldable pub divides : ℤ → ℤ → Bool
divides b a = nat_eq (magnitude a % magnitude b) 0

-- `existingNum != 0`
abbrev pub is_zero : ℤ → Bool
is_zero n = nat_eq (magnitude n) 0

module _ {C S : Type 0} (rt : Runtime C S) where
  unfoldable pub to_float64 : Value → Option ℤ
  to_float64 (float64 n) = some n
  to_float64 (number s) = rt.parse_float s
  to_float64 _ = none

  -- the comparison of the marshalled texts, or of what %v prints where one cannot be marshalled
  same_json : Value → Value → Result String String → Result String String → Bool
  same_json a b (ok a_bytes) (ok b_bytes) = a_bytes == b_bytes
  same_json a b _ _ = rt.sprint a == rt.sprint b

  unfoldable pub json_values_equal : Value → Value → Bool
  unfolding same_json
  json_values_equal a b = same_json a b (rt.marshal a) (rt.marshal b)

  -- the inner loop of intersectAnySlices, with its `break`
  unfoldable pub occurs_in : Value → List Value → Bool
  occurs_in av [] = false
  occurs_in av (bv ∷ bs) = json_values_equal av bv || occurs_in av bs

  unfoldable pub intersect_any_slices : List Value → List Value → List Value
  intersect_any_slices [] b = []
  intersect_any_slices (av ∷ a) b =
      let rest = intersect_any_slices a b in if occurs_in av b then av ∷ rest else rest

  module _ (field_path existing_policy_id : String) where
    conflict : List String → Result ConstraintConflictError Fields
    conflict reason = err (record {
      field_path = field_path;
      set_by_policy = existing_policy_id;
      reason = concat reason;
    })

    loosens : String → ℤ → ℤ → Result ConstraintConflictError Fields
    unfolding conflict
    loosens keyword existing_num new_num = conflict (
        "cannot loosen "
        ∷ keyword
        ∷ " constraint on field '"
        ∷ field_path
        ∷ "': existing "
        ∷ rt.sprint (float64 existing_num)
        ∷ " (set by policy '"
        ∷ existing_policy_id
        ∷ "'), attempted "
        ∷ rt.sprint (float64 new_num)
        ∷ [])

    -- "minimum" and the like can only increase; so does "exclusiveMinimum".
    pub raise : String → Option ℤ → Option ℤ → Fields → Result ConstraintConflictError Fields
    unfolding loosens
    raise keyword (some existing_num) (some new_num) merged =
        if ltb_ℤ new_num existing_num
        then loosens keyword existing_num new_num
        else ok (put keyword (float64 (max_ℤ existing_num new_num)) merged)
    raise keyword _ _ merged = ok merged

    -- "maximum" and the like can only decrease; so does "exclusiveMaximum".
    pub lower : String → Option ℤ → Option ℤ → Fields → Result ConstraintConflictError Fields
    unfolding loosens
    lower keyword (some existing_num) (some new_num) merged =
        if ltb_ℤ existing_num new_num
        then loosens keyword existing_num new_num
        else ok (put keyword (float64 (min_ℤ existing_num new_num)) merged)
    lower keyword _ _ merged = ok merged

    pub merge_const : Value → Value → Fields → Result ConstraintConflictError Fields
    unfolding conflict
    merge_const existing_val new_val merged =
        if json_values_equal existing_val new_val
        then ok merged
        else conflict (
            "cannot change const constraint on field '"
            ∷ field_path
            ∷ "': existing value "
            ∷ rt.sprint existing_val
            ∷ " (set by policy '"
            ∷ existing_policy_id
            ∷ "') differs from new value "
            ∷ rt.sprint new_val
            ∷ [])

    pub intersected_enum :
        String → Items → Items → List Value → Fields → Result ConstraintConflictError Fields
    unfolding conflict
    intersected_enum keyword existing_enum new_enum [] merged = conflict (
        "enum constraint intersection is empty for field '"
        ∷ field_path
        ∷ "': existing "
        ∷ rt.sprint (arr existing_enum)
        ∷ " (set by policy '"
        ∷ existing_policy_id
        ∷ "'), new "
        ∷ rt.sprint (arr new_enum)
        ∷ [])
    intersected_enum keyword existing_enum new_enum (v ∷ vs) merged =
        ok (put keyword (arr (from_items (v ∷ vs))) merged)

    pub merge_enum :
        String → Option Items → Option Items → Fields → Result ConstraintConflictError Fields
    unfolding intersected_enum
    merge_enum keyword (some existing_enum) (some new_enum) merged =
        intersected_enum keyword existing_enum new_enum
          (intersect_any_slices (items existing_enum) (items new_enum)) merged
    merge_enum keyword _ _ merged = ok merged

    -- a schema that holds a pattern alone
    abbrev pattern_schema : String → Value
    pattern_schema p = obj (field "pattern" (str p) end)

    -- Both patterns are asked for under "allOf"; the first stays at the top too.
    pub merge_pattern :
        Option String → Option String → Fields → Result ConstraintConflictError Fields
    merge_pattern (some existing_pattern) (some new_pattern) merged =
        if existing_pattern == new_pattern
        then ok merged
        else ok (
            put "allOf"
              (arr (elim (assert as_slice (get "allOf" merged)) [
                | some all_of ↦ from_items (items all_of ++ pattern_schema new_pattern ∷ [])
                | none ↦
                    cons (pattern_schema existing_pattern) (cons (pattern_schema new_pattern) nil)
              ]))
              merged)
    merge_pattern _ _ merged = ok merged

    pub merge_multiple_of :
        String → Option ℤ → Option ℤ → Fields → Result ConstraintConflictError Fields
    unfolding conflict
    merge_multiple_of keyword (some existing_num) (some new_num) merged =
        if is_zero existing_num
        then ok merged
        else if divides existing_num new_num
        then ok (put keyword (float64 new_num) merged)
        else conflict (
            "multipleOf "
            ∷ rt.sprint (float64 new_num)
            ∷ " is not a multiple of existing "
            ∷ rt.sprint (float64 existing_num)
            ∷ " on field '"
            ∷ field_path
            ∷ "' (set by policy '"
            ∷ existing_policy_id
            ∷ "')"
            ∷ [])
    merge_multiple_of keyword _ _ merged = ok merged

    -- one case of the switch
    pub merge_by_rule :
        Rule → String → Value → Value → Fields → Result ConstraintConflictError Fields
    unfolding raise lower merge_const merge_enum merge_pattern merge_multiple_of
    merge_by_rule const_rule keyword existing_val new_val merged =
        merge_const existing_val new_val merged
    merge_by_rule enum_rule keyword existing_val new_val merged =
        merge_enum keyword (as_slice existing_val) (as_slice new_val) merged
    merge_by_rule at_least keyword existing_val new_val merged =
        raise keyword (to_float64 existing_val) (to_float64 new_val) merged
    merge_by_rule at_most keyword existing_val new_val merged =
        lower keyword (to_float64 existing_val) (to_float64 new_val) merged
    merge_by_rule above keyword existing_val new_val merged =
        raise keyword (to_float64 existing_val) (to_float64 new_val) merged
    merge_by_rule below keyword existing_val new_val merged =
        lower keyword (to_float64 existing_val) (to_float64 new_val) merged
    merge_by_rule pattern_rule keyword existing_val new_val merged =
        merge_pattern (as_string existing_val) (as_string new_val) merged
    merge_by_rule multiple_of_rule keyword existing_val new_val merged =
        merge_multiple_of keyword (to_float64 existing_val) (to_float64 new_val) merged
    merge_by_rule other keyword existing_val new_val merged = ok (put keyword new_val merged)

    -- one round of the loop over the new keywords
    unfoldable pub merge_keyword : Fields → String → Value → Result ConstraintConflictError Fields
    unfolding merge_by_rule
    merge_keyword merged keyword new_val = elim (get keyword merged) [
      | none ↦ ok (put keyword new_val merged)
      | some existing_val ↦ merge_by_rule (rule_of keyword) keyword existing_val new_val merged
    ]

    unfoldable pub merge_keywords : Fields → Fields → Result ConstraintConflictError Fields
    merge_keywords merged end = ok merged
    merge_keywords merged (field keyword new_val rest) = do
      merged' ← merge_keyword merged keyword new_val
      merge_keywords merged' rest

  unfoldable pub merge_schema_keywords :
      Fields → Fields → String → String → Result ConstraintConflictError Fields
  unfolding merge_keywords
  merge_schema_keywords existing new field_path existing_policy_id =
      merge_keywords field_path existing_policy_id (deep_copy_schema_map rt.copy existing) new
