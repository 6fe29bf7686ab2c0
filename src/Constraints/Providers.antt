-- ===== src/Constraints/Providers.antt =====
-- MergeSPConstraints, ValidateServiceProvider and intersectStringSlices of
-- internal/service/constraints.go.
pub mod Meaning
pub mod Narrowing
use dcm_policy_manager.Prelude.{
  String, Bool, true, false, Option, none, some, List, [], ◌∷◌, ◌++◌, ◌==◌, ◌&&◌, ◌||◌, not, Result,
  ok, err, if◌then◌else◌, is_empty, contains, concat,
}
use dcm_policy_manager.Runtime.{Runtime, sprint_strings}
use dcm_policy_manager.Decision.{ServiceProviderConstraints}
use dcm_policy_manager.Constraints.{ConstraintContext, AccumulatedSpConstraints}

-- The items of `b` that are in `a`, in the order of `b`.
unfoldable pub intersect_string_slices : List String → List String → List String
intersect_string_slices a [] = []
intersect_string_slices a (s ∷ b) =
    let rest = intersect_string_slices a b in if contains a s then s ∷ rest else rest

module _ {C S : Type 0} (rt : Runtime C S) where
  abbrev set_sp : ConstraintContext → AccumulatedSpConstraints → ConstraintContext
  set_sp c sp = record c { service_provider_constraints = some sp }

  empty_intersection : List String → AccumulatedSpConstraints → String → String
  empty_intersection allow_list acc policy_id = concat (
      "service provider allow list intersection is empty: policy '"
      ∷ policy_id
      ∷ "' allows "
      ∷ sprint_strings rt allow_list
      ∷ " but existing constraints from policy '"
      ∷ acc.set_by_policy
      ∷ "' allow "
      ∷ sprint_strings rt acc.allow_list
      ∷ [])

  -- The allow list after a merge: the intersection where both lists have items.
  merged_allow_list : List String → AccumulatedSpConstraints → String → Result String (List String)
  unfolding empty_intersection
  merged_allow_list allow_list acc policy_id =
      if not (is_empty allow_list) && not (is_empty acc.allow_list)
      then (let intersected = intersect_string_slices acc.allow_list allow_list in
          if is_empty intersected
          then err (empty_intersection allow_list acc policy_id)
          else ok intersected)
      else if not (is_empty allow_list)
      then ok allow_list
      else ok acc.allow_list

  merge_accumulated :
      ConstraintContext
      → ServiceProviderConstraints
      → Option AccumulatedSpConstraints
      → String
      → Result String ConstraintContext
  unfolding merged_allow_list
  merge_accumulated c sp none policy_id = ok (
      set_sp c
        (record { allow_list = sp.allow_list; patterns = sp.patterns; set_by_policy = policy_id }))
  merge_accumulated c sp (some acc) policy_id =
      elim (merged_allow_list sp.allow_list acc policy_id) [
        | err e ↦ err e
        | ok allow_list ↦ ok (
            set_sp c
              (record acc { allow_list = allow_list; patterns = acc.patterns ++ sp.patterns }))
      ]

  -- The new context, or the error, after which the context is what it was.
  unfoldable pub merge_sp_constraints :
      ConstraintContext
      → Option ServiceProviderConstraints
      → String
      → Result String ConstraintContext
  unfolding merge_accumulated
  merge_sp_constraints c none policy_id = ok c
  merge_sp_constraints c (some sp) policy_id =
      if is_empty sp.allow_list && is_empty sp.patterns
      then ok c
      else merge_accumulated c sp c.service_provider_constraints policy_id

  -- the loop over the patterns
  check_patterns : List String → String → Option String
  check_patterns [] provider = none
  check_patterns (pattern ∷ patterns) provider = elim (rt.match_string pattern provider) [
    | err e ↦ some (concat ("invalid service provider pattern '" ∷ pattern ∷ "': " ∷ e ∷ []))
    | ok matched ↦
        let rest = check_patterns patterns provider in
        if matched
        then rest
        else some (
            concat (
              "provider '" ∷ provider ∷ "' does not match required pattern '" ∷ pattern ∷ "'" ∷ []))
  ]

  check_provider : AccumulatedSpConstraints → String → Option String
  unfolding check_patterns
  check_provider sp provider =
      if not (is_empty sp.allow_list) && not (contains sp.allow_list provider)
      then some (
          concat (
            "provider '"
            ∷ provider
            ∷ "' is not in the allowed list "
            ∷ sprint_strings rt sp.allow_list
            ∷ " (constrained by policy '"
            ∷ sp.set_by_policy
            ∷ "')"
            ∷ []))
      else check_patterns sp.patterns provider

  -- `none` for the error `nil`
  unfoldable pub validate_service_provider : ConstraintContext → String → Option String
  unfolding check_provider
  validate_service_provider c provider = elim c.service_provider_constraints [
    | none ↦ none
    | some sp ↦ if provider == "" then none else check_provider sp provider
  ]
