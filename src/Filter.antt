-- ===== src/Filter.antt =====
-- internal/service/filter.go: the filter of a listing. The two patterns are matched on code points:
-- what follows the blanks is never a blank, so one way to match is enough.
pub mod RoundTrip
pub mod Patterns
pub mod Meaning
use dcm_policy_manager.Prelude.{
  ℕ, zero, suc, String, Bool, true, false, ◌||◌, Option, none, some, List, [], ◌∷◌, ◌==◌, Result,
  ok, err, ◌>>=◌, if◌then◌else◌, concat, nat_eq, ltb,
}
use dcm_policy_manager.Text.{codes}
use dcm_policy_manager.Errors.{ServiceError, new_invalid_argument_error}
use dcm_policy_manager.Policy.{PolicyFilter}

-- \s
abbrev pub is_blank : ℕ → Bool
is_blank c = nat_eq c 9 || nat_eq c 10 || nat_eq c 12 || nat_eq c 13 || nat_eq c 32

-- \s*
unfoldable pub skip_blanks : List ℕ → List ℕ
skip_blanks [] = []
skip_blanks (c ∷ s) = let rest = skip_blanks s in if is_blank c then rest else c ∷ s

-- what follows a literal text
unfoldable pub after_literal : List ℕ → List ℕ → Option (List ℕ)
after_literal [] s = some s
after_literal (c ∷ cs) [] = none
after_literal (c ∷ cs) (d ∷ s) = let rest = after_literal cs s in if nat_eq c d then rest else none

-- what follows `name\s*=\s*`
unfoldable pub after_equals : Option (List ℕ) → Option (List ℕ)
unfolding skip_blanks
after_equals none = none
after_equals (some s) = some (skip_blanks s)

unfoldable pub after_name : Option (List ℕ) → Option (List ℕ)
unfolding skip_blanks after_literal after_equals
after_name none = none
after_name (some s) = after_equals (after_literal (codes "=") (skip_blanks s))

unfoldable pub starts_with : String → List ℕ → Bool
unfolding after_literal
starts_with text s = elim (after_literal (codes text) s) [ none ↦ false | some rest ↦ true ]

-- the choice of a pattern's group, by the text that has to stand there
unfoldable pub choice {ℓ} : {A : Type ℓ} → String → A → String → A → Option (List ℕ) → Option A
unfolding starts_with
choice first a second b none = none
choice first a second b (some s) =
    if starts_with first s then some a else if starts_with second s then some b else none

-- policy_type\s*=\s*'(GLOBAL|USER)' at the front
unfoldable pub policy_type_at : List ℕ → Option String
unfolding choice after_name after_literal
policy_type_at s =
    choice "'GLOBAL'" "GLOBAL" "'USER'" "USER" (after_name (after_literal (codes "policy_type") s))

-- enabled\s*=\s*(true|false) at the front
unfoldable pub enabled_at : List ℕ → Option Bool
unfolding choice after_name after_literal
enabled_at s = choice "true" true "false" false (after_name (after_literal (codes "enabled") s))

abbrev pub first_of {ℓ} : {A : Type ℓ} → Option A → Option A → Option A
first_of none later = later
first_of (some a) later = some a

-- the leftmost match
unfoldable pub find_match {ℓ} : {A : Type ℓ} → (List ℕ → Option A) → List ℕ → Option A
find_match match [] = match []
find_match match (c ∷ s) = first_of (match (c ∷ s)) (find_match match s)

-- how often " AND " occurs; the first argument counts the characters of an occurrence
unfoldable pub occurrences : ℕ → List ℕ → ℕ
unfolding starts_with
occurrences skipped [] = 0
occurrences (suc skipped) (c ∷ s) = occurrences skipped s
occurrences zero (c ∷ s) =
    let found = occurrences 4 s in
    let rest = occurrences 0 s in if starts_with " AND " (c ∷ s) then suc found else rest

no_conditions : String → ServiceError
no_conditions filter_expr = new_invalid_argument_error "Invalid filter expression" (
    concat (
      "Filter expression '" ∷ filter_expr
      ∷ "' does not contain valid conditions. Supported fields: policy_type, enabled" ∷ []))

-- a filter of what was parsed, unless that is nothing
unfoldable pub filter_of : String → Option String → Option Bool → Result ServiceError PolicyFilter
unfolding no_conditions
filter_of filter_expr none none = err (no_conditions filter_expr)
filter_of filter_expr policy_type enabled =
    ok (record { policy_type = policy_type; enabled = enabled })

-- " AND " that occurs parts the text in two
unfoldable pub check_and : List ℕ → PolicyFilter → Result ServiceError PolicyFilter
unfolding occurrences
check_and s filter =
    if ltb 1 (occurrences 0 s)
    then err (
        new_invalid_argument_error "Invalid filter expression"
          "Multiple AND operators are not supported")
    else ok filter

unfoldable pub parse_conditions : String → Result ServiceError PolicyFilter
unfolding policy_type_at enabled_at find_match filter_of check_and
parse_conditions filter_expr = do
  filter ←
      filter_of filter_expr (find_match policy_type_at (codes filter_expr))
        (find_match enabled_at (codes filter_expr))
  check_and (codes filter_expr) filter

unfoldable pub parse_filter : String → Result ServiceError (Option PolicyFilter)
unfolding parse_conditions
parse_filter filter_expr =
    if filter_expr == ""
    then ok none
    else (do filter ← parse_conditions filter_expr; ok (some filter))
