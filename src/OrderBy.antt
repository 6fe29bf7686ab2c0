-- ===== src/OrderBy.antt =====
-- internal/service/orderby.go: the order of a listing, from a client's text to the text that goes
-- into the database's query.
pub mod Clauses
use dcm_policy_manager.Prelude.{
  ℕ, String, Bool, true, false, not, ◌||◌, ◌&&◌, Option, none, some, List, [], ◌∷◌, ◌++◌, ◌==◌,
  Result, ok, err, ◌>>=◌, if◌then◌else◌, concat, join, ltb, nat_eq, length, map,
}
use dcm_policy_manager.Text.{trim_space, split_at, fields, codes, upper_code}
use dcm_policy_manager.Errors.{ServiceError, new_invalid_argument_error}

-- DefaultOrderBy is the text of the store's default order.
abbrev pub default_order_by : String
default_order_by = "policy_type ASC, priority ASC, id ASC"

abbrev pub is_supported : String → Bool
is_supported field = field == "priority" || field == "display_name" || field == "create_time"

abbrev same_codes : List ℕ → List ℕ → Bool
same_codes [] [] = true
same_codes [] (d ∷ ds) = false
same_codes (c ∷ cs) [] = false
same_codes (c ∷ cs) (d ∷ ds) = nat_eq c d && same_codes cs ds

-- `strings.ToUpper(token)` is the text
upper_is : String → String → Bool
unfolding upper_code
upper_is token text = same_codes (map upper_code (codes token)) (codes text)

abbrev invalid_direction : String → ServiceError
invalid_direction token =
    new_invalid_argument_error "Invalid order_by direction"
      (concat ("Direction '" ∷ token ∷ "' is not valid. Use 'asc' or 'desc'" ∷ []))

-- the direction, "ASC" where none is given
unfoldable pub parse_direction : List String → Result ServiceError String
unfolding upper_is
parse_direction [] = ok "ASC"
parse_direction (token ∷ extra) =
    if upper_is token "ASC"
    then ok "ASC"
    else if upper_is token "DESC"
    then ok "DESC"
    else err (invalid_direction token)

abbrev invalid_field : String → ServiceError
invalid_field field = new_invalid_argument_error "Invalid order_by field" (
    concat (
      "Field '" ∷ field
      ∷ "' is not supported for ordering. Supported fields: priority, display_name, create_time"
      ∷ []))

abbrev pub too_many : String → ServiceError
too_many part = new_invalid_argument_error "Invalid order_by format" (
    concat (
      "Too many tokens in order_by clause '" ∷ part ∷ "'. Expected format: 'field [asc|desc]'"
      ∷ []))

-- one part, of which the first token is the field
unfoldable pub parse_tokens : String → String → List String → Result ServiceError String
unfolding parse_direction
parse_tokens part field rest = if not (is_supported field) then err (invalid_field field) else (do
  direction ← parse_direction rest
  if ltb 1 (length rest) then err (too_many part) else ok (concat (field ∷ " " ∷ direction ∷ [])))

-- a part that is blank is passed over
abbrev pub parse_clause : String → List String → Result ServiceError (List String)
parse_clause part [] = ok []
parse_clause part (field ∷ rest) = do clause ← parse_tokens part field rest; ok (clause ∷ [])

-- the loop over the parts, with `gormParts`
unfoldable pub parse_parts : List String → List String → Result ServiceError (List String)
parse_parts [] gorm_parts = ok gorm_parts
parse_parts (part ∷ parts) gorm_parts = do
  clause ← parse_clause (trim_space part) (fields (trim_space part))
  parse_parts parts (gorm_parts ++ clause)

abbrev pub joined : List String → String
joined [] = default_order_by
joined (clause ∷ clauses) = join (clause ∷ clauses) ", "

unfoldable pub parse_order_by : String → Result ServiceError String
unfolding parse_parts
parse_order_by order_by = if order_by == "" then ok default_order_by else (do
  gorm_parts ← parse_parts (split_at (λ c. nat_eq c b',') order_by) []
  ok (joined gorm_parts))
