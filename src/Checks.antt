-- ===== src/Checks.antt =====
-- The checks of internal/service/policy.go on what a client sends. `none` is the error `nil`.
pub mod Identifiers
pub mod Accepted
use dcm_policy_manager.Prelude.{
  ℕ, zero, suc, String, Bool, true, false, not, ◌&&◌, ◌||◌, Option, none, some, List, [], ◌∷◌, ◌==◌,
  Result, ok, err, if◌then◌else◌, concat, leb, nat_eq,
}
use dcm_policy_manager.Prelude.Int.{ℤ, pos, ltb_ℤ}
use dcm_policy_manager.Text.{trim_space, codes}
use dcm_policy_manager.Errors.{ServiceError, new_invalid_argument_error}
use dcm_policy_manager.Convert.{ApiPolicy}

abbrev pub min_priority : ℤ
min_priority = pos 1

abbrev pub max_priority : ℤ
max_priority = pos 1000

-- The first error of a sequence of checks.
infixr 20 ◌then_check◌
abbrev ◌then_check◌ : Option ServiceError → Option ServiceError → Option ServiceError
none then_check later = later
(some e) then_check later = some e

unfoldable pub validate_priority : Option ℤ → Option ServiceError
validate_priority none = none
validate_priority (some priority) =
    if ltb_ℤ priority min_priority || ltb_ℤ max_priority priority
    then some (
        new_invalid_argument_error "priority must be between 1 and 1000"
          "The priority field must be a value between 1 and 1000")
    else none

-- `p == nil || strings.TrimSpace(*p) == ""`
abbrev missing_or_blank : Option String → Bool
missing_or_blank none = true
missing_or_blank (some s) = trim_space s == ""

abbrev require : Bool → String → String → Option ServiceError
require failed message detail =
    if failed then some (new_invalid_argument_error message detail) else none

abbrev is_nil {ℓ} : {A : Type ℓ} → Option A → Bool
is_nil none = true
is_nil (some a) = false

unfoldable pub validate_post_input : ApiPolicy → Option ServiceError
unfolding validate_priority
validate_post_input policy =
    require (missing_or_blank policy.display_name) "display_name is required"
      "The display_name field must be present and non-empty"
    then_check require (is_nil policy.policy_type) "policy_type is required"
        "The policy_type field must be present (GLOBAL or USER)"
    then_check require (missing_or_blank policy.rego_code) "rego_code is required"
        "The rego_code field must be present and non-empty"
    then_check validate_priority policy.priority

-- `patch.RegoCode != nil && strings.TrimSpace(*patch.RegoCode) == ""`
abbrev given_and_blank : Option String → Bool
given_and_blank none = false
given_and_blank (some s) = trim_space s == ""

unfoldable pub validate_patch_input : Option ApiPolicy → Option ServiceError
unfolding validate_priority
validate_patch_input none = none
validate_patch_input (some patch) =
    require (given_and_blank patch.rego_code) "rego_code cannot be empty"
      "When rego_code is provided in the patch it must be non-empty"
    then_check validate_priority patch.priority

pub is_lower : ℕ → Bool
is_lower c = leb b'a' c && leb c b'z'

-- [a-z0-9]
pub is_alphanumeric : ℕ → Bool
unfolding is_lower
is_alphanumeric c = is_lower c || leb b'0' c && leb c b'9'

-- [a-z0-9-]{0,n}[a-z0-9]$
match_tail : ℕ → List ℕ → Bool
unfolding is_alphanumeric
match_tail n [] = false
match_tail n (c ∷ []) = is_alphanumeric c
match_tail zero (c ∷ d ∷ s) = false
match_tail (suc n) (c ∷ d ∷ s) = (is_alphanumeric c || nat_eq c b'-') && match_tail n (d ∷ s)

-- ^[a-z]([a-z0-9-]{0,61}[a-z0-9])?$
unfoldable pub match_id_pattern : List ℕ → Bool
unfolding match_tail is_lower
match_id_pattern [] = false
match_id_pattern (c ∷ []) = is_lower c
match_id_pattern (c ∷ d ∷ s) = is_lower c && match_tail 61 (d ∷ s)

-- The ID to create under: the client's, or else the generated one, which is an argument.
unfoldable pub get_policy_id : Option String → String → Result ServiceError String
unfolding match_id_pattern
get_policy_id none generated = ok generated
get_policy_id (some client_id) generated =
    if client_id == ""
    then ok generated
    else if match_id_pattern (codes client_id)
    then ok client_id
    else err (
        new_invalid_argument_error "Invalid policy ID format" (
          concat (
            "Policy ID '" ∷ client_id
            ∷ "' does not match required format: 1-63 characters, start with lowercase letter, contain only lowercase letters, numbers, and hyphens, end with letter or number"
            ∷ [])))

-- The field is given and differs from the existing one, or there is none.
abbrev changes {ℓ} : {A : Type ℓ} → (A → A → Bool) → Option A → Option A → Bool
changes same none existing = false
changes same (some a) none = true
changes same (some a) (some b) = not (same a b)

unfoldable pub validate_patch_immutable_fields : Option ApiPolicy → ApiPolicy → Option ServiceError
validate_patch_immutable_fields none existing = none
validate_patch_immutable_fields (some patch) existing =
    require (changes ◌==◌ patch.path existing.path) "path cannot be updated"
      "The path field is read-only and cannot be changed"
    then_check require (changes ◌==◌ patch.id existing.id) "id cannot be updated"
        "The id field is read-only and cannot be changed"
    then_check require (changes ◌==◌ patch.policy_type existing.policy_type)
        "policy_type is immutable" "The policy_type field cannot be changed after creation"
    then_check require (changes nat_eq patch.create_time existing.create_time)
        "create_time cannot be updated" "The create_time field is read-only and cannot be changed"
    then_check require (changes nat_eq patch.update_time existing.update_time)
        "update_time cannot be updated" "The update_time field is read-only and cannot be changed"

-- a field of the patch where it is given, else the existing one
abbrev pub overlay {ℓ} : {A : Type ℓ} → Option A → Option A → Option A
overlay none existing = existing
overlay (some a) existing = some a

unfoldable pub merge_policy_onto_policy : Option ApiPolicy → ApiPolicy → ApiPolicy
merge_policy_onto_policy none existing = existing
merge_policy_onto_policy (some patch) existing = record existing {
  display_name = overlay patch.display_name existing.display_name;
  description = overlay patch.description existing.description;
  enabled = overlay patch.enabled existing.enabled;
  label_selector = overlay patch.label_selector existing.label_selector;
  priority = overlay patch.priority existing.priority;
  rego_code = overlay patch.rego_code existing.rego_code;
}
