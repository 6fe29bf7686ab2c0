-- ===== src/Checks/Accepted.antt =====
-- What the rows are like that the checks let through.
use dcm_policy_manager.Prelude.{
  String, Bool, true, false, Option, none, some, ◌==◌, ◌≡◌, refl, arith,
}
use dcm_policy_manager.Prelude.Int.{ℤ, pos, ◌≤ℤ◌}
use dcm_policy_manager.Text.{trim_space}
use dcm_policy_manager.Policy.{Policy}
use dcm_policy_manager.Errors.{ServiceError}
use dcm_policy_manager.Convert.{ApiPolicy, api_to_db_model, db_to_api_model, deref_or}
use dcm_policy_manager.Checks.{
  validate_priority, validate_post_input, validate_patch_input, merge_policy_onto_policy, overlay,
  require, missing_or_blank, given_and_blank, ◌then_check◌,
}

abbrev pub InRange : ℤ → Type 0
InRange n = (pos 1 ≤ℤ n) × (n ≤ℤ pos 1000)

-- A priority from 1 to 1000, and Rego code that is not blank.
pub record IsValid (p : Policy) : Type 0 where
  pub in_range : InRange p.priority
  pub not_blank : (trim_space p.rego_code == "") ≡ false

validate_priority_lem : (o : Option ℤ) → validate_priority o ≡ none → InRange (deref_or (pos 500) o)
unfolding validate_priority
validate_priority_lem none e = (omega arith, omega arith)
validate_priority_lem (some n) e = (ground (arith, e), ground (arith, e))

-- A sequence of checks that passes.
then_check_none :
    (first later : Option ServiceError)
    → (first then_check later) ≡ none
    → (first ≡ none) × (later ≡ none)
then_check_none none later e = (refl, e)
then_check_none (some x) later e = cc

require-none :
    (failed : Bool) (message detail : String)
    → require failed message detail ≡ none
    → failed ≡ false
require-none true message detail e = cc
require-none false message detail e = refl

present :
    (o : Option String) → missing_or_blank o ≡ false → (trim_space (deref_or "" o) == "") ≡ false
present none e = cc
present (some s) e = e

overlaid :
    (o : Option String) (s : String)
    → given_and_blank o ≡ false
    → (trim_space s == "") ≡ false
    → (trim_space (deref_or "" (overlay o (some s))) == "") ≡ false
overlaid none s e h = h
overlaid (some r) s e h = e

overlaid_priority :
    (o : Option ℤ) (n : ℤ)
    → validate_priority o ≡ none
    → InRange n
    → InRange (deref_or (pos 500) (overlay o (some n)))
overlaid_priority none n e h = h
overlaid_priority (some m) n e h = validate_priority_lem (some m) e

pub post-IsValid :
    (policy : ApiPolicy) (id : String)
    → validate_post_input policy ≡ none
    → IsValid (api_to_db_model policy id)
unfolding validate_post_input api_to_db_model
post-IsValid policy id e =
    let (_, e₁) = then_check_none _ _ e in
    let (_, e₂) = then_check_none _ _ e₁ in
    let (code, priority) = then_check_none _ _ e₂ in
    record {
      in_range = validate_priority_lem policy.priority priority;
      not_blank = present policy.rego_code (require-none _ _ _ code);
    }

pub patch-IsValid :
    (patch : Option ApiPolicy) (previous : Policy) (id : String)
    → validate_patch_input patch ≡ none
    → IsValid previous
    → IsValid (api_to_db_model (merge_policy_onto_policy patch (db_to_api_model previous)) id)
unfolding validate_patch_input api_to_db_model merge_policy_onto_policy db_to_api_model
patch-IsValid none previous id e v = record { in_range = v.in_range; not_blank = v.not_blank }
patch-IsValid (some patch) previous id e v =
    let (code, priority) = then_check_none _ _ e in
    record {
      in_range = overlaid_priority patch.priority previous.priority priority v.in_range;
      not_blank = overlaid patch.rego_code previous.rego_code (require-none _ _ _ code) v.not_blank;
    }
