-- ===== src/Service/Checked.antt =====
-- What the checks before a write have let through.
use dcm_policy_manager.Prelude.{String, Option, none, some, ◌≡◌, refl, ok, check, bind-ok}
use dcm_policy_manager.Prelude.Int.{ℤ}
use dcm_policy_manager.Policy.{Policy}
use dcm_policy_manager.Errors.{ServiceError}
use dcm_policy_manager.Convert.{ApiPolicy}
use dcm_policy_manager.Checks.{validate_post_input, validate_patch_input}
use dcm_policy_manager.Service.{PolicyStore, Engine, World, create_checks, update_checks}

check_ok : (o : Option ServiceError) (u : Unit {0}) → check o ≡ ok u → o ≡ none
check_ok none u e = refl
check_ok (some x) u e = cc

module _ {D N : Type 0} (store : PolicyStore D) (engine : Engine N)
    (show_priority : ℤ → String) where
  pub create_checks-validate_post_input :
      (policy : ApiPolicy) (client_id : Option String) (generated id : String)
      → create_checks store engine show_priority policy client_id generated ≡ ok id
      → validate_post_input policy ≡ none
  unfolding create_checks
  create_checks-validate_post_input policy client_id generated id e =
      let (u, first, _) = bind-ok (check (validate_post_input policy)) _ e in
      check_ok (validate_post_input policy) u first

  pub update_checks-validate_patch_input :
      (w : World D N) (id : String) (patch : Option ApiPolicy) (previous : Policy)
      → update_checks store engine show_priority w id patch ≡ ok previous
      → validate_patch_input patch ≡ none
  unfolding update_checks
  update_checks-validate_patch_input w id patch previous e =
      let (u, first, _) = bind-ok (check (validate_patch_input patch)) _ e in
      check_ok (validate_patch_input patch) u first
