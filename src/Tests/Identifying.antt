-- ===== src/Tests/Identifying.antt =====
-- A policy ID with a hyphen and a digit.
use dcm_policy_manager.Prelude.{String, some, refl, arith, eq_iff, ◌≡◌, ok, ◌≢◌, ◌↔◌}
use dcm_policy_manager.Text.{codes}
use dcm_policy_manager.Checks.{get_policy_id}
use dcm_policy_manager.Checks.Identifiers.{IsPolicyId, get_policy_id_iff}

given : ◌≢◌ {A = String} "tier-1" ""
given = ground (arith, eq_iff "tier-1" "")

get_policy_id_iff_example :
    (get_policy_id (some "tier-1") "generated" ≡ ok "tier-1") ↔ IsPolicyId (codes "tier-1")
get_policy_id_iff_example = get_policy_id_iff "tier-1" "generated" given

tier_accepted : get_policy_id (some "tier-1") "generated" ≡ ok "tier-1"
unfolding get_policy_id
tier_accepted = refl
