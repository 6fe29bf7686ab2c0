-- ===== src/Convert.antt =====
-- internal/service/converter.go, and the type Policy of api/v1alpha1/types.gen.go: an API policy,
-- whose pointers are `Option`, and the row that the store keeps.
pub mod RoundTrip
use dcm_policy_manager.Prelude.{
  ℕ, String, Bool, true, Option, none, some, List, [], ◌∷◌, ◌==◌, Assoc, if◌then◌else◌, is_empty,
  concat,
}
use dcm_policy_manager.Prelude.Int.{ℤ, pos}
use dcm_policy_manager.Policy.{Policy}

pub record ApiPolicy : Type 0 where
  pub create_time : Option ℕ
  pub description : Option String
  pub display_name : Option String
  pub enabled : Option Bool
  pub id : Option String
  pub label_selector : Option (Assoc String)
  pub path : Option String
  pub policy_type : Option String
  pub priority : Option ℤ
  pub rego_code : Option String
  pub update_time : Option ℕ

abbrev pub default_priority : ℤ
default_priority = pos 500

-- `*p`, or another value where `p` is nil
abbrev pub deref_or {ℓ} : {A : Type ℓ} → A → Option A → A
deref_or a none = a
deref_or a (some b) = b

-- The times are the zero time, which the store does not write.
unfoldable pub api_to_db_model : ApiPolicy → String → Policy
api_to_db_model api id = record {
  id = id;
  display_name = deref_or "" api.display_name;
  description = deref_or "" api.description;
  policy_type = deref_or "" api.policy_type;
  label_selector = deref_or [] api.label_selector;
  priority = deref_or default_priority api.priority;
  rego_code = deref_or "" api.rego_code;
  enabled = deref_or true api.enabled;
  create_time = 0;
  update_time = 0;
}

unfoldable pub db_to_api_model : Policy → ApiPolicy
db_to_api_model db = record {
  create_time = some db.create_time;
  description = if db.description == "" then none else some db.description;
  display_name = some db.display_name;
  enabled = some db.enabled;
  id = some db.id;
  label_selector = if is_empty db.label_selector then none else some db.label_selector;
  path = some (concat ("policies/" ∷ db.id ∷ []));
  policy_type = some db.policy_type;
  priority = some db.priority;
  rego_code = some db.rego_code;
  update_time = some db.update_time;
}
