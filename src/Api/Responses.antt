-- ===== src/Api/Responses.antt =====
-- The response objects of internal/api/server/server.gen.go and how each is written.
use dcm_policy_manager.Prelude.{ℕ, String, Option, none}
use dcm_policy_manager.PolicyApi.{ErrorBody, ServerPolicy, ServerPolicyList}
use dcm_policy_manager.Http.{Writer, write_header, set_header, visit_json, encoded}
use dcm_policy_manager.Api.{Health, ServerCodecs}

pub data GetHealthObject : Type 0 where
  get_health_200 : Health → GetHealthObject

pub data ListPoliciesObject : Type 0 where
  list_policies_200 : ServerPolicyList → ListPoliciesObject
  list_policies_400 list_policies_401 list_policies_403 list_policies_500 :
      ErrorBody → ListPoliciesObject

pub data CreatePolicyObject : Type 0 where
  create_policy_201 : (body : ServerPolicy) (location : String) → CreatePolicyObject
  create_policy_400 create_policy_401 create_policy_403 create_policy_409 create_policy_422
        create_policy_500 :
      ErrorBody → CreatePolicyObject

pub data DeletePolicyObject : Type 0 where
  delete_policy_204 : DeletePolicyObject
  delete_policy_401 delete_policy_403 delete_policy_404 delete_policy_500 :
      ErrorBody → DeletePolicyObject

pub data GetPolicyObject : Type 0 where
  get_policy_200 : ServerPolicy → GetPolicyObject
  get_policy_401 get_policy_403 get_policy_404 get_policy_500 : ErrorBody → GetPolicyObject

pub data UpdatePolicyObject : Type 0 where
  update_policy_200 : ServerPolicy → UpdatePolicyObject
  update_policy_400 update_policy_401 update_policy_403 update_policy_404 update_policy_409
        update_policy_500 :
      ErrorBody → UpdatePolicyObject

module _ (codecs : ServerCodecs) where
  -- a response whose body is an error
  abbrev visit_error : ℕ → ErrorBody → Writer → Writer × Option String
  visit_error code e w = visit_json codecs.error code e w

  unfoldable pub visit_get_health_response : GetHealthObject → Writer → Writer × Option String
  unfolding visit_json
  visit_get_health_response (get_health_200 body) w = visit_json codecs.health 200 body w

  unfoldable pub visit_list_policies_response : ListPoliciesObject → Writer → Writer × Option String
  unfolding visit_json
  visit_list_policies_response (list_policies_200 body) w = visit_json codecs.policy_list 200 body w
  visit_list_policies_response (list_policies_400 e) w = visit_error 400 e w
  visit_list_policies_response (list_policies_401 e) w = visit_error 401 e w
  visit_list_policies_response (list_policies_403 e) w = visit_error 403 e w
  visit_list_policies_response (list_policies_500 e) w = visit_error 500 e w

  -- The 201 response also has the header Location.
  unfoldable pub visit_create_policy_response : CreatePolicyObject → Writer → Writer × Option String
  unfolding visit_json
  visit_create_policy_response (create_policy_201 body location) w =
      encoded (codecs.policy.encode body) (
        write_header 201
          (set_header "Location" location (set_header "Content-Type" "application/json" w)))
  visit_create_policy_response (create_policy_400 e) w = visit_error 400 e w
  visit_create_policy_response (create_policy_401 e) w = visit_error 401 e w
  visit_create_policy_response (create_policy_403 e) w = visit_error 403 e w
  visit_create_policy_response (create_policy_409 e) w = visit_error 409 e w
  visit_create_policy_response (create_policy_422 e) w = visit_error 422 e w
  visit_create_policy_response (create_policy_500 e) w = visit_error 500 e w

  unfoldable pub visit_delete_policy_response : DeletePolicyObject → Writer → Writer × Option String
  unfolding visit_json
  visit_delete_policy_response delete_policy_204 w = (write_header 204 w, none)
  visit_delete_policy_response (delete_policy_401 e) w = visit_error 401 e w
  visit_delete_policy_response (delete_policy_403 e) w = visit_error 403 e w
  visit_delete_policy_response (delete_policy_404 e) w = visit_error 404 e w
  visit_delete_policy_response (delete_policy_500 e) w = visit_error 500 e w

  unfoldable pub visit_get_policy_response : GetPolicyObject → Writer → Writer × Option String
  unfolding visit_json
  visit_get_policy_response (get_policy_200 body) w = visit_json codecs.policy 200 body w
  visit_get_policy_response (get_policy_401 e) w = visit_error 401 e w
  visit_get_policy_response (get_policy_403 e) w = visit_error 403 e w
  visit_get_policy_response (get_policy_404 e) w = visit_error 404 e w
  visit_get_policy_response (get_policy_500 e) w = visit_error 500 e w

  unfoldable pub visit_update_policy_response : UpdatePolicyObject → Writer → Writer × Option String
  unfolding visit_json
  visit_update_policy_response (update_policy_200 body) w = visit_json codecs.policy 200 body w
  visit_update_policy_response (update_policy_400 e) w = visit_error 400 e w
  visit_update_policy_response (update_policy_401 e) w = visit_error 401 e w
  visit_update_policy_response (update_policy_403 e) w = visit_error 403 e w
  visit_update_policy_response (update_policy_404 e) w = visit_error 404 e w
  visit_update_policy_response (update_policy_409 e) w = visit_error 409 e w
  visit_update_policy_response (update_policy_500 e) w = visit_error 500 e w
