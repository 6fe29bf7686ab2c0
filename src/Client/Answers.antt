-- ===== src/Client/Answers.antt =====
-- What the client (pkg/client/client.gen.go) should make of each response object of the server
-- (internal/api/server/server.gen.go): the status, and the body under the field of that status.
pub mod Read
pub mod Readable
use dcm_policy_manager.Prelude.{ℕ, String, Option, none, some, map, ◌≡◌}
use dcm_policy_manager.Convert.{ApiPolicy}
use dcm_policy_manager.Listings.{PolicyList}
use dcm_policy_manager.PolicyApi.{
  ErrorBody, ErrorCode, invalid_argument_code, not_found_code, already_exists_code, internal_code,
  ServerPolicyList, policy_server_to_v1_alpha1,
}
use dcm_policy_manager.Http.{HttpResponse, Carries}
use dcm_policy_manager.Api.{ServerCodecs}
use dcm_policy_manager.Api.Responses.{
  GetHealthObject, ListPoliciesObject, CreatePolicyObject, DeletePolicyObject, GetPolicyObject,
  UpdatePolicyObject, get_health_200, list_policies_200, list_policies_400, list_policies_401,
  list_policies_403, list_policies_500, create_policy_201, create_policy_400, create_policy_401,
  create_policy_403, create_policy_409, create_policy_422, create_policy_500, delete_policy_204,
  delete_policy_401, delete_policy_403, delete_policy_404, delete_policy_500, get_policy_200,
  get_policy_401, get_policy_403, get_policy_404, get_policy_500, update_policy_200,
  update_policy_400, update_policy_401, update_policy_403, update_policy_404, update_policy_409,
  update_policy_500,
}
use dcm_policy_manager.Client.{ApiError}
use dcm_policy_manager.Client.Parsing.{
  ClientCodecs, GetHealthResponse, ListPoliciesResponse, CreatePolicyResponse, DeletePolicyResponse,
  GetPolicyResponse, UpdatePolicyResponse,
}

-- The same text for each error type as in api/v1alpha1.
abbrev pub code_text : ErrorCode → String
code_text invalid_argument_code = "INVALID_ARGUMENT"
code_text not_found_code = "NOT_FOUND"
code_text already_exists_code = "ALREADY_EXISTS"
code_text internal_code = "INTERNAL"

abbrev pub api_error : ErrorBody → ApiError
api_error e = record {
  detail = e.detail;
  instance_uri = none;
  status = e.status;
  title = e.title;
  type = code_text e.type;
}

abbrev pub to_api_list : ServerPolicyList → PolicyList
unfolding policy_server_to_v1_alpha1
to_api_list list = record {
  next_page_token = list.next_page_token;
  policies = map policy_server_to_v1_alpha1 list.policies;
}

module _ (rsp : HttpResponse) where
  -- the fields of a response to GetHealth
  abbrev pub get_health_view : GetHealthObject → GetHealthResponse
  get_health_view (get_health_200 health) = record { http_response = rsp; json_200 = some health }

  -- the fields of a response to ListPolicies
  abbrev pub list_policies_view : ListPoliciesObject → ListPoliciesResponse
  list_policies_view (list_policies_200 list) = record {
    http_response = rsp;
    json_200 = some (to_api_list list);
    json_400 = none;
    json_401 = none;
    json_403 = none;
    json_500 = none;
  }
  list_policies_view (list_policies_400 e) = record {
    http_response = rsp;
    json_200 = none;
    json_400 = some (api_error e);
    json_401 = none;
    json_403 = none;
    json_500 = none;
  }
  list_policies_view (list_policies_401 e) = record {
    http_response = rsp;
    json_200 = none;
    json_400 = none;
    json_401 = some (api_error e);
    json_403 = none;
    json_500 = none;
  }
  list_policies_view (list_policies_403 e) = record {
    http_response = rsp;
    json_200 = none;
    json_400 = none;
    json_401 = none;
    json_403 = some (api_error e);
    json_500 = none;
  }
  list_policies_view (list_policies_500 e) = record {
    http_response = rsp;
    json_200 = none;
    json_400 = none;
    json_401 = none;
    json_403 = none;
    json_500 = some (api_error e);
  }

  -- the fields of a response to CreatePolicy
  abbrev pub create_policy_view : CreatePolicyObject → CreatePolicyResponse
  create_policy_view (create_policy_201 policy location) = record {
    http_response = rsp;
    json_201 = some (policy_server_to_v1_alpha1 policy);
    json_400 = none;
    json_401 = none;
    json_403 = none;
    json_409 = none;
    json_422 = none;
    json_500 = none;
  }
  create_policy_view (create_policy_400 e) = record {
    http_response = rsp;
    json_201 = none;
    json_400 = some (api_error e);
    json_401 = none;
    json_403 = none;
    json_409 = none;
    json_422 = none;
    json_500 = none;
  }
  create_policy_view (create_policy_401 e) = record {
    http_response = rsp;
    json_201 = none;
    json_400 = none;
    json_401 = some (api_error e);
    json_403 = none;
    json_409 = none;
    json_422 = none;
    json_500 = none;
  }
  create_policy_view (create_policy_403 e) = record {
    http_response = rsp;
    json_201 = none;
    json_400 = none;
    json_401 = none;
    json_403 = some (api_error e);
    json_409 = none;
    json_422 = none;
    json_500 = none;
  }
  create_policy_view (create_policy_409 e) = record {
    http_response = rsp;
    json_201 = none;
    json_400 = none;
    json_401 = none;
    json_403 = none;
    json_409 = some (api_error e);
    json_422 = none;
    json_500 = none;
  }
  create_policy_view (create_policy_422 e) = record {
    http_response = rsp;
    json_201 = none;
    json_400 = none;
    json_401 = none;
    json_403 = none;
    json_409 = none;
    json_422 = some (api_error e);
    json_500 = none;
  }
  create_policy_view (create_policy_500 e) = record {
    http_response = rsp;
    json_201 = none;
    json_400 = none;
    json_401 = none;
    json_403 = none;
    json_409 = none;
    json_422 = none;
    json_500 = some (api_error e);
  }

  -- the fields of a response to DeletePolicy
  abbrev pub delete_policy_view : DeletePolicyObject → DeletePolicyResponse
  delete_policy_view delete_policy_204 = record {
    http_response = rsp;
    json_401 = none;
    json_403 = none;
    json_404 = none;
    json_500 = none;
  }
  delete_policy_view (delete_policy_401 e) = record {
    http_response = rsp;
    json_401 = some (api_error e);
    json_403 = none;
    json_404 = none;
    json_500 = none;
  }
  delete_policy_view (delete_policy_403 e) = record {
    http_response = rsp;
    json_401 = none;
    json_403 = some (api_error e);
    json_404 = none;
    json_500 = none;
  }
  delete_policy_view (delete_policy_404 e) = record {
    http_response = rsp;
    json_401 = none;
    json_403 = none;
    json_404 = some (api_error e);
    json_500 = none;
  }
  delete_policy_view (delete_policy_500 e) = record {
    http_response = rsp;
    json_401 = none;
    json_403 = none;
    json_404 = none;
    json_500 = some (api_error e);
  }

  -- the fields of a response to GetPolicy
  abbrev pub get_policy_view : GetPolicyObject → GetPolicyResponse
  get_policy_view (get_policy_200 policy) = record {
    http_response = rsp;
    json_200 = some (policy_server_to_v1_alpha1 policy);
    json_401 = none;
    json_403 = none;
    json_404 = none;
    json_500 = none;
  }
  get_policy_view (get_policy_401 e) = record {
    http_response = rsp;
    json_200 = none;
    json_401 = some (api_error e);
    json_403 = none;
    json_404 = none;
    json_500 = none;
  }
  get_policy_view (get_policy_403 e) = record {
    http_response = rsp;
    json_200 = none;
    json_401 = none;
    json_403 = some (api_error e);
    json_404 = none;
    json_500 = none;
  }
  get_policy_view (get_policy_404 e) = record {
    http_response = rsp;
    json_200 = none;
    json_401 = none;
    json_403 = none;
    json_404 = some (api_error e);
    json_500 = none;
  }
  get_policy_view (get_policy_500 e) = record {
    http_response = rsp;
    json_200 = none;
    json_401 = none;
    json_403 = none;
    json_404 = none;
    json_500 = some (api_error e);
  }

  -- the fields of a response to UpdatePolicy
  abbrev pub update_policy_view : UpdatePolicyObject → UpdatePolicyResponse
  update_policy_view (update_policy_200 policy) = record {
    http_response = rsp;
    json_200 = some (policy_server_to_v1_alpha1 policy);
    json_400 = none;
    json_401 = none;
    json_403 = none;
    json_404 = none;
    json_409 = none;
    json_500 = none;
  }
  update_policy_view (update_policy_400 e) = record {
    http_response = rsp;
    json_200 = none;
    json_400 = some (api_error e);
    json_401 = none;
    json_403 = none;
    json_404 = none;
    json_409 = none;
    json_500 = none;
  }
  update_policy_view (update_policy_401 e) = record {
    http_response = rsp;
    json_200 = none;
    json_400 = none;
    json_401 = some (api_error e);
    json_403 = none;
    json_404 = none;
    json_409 = none;
    json_500 = none;
  }
  update_policy_view (update_policy_403 e) = record {
    http_response = rsp;
    json_200 = none;
    json_400 = none;
    json_401 = none;
    json_403 = some (api_error e);
    json_404 = none;
    json_409 = none;
    json_500 = none;
  }
  update_policy_view (update_policy_404 e) = record {
    http_response = rsp;
    json_200 = none;
    json_400 = none;
    json_401 = none;
    json_403 = none;
    json_404 = some (api_error e);
    json_409 = none;
    json_500 = none;
  }
  update_policy_view (update_policy_409 e) = record {
    http_response = rsp;
    json_200 = none;
    json_400 = none;
    json_401 = none;
    json_403 = none;
    json_404 = none;
    json_409 = some (api_error e);
    json_500 = none;
  }
  update_policy_view (update_policy_500 e) = record {
    http_response = rsp;
    json_200 = none;
    json_400 = none;
    json_401 = none;
    json_403 = none;
    json_404 = none;
    json_409 = none;
    json_500 = some (api_error e);
  }
