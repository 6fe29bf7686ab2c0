-- ===== src/Client/Answers/Readable.antt =====
-- Which response objects of the server (internal/api/server/server.gen.go) the client
-- (pkg/client/client.gen.go) can read.
use dcm_policy_manager.PolicyApi.{ErrorBody, policy_server_to_v1_alpha1}
use dcm_policy_manager.Http.{Carries}
use dcm_policy_manager.Api.{ServerCodecs}
use dcm_policy_manager.Api.Responses.{
  GetHealthObject, ListPoliciesObject, CreatePolicyObject, DeletePolicyObject, GetPolicyObject,
  UpdatePolicyObject, get_health_200, list_policies_200, list_policies_400, list_policies_401,
  list_policies_403, list_policies_500, create_policy_201, create_policy_400, create_policy_401,
  create_policy_403, create_policy_409, create_policy_422, create_policy_500, delete_policy_204,
  delete_policy_401, delete_policy_403, delete_policy_404, delete_policy_500, get_policy_200,
  get_policy_401, get_policy_403, get_policy_404, get_policy_500, update_policy_200,
  update_policy_400, update_policy_401, update_policy_403, update_policy_404, update_policy_409,
  update_policy_500,
}
use dcm_policy_manager.Client.Parsing.{ClientCodecs}
use dcm_policy_manager.Client.Answers.{api_error, to_api_list}

module _ (server : ServerCodecs) (client : ClientCodecs) where
  -- The client can read the error that the server encodes.
  abbrev pub ErrorReads : ErrorBody → Type 0
  ErrorReads e = Carries server.error client.error api_error e

  -- The client can read the body that the server encodes.
  abbrev pub GetHealthReads : GetHealthObject → Type 0
  GetHealthReads (get_health_200 health) = Carries server.health client.health (λ h. h) health

  -- The client can read the body that the server encodes.
  abbrev pub ListPoliciesReads : ListPoliciesObject → Type 0
  ListPoliciesReads (list_policies_200 list) =
      Carries server.policy_list client.policy_list to_api_list list
  ListPoliciesReads (list_policies_400 e) = ErrorReads e
  ListPoliciesReads (list_policies_401 e) = ErrorReads e
  ListPoliciesReads (list_policies_403 e) = ErrorReads e
  ListPoliciesReads (list_policies_500 e) = ErrorReads e

  -- The client can read the body that the server encodes.
  abbrev pub CreatePolicyReads : CreatePolicyObject → Type 0
  CreatePolicyReads (create_policy_201 policy location) =
      Carries server.policy client.policy policy_server_to_v1_alpha1 policy
  CreatePolicyReads (create_policy_400 e) = ErrorReads e
  CreatePolicyReads (create_policy_401 e) = ErrorReads e
  CreatePolicyReads (create_policy_403 e) = ErrorReads e
  CreatePolicyReads (create_policy_409 e) = ErrorReads e
  CreatePolicyReads (create_policy_422 e) = ErrorReads e
  CreatePolicyReads (create_policy_500 e) = ErrorReads e

  -- The client can read the body that the server encodes.
  abbrev pub DeletePolicyReads : DeletePolicyObject → Type 0
  DeletePolicyReads delete_policy_204 = Unit
  DeletePolicyReads (delete_policy_401 e) = ErrorReads e
  DeletePolicyReads (delete_policy_403 e) = ErrorReads e
  DeletePolicyReads (delete_policy_404 e) = ErrorReads e
  DeletePolicyReads (delete_policy_500 e) = ErrorReads e

  -- The client can read the body that the server encodes.
  abbrev pub GetPolicyReads : GetPolicyObject → Type 0
  GetPolicyReads (get_policy_200 policy) =
      Carries server.policy client.policy policy_server_to_v1_alpha1 policy
  GetPolicyReads (get_policy_401 e) = ErrorReads e
  GetPolicyReads (get_policy_403 e) = ErrorReads e
  GetPolicyReads (get_policy_404 e) = ErrorReads e
  GetPolicyReads (get_policy_500 e) = ErrorReads e

  -- The client can read the body that the server encodes.
  abbrev pub UpdatePolicyReads : UpdatePolicyObject → Type 0
  UpdatePolicyReads (update_policy_200 policy) =
      Carries server.policy client.policy policy_server_to_v1_alpha1 policy
  UpdatePolicyReads (update_policy_400 e) = ErrorReads e
  UpdatePolicyReads (update_policy_401 e) = ErrorReads e
  UpdatePolicyReads (update_policy_403 e) = ErrorReads e
  UpdatePolicyReads (update_policy_404 e) = ErrorReads e
  UpdatePolicyReads (update_policy_409 e) = ErrorReads e
  UpdatePolicyReads (update_policy_500 e) = ErrorReads e
