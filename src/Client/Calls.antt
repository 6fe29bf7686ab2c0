-- ===== src/Client/Calls.antt =====
-- The operations of Client and of ClientWithResponses in pkg/client/client.gen.go.
use dcm_policy_manager.Prelude.{String, Option, List, Result, ◌>>=◌}
use dcm_policy_manager.Convert.{ApiPolicy}
use dcm_policy_manager.Http.{HttpResponse}
use dcm_policy_manager.Http.Web.{Web}
use dcm_policy_manager.Api.{ListPoliciesParams, CreatePolicyParams}
use dcm_policy_manager.Client.{Client, RequestEditorFn, send}
use dcm_policy_manager.Client.Building.{
  new_get_health_request, new_list_policies_request, new_create_policy_request_with_body,
  new_create_policy_request, new_delete_policy_request, new_get_policy_request,
  new_update_policy_request_with_body, new_update_policy_request_with_merge_patch,
}
use dcm_policy_manager.Client.Parsing.{
  ClientCodecs, GetHealthResponse, ListPoliciesResponse, CreatePolicyResponse, DeletePolicyResponse,
  GetPolicyResponse, UpdatePolicyResponse, parse_get_health_response, parse_list_policies_response,
  parse_create_policy_response, parse_delete_policy_response, parse_get_policy_response,
  parse_update_policy_response,
}

module _ {U F S : Type 0} (web : Web U F) (codecs : ClientCodecs) (c : Client U S)
    (req_editors : List (RequestEditorFn U)) where
  unfoldable pub get_health : S → S × Result String HttpResponse
  get_health s = send c req_editors (new_get_health_request web c.server) s

  unfoldable pub list_policies : Option ListPoliciesParams → S → S × Result String HttpResponse
  list_policies params s = send c req_editors (new_list_policies_request web c.server params) s

  unfoldable pub create_policy_with_body :
      Option CreatePolicyParams → String → String → S → S × Result String HttpResponse
  create_policy_with_body params content_type body s =
      send c req_editors (new_create_policy_request_with_body web c.server params content_type body)
        s

  unfoldable pub create_policy :
      Option CreatePolicyParams → ApiPolicy → S → S × Result String HttpResponse
  create_policy params body s =
      send c req_editors (new_create_policy_request web codecs.policy c.server params body) s

  unfoldable pub delete_policy : String → S → S × Result String HttpResponse
  delete_policy policy_id s =
      send c req_editors (new_delete_policy_request web c.server policy_id) s

  unfoldable pub get_policy : String → S → S × Result String HttpResponse
  get_policy policy_id s = send c req_editors (new_get_policy_request web c.server policy_id) s

  unfoldable pub update_policy_with_body :
      String → String → String → S → S × Result String HttpResponse
  update_policy_with_body policy_id content_type body s =
      send c req_editors
        (new_update_policy_request_with_body web c.server policy_id content_type body) s

  unfoldable pub update_policy_with_merge_patch :
      String → ApiPolicy → S → S × Result String HttpResponse
  update_policy_with_merge_patch policy_id body s =
      send c req_editors
        (new_update_policy_request_with_merge_patch web codecs.policy c.server policy_id body) s

  -- the operations of ClientWithResponses: a response is parsed
  abbrev pub parsed :
      {R : Type 0}
      → (HttpResponse → Result String R)
      → S × Result String HttpResponse
      → S × Result String R
  parsed parse (s, response) = (s, response >>= parse)

  unfoldable pub get_health_with_response : S → S × Result String GetHealthResponse
  get_health_with_response s = parsed (parse_get_health_response codecs) (get_health s)

  unfoldable pub list_policies_with_response :
      Option ListPoliciesParams → S → S × Result String ListPoliciesResponse
  list_policies_with_response params s =
      parsed (parse_list_policies_response codecs) (list_policies params s)

  unfoldable pub create_policy_with_body_with_response :
      Option CreatePolicyParams → String → String → S → S × Result String CreatePolicyResponse
  create_policy_with_body_with_response params content_type body s =
      parsed (parse_create_policy_response codecs)
        (create_policy_with_body params content_type body s)

  unfoldable pub create_policy_with_response :
      Option CreatePolicyParams → ApiPolicy → S → S × Result String CreatePolicyResponse
  create_policy_with_response params body s =
      parsed (parse_create_policy_response codecs) (create_policy params body s)

  unfoldable pub delete_policy_with_response : String → S → S × Result String DeletePolicyResponse
  delete_policy_with_response policy_id s =
      parsed (parse_delete_policy_response codecs) (delete_policy policy_id s)

  unfoldable pub get_policy_with_response : String → S → S × Result String GetPolicyResponse
  get_policy_with_response policy_id s =
      parsed (parse_get_policy_response codecs) (get_policy policy_id s)

  unfoldable pub update_policy_with_body_with_response :
      String → String → String → S → S × Result String UpdatePolicyResponse
  update_policy_with_body_with_response policy_id content_type body s =
      parsed (parse_update_policy_response codecs)
        (update_policy_with_body policy_id content_type body s)

  unfoldable pub update_policy_with_merge_patch_with_response :
      String → ApiPolicy → S → S × Result String UpdatePolicyResponse
  update_policy_with_merge_patch_with_response policy_id body s =
      parsed (parse_update_policy_response codecs) (update_policy_with_merge_patch policy_id body s)
