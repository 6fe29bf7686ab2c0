-- ===== src/EngineApi/Client.antt =====
-- pkg/engineclient/client.gen.go, the generated client of the evaluation API. Its settings are those
-- of the client of the policy API (Client.antt).
use dcm_policy_manager.Prelude.{String, Option, none, some, List, Result, ok, ◌>>=◌, if◌then◌else◌}
use dcm_policy_manager.Http.{Request, HttpResponse, Codec}
use dcm_policy_manager.Http.Web.{Web}
use dcm_policy_manager.Client.{Client, RequestEditorFn, send}
use dcm_policy_manager.Client.Building.{operation_url, new_request, with_content_type}
use dcm_policy_manager.Client.Parsing.{is_json, read_body}
use dcm_policy_manager.EngineApi.{Problem}
use dcm_policy_manager.EngineApi.Server.{EvaluateRequest, ServiceInstance}

-- the types of api/v1alpha1/engine; its Error is declared like that of the server
pub record EvaluateResponse : Type 0 where
  pub evaluated_service_instance : ServiceInstance
  pub selected_provider : String
  pub status : String

pub record EngineClientCodecs : Type 0 where
  pub request : Codec EvaluateRequest
  pub response : Codec EvaluateResponse
  pub error : Codec Problem

pub record EvaluateRequestResponse : Type 0 where
  pub http_response : HttpResponse
  pub json_200 : Option EvaluateResponse
  pub json_400 : Option Problem
  pub json_401 : Option Problem
  pub json_403 : Option Problem
  pub json_406 : Option Problem
  pub json_409 : Option Problem
  pub json_500 : Option Problem

unfoldable pub parse_evaluate_request_response :
    EngineClientCodecs → HttpResponse → Result String EvaluateRequestResponse
unfolding is_json read_body
parse_evaluate_request_response codecs rsp =
    let response : EvaluateRequestResponse = record {
      http_response = rsp;
      json_200 = none;
      json_400 = none;
      json_401 = none;
      json_403 = none;
      json_406 = none;
      json_409 = none;
      json_500 = none;
    } in
    if is_json 200 rsp
    then read_body codecs.response rsp (λ dest. record response { json_200 = some dest })
    else if is_json 400 rsp
    then read_body codecs.error rsp (λ dest. record response { json_400 = some dest })
    else if is_json 401 rsp
    then read_body codecs.error rsp (λ dest. record response { json_401 = some dest })
    else if is_json 403 rsp
    then read_body codecs.error rsp (λ dest. record response { json_403 = some dest })
    else if is_json 406 rsp
    then read_body codecs.error rsp (λ dest. record response { json_406 = some dest })
    else if is_json 409 rsp
    then read_body codecs.error rsp (λ dest. record response { json_409 = some dest })
    else if is_json 500 rsp
    then read_body codecs.error rsp (λ dest. record response { json_500 = some dest })
    else ok response

module _ {U F : Type 0} (web : Web U F) where
  unfoldable pub new_evaluate_request_request_with_body :
      String → String → String → Result String (Request U)
  new_evaluate_request_request_with_body server content_type body = do
    query_url ← operation_url web server "/policies:evaluateRequest"
    r ← new_request web "POST" query_url (some body)
    ok (with_content_type web content_type r)

  unfoldable pub new_evaluate_request_request :
      Codec EvaluateRequest → String → EvaluateRequest → Result String (Request U)
  new_evaluate_request_request codec server body = do
    text ← codec.marshal body
    new_evaluate_request_request_with_body server "application/json" text

  module _ {S : Type 0} (codecs : EngineClientCodecs) (c : Client U S)
      (req_editors : List (RequestEditorFn U)) where
    unfoldable pub evaluate_request_with_body : String → String → S → S × Result String HttpResponse
    evaluate_request_with_body content_type body s =
        send c req_editors (new_evaluate_request_request_with_body c.server content_type body) s

    unfoldable pub evaluate_request : EvaluateRequest → S → S × Result String HttpResponse
    evaluate_request body s =
        send c req_editors (new_evaluate_request_request codecs.request c.server body) s

    unfoldable pub evaluate_request_with_body_with_response :
        String → String → S → S × Result String EvaluateRequestResponse
    evaluate_request_with_body_with_response content_type body s =
        let (after, response) = evaluate_request_with_body content_type body s in
        (after, response >>= parse_evaluate_request_response codecs)

    unfoldable pub evaluate_request_with_response :
        EvaluateRequest → S → S × Result String EvaluateRequestResponse
    evaluate_request_with_response body s =
        let (after, response) = evaluate_request body s in
        (after, response >>= parse_evaluate_request_response codecs)
