-- ===== src/EngineApi/Exchange.antt =====
-- The client of the evaluation API (pkg/engineclient/client.gen.go) and its server
-- (internal/api/engine/server.gen.go) put together.
use dcm_policy_manager.Prelude.{
  String, none, some, List, [], ◌∷◌, ◌++◌, ◌≡◌, refl, Result, ok, bind-ok, ok-injective, sym, ap,
  lookup, concat,
}
use dcm_policy_manager.Errors.{ServiceError}
use dcm_policy_manager.Evaluation.{
  EvaluationRequest, EvaluationResponse, EvaluationStatus, approved, modified,
}
use dcm_policy_manager.Http.{
  completed, Request, HttpResponse, Carries, new_writer, written, header_get,
}
use dcm_policy_manager.Http.Web.{Web, IsWeb, IsAt}
use dcm_policy_manager.Http.Routes.{Router, IsRouter, candidates, match_path, match_path-literals}
use dcm_policy_manager.Api.Strict.{respond, finish, decoding}
use dcm_policy_manager.Client.{Client, RequestEditorFn, send, apply_editors}
use dcm_policy_manager.Client.Building.{operation_url, new_request, relative}
use dcm_policy_manager.Client.Parsing.{is_json, read_body}
use dcm_policy_manager.Client.Requests.Urls.{word_url-IsAt, new_request-ok}
use dcm_policy_manager.Client.Answers.Read.{visit_json-ok}
use dcm_policy_manager.EngineApi.{ApiResponse, handle_evaluate_request}
use dcm_policy_manager.EngineApi.Server.{
  EvaluateRequest, EvaluateRequestObject, evaluate_request_200, evaluate_request_400,
  evaluate_request_401, evaluate_request_403, evaluate_request_406, evaluate_request_409,
  evaluate_request_500, EngineCodecs, visit_evaluate_request_response, evaluate_request_object,
  engine_handler, StrictEngine, Endpoint, evaluate_request, routes, serve, strict_evaluate_request,
}
use dcm_policy_manager.EngineApi.Client.{
  EvaluateResponse, EngineClientCodecs, EvaluateRequestResponse, parse_evaluate_request_response,
  new_evaluate_request_request, new_evaluate_request_request_with_body,
  evaluate_request_with_response,
}
use dcm_policy_manager.EngineApi.Client as Client

abbrev status_text : EvaluationStatus → String
status_text approved = "APPROVED"
status_text modified = "MODIFIED"

abbrev pub engine_response : ApiResponse → EvaluateResponse
engine_response r = record {
  evaluated_service_instance = record { spec = r.evaluated_service_instance };
  selected_provider = r.selected_provider;
  status = status_text r.status;
}

-- the fields of a response to EvaluateRequest
abbrev pub engine_view : HttpResponse → EvaluateRequestObject → EvaluateRequestResponse
engine_view rsp (evaluate_request_200 r) = record {
  http_response = rsp;
  json_200 = some (engine_response r);
  json_400 = none;
  json_401 = none;
  json_403 = none;
  json_406 = none;
  json_409 = none;
  json_500 = none;
}
engine_view rsp (evaluate_request_400 e) = record {
  http_response = rsp;
  json_200 = none;
  json_400 = some e;
  json_401 = none;
  json_403 = none;
  json_406 = none;
  json_409 = none;
  json_500 = none;
}
engine_view rsp (evaluate_request_401 e) = record {
  http_response = rsp;
  json_200 = none;
  json_400 = none;
  json_401 = some e;
  json_403 = none;
  json_406 = none;
  json_409 = none;
  json_500 = none;
}
engine_view rsp (evaluate_request_403 e) = record {
  http_response = rsp;
  json_200 = none;
  json_400 = none;
  json_401 = none;
  json_403 = some e;
  json_406 = none;
  json_409 = none;
  json_500 = none;
}
engine_view rsp (evaluate_request_406 e) = record {
  http_response = rsp;
  json_200 = none;
  json_400 = none;
  json_401 = none;
  json_403 = none;
  json_406 = some e;
  json_409 = none;
  json_500 = none;
}
engine_view rsp (evaluate_request_409 e) = record {
  http_response = rsp;
  json_200 = none;
  json_400 = none;
  json_401 = none;
  json_403 = none;
  json_406 = none;
  json_409 = some e;
  json_500 = none;
}
engine_view rsp (evaluate_request_500 e) = record {
  http_response = rsp;
  json_200 = none;
  json_400 = none;
  json_401 = none;
  json_403 = none;
  json_406 = none;
  json_409 = none;
  json_500 = some e;
}

module _ (server : EngineCodecs) (client : EngineClientCodecs) where
  -- The client can read the body that the server encodes.
  abbrev EngineReads : EvaluateRequestObject → Type 0
  EngineReads (evaluate_request_200 r) = Carries server.response client.response engine_response r
  EngineReads (evaluate_request_400 e) = Carries server.error client.error (λ e. e) e
  EngineReads (evaluate_request_401 e) = Carries server.error client.error (λ e. e) e
  EngineReads (evaluate_request_403 e) = Carries server.error client.error (λ e. e) e
  EngineReads (evaluate_request_406 e) = Carries server.error client.error (λ e. e) e
  EngineReads (evaluate_request_409 e) = Carries server.error client.error (λ e. e) e
  EngineReads (evaluate_request_500 e) = Carries server.error client.error (λ e. e) e

  abbrev pub engine_sent : EvaluateRequestObject → HttpResponse
  engine_sent object =
      written (respond (visit_evaluate_request_response server) (ok (some object)) new_writer)

  engine-parse :
      (object : EvaluateRequestObject)
      → EngineReads object
      → parse_evaluate_request_response client (engine_sent object)
        ≡ ok (engine_view (engine_sent object) object)
  unfolding visit_evaluate_request_response parse_evaluate_request_response is_json read_body
      header_get lookup
  engine-parse (evaluate_request_200 r) (text, sent, read) =
      rw (visit_json-ok server.response 200 r text sent, read)
  engine-parse (evaluate_request_400 e) (text, sent, read) =
      rw (visit_json-ok server.error 400 e text sent, read)
  engine-parse (evaluate_request_401 e) (text, sent, read) =
      rw (visit_json-ok server.error 401 e text sent, read)
  engine-parse (evaluate_request_403 e) (text, sent, read) =
      rw (visit_json-ok server.error 403 e text sent, read)
  engine-parse (evaluate_request_406 e) (text, sent, read) =
      rw (visit_json-ok server.error 406 e text sent, read)
  engine-parse (evaluate_request_409 e) (text, sent, read) =
      rw (visit_json-ok server.error 409 e text sent, read)
  engine-parse (evaluate_request_500 e) (text, sent, read) =
      rw (visit_json-ok server.error 500 e text sent, read)

module _ {U F S : Type 0} (web : Web U F) {root : U} {base : List String}
    (laws : IsWeb web root base) (codecs : EngineCodecs) (client : EngineClientCodecs)
    (ssi : StrictEngine S) {router : Router Endpoint} (chi : IsRouter router) (c : Client U S)
    (rooted : web.parse c.server ≡ ok root) where
  abbrev word : String
  word = "policies:evaluateRequest"

  evaluate_fits : candidates (routes base) "POST" (base ++ word ∷ []) ≡ (evaluate_request, []) ∷ []
  unfolding candidates match_path
  evaluate_fits = simp match_path-literals

  evaluate_url-IsAt :
      {u : U}
      → operation_url web c.server "/policies:evaluateRequest" ≡ ok u
      → IsAt web (base ++ word ∷ []) u
  unfolding relative concat
  evaluate_url-IsAt h = word_url-IsAt web laws c.server rooted word refl refl h

  evaluate-serve :
      (body : EvaluateRequest) (s : S) {r : Request U}
      → ((text : String)
          → client.request.marshal body ≡ ok text
          → codecs.request.decode (some text) ≡ ok body)
      → new_evaluate_request_request web client.request c.server body ≡ ok r
      → serve codecs ssi web router base s r
        ≡ completed (
            finish
              (visit_evaluate_request_response codecs)
              (ssi.evaluate_request s body)
              new_writer)
  unfolding new_evaluate_request_request new_evaluate_request_request_with_body serve
      strict_evaluate_request decoding
  evaluate-serve body s {r} reads h =
      let (json, marshalled, k) = bind-ok (client.request.marshal body) _ h in
      let (u, url, k₁) = bind-ok (operation_url web c.server "/policies:evaluateRequest") _ k in
      let (sent, made, typed) = bind-ok (new_request web "POST" u (some json)) _ k₁ in
      let e = ok-injective typed in
      let (method, (path, query), same) =
        new_request-ok web laws c.server rooted "POST" u (some json) made in
      let (at, empty) = evaluate_url-IsAt url in
      rw
        (
          ap (λ r. r.method) (sym e),
          method,
          ap (λ r. web.route_path r.url) (sym e),
          path,
          at,
          chi.only (routes base) "POST" _ evaluate_request [] evaluate_fits,
          ap (λ r. r.body) (sym e),
          same,
          reads json marshalled,
        )
        refl

-- the handler's answer to a request
abbrev pub answer_of :
    {S : Type 0}
    → (S → EvaluationRequest → Result ServiceError EvaluationResponse)
    → S
    → EvaluateRequest
    → EvaluateRequestObject
answer_of evaluate s body =
    evaluate_request_object (handle_evaluate_request (evaluate s) body.service_instance.spec)

module _ {U F S : Type 0} (web : Web U F) {root : U} {base : List String}
    (laws : IsWeb web root base) (codecs : EngineCodecs) (client : EngineClientCodecs)
    (evaluate : S → EvaluationRequest → Result ServiceError EvaluationResponse)
    {router : Router Endpoint} (chi : IsRouter router) (c : Client U S)
    (rooted : web.parse c.server ≡ ok root) where
  -- If the client is connected to the server, its editors leave the request as it is, the server
  -- reads the body as it was written, and the client can read the body of the handler's answer,
  -- then the client's call returns that answer, under the field of its status, and the state is
  -- unchanged.
  pub evaluate-answer :
      (req_editors : List (RequestEditorFn U)) (body : EvaluateRequest) (s : S) {r : Request U}
      → c.client
        ≡ some (λ s r.
          let answered = serve codecs (engine_handler evaluate) web router base s r in
          (answered.0, ok answered.1))
      → ((text : String)
          → client.request.marshal body ≡ ok text
          → codecs.request.decode (some text) ≡ ok body)
      → new_evaluate_request_request web client.request c.server body ≡ ok r
      → apply_editors c req_editors r ≡ ok r
      → EngineReads codecs client (answer_of evaluate s body)
      → evaluate_request_with_response web client c req_editors body s ≡ (
        s,
        ok (
            engine_view
              (engine_sent codecs client (answer_of evaluate s body))
              (answer_of evaluate s body)),
      )
  unfolding evaluate_request_with_response Client.evaluate_request send
  evaluate-answer req_editors body s connected reads h edited read =
      rw
        (
          h,
          edited,
          connected,
          evaluate-serve web laws codecs client (engine_handler evaluate) chi c rooted body s reads
              h,
          engine-parse codecs client (answer_of evaluate s body) read,
        )
        refl
