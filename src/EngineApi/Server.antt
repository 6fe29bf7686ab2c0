-- ===== src/EngineApi/Server.antt =====
-- internal/api/engine/server.gen.go, the generated server of the evaluation API. Its errors of
-- parameters and its error handlers are those of internal/api/server/server.gen.go.
use dcm_policy_manager.Prelude.{String, Option, some, List, [], ◌∷◌, ◌++◌, Result, ok}
use dcm_policy_manager.Value.{Fields}
use dcm_policy_manager.Errors.{ServiceError}
use dcm_policy_manager.Evaluation.{EvaluationRequest, EvaluationResponse}
use dcm_policy_manager.Http.{
  Request, HttpResponse, Writer, Codec, new_writer, completed, visit_json,
}
use dcm_policy_manager.Http.Web.{Web}
use dcm_policy_manager.Http.Routes.{Route, literal, literals, Router, Found, found, unrouted}
use dcm_policy_manager.Api.Strict.{Returned, decoding, finish}
use dcm_policy_manager.EngineApi.{
  Problem, ApiResponse, Response, evaluated, bad_request_response, rejected_response,
  conflict_response, internal_error_response, handle_evaluate_request,
}

pub record ServiceInstance : Type 0 where
  pub spec : Fields

pub record EvaluateRequest : Type 0 where
  pub service_instance : ServiceInstance

pub data EvaluateRequestObject : Type 0 where
  evaluate_request_200 : ApiResponse → EvaluateRequestObject
  evaluate_request_400 evaluate_request_401 evaluate_request_403 evaluate_request_406
        evaluate_request_409 evaluate_request_500 :
      Problem → EvaluateRequestObject

-- encoding/json at the types of the bodies
pub record EngineCodecs : Type 0 where
  pub request : Codec EvaluateRequest
  pub response : Codec ApiResponse
  pub error : Codec Problem

unfoldable pub visit_evaluate_request_response :
    EngineCodecs → EvaluateRequestObject → Writer → Writer × Option String
unfolding visit_json
visit_evaluate_request_response codecs (evaluate_request_200 body) w =
    visit_json codecs.response 200 body w
visit_evaluate_request_response codecs (evaluate_request_400 e) w = visit_json codecs.error 400 e w
visit_evaluate_request_response codecs (evaluate_request_401 e) w = visit_json codecs.error 401 e w
visit_evaluate_request_response codecs (evaluate_request_403 e) w = visit_json codecs.error 403 e w
visit_evaluate_request_response codecs (evaluate_request_406 e) w = visit_json codecs.error 406 e w
visit_evaluate_request_response codecs (evaluate_request_409 e) w = visit_json codecs.error 409 e w
visit_evaluate_request_response codecs (evaluate_request_500 e) w = visit_json codecs.error 500 e w

pub record StrictEngine (S : Type 0) : Type 0 where
  pub evaluate_request : S → EvaluateRequest → Returned S EvaluateRequestObject

-- The response object that the handler returns (internal/handlers/engine/errors.go).
unfoldable pub evaluate_request_object : Response → EvaluateRequestObject
evaluate_request_object (evaluated response) = evaluate_request_200 response
evaluate_request_object (bad_request_response e) = evaluate_request_400 e
evaluate_request_object (rejected_response e) = evaluate_request_406 e
evaluate_request_object (conflict_response e) = evaluate_request_409 e
evaluate_request_object (internal_error_response e) = evaluate_request_500 e

-- NewHandler: an evaluation reads the state and does not change it.
abbrev pub engine_handler :
    {S : Type 0} → (S → EvaluationRequest → Result ServiceError EvaluationResponse) → StrictEngine S
engine_handler evaluate = record {
  evaluate_request = λ s body. (
    s,
    ok (
        some (
          evaluate_request_object
            (handle_evaluate_request (evaluate s) body.service_instance.spec))),
  );
}

pub data Endpoint : Type 0 where
  evaluate_request : Endpoint

-- the call of HandlerWithOptions; the base URL is given by its segments
abbrev pub routes : List String → List (Route Endpoint)
routes base =
    record {
      method = "POST";
      pattern = literals base ++ literal "policies:evaluateRequest" ∷ [];
      endpoint = evaluate_request;
    }
    ∷ []

module _ {S : Type 0} (codecs : EngineCodecs) (ssi : StrictEngine S) where
  unfoldable pub strict_evaluate_request : S → Option String → Writer → S × Writer
  strict_evaluate_request s request_body w =
      decoding (codecs.request.decode request_body)
        (λ body w. finish (visit_evaluate_request_response codecs) (ssi.evaluate_request s body) w)
        s w

  module _ {U F : Type 0} (web : Web U F) where
    abbrev pub dispatch : Found Endpoint → S → Request U → S × HttpResponse
    dispatch (unrouted response) s r = (s, response)
    dispatch (found endpoint values) s r = completed (strict_evaluate_request s r.body new_writer)

    -- what the handler that HandlerWithOptions returns does with a request
    unfoldable pub serve : Router Endpoint → List String → S → Request U → S × HttpResponse
    serve router base s r = dispatch (router (routes base) r.method (web.route_path r.url)) s r
