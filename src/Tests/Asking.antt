-- ===== src/Tests/Asking.antt =====
-- The client of the evaluation API and its server, over an evaluation that changes nothing.
use dcm_policy_manager.Prelude.{
  String, some, [], ◌∷◌, ◌++◌, ◌≡◌, refl, Result, ok, err, concat, assign,
}
use dcm_policy_manager.Text.{split_at}
use dcm_policy_manager.Value.{end, field, str, get}
use dcm_policy_manager.Errors.{ServiceError}
use dcm_policy_manager.Evaluation.{EvaluationRequest, EvaluationResponse, approved}
use dcm_policy_manager.Http.{Codec, Request}
use dcm_policy_manager.Client.{Client, apply_editors, edit}
use dcm_policy_manager.Client.Building.{relative, operation_url, new_request}
use dcm_policy_manager.EngineApi.{
  ApiResponse, handle_evaluate_request, to_service_evaluation_request, extract_request_labels,
  add_labels,
}
use dcm_policy_manager.EngineApi.Server.{
  EvaluateRequest, EngineCodecs, engine_handler, serve, evaluate_request_object,
}
use dcm_policy_manager.EngineApi.Client.{
  EngineClientCodecs, evaluate_request_with_response, new_evaluate_request_request,
  new_evaluate_request_request_with_body,
}
use dcm_policy_manager.EngineApi.Exchange.{
  engine_response, engine_view, engine_sent, answer_of, evaluate-answer,
}
use dcm_policy_manager.Tests.Web.{Place, web, base, router, router-IsRouter, web-IsWeb}

abbrev vm : EvaluateRequest
vm = record { service_instance = record { spec = field "service_type" (str "vm") end } }

abbrev evaluate : Unit {0} → EvaluationRequest → Result ServiceError EvaluationResponse
evaluate s req = ok (record {
  evaluated_service_instance = req.service_instance;
  selected_provider = "provider";
  status = approved;
})

abbrev one : {A : Type 0} → Result String A → Codec A
one value = record {
  marshal = λ a. ok "{}";
  unmarshal = λ text. value;
  encode = λ a. ok "{}";
  decode = λ body. value;
}

abbrev answer : ApiResponse
answer = record {
  evaluated_service_instance = vm.service_instance.spec;
  selected_provider = "provider";
  status = approved;
}

abbrev server_codecs : EngineCodecs
server_codecs = record { request = one (ok vm); response = one (ok answer); error = one (err "") }

abbrev client_codecs : EngineClientCodecs
client_codecs = record {
  request = one (ok vm);
  response = one (ok (engine_response answer));
  error = one (err "");
}

abbrev client : Client Place (Unit {0})
client = record {
  server = "http://localhost/api/v1alpha1/";
  client = some (λ s r.
      let answered = serve server_codecs (engine_handler evaluate) web router base s r in
      (answered.0, ok answered.1));
  request_editors = [];
}

abbrev question : Request Place
question = record {
  method = "POST";
  url = record { segments = base ++ "policies:evaluateRequest" ∷ []; values = [] };
  header = ("Content-Type", "application/json") ∷ [];
  body = some "{}";
}

asked : new_evaluate_request_request web client_codecs.request client.server vm ≡ ok question
unfolding new_evaluate_request_request new_evaluate_request_request_with_body operation_url
    new_request relative concat split_at
asked = refl

edited : apply_editors client [] question ≡ ok question
unfolding apply_editors edit
edited = refl

evaluate-answer_example : evaluate_request_with_response web client_codecs client [] vm tt ≡ (
  tt,
  ok (
      engine_view
        (engine_sent server_codecs client_codecs (answer_of evaluate tt vm))
        (answer_of evaluate tt vm)),
)
unfolding handle_evaluate_request to_service_evaluation_request extract_request_labels get
    evaluate_request_object add_labels assign
evaluate-answer_example =
    evaluate-answer web web-IsWeb server_codecs client_codecs evaluate router-IsRouter client refl
      [] vm tt refl (λ text h. refl) asked edited ("{}", refl, refl)
