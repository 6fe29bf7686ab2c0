-- ===== src/Tests/Exchanging.antt =====
-- The client connected to the program of Tests/Running: it creates a policy. Other calls of the
-- client and of the generated servers on concrete requests.
use dcm_policy_manager.Prelude.{
  String, Option, none, some, [], ◌∷◌, ◌++◌, ◌≡◌, refl, ok-injective, Result, ok, err, assign,
  concat, Assoc, lookup,
}
use dcm_policy_manager.Text.{trim_space, has_suffix, split_at}
use dcm_policy_manager.Policy.{Policy}
use dcm_policy_manager.Convert.{ApiPolicy, api_to_db_model, db_to_api_model}
use dcm_policy_manager.Checks.{validate_post_input, get_policy_id}
use dcm_policy_manager.Service as Service
use dcm_policy_manager.Service.{World}
use dcm_policy_manager.Store as Store
use dcm_policy_manager.Opa.{
  compile, new_queries, build_queries, main_query, trim_prefix, validate_rego,
}
use dcm_policy_manager.PolicyApi as Handlers
use dcm_policy_manager.PolicyApi.{ServerPolicy, policy_v1_alpha1_to_server}
use dcm_policy_manager.Http.{completed, Request, HttpResponse, new_writer}
use dcm_policy_manager.Http.Web.{values_at, add}
use dcm_policy_manager.Api.{CreatePolicyParams}
use dcm_policy_manager.Api.Responses.{create_policy_201}
use dcm_policy_manager.Api.Strict.{StrictServer}
use dcm_policy_manager.Api.Routing.{serve, call, create_policy, update_policy}
use dcm_policy_manager.Client.{
  Client, new_client, apply_options, apply_editors, edit, with_http_client,
}
use dcm_policy_manager.Client.Parsing.{ClientCodecs}
use dcm_policy_manager.Client.Building.{
  relative, operation_url, new_request, add_text, add_styled, add_parsed, add_each,
  new_create_policy_request, new_create_policy_request_with_body,
}
use dcm_policy_manager.Client.Requests.{ClientCall, create_call, build, operate}
use dcm_policy_manager.Client.Requests.Received.{build-serve}
use dcm_policy_manager.Client.Answers.{create_policy_view}
use dcm_policy_manager.Client.Answers.Read.{create_policy_sent}
use dcm_policy_manager.Client.Exchange.{ClientAnswer, create_answer, perform, perform-Returns}
use dcm_policy_manager.System.Remote.{policy_handler}
use dcm_policy_manager.Api.Refusing.{IsRefused, call-unreadable}
use dcm_policy_manager.System.Remote.Objects.{create_policy_object}
use dcm_policy_manager.Tests.Serving.{show_priority}
use dcm_policy_manager.Tests.Publishing.{echo, new_policy, queries_of_p1}
use dcm_policy_manager.Tests.Tables.{one_row_db}
use dcm_policy_manager.Tests.Running.{at_start}
use dcm_policy_manager.Tests.Remote.{server_codecs, constant}
use dcm_policy_manager.Tests.Web.{Place, web, base, router, router-IsRouter, web-IsWeb}

abbrev State : Type 0
State = World (Option Policy) (Assoc String)

abbrev program : StrictServer State
program = policy_handler one_row_db echo show_priority "g"

abbrev created : ApiPolicy
created = db_to_api_model (api_to_db_model new_policy "p1")

abbrev client_codecs : ClientCodecs
client_codecs = record {
  health = constant (err "no health");
  policy = record {
    marshal = λ p. ok "first";
    unmarshal = λ text. ok (record created { display_name = some text });
    encode = λ p. ok "first";
    decode = λ body. err "not read";
  };
  policy_list = constant (err "no list");
  error = constant (err "no error");
}

abbrev doer : State → Request Place → State × Result String HttpResponse
doer s r =
    let answered = serve web server_codecs program router base s r in (answered.0, ok answered.1)

abbrev client : Client Place State
client = record {
  server = "http://localhost/api/v1alpha1/";
  client = some doer;
  request_editors = [];
}

abbrev with_p1 : State
with_p1 = record { db = some (api_to_db_model new_policy "p1"); engine = queries_of_p1 }

abbrev params : CreatePolicyParams
params = record { id = some "p1" }

abbrev creation : ClientCall
creation = create_call (some params) new_policy

abbrev creation_request : Request Place
creation_request = record {
  method = "POST";
  url = record { segments = base ++ "policies" ∷ []; values = ("id", "p1" ∷ []) ∷ [] };
  header = ("Content-Type", "application/json") ∷ [];
  body = some "first";
}

built : build web client_codecs.policy client.server creation ≡ ok creation_request
unfolding build new_create_policy_request new_create_policy_request_with_body operation_url
    new_request add_text add_styled add_parsed add_each add values_at lookup assign relative concat
    split_at
built = refl

edited : apply_editors client [] creation_request ≡ ok creation_request
unfolding apply_editors edit
edited = refl

returned :
    program.create_policy at_start params (some (policy_v1_alpha1_to_server new_policy))
    ≡ (with_p1, ok (some (create_policy_201 (policy_v1_alpha1_to_server created) "")))
unfolding Handlers.create_policy Service.create_policy Service.recompile_engine validate_post_input
    trim_space get_policy_id api_to_db_model db_to_api_model Handlers.policy_server_to_v1_alpha1
    policy_v1_alpha1_to_server compile new_queries build_queries main_query trim_prefix
    validate_rego assign concat Store.list_all Store.create create_policy_object
returned = refl

abbrev answer : ClientAnswer
answer =
    let object = create_policy_201 (policy_v1_alpha1_to_server created) "" in
    create_answer
      (create_policy_view (create_policy_sent server_codecs client_codecs object) object)

perform-Returns_example :
    perform web client_codecs client [] creation at_start ≡ (with_p1, ok answer)
unfolding policy_v1_alpha1_to_server Handlers.policy_server_to_v1_alpha1 db_to_api_model
    api_to_db_model
perform-Returns_example =
    perform-Returns web web-IsWeb server_codecs client_codecs program router-IsRouter client refl
      refl [] creation at_start with_p1 answer tt (λ text h. rw (← ok-injective h) refl) built
      edited
      (
        create_policy_201 (policy_v1_alpha1_to_server created) "",
        returned,
        ("first", refl, refl),
        refl,
      )

made : new_client doer "http://localhost/api/v1alpha1" (with_http_client doer ∷ []) ≡ ok client
unfolding new_client apply_options has_suffix concat
made = refl

build-serve_example :
    serve web server_codecs program router base at_start creation_request
    ≡ completed (operate server_codecs program creation at_start)
unfolding policy_v1_alpha1_to_server
build-serve_example =
    build-serve web web-IsWeb client.server refl client_codecs.policy server_codecs program
      router-IsRouter creation at_start tt (λ text h. rw (← ok-injective h) refl) built

abbrev unreadable : Request Place
unreadable = record creation_request { body = none }

call-unreadable_example :
    IsRefused web server_codecs program at_start
      (call web server_codecs program create_policy [] at_start unreadable new_writer)
    × IsRefused web server_codecs program at_start
        (call web server_codecs program update_policy [] at_start unreadable new_writer)
call-unreadable_example = call-unreadable web server_codecs program [] at_start unreadable refl
