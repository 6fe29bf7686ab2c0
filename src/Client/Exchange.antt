-- ===== src/Client/Exchange.antt =====
-- The client (pkg/client/client.gen.go) and the generated server
-- (internal/api/server/server.gen.go) put together: a call over HTTP has the effect and the answer
-- of the handler's operation.
use dcm_policy_manager.Prelude.{String, some, List, ◌≡◌, refl, Result, ok, err, ◌∙◌}
use dcm_policy_manager.PolicyApi.{policy_v1_alpha1_to_server}
use dcm_policy_manager.Http.{completed, Request, HttpResponse}
use dcm_policy_manager.Http.Web.{Web, IsWeb}
use dcm_policy_manager.Http.Routes.{Router, IsRouter}
use dcm_policy_manager.Api.{ServerCodecs}
use dcm_policy_manager.Api.Responses.{
  GetHealthObject, ListPoliciesObject, CreatePolicyObject, DeletePolicyObject, GetPolicyObject,
  UpdatePolicyObject,
}
use dcm_policy_manager.Api.Strict.{StrictServer}
use dcm_policy_manager.Api.Routing.{Endpoint, serve}
use dcm_policy_manager.Client.{Client, RequestEditorFn, send, apply_editors}
use dcm_policy_manager.Client.Parsing.{
  ClientCodecs, GetHealthResponse, ListPoliciesResponse, CreatePolicyResponse, DeletePolicyResponse,
  GetPolicyResponse, UpdatePolicyResponse,
}
use dcm_policy_manager.Client.Calls.{
  get_health_with_response, list_policies_with_response, create_policy_with_response,
  delete_policy_with_response, get_policy_with_response,
  update_policy_with_merge_patch_with_response, get_health, list_policies, create_policy,
  delete_policy, get_policy, update_policy_with_merge_patch,
}
use dcm_policy_manager.Client.Requests.{
  ClientCall, health_call, list_call, create_call, delete_call, get_call, update_call, HasPathId,
  HasBody, build, operate, list_params_or_empty, create_params_or_empty,
}
use dcm_policy_manager.Client.Requests.Received.{build-serve}
use dcm_policy_manager.Client.Answers.Readable.{
  GetHealthReads, ListPoliciesReads, CreatePolicyReads, DeletePolicyReads, GetPolicyReads,
  UpdatePolicyReads,
}
use dcm_policy_manager.Client.Answers.{
  get_health_view, list_policies_view, create_policy_view, delete_policy_view, get_policy_view,
  update_policy_view,
}
use dcm_policy_manager.Client.Answers.Read.{
  get_health_sent, list_policies_sent, create_policy_sent, delete_policy_sent, get_policy_sent,
  update_policy_sent, get_health-parse, list_policies-parse, create_policy-parse,
  delete_policy-parse, get_policy-parse, update_policy-parse,
}

pub data ClientAnswer : Type 0 where
  health_answer : GetHealthResponse → ClientAnswer
  list_answer : ListPoliciesResponse → ClientAnswer
  create_answer : CreatePolicyResponse → ClientAnswer
  delete_answer : DeletePolicyResponse → ClientAnswer
  get_answer : GetPolicyResponse → ClientAnswer
  update_answer : UpdatePolicyResponse → ClientAnswer

abbrev kept :
    {S R : Type 0} → (R → ClientAnswer) → S × Result String R → S × Result String ClientAnswer
kept keep (s, ok response) = (s, ok (keep response))
kept keep (s, err e) = (s, err e)

module _ {U F S : Type 0} (web : Web U F) (codecs : ClientCodecs) (c : Client U S)
    (req_editors : List (RequestEditorFn U)) where
  -- the operation of ClientWithResponses for a call
  unfoldable pub perform : ClientCall → S → S × Result String ClientAnswer
  perform health_call s = kept health_answer (get_health_with_response web codecs c req_editors s)
  perform (list_call params) s =
      kept list_answer (list_policies_with_response web codecs c req_editors params s)
  perform (create_call params body) s =
      kept create_answer (create_policy_with_response web codecs c req_editors params body s)
  perform (delete_call id) s =
      kept delete_answer (delete_policy_with_response web codecs c req_editors id s)
  perform (get_call id) s = kept get_answer (get_policy_with_response web codecs c req_editors id s)
  perform (update_call id body) s =
      kept update_answer
        (update_policy_with_merge_patch_with_response web codecs c req_editors id body s)

module _ {S : Type 0} (server : ServerCodecs) (client : ClientCodecs) (ssi : StrictServer S) where
  -- The handler's operation for the call returns a response object whose body the client can read,
  -- with the new state, and the answer has the fields of that object.
  abbrev pub Returns : ClientCall → S → S → ClientAnswer → Type 0
  Returns health_call s after answer =
      (object : GetHealthObject) × (ssi.get_health s ≡ (after, ok (some object)))
      × GetHealthReads server client object
      × (answer ≡ health_answer (get_health_view (get_health_sent server client object) object))
  Returns (list_call params) s after answer =
      (object : ListPoliciesObject) × (ssi.list_policies s (list_params_or_empty params)
        ≡ (after, ok (some object)))
      × ListPoliciesReads server client object
      × (answer ≡ list_answer (list_policies_view (list_policies_sent server client object) object))
  Returns (create_call params body) s after answer =
      (object : CreatePolicyObject) × (ssi.create_policy s (create_params_or_empty params)
          (some (policy_v1_alpha1_to_server body))
        ≡ (after, ok (some object)))
      × CreatePolicyReads server client object
      × (answer
          ≡ create_answer (create_policy_view (create_policy_sent server client object) object))
  Returns (delete_call id) s after answer =
      (object : DeletePolicyObject) × (ssi.delete_policy s id ≡ (after, ok (some object)))
      × DeletePolicyReads server client object
      × (answer
          ≡ delete_answer (delete_policy_view (delete_policy_sent server client object) object))
  Returns (get_call id) s after answer =
      (object : GetPolicyObject) × (ssi.get_policy s id ≡ (after, ok (some object)))
      × GetPolicyReads server client object
      × (answer ≡ get_answer (get_policy_view (get_policy_sent server client object) object))
  Returns (update_call id body) s after answer =
      (object : UpdatePolicyObject) × (ssi.update_policy s id
          (some (policy_v1_alpha1_to_server body))
        ≡ (after, ok (some object)))
      × UpdatePolicyReads server client object
      × (answer
          ≡ update_answer (update_policy_view (update_policy_sent server client object) object))

-- The client sends its requests to the server and gets the responses of the server.
abbrev pub IsConnected :
    {U F S : Type 0}
    → Web U F
    → ServerCodecs
    → StrictServer S
    → Router Endpoint
    → List String
    → Client U S
    → Type 0
IsConnected web codecs ssi router base c =
    c.client
    ≡ some
        (λ s r. let answered = serve web codecs ssi router base s r in (answered.0, ok answered.1))

module _ {U F S : Type 0} (web : Web U F) {root : U} {base : List String}
    (laws : IsWeb web root base) (codecs : ServerCodecs) (client : ClientCodecs)
    (ssi : StrictServer S) {router : Router Endpoint} (chi : IsRouter router) (c : Client U S)
    (rooted : web.parse c.server ≡ ok root) (connected : IsConnected web codecs ssi router base c)
    (req_editors : List (RequestEditorFn U)) where
  abbrev Exchanged : ClientCall → S → S × Result String HttpResponse
  Exchanged call s =
      let answered = completed (operate codecs ssi call s) in (answered.0, ok answered.1)

  send-serve :
      (call : ClientCall) (s : S) {built : Result String (Request U)} {r : Request U}
      → HasPathId call
      → HasBody client.policy codecs call
      → build web client.policy c.server call ≡ built
      → built ≡ ok r
      → apply_editors c req_editors r ≡ ok r
      → send c req_editors built s ≡ Exchanged call s
  unfolding send
  send-serve call s clean reads same h edited =
      rw
        (
          h,
          edited,
          connected,
          build-serve web laws c.server rooted client.policy codecs ssi chi call s clean reads
              (same ∙ h),
        )
        refl

  -- If the client is connected to the server, its editors leave the request as it is, and the
  -- runtime can write the request, then a call whose ID, where it has one, is not empty, no dot
  -- segment and without a percent sign, and whose body the server reads as it was written, has the
  -- effect of the handler's operation, and the client gets the body that this operation returns,
  -- under the field of its status.
  pub perform-Returns :
      (call : ClientCall) (s after : S) (answer : ClientAnswer) {r : Request U}
      → HasPathId call
      → HasBody client.policy codecs call
      → build web client.policy c.server call ≡ ok r
      → apply_editors c req_editors r ≡ ok r
      → Returns codecs client ssi call s after answer
      → perform web client c req_editors call s ≡ (after, ok answer)
  unfolding perform build operate get_health_with_response list_policies_with_response
      create_policy_with_response delete_policy_with_response get_policy_with_response
      update_policy_with_merge_patch_with_response get_health list_policies create_policy
      delete_policy get_policy update_policy_with_merge_patch
  perform-Returns health_call s after answer clean reads h edited (object, returned, read, e) =
      rw
        (
          send-serve health_call s clean reads refl h edited,
          returned,
          get_health-parse codecs client object read,
          e,
        )
        refl
  perform-Returns (list_call params) s after answer clean reads h edited
        (object, returned, read, e) =
      rw
        (
          send-serve (list_call params) s clean reads refl h edited,
          returned,
          list_policies-parse codecs client object read,
          e,
        )
        refl
  perform-Returns (create_call params body) s after answer clean reads h edited
        (object, returned, read, e) =
      rw
        (
          send-serve (create_call params body) s clean reads refl h edited,
          returned,
          create_policy-parse codecs client object read,
          e,
        )
        refl
  perform-Returns (delete_call id) s after answer clean reads h edited (object, returned, read, e) =
      rw
        (
          send-serve (delete_call id) s clean reads refl h edited,
          returned,
          delete_policy-parse codecs client object read,
          e,
        )
        refl
  perform-Returns (get_call id) s after answer clean reads h edited (object, returned, read, e) =
      rw
        (
          send-serve (get_call id) s clean reads refl h edited,
          returned,
          get_policy-parse codecs client object read,
          e,
        )
        refl
  perform-Returns (update_call id body) s after answer clean reads h edited
        (object, returned, read, e) =
      rw
        (
          send-serve (update_call id body) s clean reads refl h edited,
          returned,
          update_policy-parse codecs client object read,
          e,
        )
        refl
