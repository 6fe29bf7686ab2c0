-- ===== src/Client/Answers/Read.antt =====
-- The client (pkg/client/client.gen.go) reads from what the server
-- (internal/api/server/server.gen.go) writes for a response object the status and the body of that
-- object.
use Prim.Native.String.append as Append
use text.Mathlib.TextLemmas.{append-nil}
use dcm_policy_manager.Prelude.{
  ℕ, String, none, some, [], ◌∷◌, ◌≡◌, refl, ok, ◌∙◌, concat, lookup, assign,
}
use dcm_policy_manager.Http.{
  HttpResponse, Writer, Codec, new_writer, written, visit_json, header_get,
}
use dcm_policy_manager.Api.{ServerCodecs}
use dcm_policy_manager.Api.Responses.{
  GetHealthObject, ListPoliciesObject, CreatePolicyObject, DeletePolicyObject, GetPolicyObject,
  UpdatePolicyObject, get_health_200, list_policies_200, list_policies_400, list_policies_401,
  list_policies_403, list_policies_500, create_policy_201, create_policy_400, create_policy_401,
  create_policy_403, create_policy_409, create_policy_422, create_policy_500, delete_policy_204,
  delete_policy_401, delete_policy_403, delete_policy_404, delete_policy_500, get_policy_200,
  get_policy_401, get_policy_403, get_policy_404, get_policy_500, update_policy_200,
  update_policy_400, update_policy_401, update_policy_403, update_policy_404, update_policy_409,
  update_policy_500, visit_get_health_response, visit_list_policies_response,
  visit_create_policy_response, visit_delete_policy_response, visit_get_policy_response,
  visit_update_policy_response,
}
use dcm_policy_manager.Api.Strict.{respond}
use dcm_policy_manager.Client.Parsing.{
  ClientCodecs, is_json, read_body, parse_get_health_response, parse_list_policies_response,
  parse_create_policy_response, parse_delete_policy_response, parse_get_policy_response,
  parse_update_policy_response,
}
use dcm_policy_manager.Client.Answers.Readable.{
  GetHealthReads, ListPoliciesReads, CreatePolicyReads, DeletePolicyReads, GetPolicyReads,
  UpdatePolicyReads,
}
use dcm_policy_manager.Client.Answers.{
  get_health_view, list_policies_view, create_policy_view, delete_policy_view, get_policy_view,
  update_policy_view,
}

-- the writer after a JSON body
abbrev pub json_writer : ℕ → String → Writer
json_writer code text = record {
  header = ("Content-Type", "application/json") ∷ [];
  status = some code;
  sent = ("Content-Type", "application/json") ∷ [];
  body = text;
}

concat-text : (text : String) → concat ("" ∷ text ∷ []) ≡ text
unfolding concat
concat-text text = Append.nil _ ∙ append-nil text

pub visit_json-ok :
    {A : Type 0} (codec : Codec A) (code : ℕ) (body : A) (text : String)
    → codec.encode body ≡ ok text
    → visit_json codec code body new_writer ≡ (json_writer code text, none)
unfolding visit_json assign
visit_json-ok codec code body text h = rw (h, concat-text text)

module _ (server : ServerCodecs) (client : ClientCodecs) where
  abbrev pub get_health_sent : GetHealthObject → HttpResponse
  get_health_sent object =
      written (respond (visit_get_health_response server) (ok (some object)) new_writer)

  pub get_health-parse :
      (object : GetHealthObject)
      → GetHealthReads server client object
      → parse_get_health_response client (get_health_sent object)
        ≡ ok (get_health_view (get_health_sent object) object)
  unfolding visit_get_health_response parse_get_health_response is_json read_body header_get lookup
  get_health-parse (get_health_200 health) (text, sent, read) =
      rw (visit_json-ok server.health 200 health text sent, read)

  abbrev pub list_policies_sent : ListPoliciesObject → HttpResponse
  list_policies_sent object =
      written (respond (visit_list_policies_response server) (ok (some object)) new_writer)

  pub list_policies-parse :
      (object : ListPoliciesObject)
      → ListPoliciesReads server client object
      → parse_list_policies_response client (list_policies_sent object)
        ≡ ok (list_policies_view (list_policies_sent object) object)
  unfolding visit_list_policies_response parse_list_policies_response is_json read_body header_get
      lookup
  list_policies-parse (list_policies_200 list) (text, sent, read) =
      rw (visit_json-ok server.policy_list 200 list text sent, read)
  list_policies-parse (list_policies_400 e) (text, sent, read) =
      rw (visit_json-ok server.error 400 e text sent, read)
  list_policies-parse (list_policies_401 e) (text, sent, read) =
      rw (visit_json-ok server.error 401 e text sent, read)
  list_policies-parse (list_policies_403 e) (text, sent, read) =
      rw (visit_json-ok server.error 403 e text sent, read)
  list_policies-parse (list_policies_500 e) (text, sent, read) =
      rw (visit_json-ok server.error 500 e text sent, read)

  abbrev pub create_policy_sent : CreatePolicyObject → HttpResponse
  create_policy_sent object =
      written (respond (visit_create_policy_response server) (ok (some object)) new_writer)

  pub create_policy-parse :
      (object : CreatePolicyObject)
      → CreatePolicyReads server client object
      → parse_create_policy_response client (create_policy_sent object)
        ≡ ok (create_policy_view (create_policy_sent object) object)
  unfolding visit_create_policy_response parse_create_policy_response is_json read_body header_get
      lookup assign
  create_policy-parse (create_policy_201 policy location) (text, sent, read) =
      rw (sent, concat-text text, read)
  create_policy-parse (create_policy_400 e) (text, sent, read) =
      rw (visit_json-ok server.error 400 e text sent, read)
  create_policy-parse (create_policy_401 e) (text, sent, read) =
      rw (visit_json-ok server.error 401 e text sent, read)
  create_policy-parse (create_policy_403 e) (text, sent, read) =
      rw (visit_json-ok server.error 403 e text sent, read)
  create_policy-parse (create_policy_409 e) (text, sent, read) =
      rw (visit_json-ok server.error 409 e text sent, read)
  create_policy-parse (create_policy_422 e) (text, sent, read) =
      rw (visit_json-ok server.error 422 e text sent, read)
  create_policy-parse (create_policy_500 e) (text, sent, read) =
      rw (visit_json-ok server.error 500 e text sent, read)

  abbrev pub delete_policy_sent : DeletePolicyObject → HttpResponse
  delete_policy_sent object =
      written (respond (visit_delete_policy_response server) (ok (some object)) new_writer)

  pub delete_policy-parse :
      (object : DeletePolicyObject)
      → DeletePolicyReads server client object
      → parse_delete_policy_response client (delete_policy_sent object)
        ≡ ok (delete_policy_view (delete_policy_sent object) object)
  unfolding visit_delete_policy_response parse_delete_policy_response is_json read_body header_get
      lookup
  delete_policy-parse delete_policy_204 reads = refl
  delete_policy-parse (delete_policy_401 e) (text, sent, read) =
      rw (visit_json-ok server.error 401 e text sent, read)
  delete_policy-parse (delete_policy_403 e) (text, sent, read) =
      rw (visit_json-ok server.error 403 e text sent, read)
  delete_policy-parse (delete_policy_404 e) (text, sent, read) =
      rw (visit_json-ok server.error 404 e text sent, read)
  delete_policy-parse (delete_policy_500 e) (text, sent, read) =
      rw (visit_json-ok server.error 500 e text sent, read)

  abbrev pub get_policy_sent : GetPolicyObject → HttpResponse
  get_policy_sent object =
      written (respond (visit_get_policy_response server) (ok (some object)) new_writer)

  pub get_policy-parse :
      (object : GetPolicyObject)
      → GetPolicyReads server client object
      → parse_get_policy_response client (get_policy_sent object)
        ≡ ok (get_policy_view (get_policy_sent object) object)
  unfolding visit_get_policy_response parse_get_policy_response is_json read_body header_get lookup
  get_policy-parse (get_policy_200 policy) (text, sent, read) =
      rw (visit_json-ok server.policy 200 policy text sent, read)
  get_policy-parse (get_policy_401 e) (text, sent, read) =
      rw (visit_json-ok server.error 401 e text sent, read)
  get_policy-parse (get_policy_403 e) (text, sent, read) =
      rw (visit_json-ok server.error 403 e text sent, read)
  get_policy-parse (get_policy_404 e) (text, sent, read) =
      rw (visit_json-ok server.error 404 e text sent, read)
  get_policy-parse (get_policy_500 e) (text, sent, read) =
      rw (visit_json-ok server.error 500 e text sent, read)

  abbrev pub update_policy_sent : UpdatePolicyObject → HttpResponse
  update_policy_sent object =
      written (respond (visit_update_policy_response server) (ok (some object)) new_writer)

  pub update_policy-parse :
      (object : UpdatePolicyObject)
      → UpdatePolicyReads server client object
      → parse_update_policy_response client (update_policy_sent object)
        ≡ ok (update_policy_view (update_policy_sent object) object)
  unfolding visit_update_policy_response parse_update_policy_response is_json read_body header_get
      lookup
  update_policy-parse (update_policy_200 policy) (text, sent, read) =
      rw (visit_json-ok server.policy 200 policy text sent, read)
  update_policy-parse (update_policy_400 e) (text, sent, read) =
      rw (visit_json-ok server.error 400 e text sent, read)
  update_policy-parse (update_policy_401 e) (text, sent, read) =
      rw (visit_json-ok server.error 401 e text sent, read)
  update_policy-parse (update_policy_403 e) (text, sent, read) =
      rw (visit_json-ok server.error 403 e text sent, read)
  update_policy-parse (update_policy_404 e) (text, sent, read) =
      rw (visit_json-ok server.error 404 e text sent, read)
  update_policy-parse (update_policy_409 e) (text, sent, read) =
      rw (visit_json-ok server.error 409 e text sent, read)
  update_policy-parse (update_policy_500 e) (text, sent, read) =
      rw (visit_json-ok server.error 500 e text sent, read)
