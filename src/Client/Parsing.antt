-- ===== src/Client/Parsing.antt =====
-- The functions Parse…Response of pkg/client/client.gen.go: a body in JSON is read as the type that
-- belongs to the status. A response's body has been read in full.
use dcm_policy_manager.Prelude.{
  ℕ, String, Bool, ◌&&◌, Option, none, some, Result, ok, ◌>>=◌, nat_eq, if◌then◌else◌,
}
use dcm_policy_manager.Text.{contains}
use dcm_policy_manager.Convert.{ApiPolicy}
use dcm_policy_manager.Listings.{PolicyList}
use dcm_policy_manager.Http.{HttpResponse, Codec, header_get}
use dcm_policy_manager.Api.{Health}
use dcm_policy_manager.Client.{ApiError}

-- encoding/json at the types of the bodies
pub record ClientCodecs : Type 0 where
  pub health : Codec Health
  pub policy : Codec ApiPolicy
  pub policy_list : Codec PolicyList
  pub error : Codec ApiError

-- The fields Body and HTTPResponse of the responses are the one field `http_response`.
pub record GetHealthResponse : Type 0 where
  pub http_response : HttpResponse
  pub json_200 : Option Health

pub record ListPoliciesResponse : Type 0 where
  pub http_response : HttpResponse
  pub json_200 : Option PolicyList
  pub json_400 : Option ApiError
  pub json_401 : Option ApiError
  pub json_403 : Option ApiError
  pub json_500 : Option ApiError

pub record CreatePolicyResponse : Type 0 where
  pub http_response : HttpResponse
  pub json_201 : Option ApiPolicy
  pub json_400 : Option ApiError
  pub json_401 : Option ApiError
  pub json_403 : Option ApiError
  pub json_409 : Option ApiError
  pub json_422 : Option ApiError
  pub json_500 : Option ApiError

pub record DeletePolicyResponse : Type 0 where
  pub http_response : HttpResponse
  pub json_401 : Option ApiError
  pub json_403 : Option ApiError
  pub json_404 : Option ApiError
  pub json_500 : Option ApiError

pub record GetPolicyResponse : Type 0 where
  pub http_response : HttpResponse
  pub json_200 : Option ApiPolicy
  pub json_401 : Option ApiError
  pub json_403 : Option ApiError
  pub json_404 : Option ApiError
  pub json_500 : Option ApiError

pub record UpdatePolicyResponse : Type 0 where
  pub http_response : HttpResponse
  pub json_200 : Option ApiPolicy
  pub json_400 : Option ApiError
  pub json_401 : Option ApiError
  pub json_403 : Option ApiError
  pub json_404 : Option ApiError
  pub json_409 : Option ApiError
  pub json_500 : Option ApiError

-- StatusCode, of a response that has an HTTP response
abbrev pub status_code : HttpResponse → ℕ
status_code rsp = rsp.status

-- the test of a case
unfoldable pub is_json : ℕ → HttpResponse → Bool
unfolding header_get
is_json code rsp = contains (header_get "Content-Type" rsp) "json" && nat_eq rsp.status code

-- the body of a case
unfoldable pub read_body : {A R : Type 0} → Codec A → HttpResponse → (A → R) → Result String R
read_body codec rsp keep = do dest ← codec.unmarshal rsp.body; ok (keep dest)

module _ (codecs : ClientCodecs) where
  unfoldable pub parse_get_health_response : HttpResponse → Result String GetHealthResponse
  unfolding is_json read_body
  parse_get_health_response rsp =
      let response : GetHealthResponse = record { http_response = rsp; json_200 = none } in
      if is_json 200 rsp
      then read_body codecs.health rsp (λ dest. record response { json_200 = some dest })
      else ok response

  unfoldable pub parse_list_policies_response : HttpResponse → Result String ListPoliciesResponse
  unfolding is_json read_body
  parse_list_policies_response rsp =
      let response : ListPoliciesResponse = record {
        http_response = rsp;
        json_200 = none;
        json_400 = none;
        json_401 = none;
        json_403 = none;
        json_500 = none;
      } in
      if is_json 200 rsp
      then read_body codecs.policy_list rsp (λ dest. record response { json_200 = some dest })
      else if is_json 400 rsp
      then read_body codecs.error rsp (λ dest. record response { json_400 = some dest })
      else if is_json 401 rsp
      then read_body codecs.error rsp (λ dest. record response { json_401 = some dest })
      else if is_json 403 rsp
      then read_body codecs.error rsp (λ dest. record response { json_403 = some dest })
      else if is_json 500 rsp
      then read_body codecs.error rsp (λ dest. record response { json_500 = some dest })
      else ok response

  unfoldable pub parse_create_policy_response : HttpResponse → Result String CreatePolicyResponse
  unfolding is_json read_body
  parse_create_policy_response rsp =
      let response : CreatePolicyResponse = record {
        http_response = rsp;
        json_201 = none;
        json_400 = none;
        json_401 = none;
        json_403 = none;
        json_409 = none;
        json_422 = none;
        json_500 = none;
      } in
      if is_json 201 rsp
      then read_body codecs.policy rsp (λ dest. record response { json_201 = some dest })
      else if is_json 400 rsp
      then read_body codecs.error rsp (λ dest. record response { json_400 = some dest })
      else if is_json 401 rsp
      then read_body codecs.error rsp (λ dest. record response { json_401 = some dest })
      else if is_json 403 rsp
      then read_body codecs.error rsp (λ dest. record response { json_403 = some dest })
      else if is_json 409 rsp
      then read_body codecs.error rsp (λ dest. record response { json_409 = some dest })
      else if is_json 422 rsp
      then read_body codecs.error rsp (λ dest. record response { json_422 = some dest })
      else if is_json 500 rsp
      then read_body codecs.error rsp (λ dest. record response { json_500 = some dest })
      else ok response

  unfoldable pub parse_delete_policy_response : HttpResponse → Result String DeletePolicyResponse
  unfolding is_json read_body
  parse_delete_policy_response rsp =
      let response : DeletePolicyResponse = record {
        http_response = rsp;
        json_401 = none;
        json_403 = none;
        json_404 = none;
        json_500 = none;
      } in
      if is_json 401 rsp
      then read_body codecs.error rsp (λ dest. record response { json_401 = some dest })
      else if is_json 403 rsp
      then read_body codecs.error rsp (λ dest. record response { json_403 = some dest })
      else if is_json 404 rsp
      then read_body codecs.error rsp (λ dest. record response { json_404 = some dest })
      else if is_json 500 rsp
      then read_body codecs.error rsp (λ dest. record response { json_500 = some dest })
      else ok response

  unfoldable pub parse_get_policy_response : HttpResponse → Result String GetPolicyResponse
  unfolding is_json read_body
  parse_get_policy_response rsp =
      let response : GetPolicyResponse = record {
        http_response = rsp;
        json_200 = none;
        json_401 = none;
        json_403 = none;
        json_404 = none;
        json_500 = none;
      } in
      if is_json 200 rsp
      then read_body codecs.policy rsp (λ dest. record response { json_200 = some dest })
      else if is_json 401 rsp
      then read_body codecs.error rsp (λ dest. record response { json_401 = some dest })
      else if is_json 403 rsp
      then read_body codecs.error rsp (λ dest. record response { json_403 = some dest })
      else if is_json 404 rsp
      then read_body codecs.error rsp (λ dest. record response { json_404 = some dest })
      else if is_json 500 rsp
      then read_body codecs.error rsp (λ dest. record response { json_500 = some dest })
      else ok response

  unfoldable pub parse_update_policy_response : HttpResponse → Result String UpdatePolicyResponse
  unfolding is_json read_body
  parse_update_policy_response rsp =
      let response : UpdatePolicyResponse = record {
        http_response = rsp;
        json_200 = none;
        json_400 = none;
        json_401 = none;
        json_403 = none;
        json_404 = none;
        json_409 = none;
        json_500 = none;
      } in
      if is_json 200 rsp
      then read_body codecs.policy rsp (λ dest. record response { json_200 = some dest })
      else if is_json 400 rsp
      then read_body codecs.error rsp (λ dest. record response { json_400 = some dest })
      else if is_json 401 rsp
      then read_body codecs.error rsp (λ dest. record response { json_401 = some dest })
      else if is_json 403 rsp
      then read_body codecs.error rsp (λ dest. record response { json_403 = some dest })
      else if is_json 404 rsp
      then read_body codecs.error rsp (λ dest. record response { json_404 = some dest })
      else if is_json 409 rsp
      then read_body codecs.error rsp (λ dest. record response { json_409 = some dest })
      else if is_json 500 rsp
      then read_body codecs.error rsp (λ dest. record response { json_500 = some dest })
      else ok response
