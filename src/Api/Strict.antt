-- ===== src/Api/Strict.antt =====
-- The strict handler of internal/api/server/server.gen.go: it decodes the body, calls the handler,
-- and writes the response object. `S` is the state that the handlers change.
use dcm_policy_manager.Prelude.{String, Option, none, some, [], ◌∷◌, Result, ok, err, concat}
use dcm_policy_manager.PolicyApi.{ServerPolicy}
use dcm_policy_manager.Http.{Writer, http_error}
use dcm_policy_manager.Api.{ListPoliciesParams, CreatePolicyParams, ServerCodecs}
use dcm_policy_manager.Api.Responses.{
  GetHealthObject, ListPoliciesObject, CreatePolicyObject, DeletePolicyObject, GetPolicyObject,
  UpdatePolicyObject, visit_get_health_response, visit_list_policies_response,
  visit_create_policy_response, visit_delete_policy_response, visit_get_policy_response,
  visit_update_policy_response,
}

-- What an operation of the handlers returns: the state, and a response object, nil, or an error.
abbrev pub Returned : Type 0 → Type 0 → Type 0
Returned S O = S × Result String (Option O)

pub record StrictServer (S : Type 0) : Type 0 where
  pub get_health : S → Returned S GetHealthObject
  pub list_policies : S → ListPoliciesParams → Returned S ListPoliciesObject
  pub create_policy : S → CreatePolicyParams → Option ServerPolicy → Returned S CreatePolicyObject
  pub delete_policy : S → String → Returned S DeletePolicyObject
  pub get_policy : S → String → Returned S GetPolicyObject
  pub update_policy : S → String → Option ServerPolicy → Returned S UpdatePolicyObject

-- ResponseErrorHandlerFunc, RequestErrorHandlerFunc
abbrev response_error : String → Writer → Writer
response_error e w = http_error e 500 w

abbrev request_error : String → Writer → Writer
request_error e w = http_error (concat ("can't decode JSON body: " ∷ e ∷ [])) 400 w

abbrev pub reported : Writer × Option String → Writer
reported (w, none) = w
reported (w, some e) = response_error e w

module _ {O : Type 0} (visit : O → Writer → Writer × Option String) where
  abbrev pub respond : Result String (Option O) → Writer → Writer
  respond (err e) w = response_error e w
  respond (ok none) w = w
  respond (ok (some object)) w = reported (visit object w)

  -- the part of each operation after the call of the handler
  abbrev pub finish : {S : Type 0} → Returned S O → Writer → S × Writer
  finish (s, response) w = (s, respond response w)

-- the part of the operations with a body that comes before the call of the handler
unfoldable pub decoding :
    {S A : Type 0} → Result String A → (A → Writer → S × Writer) → S → Writer → S × Writer
decoding (err e) operation s w = (s, request_error e w)
decoding (ok body) operation s w = operation body w

module _ {S : Type 0} (codecs : ServerCodecs) (ssi : StrictServer S) where
  unfoldable pub strict_get_health : S → Writer → S × Writer
  strict_get_health s w = finish (visit_get_health_response codecs) (ssi.get_health s) w

  unfoldable pub strict_list_policies : S → ListPoliciesParams → Writer → S × Writer
  strict_list_policies s params w =
      finish (visit_list_policies_response codecs) (ssi.list_policies s params) w

  unfoldable pub strict_create_policy : S → CreatePolicyParams → Option String → Writer → S × Writer
  strict_create_policy s params request_body w =
      decoding (codecs.policy.decode request_body)
        (λ body w.
          finish (visit_create_policy_response codecs) (ssi.create_policy s params (some body)) w)
        s w

  unfoldable pub strict_delete_policy : S → String → Writer → S × Writer
  strict_delete_policy s policy_id w =
      finish (visit_delete_policy_response codecs) (ssi.delete_policy s policy_id) w

  unfoldable pub strict_get_policy : S → String → Writer → S × Writer
  strict_get_policy s policy_id w =
      finish (visit_get_policy_response codecs) (ssi.get_policy s policy_id) w

  unfoldable pub strict_update_policy : S → String → Option String → Writer → S × Writer
  strict_update_policy s policy_id request_body w =
      decoding (codecs.policy.decode request_body)
        (λ body w.
          finish (visit_update_policy_response codecs) (ssi.update_policy s policy_id (some body))
            w)
        s w
