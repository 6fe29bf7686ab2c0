-- ===== src/Client/Requests.antt =====
-- The client (pkg/client/client.gen.go) and the generated server
-- (internal/api/server/server.gen.go) agree on requests: what the client sends for a call the
-- server takes for that call.
pub mod Queries
pub mod Urls
pub mod Received
use dcm_policy_manager.Prelude.{
  String, Option, none, some, List, [], ◌∷◌, ◌++◌, ◌≡◌, ◌≢◌, refl, Result, ok, bind-ok,
  ok-injective, sym, ap, ◌∙◌, true,
}
use dcm_policy_manager.Convert.{ApiPolicy}
use dcm_policy_manager.PolicyApi.{policy_v1_alpha1_to_server}
use dcm_policy_manager.Http.{Request, Writer, Codec, new_writer}
use dcm_policy_manager.Http.Web.{Web, IsWeb, IsAt, SamePlace, values_at, no_percent}
use dcm_policy_manager.Text.{codes}
use dcm_policy_manager.Http.Routes.{Router, IsRouter}
use dcm_policy_manager.Api.{ListPoliciesParams, CreatePolicyParams, ServerCodecs}
use dcm_policy_manager.Api.Strict.{
  StrictServer, finish, strict_get_health, strict_list_policies, strict_create_policy,
  strict_delete_policy, strict_get_policy, strict_update_policy, decoding,
}
use dcm_policy_manager.Api.Responses.{
  visit_get_health_response, visit_list_policies_response, visit_create_policy_response,
  visit_delete_policy_response, visit_get_policy_response, visit_update_policy_response,
}
use dcm_policy_manager.Api.Routing.{Endpoint, call, bound, serve, bind_policy_id}
use dcm_policy_manager.Api.Routing as Routing
use dcm_policy_manager.Api.Fitting.{
  health_fits, list_fits, create_fits, delete_fits, get_fits, update_fits, policy_path, serve-call,
  id_value,
}
use dcm_policy_manager.Client.Building.{
  new_get_health_request, new_list_policies_request, new_create_policy_request,
  new_delete_policy_request, new_get_policy_request, new_update_policy_request_with_merge_patch,
  operation_url, policy_url, new_request,
}
use dcm_policy_manager.Client.Requests.Queries.{
  list_query-bind, empty-bind_list, create_query-bind, empty-bind_create,
}
use dcm_policy_manager.Client.Requests.Urls.{
  health_url-IsAt, policies_url-IsAt, policy_url-IsAt, new_request-ok,
}

-- A call of the client, with its arguments.
pub data ClientCall : Type 0 where
  health_call : ClientCall
  list_call : Option ListPoliciesParams → ClientCall
  create_call : Option CreatePolicyParams → ApiPolicy → ClientCall
  delete_call get_call : String → ClientCall
  update_call : String → ApiPolicy → ClientCall

-- The ID is neither empty nor a dot segment of a path, and has no percent sign.
abbrev pub IsPathId : String → Type 0
IsPathId id = (id ≢ "") × (id ≢ ".") × (id ≢ "..") × (no_percent (codes id) ≡ true)

abbrev pub HasPathId : ClientCall → Type 0
HasPathId (delete_call id) = IsPathId id
HasPathId (get_call id) = IsPathId id
HasPathId (update_call id body) = IsPathId id
HasPathId _ = Unit

abbrev pub list_params_or_empty : Option ListPoliciesParams → ListPoliciesParams
list_params_or_empty none = record {
  page_token = none;
  max_page_size = none;
  filter = none;
  order_by = none;
}
list_params_or_empty (some params) = params

abbrev pub create_params_or_empty : Option CreatePolicyParams → CreatePolicyParams
create_params_or_empty none = record { id = none }
create_params_or_empty (some params) = params

module _ {U F : Type 0} (web : Web U F) (codec : Codec ApiPolicy) (server : String) where
  -- the request of a call
  unfoldable pub build : ClientCall → Result String (Request U)
  build health_call = new_get_health_request web server
  build (list_call params) = new_list_policies_request web server params
  build (create_call params body) = new_create_policy_request web codec server params body
  build (delete_call id) = new_delete_policy_request web server id
  build (get_call id) = new_get_policy_request web server id
  build (update_call id body) = new_update_policy_request_with_merge_patch web codec server id body

-- The server reads the body as the policy that the client wrote.
abbrev pub BodyReads : Codec ApiPolicy → ServerCodecs → ApiPolicy → Type 0
BodyReads codec codecs body =
    (text : String)
    → codec.marshal body ≡ ok text
    → codecs.policy.decode (some text) ≡ ok (policy_v1_alpha1_to_server body)

abbrev pub HasBody : Codec ApiPolicy → ServerCodecs → ClientCall → Type 0
HasBody codec codecs (create_call params body) = BodyReads codec codecs body
HasBody codec codecs (update_call id body) = BodyReads codec codecs body
HasBody codec codecs _ = Unit

module _ {S : Type 0} (codecs : ServerCodecs) (ssi : StrictServer S) where
  -- The handler's operation for a call, and the writing of its response.
  unfoldable pub operate : ClientCall → S → S × Writer
  operate health_call s = finish (visit_get_health_response codecs) (ssi.get_health s) new_writer
  operate (list_call params) s =
      finish (visit_list_policies_response codecs)
        (ssi.list_policies s (list_params_or_empty params)) new_writer
  operate (create_call params body) s =
      finish (visit_create_policy_response codecs)
        (ssi.create_policy s (create_params_or_empty params)
          (some (policy_v1_alpha1_to_server body)))
        new_writer
  operate (delete_call id) s =
      finish (visit_delete_policy_response codecs) (ssi.delete_policy s id) new_writer
  operate (get_call id) s =
      finish (visit_get_policy_response codecs) (ssi.get_policy s id) new_writer
  operate (update_call id body) s =
      finish (visit_update_policy_response codecs)
        (ssi.update_policy s id (some (policy_v1_alpha1_to_server body))) new_writer
