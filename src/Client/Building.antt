-- ===== src/Client/Building.antt =====
-- The functions New…Request of pkg/client/client.gen.go: the request that an operation sends.
use Prim.Native.Char.{code}
use dcm_policy_manager.Prelude.{
  String, Bool, false, Option, none, some, List, [], ◌∷◌, Result, ok, ◌>>=◌, concat, nat_eq,
  if◌then◌else◌,
}
use dcm_policy_manager.Prelude.Int.{ℤ}
use dcm_policy_manager.Convert.{ApiPolicy}
use dcm_policy_manager.Http.{Request, Codec}
use dcm_policy_manager.Http.Web.{Web, Values, add}
use dcm_policy_manager.Api.{ListPoliciesParams, CreatePolicyParams}

-- s[0] == '/'
abbrev pub starts_with_slash : String → Bool
starts_with_slash String.[] = false
starts_with_slash (String.◌∷◌ c s) = nat_eq (code c) b'/'

-- the path of an operation, relative to the URL of the server
unfoldable pub relative : String → String
relative operation_path =
    if starts_with_slash operation_path then concat ("." ∷ operation_path ∷ []) else operation_path

-- the loops over the parsed parameter
unfoldable pub add_each : String → List String → Values → Values
add_each key [] values = values
add_each key (v ∷ vs) values = add_each key vs (add key v values)

unfoldable pub add_parsed : Values → Values → Values
add_parsed [] values = values
add_parsed ((key, vs) ∷ parsed) values = add_parsed parsed (add_each key vs values)

module _ {U F : Type 0} (web : Web U F) where
  unfoldable pub operation_url : String → String → Result String U
  operation_url server operation_path = do
    server_url ← web.parse server
    web.resolve server_url (relative operation_path)

  -- http.NewRequest
  unfoldable pub new_request : String → U → Option String → Result String (Request U)
  new_request method u body = do
    url ← web.reparse u
    ok (record { method = method; url = url; header = []; body = body })

  unfoldable pub add_styled : Result String F → Values → Result String Values
  add_styled styled values = do
    query_frag ← styled
    parsed ← web.parse_query query_frag
    ok (add_parsed parsed values)

  unfoldable pub add_text : String → Option String → Values → Result String Values
  add_text name none values = ok values
  add_text name (some value) values = add_styled (web.style_query name value) values

  unfoldable pub add_int : String → Option ℤ → Values → Result String Values
  add_int name none values = ok values
  add_int name (some value) values = add_styled (web.style_query_int name value) values

  unfoldable pub new_get_health_request : String → Result String (Request U)
  new_get_health_request server = do
    query_url ← operation_url server "/health"
    new_request "GET" query_url none

  unfoldable pub list_query : ListPoliciesParams → Values → Result String Values
  list_query params values = do
    with_token ← add_text "page_token" params.page_token values
    with_size ← add_int "max_page_size" params.max_page_size with_token
    with_filter ← add_text "filter" params.filter with_size
    add_text "order_by" params.order_by with_filter

  abbrev pub list_url : Option ListPoliciesParams → U → Result String U
  list_url none u = ok u
  list_url (some params) u = do
    values ← list_query params (web.query u)
    ok (web.with_query u values)

  unfoldable pub new_list_policies_request :
      String → Option ListPoliciesParams → Result String (Request U)
  new_list_policies_request server params = do
    operation ← operation_url server "/policies"
    query_url ← list_url params operation
    new_request "GET" query_url none

  abbrev pub create_url : Option CreatePolicyParams → U → Result String U
  create_url none u = ok u
  create_url (some params) u = do
    values ← add_text "id" params.id (web.query u)
    ok (web.with_query u values)

  -- Content-Type of the body
  abbrev pub with_content_type : String → Request U → Request U
  with_content_type content_type r = record r { header = ("Content-Type", content_type) ∷ r.header }

  unfoldable pub new_create_policy_request_with_body :
      String → Option CreatePolicyParams → String → String → Result String (Request U)
  new_create_policy_request_with_body server params content_type body = do
    operation ← operation_url server "/policies"
    query_url ← create_url params operation
    r ← new_request "POST" query_url (some body)
    ok (with_content_type content_type r)

  unfoldable pub new_create_policy_request :
      Codec ApiPolicy → String → Option CreatePolicyParams → ApiPolicy → Result String (Request U)
  new_create_policy_request codec server params body = do
    text ← codec.marshal body
    new_create_policy_request_with_body server params "application/json" text

  -- the URL of a policy
  unfoldable pub policy_url : String → String → Result String U
  policy_url server policy_id = do
    path_param0 ← web.style_path "policyId" policy_id
    operation_url server (concat ("/policies/" ∷ path_param0 ∷ []))

  unfoldable pub new_delete_policy_request : String → String → Result String (Request U)
  new_delete_policy_request server policy_id = do
    query_url ← policy_url server policy_id
    new_request "DELETE" query_url none

  unfoldable pub new_get_policy_request : String → String → Result String (Request U)
  new_get_policy_request server policy_id = do
    query_url ← policy_url server policy_id
    new_request "GET" query_url none

  unfoldable pub new_update_policy_request_with_body :
      String → String → String → String → Result String (Request U)
  new_update_policy_request_with_body server policy_id content_type body = do
    query_url ← policy_url server policy_id
    r ← new_request "PATCH" query_url (some body)
    ok (with_content_type content_type r)

  unfoldable pub new_update_policy_request_with_merge_patch :
      Codec ApiPolicy → String → String → ApiPolicy → Result String (Request U)
  new_update_policy_request_with_merge_patch codec server policy_id body = do
    text ← codec.marshal body
    new_update_policy_request_with_body server policy_id "application/merge-patch+json" text
