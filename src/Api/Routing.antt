-- ===== src/Api/Routing.antt =====
-- ServerInterfaceWrapper and HandlerWithOptions of internal/api/server/server.gen.go: the routes,
-- and the parameters that an operation takes from its request.
use dcm_policy_manager.Prelude.{
  String, none, some, List, [], ◌∷◌, ◌++◌, Result, ok, err, ◌>>=◌, map_err, Assoc, lookup,
}
use dcm_policy_manager.Http.{Request, HttpResponse, Writer, new_writer, completed, http_error}
use dcm_policy_manager.Http.Web.{Web, Values}
use dcm_policy_manager.Http.Routes.{
  Route, literal, placeholder, literals, Segment, Router, Found, found, unrouted,
}
use dcm_policy_manager.Api.{
  ParamError, invalid_param_format, error_text, ListPoliciesParams, CreatePolicyParams,
  ServerCodecs,
}
use dcm_policy_manager.Api.Strict.{
  StrictServer, strict_get_health, strict_list_policies, strict_create_policy, strict_delete_policy,
  strict_get_policy, strict_update_policy,
}

-- the operations of the wrapper
pub data Endpoint : Type 0 where
  get_health list_policies create_policy delete_policy get_policy update_policy : Endpoint

abbrev route : List String → String → List Segment → Endpoint → Route Endpoint
route base method pattern endpoint = record {
  method = method;
  pattern = literals base ++ pattern;
  endpoint = endpoint;
}

abbrev policies_pattern : List Segment
policies_pattern = literal "policies" ∷ []

abbrev policy_pattern : List Segment
policy_pattern = literal "policies" ∷ placeholder "policyId" ∷ []

-- the calls of HandlerWithOptions; the base URL is given by its segments
abbrev pub routes : List String → List (Route Endpoint)
routes base =
    route base "GET" (literal "health" ∷ []) get_health
    ∷ route base "GET" policies_pattern list_policies
    ∷ route base "POST" policies_pattern create_policy
    ∷ route base "DELETE" policy_pattern delete_policy
    ∷ route base "GET" policy_pattern get_policy
    ∷ route base "PATCH" policy_pattern update_policy
    ∷ []

-- The default ErrorHandlerFunc
abbrev param_error : ParamError → Writer → Writer
param_error e w = http_error (error_text e) 400 w

-- chi.URLParam
abbrev url_param : String → Assoc String → String
url_param name values = elim (lookup name values) [ none ↦ "" | some value ↦ value ]

-- An operation whose parameters cannot be read answers 400 and does not call the handler.
unfoldable pub bound :
    {S A : Type 0} → Result ParamError A → (A → Writer → S × Writer) → S → Writer → S × Writer
bound (err e) operation s w = (s, param_error e w)
bound (ok params) operation s w = operation params w

module _ {U F : Type 0} (web : Web U F) where
  unfoldable pub bind_list_policies_params : Values → Result ParamError ListPoliciesParams
  bind_list_policies_params values = do
    page_token ← map_err (invalid_param_format "page_token") (web.bind_query "page_token" values)
    max_page_size ←
        map_err (invalid_param_format "max_page_size") (web.bind_query_int "max_page_size" values)
    filter ← map_err (invalid_param_format "filter") (web.bind_query "filter" values)
    order_by ← map_err (invalid_param_format "order_by") (web.bind_query "order_by" values)
    ok (record {
      page_token = page_token;
      max_page_size = max_page_size;
      filter = filter;
      order_by = order_by;
    })

  unfoldable pub bind_create_policy_params : Values → Result ParamError CreatePolicyParams
  bind_create_policy_params values = do
    id ← map_err (invalid_param_format "id") (web.bind_query "id" values)
    ok (record { id = id })

  unfoldable pub bind_policy_id : Assoc String → Result ParamError String
  bind_policy_id values =
      map_err (invalid_param_format "policyId")
        (web.bind_path "policyId" (url_param "policyId" values))

  module _ {S : Type 0} (codecs : ServerCodecs) (ssi : StrictServer S) where
    unfoldable pub call : Endpoint → Assoc String → S → Request U → Writer → S × Writer
    call get_health values s r w = strict_get_health codecs ssi s w
    call list_policies values s r w =
        bound (bind_list_policies_params (web.query r.url)) (strict_list_policies codecs ssi s) s w
    call create_policy values s r w =
        bound (bind_create_policy_params (web.query r.url))
          (λ params w. strict_create_policy codecs ssi s params r.body w) s w
    call delete_policy values s r w =
        bound (bind_policy_id values) (strict_delete_policy codecs ssi s) s w
    call get_policy values s r w =
        bound (bind_policy_id values) (strict_get_policy codecs ssi s) s w
    call update_policy values s r w =
        bound (bind_policy_id values)
          (λ policy_id w. strict_update_policy codecs ssi s policy_id r.body w) s w

    abbrev pub dispatch : Found Endpoint → S → Request U → S × HttpResponse
    dispatch (unrouted response) s r = (s, response)
    dispatch (found endpoint values) s r = completed (call endpoint values s r new_writer)

    -- what the handler that HandlerWithOptions returns does with a request
    unfoldable pub serve : Router Endpoint → List String → S → Request U → S × HttpResponse
    serve router base s r = dispatch (router (routes base) r.method (web.route_path r.url)) s r
