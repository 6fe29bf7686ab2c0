-- ===== src/Client/Requests/Received.antt =====
-- Each request that the client (pkg/client/client.gen.go) sends reaches the operation that the call
-- names, with the parameters and the body of the call.
use dcm_policy_manager.Prelude.{
  String, Option, none, some, List, [], ◌∷◌, ◌++◌, ◌≡◌, ◌≢◌, ok, bind-ok, ok-injective, sym, ap,
  ◌∙◌, lookup,
}
use dcm_policy_manager.Convert.{ApiPolicy}
use dcm_policy_manager.Http.{completed, Request, Codec}
use dcm_policy_manager.Http.Web.{Web, IsWeb, IsAt, values_at, Values}
use dcm_policy_manager.Http.Routes.{Router, IsRouter}
use dcm_policy_manager.Api.{ListPoliciesParams, CreatePolicyParams, ServerCodecs}
use dcm_policy_manager.Api.Strict.{
  StrictServer, strict_get_health, strict_list_policies, strict_create_policy, strict_delete_policy,
  strict_get_policy, strict_update_policy, decoding,
}
use dcm_policy_manager.Api.Routing.{
  Endpoint, call, bound, serve, bind_policy_id, bind_create_policy_params,
}
use dcm_policy_manager.Api.Fitting.{
  health_fits, list_fits, create_fits, delete_fits, get_fits, update_fits, policy_path, serve-call,
  id_value,
}
use dcm_policy_manager.Client.Building.{
  new_get_health_request, new_list_policies_request, new_create_policy_request,
  new_delete_policy_request, new_get_policy_request, new_update_policy_request_with_merge_patch,
  operation_url, policy_url, new_request, list_url, list_query, create_url, add_text,
  new_update_policy_request_with_body, new_create_policy_request_with_body,
}
use dcm_policy_manager.Client.Requests.Queries.{
  list_query-bind, empty-bind_list, create_query-bind, empty-bind_create,
}
use dcm_policy_manager.Client.Requests.Urls.{
  health_url-IsAt, policies_url-IsAt, policy_url-IsAt, new_request-ok,
}
use dcm_policy_manager.Client.Requests.{
  ClientCall, health_call, list_call, create_call, delete_call, get_call, update_call, IsPathId,
  HasPathId, build, BodyReads, HasBody, operate, create_params_or_empty,
}

module _ {U F S : Type 0} (web : Web U F) {root : U} {base : List String}
    (laws : IsWeb web root base) (server : String) (rooted : web.parse server ≡ ok root)
    (codec : Codec ApiPolicy) (codecs : ServerCodecs) (ssi : StrictServer S)
    {router : Router Endpoint} (chi : IsRouter router) where
  abbrev Served : ClientCall → S → Request U → Type 0
  Served c s r = serve web codecs ssi router base s r ≡ completed (operate codecs ssi c s)

  health-serve :
      (s : S) {r : Request U} → new_get_health_request web server ≡ ok r → Served health_call s r
  unfolding new_get_health_request operate call strict_get_health
  health-serve s {r} h =
      let (u, url, made) = bind-ok (operation_url web server "/health") _ h in
      let (method, (path, query), body) = new_request-ok web laws server rooted "GET" u none made in
      let (at, empty) = health_url-IsAt web laws server rooted url in
      serve-call base web codecs ssi chi s r "GET" _ Endpoint.get_health [] method (path ∙ at)
        (health_fits base)

  -- the parts of a request for a policy
  policy_request :
      (method id : String) (u : U) (body : Option String) {r : Request U}
      → IsPathId id
      → policy_url web server id ≡ ok u
      → new_request web method u body ≡ ok r
      → (segment : String) × (r.method ≡ method)
        × (web.route_path r.url ≡ policy_path base segment)
        × (segment ≢ "")
        × (r.body ≡ body)
        × (bind_policy_id web (id_value base segment) ≡ ok id)
  unfolding bind_policy_id lookup
  policy_request method id u body (filled, dot, dots, whole) url made =
      let (segment, (at, empty), ne, read) =
        policy_url-IsAt web laws server rooted id filled dot dots whole url in
      let (e, (path, query), same) = new_request-ok web laws server rooted method u body made in
      (segment, e, path ∙ at, ne, same, rw read)

  delete-serve :
      (id : String) (s : S) {r : Request U}
      → IsPathId id
      → new_delete_policy_request web server id ≡ ok r
      → Served (delete_call id) s r
  unfolding new_delete_policy_request operate call bound strict_delete_policy
  delete-serve id s {r} clean h =
      let (u, url, made) = bind-ok (policy_url web server id) _ h in
      let (segment, method, path, ne, body, bound_id) =
        policy_request "DELETE" id u none clean url made in
      serve-call base web codecs ssi chi s r "DELETE" _ Endpoint.delete_policy _ method path
        (delete_fits base segment ne)
      ∙ rw bound_id

  get-serve :
      (id : String) (s : S) {r : Request U}
      → IsPathId id
      → new_get_policy_request web server id ≡ ok r
      → Served (get_call id) s r
  unfolding new_get_policy_request operate call bound strict_get_policy
  get-serve id s {r} clean h =
      let (u, url, made) = bind-ok (policy_url web server id) _ h in
      let (segment, method, path, ne, body, bound_id) =
        policy_request "GET" id u none clean url made in
      serve-call base web codecs ssi chi s r "GET" _ Endpoint.get_policy _ method path
        (get_fits base segment ne)
      ∙ rw bound_id

  update-serve :
      (id : String) (policy : ApiPolicy) (s : S) {r : Request U}
      → IsPathId id
      → BodyReads codec codecs policy
      → new_update_policy_request_with_merge_patch web codec server id policy ≡ ok r
      → Served (update_call id policy) s r
  unfolding new_update_policy_request_with_merge_patch new_update_policy_request_with_body operate
      call bound strict_update_policy decoding
  update-serve id policy s {r} clean reads h =
      let (json, marshalled, k) = bind-ok (codec.marshal policy) _ h in
      let (u, url, k₁) = bind-ok (policy_url web server id) _ k in
      let (sent, made, typed) = bind-ok (new_request web "PATCH" u (some json)) _ k₁ in
      let (segment, method, path, ne, body, bound_id) =
        policy_request "PATCH" id u (some json) clean url made in
      let e = ok-injective typed in
      serve-call base web codecs ssi chi s r "PATCH" _ Endpoint.update_policy _
        (ap (λ r. r.method) (sym e) ∙ method) (ap (λ r. web.route_path r.url) (sym e) ∙ path)
        (update_fits base segment ne)
      ∙ rw (bound_id, ap (λ r. r.body) (sym e), body, reads json marshalled)

  -- the URL of a creation: its path, and the parameters that the server reads from it
  create_url-Binds :
      (params : Option CreatePolicyParams) (u v : U)
      → IsAt web (base ++ "policies" ∷ []) u
      → create_url web params u ≡ ok v
      → (web.route_path v ≡ base ++ "policies" ∷ [])
        × ((received : Values)
            → ((key : String) → values_at key received ≡ values_at key (web.query v))
            → bind_create_policy_params web received ≡ ok (create_params_or_empty params))
  create_url-Binds none u v (at, empty) h =
      let e = ok-injective h in
      (
        ap web.route_path (sym e) ∙ at,
        λ received same.
            empty-bind_create web laws received
              (λ key. same key ∙ ap (λ v. values_at key (web.query v)) (sym e) ∙ empty key),
      )
  create_url-Binds (some params) u v (at, empty) h =
      let (values, queried, put) = bind-ok (add_text web "id" params.id (web.query u)) _ h in
      let e = ok-injective put in
      (
        ap web.route_path (sym e) ∙ laws.with_query_path u values ∙ at,
        λ received same.
            create_query-bind web laws params.id (web.query u) values received empty queried (λ key.
              same key
              ∙ ap (λ v. values_at key (web.query v)) (sym e)
              ∙ laws.with_query_query u values key),
      )

  list-serve :
      (params : Option ListPoliciesParams) (s : S) {r : Request U}
      → new_list_policies_request web server params ≡ ok r
      → Served (list_call params) s r
  unfolding new_list_policies_request operate call bound strict_list_policies
  list-serve none s {r} h =
      let (u, url, made) = bind-ok (operation_url web server "/policies") _ h in
      let (method, (path, query), body) = new_request-ok web laws server rooted "GET" u none made in
      let (at, empty) = policies_url-IsAt web laws server rooted url in
      serve-call base web codecs ssi chi s r "GET" _ Endpoint.list_policies [] method (path ∙ at)
        (list_fits base)
      ∙ rw (empty-bind_list web laws (web.query r.url) (λ key. query key ∙ empty key))
  list-serve (some params) s {r} h =
      let (u, url, k) = bind-ok (operation_url web server "/policies") _ h in
      let (v, listed, made) = bind-ok (list_url web (some params) u) _ k in
      let (values, queried, put) = bind-ok (list_query web params (web.query u)) _ listed in
      let (method, (path, query), body) = new_request-ok web laws server rooted "GET" v none made in
      let (at, empty) = policies_url-IsAt web laws server rooted url in
      let e = ok-injective put in
      serve-call base web codecs ssi chi s r "GET" _ Endpoint.list_policies [] method
        (path ∙ ap web.route_path (sym e) ∙ laws.with_query_path u values ∙ at) (list_fits base)
      ∙ rw (
          list_query-bind web laws params (web.query u) values (web.query r.url) empty queried
            (λ key.
              query key
              ∙ ap (λ v. values_at key (web.query v)) (sym e)
              ∙ laws.with_query_query u values key))

  create-serve :
      (params : Option CreatePolicyParams) (policy : ApiPolicy) (s : S) {r : Request U}
      → BodyReads codec codecs policy
      → new_create_policy_request web codec server params policy ≡ ok r
      → Served (create_call params policy) s r
  unfolding new_create_policy_request new_create_policy_request_with_body operate call bound
      strict_create_policy decoding
  create-serve params policy s {r} reads h =
      let (json, marshalled, k) = bind-ok (codec.marshal policy) _ h in
      let (u, url, k₁) = bind-ok (operation_url web server "/policies") _ k in
      let (v, queried, k₂) = bind-ok (create_url web params u) _ k₁ in
      let (sent, made, typed) = bind-ok (new_request web "POST" v (some json)) _ k₂ in
      let e = ok-injective typed in
      let (method, (path, query), body) =
        new_request-ok web laws server rooted "POST" v (some json) made in
      let at = policies_url-IsAt web laws server rooted url in
      let (same, binds) = create_url-Binds params u v at queried in
      serve-call base web codecs ssi chi s r "POST" _ Endpoint.create_policy []
        (ap (λ r. r.method) (sym e) ∙ method) (ap (λ r. web.route_path r.url) (sym e) ∙ path ∙ same)
        (create_fits base)
      ∙ rw (
        binds (web.query r.url)
            (λ key. ap (λ r. values_at key (web.query r.url)) (sym e) ∙ query key),
        ap (λ r. r.body) (sym e),
        body,
        reads json marshalled,
      )

  -- If the ID of the call, where it has one, is not empty, no dot segment and without a percent
  -- sign, and the server reads its body, where it has one, as the client writes it, then what the
  -- client sends for the call, the server takes for the operation of that call, with the same
  -- parameters and the same body.
  pub build-serve :
      (c : ClientCall) (s : S) {r : Request U}
      → HasPathId c
      → HasBody codec codecs c
      → build web codec server c ≡ ok r
      → Served c s r
  unfolding build
  build-serve health_call s clean reads h = health-serve s h
  build-serve (list_call params) s clean reads h = list-serve params s h
  build-serve (create_call params policy) s clean reads h = create-serve params policy s reads h
  build-serve (delete_call id) s clean reads h = delete-serve id s clean h
  build-serve (get_call id) s clean reads h = get-serve id s clean h
  build-serve (update_call id policy) s clean reads h = update-serve id policy s clean reads h
