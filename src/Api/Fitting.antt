-- ===== src/Api/Fitting.antt =====
-- Which operation of internal/api/server/server.gen.go each request of its interface reaches.
use dcm_policy_manager.Prelude.{String, List, [], ◌∷◌, ◌++◌, ◌≡◌, ◌≢◌, Assoc, ne→eq_false}
use dcm_policy_manager.Http.{completed, Request, new_writer}
use dcm_policy_manager.Http.Web.{Web}
use dcm_policy_manager.Http.Routes.{Router, IsRouter, match_path, match_path-literals, candidates}
use dcm_policy_manager.Api.{ServerCodecs}
use dcm_policy_manager.Api.Strict.{StrictServer}
use dcm_policy_manager.Api.Routing.{
  Endpoint, get_health, list_policies, create_policy, delete_policy, get_policy, update_policy,
  routes, call, serve,
}

module _ (base : List String) where
  pub health_fits : candidates (routes base) "GET" (base ++ "health" ∷ []) ≡ (get_health, []) ∷ []
  unfolding candidates match_path
  health_fits = simp match_path-literals

  pub list_fits :
      candidates (routes base) "GET" (base ++ "policies" ∷ []) ≡ (list_policies, []) ∷ []
  unfolding candidates match_path
  list_fits = simp match_path-literals

  pub create_fits :
      candidates (routes base) "POST" (base ++ "policies" ∷ []) ≡ (create_policy, []) ∷ []
  unfolding candidates match_path
  create_fits = simp match_path-literals

  abbrev pub policy_path : String → List String
  policy_path text = base ++ "policies" ∷ text ∷ []

  abbrev pub id_value : String → Assoc String
  id_value text = ("policyId", text) ∷ []

  pub delete_fits :
      (text : String)
      → text ≢ ""
      → candidates (routes base) "DELETE" (policy_path text) ≡ (delete_policy, id_value text) ∷ []
  unfolding candidates match_path
  delete_fits text ne = simp (match_path-literals, ne→eq_false text "" ne)

  pub get_fits :
      (text : String)
      → text ≢ ""
      → candidates (routes base) "GET" (policy_path text) ≡ (get_policy, id_value text) ∷ []
  unfolding candidates match_path
  get_fits text ne = simp (match_path-literals, ne→eq_false text "" ne)

  pub update_fits :
      (text : String)
      → text ≢ ""
      → candidates (routes base) "PATCH" (policy_path text) ≡ (update_policy, id_value text) ∷ []
  unfolding candidates match_path
  update_fits text ne = simp (match_path-literals, ne→eq_false text "" ne)

  module _ {U F S : Type 0} (web : Web U F) (codecs : ServerCodecs) (ssi : StrictServer S)
      {router : Router Endpoint} (chi : IsRouter router) where
    pub serve-call :
        (s : S) (r : Request U) (method : String) (path : List String) (endpoint : Endpoint)
        (values : Assoc String)
        → r.method ≡ method
        → web.route_path r.url ≡ path
        → candidates (routes base) method path ≡ (endpoint, values) ∷ []
        → serve web codecs ssi router base s r
          ≡ completed (call web codecs ssi endpoint values s r new_writer)
    unfolding serve
    serve-call s r method path endpoint values e p fits =
        rw (e, p, chi.only (routes base) method path endpoint values fits)
