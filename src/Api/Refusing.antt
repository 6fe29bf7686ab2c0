-- ===== src/Api/Refusing.antt =====
-- Requests that internal/api/server/server.gen.go answers without a call of the handlers.
use dcm_policy_manager.Prelude.{String, List, [], ◌≡◌, ◌⊎◌, refl, Result, ok, err, Assoc}
use dcm_policy_manager.Http.{Request, Writer, new_writer, written, http_error}
use dcm_policy_manager.Http.Web.{Web}
use dcm_policy_manager.Http.Routes.{Router, IsRouter, candidates}
use dcm_policy_manager.Api.{ServerCodecs, ParamError}
use dcm_policy_manager.Api.Strict.{
  StrictServer, strict_create_policy, strict_update_policy, decoding,
}
use dcm_policy_manager.Api.Routing.{
  Endpoint, create_policy, update_policy, routes, call, bound, serve, bind_create_policy_params,
  bind_policy_id,
}

module _ {U F S : Type 0} (web : Web U F) (codecs : ServerCodecs) (ssi : StrictServer S) where
  -- The handler is not called, and the answer is a plain 400.
  abbrev pub IsRefused : S → S × Writer → Type 0
  IsRefused s answer = (answer.0 ≡ s) × ((written answer.1).status ≡ 400)

  decoding-err :
      {A : Type 0} (body : Result String A) (operation : A → Writer → S × Writer) (s : S)
      {e : String}
      → body ≡ err e
      → IsRefused s (decoding body operation s new_writer)
  unfolding decoding http_error
  decoding-err (ok a) operation s h = cc
  decoding-err (err e) operation s h = (refl, refl)

  bound-IsRefused :
      {A : Type 0} (params : Result ParamError A) (operation : A → Writer → S × Writer) (s : S)
      → ((a : A) → IsRefused s (operation a new_writer))
      → IsRefused s (bound params operation s new_writer)
  unfolding bound http_error
  bound-IsRefused (ok a) operation s h = h a
  bound-IsRefused (err e) operation s h = (refl, refl)

  -- A creation or an update whose body cannot be decoded leaves the state as it is and is answered
  -- with 400, whatever its parameters.
  pub call-unreadable :
      (values : Assoc String) (s : S) (r : Request U) {e : String}
      → codecs.policy.decode r.body ≡ err e
      → IsRefused s (call web codecs ssi create_policy values s r new_writer)
        × IsRefused s (call web codecs ssi update_policy values s r new_writer)
  unfolding call strict_create_policy strict_update_policy
  call-unreadable values s r h = (
    bound-IsRefused (bind_create_policy_params web (web.query r.url)) _ s
        (λ params. decoding-err (codecs.policy.decode r.body) _ s h),
    bound-IsRefused (bind_policy_id web values) _ s
        (λ id. decoding-err (codecs.policy.decode r.body) _ s h),
  )

  -- A request that no route fits leaves the state as it is and is answered with 404 or 405.
  pub serve-unrouted :
      {router : Router Endpoint} (chi : IsRouter router) (base : List String) (s : S)
      (r : Request U)
      → candidates (routes base) r.method (web.route_path r.url) ≡ []
      → ((serve web codecs ssi router base s r).0 ≡ s)
        × (((serve web codecs ssi router base s r).1.status ≡ 404)
            ⊎ ((serve web codecs ssi router base s r).1.status ≡ 405))
  unfolding serve
  serve-unrouted chi base s r h =
      let (response, e, status) = chi.none_fits (routes base) r.method (web.route_path r.url) h in
      (rw e refl, rw e status)
