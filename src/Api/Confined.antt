-- ===== src/Api/Confined.antt =====
-- What a request can do to the state, whatever it holds (internal/api/server/server.gen.go): nothing
-- but what one call of one operation of the handlers does.
use dcm_policy_manager.Prelude.{String, some, List, Result, ok, err, Assoc}
use dcm_policy_manager.PolicyApi.{ServerPolicy}
use dcm_policy_manager.Http.{Request, Writer, new_writer}
use dcm_policy_manager.Http.Web.{Web}
use dcm_policy_manager.Http.Routes.{Router, Found, found, unrouted}
use dcm_policy_manager.Api.{ListPoliciesParams, CreatePolicyParams, ServerCodecs, ParamError}
use dcm_policy_manager.Api.Strict.{
  StrictServer, decoding, strict_get_health, strict_list_policies, strict_create_policy,
  strict_delete_policy, strict_get_policy, strict_update_policy,
}
use dcm_policy_manager.Api.Routing.{
  Endpoint, get_health, list_policies, create_policy, delete_policy, get_policy, update_policy,
  routes, bound, call, serve, dispatch,
}

module _ {S : Type 0} (ssi : StrictServer S) (R : S → S → Type 0) where
  -- `R` relates each state to itself and to what each operation makes of it.
  pub record Allows : Type 0 where
    pub stay : (s : S) → R s s
    pub get_health : (s : S) → R s (ssi.get_health s).0
    pub list_policies : (s : S) (params : ListPoliciesParams) → R s (ssi.list_policies s params).0
    pub create_policy :
        (s : S) (params : CreatePolicyParams) (body : ServerPolicy)
        → R s (ssi.create_policy s params (some body)).0
    pub delete_policy : (s : S) (id : String) → R s (ssi.delete_policy s id).0
    pub get_policy : (s : S) (id : String) → R s (ssi.get_policy s id).0
    pub update_policy :
        (s : S) (id : String) (body : ServerPolicy) → R s (ssi.update_policy s id (some body)).0

  module _ (allows : Allows) (codecs : ServerCodecs) where
    decoding-R :
        {A : Type 0} (body : Result String A) (operation : A → Writer → S × Writer) (s : S)
        (w : Writer)
        → ((a : A) (w : Writer) → R s (operation a w).0)
        → R s (decoding body operation s w).0
    unfolding decoding
    decoding-R (err e) operation s w h = allows.stay s
    decoding-R (ok a) operation s w h = h a w

    module _ {U F : Type 0} (web : Web U F) where
      bound-R :
          {A : Type 0} (params : Result ParamError A) (operation : A → Writer → S × Writer) (s : S)
          (w : Writer)
          → ((a : A) (w : Writer) → R s (operation a w).0)
          → R s (bound params operation s w).0
      unfolding bound
      bound-R (err e) operation s w h = allows.stay s
      bound-R (ok a) operation s w h = h a w

      call-R :
          (endpoint : Endpoint) (values : Assoc String) (s : S) (r : Request U) (w : Writer)
          → R s (call web codecs ssi endpoint values s r w).0
      unfolding call strict_get_health strict_list_policies strict_create_policy
          strict_delete_policy strict_get_policy strict_update_policy
      call-R get_health values s r w = allows.get_health s
      call-R list_policies values s r w =
          bound-R _ _ s w (λ params w. allows.list_policies s params)
      call-R create_policy values s r w =
          bound-R _ _ s w
            (λ params w. decoding-R _ _ s w (λ body w. allows.create_policy s params body))
      call-R delete_policy values s r w = bound-R _ _ s w (λ id w. allows.delete_policy s id)
      call-R get_policy values s r w = bound-R _ _ s w (λ id w. allows.get_policy s id)
      call-R update_policy values s r w =
          bound-R _ _ s w (λ id w. decoding-R _ _ s w (λ body w. allows.update_policy s id body))

      dispatch-R :
          (target : Found Endpoint) (s : S) (r : Request U)
          → R s (dispatch web codecs ssi target s r).0
      dispatch-R (unrouted response) s r = allows.stay s
      dispatch-R (found endpoint values) s r = call-R endpoint values s r new_writer

      -- Whatever relates each state to itself and to what each operation makes of it relates the
      -- state before a request to the one after it.
      pub serve-R :
          (router : Router Endpoint) (base : List String) (s : S) (r : Request U)
          → R s (serve web codecs ssi router base s r).0
      unfolding serve
      serve-R router base s r =
          dispatch-R (router (routes base) r.method (web.route_path r.url)) s r
