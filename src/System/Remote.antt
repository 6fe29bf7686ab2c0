-- ===== src/System/Remote.antt =====
-- The policy API of the program over HTTP: the handlers (internal/handlers/v1alpha1/policy.go)
-- behind the generated server, as Run of internal/apiserver/server.go puts them together. Whatever
-- requests arrive, one after the other, the state stays consistent.
pub mod Objects
use dcm_policy_manager.Prelude.{
  String, Option, none, some, List, [], ◌∷◌, All, ◌≡◌, refl, Result, ok, sym, subst, Assoc,
}
use dcm_policy_manager.Prelude.Int.{ℤ}
use dcm_policy_manager.Policy.{Policy}
use dcm_policy_manager.Checks.Accepted.{IsValid}
use dcm_policy_manager.Store.{Gorm}
use dcm_policy_manager.Store.Database.{IsDatabase, IsUp}
use dcm_policy_manager.Service.{World}
use dcm_policy_manager.Service as Service
use dcm_policy_manager.Service.Publishing.{recompile-Published}
use dcm_policy_manager.Listings as Listings
use dcm_policy_manager.Opa.{Library, embedded_engine}
use dcm_policy_manager.PolicyApi as Handlers
use dcm_policy_manager.Http.{Request, HttpResponse}
use dcm_policy_manager.Http.Web.{Web}
use dcm_policy_manager.Http.Routes.{Router}
use dcm_policy_manager.Api.{ServerCodecs, Health}
use dcm_policy_manager.Api.Responses.{get_health_200}
use dcm_policy_manager.Api.Strict.{StrictServer}
use dcm_policy_manager.Api.Routing.{Endpoint, serve}
use dcm_policy_manager.Api.Confined.{Allows, serve-R}
use dcm_policy_manager.System.{policy_store, start, Reach, started}
use dcm_policy_manager.System.Serving.{Serving, Reach-Serving}
use dcm_policy_manager.System.Requests.{
  Moved, stays, handle-Moved, Moved-Reach, Moved-AllValid, handle, create_policy, update_policy,
  delete_policy,
}
use dcm_policy_manager.System.Remote.Objects.{
  list_policies_object, create_policy_object, delete_policy_object, get_policy_object,
  update_policy_object,
}

-- the handler GetHealth
abbrev health : Health
health = record { path = some "health"; status = "ok" }

module _ {D K Q : Type 0} (gorm : Gorm D) (opa : Library K Q) (show_priority : ℤ → String) where
  -- NewPolicyHandler; `generated` is the UUID that a creation would draw.
  abbrev pub policy_handler : String → StrictServer (World D (Assoc Q))
  policy_handler generated = record {
    get_health = λ w. (w, ok (some (get_health_200 health)));
    list_policies = λ w params. (
      w,
      ok (
          some (
            list_policies_object (
              Handlers.list_policies (
                Listings.list_policies (policy_store gorm) w.db params.filter params.order_by
                  params.page_token params.max_page_size)))),
    );
    create_policy = λ w params body.
        let result =
          Handlers.create_policy
            (λ w policy id.
              Service.create_policy (policy_store gorm) (embedded_engine opa) show_priority w policy
                id generated)
            w body params.id in
        (result.0, ok (some (create_policy_object result.1)));
    delete_policy = λ w id.
        let result =
          Service.delete_policy (policy_store gorm) (embedded_engine opa) show_priority w id in
        (result.0, ok (some (delete_policy_object (Handlers.delete_policy result.1))));
    get_policy = λ w id. (
      w,
      ok (
          some (
            get_policy_object (
              Handlers.get_policy
                (Service.get_policy (policy_store gorm) (embedded_engine opa) show_priority w)
                id))),
    );
    update_policy = λ w id body.
        let result =
          Handlers.update_policy
            (Service.update_policy (policy_store gorm) (embedded_engine opa) show_priority) w id
            body in
        (result.0, ok (some (update_policy_object result.1)));
  }

  policy_handler-Allows :
      (generated : String) → Allows (policy_handler generated) (Moved gorm opa show_priority)
  unfolding handle
  policy_handler-Allows generated = record {
    stay = λ w. stays;
    get_health = λ w. stays;
    list_policies = λ w params. stays;
    create_policy = λ w params body.
        handle-Moved gorm opa show_priority w (create_policy generated (some body) params.id);
    delete_policy = λ w id. handle-Moved gorm opa show_priority w (delete_policy id);
    get_policy = λ w id. stays;
    update_policy =
        λ w id body. handle-Moved gorm opa show_priority w (update_policy id (some body));
  }

  module _ {U F : Type 0} (web : Web U F) (codecs : ServerCodecs) (router : Router Endpoint)
      (base : List String) where
    -- A request, with the UUID that it would draw, to the program.
    abbrev pub serve_request :
        World D (Assoc Q) → String × Request U → World D (Assoc Q) × HttpResponse
    serve_request w (generated, r) = serve web codecs (policy_handler generated) router base w r

    -- the state after requests that come one after the other
    unfoldable pub after_requests :
        World D (Assoc Q) → List (String × Request U) → World D (Assoc Q)
    after_requests w [] = w
    after_requests w (r ∷ rs) = after_requests (serve_request w r).0 rs

    serve_request-Moved :
        (w : World D (Assoc Q)) (r : String × Request U)
        → Moved gorm opa show_priority w (serve_request w r).0
    serve_request-Moved w (generated, r) =
        serve-R (policy_handler generated) (Moved gorm opa show_priority)
          (policy_handler-Allows generated) codecs web router base w r

    after_requests-Reach :
        (w : World D (Assoc Q)) (rs : List (String × Request U))
        → Reach gorm opa show_priority w
        → Reach gorm opa show_priority (after_requests w rs)
    unfolding after_requests
    after_requests-Reach w [] reached = reached
    after_requests-Reach w (r ∷ rs) reached =
        after_requests-Reach (serve_request w r).0 rs
          (Moved-Reach gorm opa show_priority w _ (serve_request-Moved w r) reached)

    module _ (rows : D → List Policy) (database : IsDatabase gorm rows) (up : IsUp gorm rows) where
      after_requests-AllValid :
          (w : World D (Assoc Q)) (rs : List (String × Request U))
          → All IsValid (rows w.db)
          → All IsValid (rows (after_requests w rs).db)
      unfolding after_requests
      after_requests-AllValid w [] valid = valid
      after_requests-AllValid w (r ∷ rs) valid = after_requests-AllValid (serve_request w r).0 rs (
          Moved-AllValid gorm opa show_priority rows database up w _ (serve_request-Moved w r)
            valid)

      -- If the database does as documented and answers and the program starts on a table whose
      -- rows have priorities from 1 to 1000 and Rego code that is not blank, then after any HTTP
      -- requests to the policy API, whatever the router, the parameter binding and the JSON
      -- decoding make of them, all rows still are so, and the engine has for each a query that was
      -- prepared from its present Rego code.
      pub after_requests-Serving :
          (d : D) (w : World D (Assoc Q)) (rs : List (String × Request U))
          → start gorm opa show_priority d ≡ (w, none)
          → All IsValid (rows d)
          → Serving opa gorm rows database up show_priority (after_requests w rs)
            × All IsValid (rows (after_requests w rs).db)
      unfolding start
      after_requests-Serving d w rs e valid =
          let (same, _) =
            recompile-Published (policy_store gorm) (embedded_engine opa) show_priority
              (record { db = d; engine = [] }) w e in
          (
            Reach-Serving opa gorm rows database up show_priority
                (after_requests-Reach w rs (started d e)),
            after_requests-AllValid w rs (subst (λ x. All IsValid (rows x)) (sym same) valid),
          )
