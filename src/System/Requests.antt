-- ===== src/System/Requests.antt =====
-- The policy API over the whole program: each call goes through its handler
-- (internal/handlers/v1alpha1/policy.go), the policy service, the store and the embedded engine.
-- Calls that come one after the other leave the state consistent, whatever they are and however
-- they are answered. The evaluation API only reads the state.
use dcm_policy_manager.Prelude.{
  String, Option, none, some, List, [], ◌∷◌, All, ◌≡◌, refl, sym, subst, Assoc,
}
use dcm_policy_manager.Prelude.Int.{ℤ}
use dcm_policy_manager.Policy.{Policy}
use dcm_policy_manager.Checks.Accepted.{IsValid}
use dcm_policy_manager.Store.{Gorm}
use dcm_policy_manager.Store.Database.{IsDatabase, IsUp}
use dcm_policy_manager.Service.{World}
use dcm_policy_manager.Service as Service
use dcm_policy_manager.Service.Publishing.{recompile-Published}
use dcm_policy_manager.Listings as Listings
use dcm_policy_manager.Opa.{Library, embedded_engine}
use dcm_policy_manager.PolicyApi.{
  Response, ServerPolicy, ServerPolicyList, policy_server_to_v1_alpha1,
}
use dcm_policy_manager.PolicyApi as Handlers
use dcm_policy_manager.System.{
  policy_store, start, Step, create, update, delete, Reach, started, stepped,
}
use dcm_policy_manager.System.Serving.{Serving, Reach-Serving}
use dcm_policy_manager.System.Validity.{Step-AllValid}

-- A call with its parameters; of a creation also the UUID that it would draw.
pub data ApiCall : Type 0 where
  create_policy : (generated : String) (body : Option ServerPolicy) (id : Option String) → ApiCall
  get_policy : String → ApiCall
  list_policies : (filter order_by page_token : Option String) (max_page_size : Option ℤ) → ApiCall
  update_policy : (policy_id : String) (body : Option ServerPolicy) → ApiCall
  delete_policy : String → ApiCall

pub data Answer : Type 0 where
  policy_answer : Response ServerPolicy → Answer
  list_answer : Response ServerPolicyList → Answer
  delete_answer : Response (Unit {0}) → Answer

module _ {D K Q : Type 0} (gorm : Gorm D) (opa : Library K Q) (show_priority : ℤ → String) where
  unfoldable pub handle : World D (Assoc Q) → ApiCall → World D (Assoc Q) × Answer
  handle w (create_policy generated body id) =
      let result =
        Handlers.create_policy
          (λ w policy id.
            Service.create_policy (policy_store gorm) (embedded_engine opa) show_priority w policy
              id generated)
          w body id in
      (result.0, policy_answer result.1)
  handle w (get_policy id) = (
    w,
    policy_answer (
        Handlers.get_policy
          (Service.get_policy (policy_store gorm) (embedded_engine opa) show_priority w) id),
  )
  handle w (list_policies filter order_by page_token max_page_size) = (
    w,
    list_answer (
        Handlers.list_policies (
          Listings.list_policies (policy_store gorm) w.db filter order_by page_token
            max_page_size)),
  )
  handle w (update_policy policy_id body) =
      let result =
        Handlers.update_policy
          (Service.update_policy (policy_store gorm) (embedded_engine opa) show_priority) w
          policy_id body in
      (result.0, policy_answer result.1)
  handle w (delete_policy id) =
      let result =
        Service.delete_policy (policy_store gorm) (embedded_engine opa) show_priority w id in
      (result.0, delete_answer (Handlers.delete_policy result.1))

  -- the state after calls that come one after the other
  unfoldable pub after : World D (Assoc Q) → List ApiCall → World D (Assoc Q)
  after w [] = w
  after w (call ∷ calls) = after (handle w call).0 calls

  pub data Moved (w : World D (Assoc Q)) : World D (Assoc Q) → Type 0 where
    stays : Moved w w
    steps : {w' : World D (Assoc Q)} → Step gorm opa show_priority w w' → Moved w w'

  pub handle-Moved : (w : World D (Assoc Q)) (call : ApiCall) → Moved w (handle w call).0
  unfolding handle Handlers.create_policy Handlers.update_policy
  handle-Moved w (create_policy generated none id) = stays
  handle-Moved w (create_policy generated (some body) id) =
      steps (create (policy_server_to_v1_alpha1 body) id generated refl)
  handle-Moved w (get_policy id) = stays
  handle-Moved w (list_policies filter order_by page_token max_page_size) = stays
  handle-Moved w (update_policy policy_id none) = stays
  handle-Moved w (update_policy policy_id (some body)) =
      steps (update policy_id (some (policy_server_to_v1_alpha1 body)) refl)
  handle-Moved w (delete_policy id) = steps (delete id refl)

  pub Moved-Reach :
      (w w' : World D (Assoc Q))
      → Moved w w'
      → Reach gorm opa show_priority w
      → Reach gorm opa show_priority w'
  Moved-Reach w w' stays r = r
  Moved-Reach w w' (steps s) r = stepped r s

  after-Reach :
      (w : World D (Assoc Q)) (calls : List ApiCall)
      → Reach gorm opa show_priority w
      → Reach gorm opa show_priority (after w calls)
  unfolding after
  after-Reach w [] r = r
  after-Reach w (call ∷ calls) r =
      after-Reach (handle w call).0 calls (Moved-Reach w (handle w call).0 (handle-Moved w call) r)

  module _ (rows : D → List Policy) (database : IsDatabase gorm rows) (up : IsUp gorm rows) where
    pub Moved-AllValid :
        (w w' : World D (Assoc Q)) → Moved w w' → All IsValid (rows w.db) → All IsValid (rows w'.db)
    Moved-AllValid w w' stays v = v
    Moved-AllValid w w' (steps s) v = Step-AllValid gorm rows database up opa show_priority s v

    after-AllValid :
        (w : World D (Assoc Q)) (calls : List ApiCall)
        → All IsValid (rows w.db)
        → All IsValid (rows (after w calls).db)
    unfolding after
    after-AllValid w [] v = v
    after-AllValid w (call ∷ calls) v =
        after-AllValid (handle w call).0 calls
          (Moved-AllValid w (handle w call).0 (handle-Moved w call) v)

    -- If the database does as documented and answers and the program starts on a table whose rows
    -- have priorities from 1 to 1000 and Rego code that is not blank, then after any calls of the
    -- policy API all rows still are so, and the engine has for each a query that was prepared from
    -- its present Rego code.
    pub after-Serving :
        (d : D) (w : World D (Assoc Q)) (calls : List ApiCall)
        → start gorm opa show_priority d ≡ (w, none)
        → All IsValid (rows d)
        → Serving opa gorm rows database up show_priority (after w calls)
          × All IsValid (rows (after w calls).db)
    unfolding start
    after-Serving d w calls e v =
        let (same, _) =
          recompile-Published (policy_store gorm) (embedded_engine opa) show_priority
            (record { db = d; engine = [] }) w e in
        (
          Reach-Serving opa gorm rows database up show_priority (after-Reach w calls (started d e)),
          after-AllValid w calls (subst (λ x. All IsValid (rows x)) (sym same) v),
        )
