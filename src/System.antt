-- ===== src/System.antt =====
-- The program as cmd/policy-manager/main.go puts it together: the policy service over the store of
-- the database (NewPolicy of internal/store/policy.go, internal/store/store.go) and the embedded
-- engine (NewEngine of internal/opa/engine.go). Its state is the database with the engine's
-- queries. Between two requests the state is one that `Reach` reaches: a start, then the changes
-- that requests make, one after the other.
pub mod Undoing
pub mod Served
pub mod Serving
pub mod Requests
pub mod Remote
pub mod Interleaving
pub mod Evaluations
pub mod Changes
pub mod Reading
pub mod Validity
use dcm_policy_manager.Prelude.{String, Option, none, some, List, Assoc, [], ◌≡◌, Result}
use dcm_policy_manager.Prelude.Int.{ℤ}
use dcm_policy_manager.Convert.{ApiPolicy}
use dcm_policy_manager.Errors.{ServiceError}
use dcm_policy_manager.Store as Store
use dcm_policy_manager.Store.{Gorm}
use dcm_policy_manager.Service.{
  PolicyStore, World, recompile_engine, create_policy, update_policy, delete_policy,
}
use dcm_policy_manager.Opa.{Library, embedded_engine}

-- NewPolicy
abbrev pub policy_store : {D : Type 0} → Gorm D → PolicyStore D
policy_store gorm = record {
  list = Store.list gorm;
  list_all = Store.list_all gorm;
  create = Store.create gorm;
  delete = Store.delete gorm;
  update = Store.update gorm;
  get = Store.get gorm;
}

module _ {D K Q : Type 0} (gorm : Gorm D) (opa : Library K Q) (show_priority : ℤ → String) where
  -- NewEngine, then CompileAll: the new engine has no queries.
  unfoldable pub start : D → World D (Assoc Q) × Option String
  start d =
      recompile_engine (policy_store gorm) (embedded_engine opa) show_priority
        (record { db = d; engine = [] })

  -- What a request can do to the state; all other requests only read it.
  pub data Step (w : World D (Assoc Q)) : World D (Assoc Q) → Type 0 where
    create :
        {w' : World D (Assoc Q)} {r : Result ServiceError ApiPolicy} (policy : ApiPolicy)
        (client_id : Option String) (generated : String)
        → create_policy
            (policy_store gorm)
            (embedded_engine opa)
            show_priority
            w
            policy
            client_id
            generated
          ≡ (w', r)
        → Step w w'
    update :
        {w' : World D (Assoc Q)} {r : Result ServiceError ApiPolicy} (id : String)
        (patch : Option ApiPolicy)
        → update_policy (policy_store gorm) (embedded_engine opa) show_priority w id patch ≡ (w', r)
        → Step w w'
    delete :
        {w' : World D (Assoc Q)} {r : Option ServiceError} (id : String)
        → delete_policy (policy_store gorm) (embedded_engine opa) show_priority w id ≡ (w', r)
        → Step w w'

  pub data Reach : World D (Assoc Q) → Type 0 where
    started : {w : World D (Assoc Q)} (d : D) → start d ≡ (w, none) → Reach w
    stepped : {w w' : World D (Assoc Q)} → Reach w → Step w w' → Reach w'
