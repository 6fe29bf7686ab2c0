-- ===== src/Opa/Serving.antt =====
-- The policy service over the embedded engine: what the engine serves after a change of policies.
use dcm_policy_manager.Prelude.{String, true, Option, List, map, ◌≡◌, ok, Assoc}
use dcm_policy_manager.Prelude.Int.{ℤ}
use dcm_policy_manager.Policy.{Policy}
use dcm_policy_manager.Convert.{ApiPolicy, api_to_db_model, db_to_api_model}
use dcm_policy_manager.Checks.{merge_policy_onto_policy}
use dcm_policy_manager.Service.{
  PolicyStore, World, module_of, create_checks, create_policy, update_checks, update_policy,
  rego_changed,
}
use dcm_policy_manager.Service.Publishing.{Published, create_policy-Written, update_policy-Written}
use dcm_policy_manager.Opa.{Library, embedded_engine}
use dcm_policy_manager.Opa.Compiling.{Serves, compile-Serves}

module _ {K Q D : Type 0} (opa : Library K Q) (store : PolicyStore D)
    (show_priority : ℤ → String) where
  -- The engine serves the policies of the store: those of the table and no others.
  pub record InSync (w : World D (Assoc Q)) : Type 0 where
    pub rows : List Policy
    pub listed : store.list_all w.db ≡ ok rows
    pub served : Serves opa (map module_of rows) w.engine

  pub Published-InSync :
      (w w' : World D (Assoc Q))
      → Published store (embedded_engine opa) show_priority w w'
      → InSync w'
  Published-InSync w w' p = record {
    rows = p.rows;
    listed = p.listed;
    served = compile-Serves opa (map module_of p.rows) w.engine w'.engine p.compiled;
  }

  -- A creation over the embedded engine that succeeds has created the row under the ID that the
  -- checks chose and returns it, and the engine then serves the policies of the store.
  pub create_policy-InSync :
      (w w' : World D (Assoc Q)) (policy api : ApiPolicy) (client_id : Option String)
      (generated : String)
      → create_policy store (embedded_engine opa) show_priority w policy client_id generated
        ≡ (w', ok api)
      → (id : String) × (row : Policy) × (create_checks store
            (embedded_engine opa)
            show_priority
            policy
            client_id
            generated
          ≡ ok id)
        × (store.create w.db (api_to_db_model policy id) ≡ (w'.db, ok row))
        × (api ≡ db_to_api_model row)
        × InSync w'
  create_policy-InSync w w' policy api client_id generated h =
      let (id, checked, done) =
        create_policy-Written store (embedded_engine opa) show_priority w w' policy api client_id
          generated h in
      (id, done.row, checked, done.stored, done.returned, Published-InSync w w' done.published)

  -- An update of the Rego code over the embedded engine that succeeds has written the existing row
  -- with the patch merged onto it and returns it, and the engine then serves the policies of the
  -- store.
  pub update_policy-InSync :
      (w w' : World D (Assoc Q)) (id : String) (patch : Option ApiPolicy) (api : ApiPolicy)
      → rego_changed store (embedded_engine opa) show_priority patch ≡ true
      → update_policy store (embedded_engine opa) show_priority w id patch ≡ (w', ok api)
      → (previous row : Policy) × (update_checks store
            (embedded_engine opa)
            show_priority
            w
            id
            patch
          ≡ ok previous)
        × (store.update w.db
              (api_to_db_model (merge_policy_onto_policy patch (db_to_api_model previous)) id)
            ≡ (w'.db, ok row))
        × (api ≡ db_to_api_model row)
        × InSync w'
  update_policy-InSync w w' id patch api changed h =
      let (previous, checked, done) =
        update_policy-Written store (embedded_engine opa) show_priority w w' id patch api changed
          h in
      (
        previous,
        done.row,
        checked,
        done.stored,
        done.returned,
        Published-InSync w w' done.published,
      )
