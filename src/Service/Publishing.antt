-- ===== src/Service/Publishing.antt =====
-- What the operations leave behind when they succeed: the row is in the store, and the engine has
-- compiled the modules of all rows.
use dcm_policy_manager.Prelude.{
  String, true, Option, none, some, List, map, ◌≡◌, refl, arith, Result, ok, err, Result-cases, inl,
  inr, sym, ap, ◌∙◌, ok-injective,
}
use dcm_policy_manager.Prelude.Int.{ℤ}
use dcm_policy_manager.Policy.{Policy}
use dcm_policy_manager.Errors.{ServiceError}
use dcm_policy_manager.Store.{StoreError}
use dcm_policy_manager.Convert.{ApiPolicy, api_to_db_model, db_to_api_model}
use dcm_policy_manager.Checks.{merge_policy_onto_policy}
use dcm_policy_manager.Service.{
  PolicyStore, Engine, EngineError, PolicyModule, World, module_of, recompiled, recompile_engine,
  finish_create, store_created, create_checks, create_policy, finish_update, store_updated,
  update_checks, update_policy, rego_changed,
}

module _ {D N : Type 0} (store : PolicyStore D) (engine : Engine N)
    (show_priority : ℤ → String) where
  -- The engine of `w'` comes from that of `w` by a compilation of the modules of all rows of `w'`.
  pub record Published (w w' : World D N) : Type 0 where
    pub rows : List Policy
    pub listed : store.list_all w'.db ≡ ok rows
    pub compiled : engine.compile w.engine (map module_of rows) ≡ (w'.engine, none)

  recompiled_lem :
      (w w' : World D N) (modules : List PolicyModule) (r : N × Option EngineError)
      → engine.compile w.engine modules ≡ r
      → recompiled store engine show_priority w r ≡ (w', none)
      → (w'.db ≡ w.db) × (engine.compile w.engine modules ≡ (w'.engine, none))
  unfolding recompiled
  recompiled_lem w w' modules (n, none) e h = (cc, cc)
  recompiled_lem w w' modules (n, some x) e h = cc

  pub recompile-Published :
      (w w' : World D N)
      → recompile_engine store engine show_priority w ≡ (w', none)
      → (w'.db ≡ w.db) × Published w w'
  unfolding recompile_engine
  recompile-Published w w' h = elim (Result-cases (store.list_all w.db)) [
    | inr (x, f) ↦ absurd (ground (arith, h, f))
    | inl (rows, f) ↦
        let modules = map module_of rows in
        let (same, compiled) =
          recompiled_lem w w' modules (engine.compile w.engine modules) refl
            (ground (arith, h, f)) in
        (same, record { rows = rows; listed = ap store.list_all same ∙ f; compiled = compiled })
  ]

  -- A row was written by `write`, it is what the call returns, and the engine was published.
  pub record Written (w w' : World D N) (write : D × Result StoreError Policy) (api : ApiPolicy)
      : Type 0 where
    pub row : Policy
    pub stored : write ≡ (w'.db, ok row)
    pub returned : api ≡ db_to_api_model row
    pub published : Published w w'

  published_row :
      (w w' v : World D N) (d : D) (row : Policy) (api : ApiPolicy)
      → recompile_engine store engine show_priority (record w { db = d }) ≡ (v, none)
      → ◌≡◌ {A = World D N × Result ServiceError ApiPolicy}
          (v, ok (db_to_api_model row))
          (w', ok api)
      → Written w w' (d, ok row) api
  published_row w w' v d row api f h =
      let (same, p) = recompile-Published (record w { db = d }) w' (f ∙ ap (λ u. (u.0, none)) h) in
      record {
        row = row;
        stored = ap (λ x. (x, ok row)) (sym same);
        returned = sym (ok-injective (ap (λ u. u.1) h));
        published = record { rows = p.rows; listed = p.listed; compiled = p.compiled };
      }

  finish_create-Written :
      (w w' : World D N) (d : D) (id : String) (row : Policy) (r : World D N × Option String)
      (api : ApiPolicy)
      → recompile_engine store engine show_priority (record w { db = d }) ≡ r
      → finish_create store engine show_priority id row r ≡ (w', ok api)
      → Written w w' (d, ok row) api
  unfolding finish_create
  finish_create-Written w w' d id row (v, none) api f h = published_row w w' v d row api f h
  finish_create-Written w w' d id row (v, some x) api f h = cc

  store_created-Written :
      (w w' : World D N) (p : Policy) (r : D × Result StoreError Policy) (api : ApiPolicy)
      → store_created store engine show_priority w p r ≡ (w', ok api)
      → Written w w' r api
  unfolding store_created
  store_created-Written w w' p (d, err x) api h = cc
  store_created-Written w w' p (d, ok row) api h =
      finish_create-Written w w' d p.id row
        (recompile_engine store engine show_priority (record w { db = d })) api refl h

  -- A creation that succeeds has written the row under the ID that the checks chose, returns it,
  -- and has compiled the modules of all rows.
  pub create_policy-Written :
      (w w' : World D N) (policy api : ApiPolicy) (client_id : Option String) (generated : String)
      → create_policy store engine show_priority w policy client_id generated ≡ (w', ok api)
      → (id : String) × (create_checks store engine show_priority policy client_id generated
          ≡ ok id)
        × Written w w' (store.create w.db (api_to_db_model policy id)) api
  unfolding create_policy
  create_policy-Written w w' policy api client_id generated h =
      elim (Result-cases (create_checks store engine show_priority policy client_id generated)) [
        | inr (x, f) ↦ absurd (ground (arith, f, h))
        | inl (id, f) ↦
            let row = api_to_db_model policy id in
            (
              id,
              f,
              store_created-Written w w' row (store.create w.db row) api
                  (rw (f, create_policy) at h),
            )
      ]

  finish_update-Written :
      (w w' : World D N) (d : D) (previous row : Policy) (r : World D N × Option String)
      (api : ApiPolicy)
      → recompile_engine store engine show_priority (record w { db = d }) ≡ r
      → finish_update store engine show_priority previous row r ≡ (w', ok api)
      → Written w w' (d, ok row) api
  unfolding finish_update
  finish_update-Written w w' d previous row (v, none) api f h = published_row w w' v d row api f h
  finish_update-Written w w' d previous row (v, some x) api f h = cc

  store_updated-Written :
      (w w' : World D N) (previous p : Policy) (r : D × Result StoreError Policy) (api : ApiPolicy)
      → store_updated store engine show_priority w true previous p r ≡ (w', ok api)
      → Written w w' r api
  unfolding store_updated
  store_updated-Written w w' previous p (d, err x) api h = cc
  store_updated-Written w w' previous p (d, ok row) api h =
      finish_update-Written w w' d previous row
        (recompile_engine store engine show_priority (record w { db = d })) api refl h

  -- An update of the Rego code that succeeds has written the patched row, returns it, and has
  -- compiled the modules of all rows.
  pub update_policy-Written :
      (w w' : World D N) (id : String) (patch : Option ApiPolicy) (api : ApiPolicy)
      → rego_changed store engine show_priority patch ≡ true
      → update_policy store engine show_priority w id patch ≡ (w', ok api)
      → (previous : Policy) × (update_checks store engine show_priority w id patch ≡ ok previous)
        × Written w w'
            (store.update w.db
              (api_to_db_model (merge_policy_onto_policy patch (db_to_api_model previous)) id))
            api
  unfolding update_policy
  update_policy-Written w w' id patch api c h =
      elim (Result-cases (update_checks store engine show_priority w id patch)) [
        | inr (x, f) ↦ absurd (ground (arith, f, h))
        | inl (previous, f) ↦
            let row =
              api_to_db_model (merge_policy_onto_policy patch (db_to_api_model previous)) id in
            (
              previous,
              f,
              store_updated-Written w w' previous row (store.update w.db row) api
                  (rw (f, c, update_policy) at h),
            )
      ]
