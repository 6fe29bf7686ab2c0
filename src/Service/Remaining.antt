-- ===== src/Service/Remaining.antt =====
-- The changes that leave the engine alone, or may: an update without Rego code, and a deletion.
use dcm_policy_manager.Prelude.{
  is_none, String, false, Option, none, some, ◌≡◌, ◌⊎◌, inl, inr, refl, sym, ap, ◌∙◌, arith, Result,
  ok, err, Result-cases,
}
use dcm_policy_manager.Prelude.Int.{ℤ}
use dcm_policy_manager.Policy.{Policy}
use dcm_policy_manager.Errors.{ServiceError}
use dcm_policy_manager.Store.{StoreError}
use dcm_policy_manager.Convert.{ApiPolicy, api_to_db_model, db_to_api_model}
use dcm_policy_manager.Checks.{merge_policy_onto_policy}
use dcm_policy_manager.Service.{
  PolicyStore, Engine, World, recompile_engine, store_updated, update_checks, update_policy,
  rego_changed, deleted, delete_policy,
}
use dcm_policy_manager.Service.Rollback.{IsAtomic, recompile_fails}
use dcm_policy_manager.Service.Publishing.{Published, recompile-Published}

module _ {D N : Type 0} (store : PolicyStore D) (engine : Engine N)
    (show_priority : ℤ → String) where
  -- The row was written, and the engine is as it was.
  pub record Kept (w w' : World D N) (write : D × Result StoreError Policy) : Type 0 where
    pub row : Policy
    pub stored : write ≡ (w'.db, ok row)
    pub same_engine : w'.engine ≡ w.engine

  store_updated-Kept :
      (w w' : World D N) (previous p : Policy) (r : D × Result StoreError Policy) (api : ApiPolicy)
      → store_updated store engine show_priority w false previous p r ≡ (w', ok api)
      → Kept w w' r
  unfolding store_updated
  store_updated-Kept w w' previous p (d, err x) api h = cc
  store_updated-Kept w w' previous p (d, ok row) api h = record {
    row = row;
    stored = cc;
    same_engine = cc;
  }

  -- An update that gives no Rego code and succeeds writes the patched row and leaves the engine.
  pub update_policy-Kept :
      (w w' : World D N) (id : String) (patch : Option ApiPolicy) (api : ApiPolicy)
      → rego_changed store engine show_priority patch ≡ false
      → update_policy store engine show_priority w id patch ≡ (w', ok api)
      → (previous : Policy) × (update_checks store engine show_priority w id patch ≡ ok previous)
        × Kept w w' (
            store.update w.db
              (api_to_db_model (merge_policy_onto_policy patch (db_to_api_model previous)) id))
  unfolding update_policy
  update_policy-Kept w w' id patch api c h =
      elim (Result-cases (update_checks store engine show_priority w id patch)) [
        | inr (x, f) ↦ absurd (ground (arith, f, h))
        | inl (previous, f) ↦
            let row =
              api_to_db_model (merge_policy_onto_policy patch (db_to_api_model previous)) id in
            (
              previous,
              f,
              store_updated-Kept w w' previous row (store.update w.db row) api
                  (rw (f, c, update_policy) at h),
            )
      ]

  -- A deletion reports what the store reports; if the store deletes the row, the engine is
  -- recompiled from the rows that are left, or as it was if that fails.
  pub data Deleted (w w' : World D N) (write : D × Option StoreError) : Type 0 where
    refused : (e : StoreError) → write ≡ (w'.db, some e) → w'.engine ≡ w.engine → Deleted w w' write
    published :
        write ≡ (w'.db, none) → Published store engine show_priority w w' → Deleted w w' write
    unpublished : write ≡ (w'.db, none) → w'.engine ≡ w.engine → Deleted w w' write

  recompiled_cases :
      IsAtomic engine
      → (w w' : World D N) (r : World D N × Option String)
      → recompile_engine store engine show_priority w ≡ r
      → r.0 ≡ w'
      → (w' ≡ w) ⊎ ((w'.db ≡ w.db) × Published store engine show_priority w w')
  recompiled_cases atomic w w' (v, none) h e =
      inr (recompile-Published store engine show_priority w w' (h ∙ ap (λ u. (u, none)) e))
  recompiled_cases atomic w w' (v, some x) h e =
      inl (sym e ∙ recompile_fails store engine show_priority atomic w v x h)

  deleted-Deleted :
      IsAtomic engine
      → (w w' : World D N) (id : String) (r : Option ServiceError) (write : D × Option StoreError)
      → deleted store engine show_priority id w write ≡ (w', r)
      → Deleted w w' write
  unfolding deleted
  deleted-Deleted atomic w w' id r (d, some e) h = refused e (cc) (cc)
  deleted-Deleted atomic w w' id r (d, none) h =
      elim (recompiled_cases atomic (record w { db = d }) w'
        (recompile_engine store engine show_priority (record w { db = d })) refl
        (ap (λ u. u.0) h)) [
          | inl same ↦ unpublished (ap (λ u. (u.db, none)) (sym same)) (ap (λ u. u.engine) same)
          | inr (same, p) ↦
              published (ap (λ x. (x, none)) (sym same))
                (record { rows = p.rows; listed = p.listed; compiled = p.compiled })
        ]

  pub delete_policy-Deleted :
      IsAtomic engine
      → (w w' : World D N) (id : String) (r : Option ServiceError)
      → delete_policy store engine show_priority w id ≡ (w', r)
      → Deleted w w' (store.delete w.db id)
  unfolding delete_policy
  delete_policy-Deleted atomic w w' id r h =
      deleted-Deleted atomic w w' id r (store.delete w.db id) h

  deleted-is_none :
      (w w' : World D N) (id : String) (r : Option ServiceError) (write : D × Option StoreError)
      → deleted store engine show_priority id w write ≡ (w', r)
      → is_none r ≡ is_none write.1
  unfolding deleted
  deleted-is_none w w' id r (d, none) h = sym (ap (λ u. is_none u.1) h)
  deleted-is_none w w' id r (d, some e) h = sym (ap (λ u. is_none u.1) h)

  -- A deletion fails exactly if the store's deletion does.
  pub delete_policy-is_none :
      (w w' : World D N) (id : String) (r : Option ServiceError)
      → delete_policy store engine show_priority w id ≡ (w', r)
      → is_none r ≡ is_none (store.delete w.db id).1
  unfolding delete_policy
  delete_policy-is_none w w' id r h = deleted-is_none w w' id r (store.delete w.db id) h
