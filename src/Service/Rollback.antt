-- ===== src/Service/Rollback.antt =====
-- What the operations leave behind when they fail, and the engine when they succeed.
use dcm_policy_manager.Prelude.{
  String, Bool, true, false, Option, none, some, List, map, ◌≡◌, refl, arith, Result, ok, err,
  Result-cases, inl, inr, bind-ok, map_err, map_err-ok, ok-injective, check, ◌>>=◌, ◌>>◌, subst,
  sym,
}
use dcm_policy_manager.Prelude.Int.{ℤ}
use dcm_policy_manager.Policy.{Policy}
use dcm_policy_manager.Errors.{ServiceError}
use dcm_policy_manager.Store.{StoreError}
use dcm_policy_manager.Convert.{ApiPolicy, api_to_db_model, db_to_api_model}
use dcm_policy_manager.Checks.{
  merge_policy_onto_policy, validate_patch_input, validate_patch_immutable_fields,
}
use dcm_policy_manager.Service.{
  PolicyStore, Engine, EngineError, PolicyModule, World, module_of, recompiled, recompile_engine,
  finish_create, store_created, create_checks, create_policy, finish_update, store_updated,
  update_checks, update_policy, rego_changed, rego_error, new_rego, read_failure,
}

-- What is asked of a store: a write that fails writes nothing, deleting a row that was just created
-- restores the store, and so does writing back the row that was there, each but for what `Same`
-- does not tell apart: the database moves the update time on at each update.
pub record IsUndoable {D : Type 0} (store : PolicyStore D) (Same : D → D → Type 0) : Type 0 where
  pub same_refl : (d : D) → Same d d
  pub create_fails :
      (d d' : D) (p : Policy) (e : StoreError) → store.create d p ≡ (d', err e) → Same d' d
  pub create_undone :
      (d d' : D) (p row : Policy)
      → store.create d p ≡ (d', ok row)
      → Same (store.delete d' p.id).0 d
  pub update_fails :
      (d d' : D) (p : Policy) (e : StoreError) → store.update d p ≡ (d', err e) → Same d' d
  pub update_undone :
      (d d' : D) (id : String) (previous p row : Policy)
      → store.get d id ≡ ok previous
      → p.id ≡ id
      → store.update d p ≡ (d', ok row)
      → Same (store.update d' previous).0 d

-- What is asked of an engine: a compilation that fails keeps the modules that were compiled before.
pub record IsAtomic {N : Type 0} (engine : Engine N) : Type 0 where
  pub compile_fails :
      (n n' : N) (modules : List PolicyModule) (e : EngineError)
      → engine.compile n modules ≡ (n', some e)
      → n' ≡ n

-- The rows are restored, and the engine is as it was.
abbrev pub Undone : {D N : Type 0} (Same : D → D → Type 0) → World D N → World D N → Type 0
Undone Same w' w = Same w'.db w.db × (w'.engine ≡ w.engine)

module _ {D N : Type 0} (store : PolicyStore D) (engine : Engine N)
    (show_priority : ℤ → String) where
  recompiled_fails :
      IsAtomic engine
      → (w w' : World D N) (modules : List PolicyModule) (r : N × Option EngineError) (e : String)
      → engine.compile w.engine modules ≡ r
      → recompiled store engine show_priority w r ≡ (w', some e)
      → w' ≡ w
  unfolding recompiled
  recompiled_fails atomic w w' modules (n, none) e f k = cc
  recompiled_fails atomic w w' modules (n, some x) e f k =
      ground (arith, atomic.compile_fails w.engine n modules x f)

  pub recompile_fails :
      IsAtomic engine
      → (w w' : World D N) (e : String)
      → recompile_engine store engine show_priority w ≡ (w', some e)
      → w' ≡ w
  unfolding recompile_engine
  recompile_fails atomic w w' e h = elim (Result-cases (store.list_all w.db)) [
    | inr (x, f) ↦ ground (arith, f)
    | inl (ps, f) ↦
        recompiled_fails atomic w w' (map module_of ps) (engine.compile w.engine (map module_of ps))
          e refl (ground (arith, f))
  ]

  -- The row that the checks of an update return is the one that the store holds.
  pub update_checks-get :
      (w : World D N) (id : String) (patch : Option ApiPolicy) (previous : Policy)
      → update_checks store engine show_priority w id patch ≡ ok previous
      → store.get w.db id ≡ ok previous
  unfolding update_checks
  update_checks-get w id patch previous h = go (bind-ok (check (validate_patch_input patch)) _ h)
    where
      after_read : Policy → Result ServiceError Policy
      after_read existing = do
        check (validate_patch_immutable_fields patch (db_to_api_model existing))
        check (rego_error store engine show_priority (new_rego store engine show_priority patch))
        ok existing

      keeps : (a existing : Policy) → after_read a ≡ ok existing → a ≡ existing
      keeps a existing e =
          let later =
            check
              (rego_error store engine show_priority (new_rego store engine show_priority patch)) in
          let (u, _, k) =
            bind-ok (check (validate_patch_immutable_fields patch (db_to_api_model a)))
              (λ _. later >> ok a) e in
          let (v, _, k') = bind-ok later (λ _. ok a) k in ok-injective k'

      go :
          (u : Unit {0}) × (check (validate_patch_input patch) ≡ ok u)
            × ((map_err (read_failure "Failed to get existing policy" id) (store.get w.db id)
                  >>= after_read)
                ≡ ok previous)
          → store.get w.db id ≡ ok previous
      go (u, _, k) =
          let (a, e₁, e₂) =
            bind-ok (map_err (read_failure "Failed to get existing policy" id) (store.get w.db id))
              after_read k in
          rw (← keeps a previous e₂)
            (map_err-ok (read_failure "Failed to get existing policy" id) (store.get w.db id) e₁)

  module _ (Same : D → D → Type 0) (undoable : IsUndoable store Same)
      (atomic : IsAtomic engine) where
    unchanged-Undone : {w' w : World D N} → w' ≡ w → Undone Same w' w
    unchanged-Undone {w} e = subst (λ u. Undone Same u w) (sym e) (undoable.same_refl w.db, refl)

    finish_create_fails :
        (w : World D N) (d : D) (p row : Policy) (r : World D N × Option String) (e : ServiceError)
        → store.create w.db p ≡ (d, ok row)
        → recompile_engine store engine show_priority (record w { db = d }) ≡ r
        → (finish_create store engine show_priority p.id row r).1 ≡ err e
        → Undone Same (finish_create store engine show_priority p.id row r).0 w
    unfolding finish_create
    finish_create_fails w d p row (w', none) e c f h = cc
    finish_create_fails w d p row (w', some x) e c f h =
        subst (λ u. Undone Same (record u { db = (store.delete u.db p.id).0 }) w)
          (sym (recompile_fails atomic (record w { db = d }) w' x f))
          (undoable.create_undone w.db d p row c, refl)

    store_created_fails :
        (w : World D N) (p : Policy) (r : D × Result StoreError Policy) (e : ServiceError)
        → store.create w.db p ≡ r
        → (store_created store engine show_priority w p r).1 ≡ err e
        → Undone Same (store_created store engine show_priority w p r).0 w
    unfolding store_created
    store_created_fails w p (d, err x) e c h = (undoable.create_fails w.db d p x c, refl)
    store_created_fails w p (d, ok row) e c h =
        finish_create_fails w d p row
          (recompile_engine store engine show_priority (record w { db = d })) e c refl h

    -- If the store can undo a creation and the engine keeps its modules when a compilation fails, a
    -- creation that reports an error, at whatever step, leaves the store as it was, but for what
    -- `Same` does not tell apart, and the engine as it was.
    pub create_policy_fails :
        (w : World D N) (policy : ApiPolicy) (client_id : Option String) (generated : String)
        (e : ServiceError)
        → (create_policy store engine show_priority w policy client_id generated).1 ≡ err e
        → Undone Same (create_policy store engine show_priority w policy client_id generated).0 w
    unfolding create_policy
    create_policy_fails w policy client_id generated e h =
        elim (Result-cases (create_checks store engine show_priority policy client_id generated)) [
          | inr (x, f) ↦ unchanged-Undone (ground (arith, f))
          | inl (id, f) ↦
              let p = api_to_db_model policy id in
              rw (f, create_policy)
                (store_created_fails w p (store.create w.db p) e refl (rw (f, create_policy) at h))
        ]

    finish_update_fails :
        (w : World D N) (d : D) (id : String) (previous p row : Policy)
        (r : World D N × Option String) (e : ServiceError)
        → store.get w.db id ≡ ok previous
        → p.id ≡ id
        → store.update w.db p ≡ (d, ok row)
        → recompile_engine store engine show_priority (record w { db = d }) ≡ r
        → (finish_update store engine show_priority previous row r).1 ≡ err e
        → Undone Same (finish_update store engine show_priority previous row r).0 w
    unfolding finish_update
    finish_update_fails w d id previous p row (w', none) e g i c f h = cc
    finish_update_fails w d id previous p row (w', some x) e g i c f h =
        subst (λ u. Undone Same (record u { db = (store.update u.db previous).0 }) w)
          (sym (recompile_fails atomic (record w { db = d }) w' x f))
          (undoable.update_undone w.db d id previous p row g i c, refl)

    store_updated_fails :
        (w : World D N) (changed : Bool) (id : String) (previous p : Policy)
        (r : D × Result StoreError Policy) (e : ServiceError)
        → store.get w.db id ≡ ok previous
        → p.id ≡ id
        → store.update w.db p ≡ r
        → (store_updated store engine show_priority w changed previous p r).1 ≡ err e
        → Undone Same (store_updated store engine show_priority w changed previous p r).0 w
    unfolding store_updated
    store_updated_fails w true id previous p (d, err x) e g i c h =
        (undoable.update_fails w.db d p x c, refl)
    store_updated_fails w false id previous p (d, err x) e g i c h =
        (undoable.update_fails w.db d p x c, refl)
    store_updated_fails w true id previous p (d, ok row) e g i c h =
        finish_update_fails w d id previous p row
          (recompile_engine store engine show_priority (record w { db = d })) e g i c refl h
    store_updated_fails w false id previous p (d, ok row) e g i c h = cc

    -- If the store can undo an update but for what `Same` does not tell apart, and the engine keeps
    -- its modules when a compilation fails, an update that reports an error, at whatever step,
    -- leaves the store the same in this sense, and the engine as it was.
    pub update_policy_fails :
        (w : World D N) (id : String) (patch : Option ApiPolicy) (e : ServiceError)
        → (update_policy store engine show_priority w id patch).1 ≡ err e
        → Undone Same (update_policy store engine show_priority w id patch).0 w
    unfolding update_policy api_to_db_model
    update_policy_fails w id patch e h =
        elim (Result-cases (update_checks store engine show_priority w id patch)) [
          | inr (x, f) ↦ unchanged-Undone (ground (arith, f))
          | inl (previous, f) ↦
              let p =
                api_to_db_model (merge_policy_onto_policy patch (db_to_api_model previous)) id in
              rw (f, update_policy)
                (store_updated_fails w (rego_changed store engine show_priority patch) id previous p
                  (store.update w.db p) e (update_checks-get w id patch previous f) refl refl
                  (rw (f, update_policy) at h))
        ]
