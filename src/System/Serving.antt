-- ===== src/System/Serving.antt =====
-- In every state that the program reaches the engine serves each policy of the table: it holds a
-- query that was prepared from the Rego code that the table has for the policy.
use dcm_policy_manager.Prelude.{
  String, false, Option, none, some, List, [], map, All, All-map, All_at, All_of, ◌≡◌, refl, sym,
  ap, ◌∙◌, subst, arith, Result, ok, err, inl, inr, Bool-cases, Assoc,
}
use dcm_policy_manager.Prelude.Int.{ℤ}
use dcm_policy_manager.Policy.{Policy}
use dcm_policy_manager.Errors.{ServiceError}
use dcm_policy_manager.Convert.{ApiPolicy, api_to_db_model, db_to_api_model}
use dcm_policy_manager.Checks.{merge_policy_onto_policy}
use dcm_policy_manager.Store.{Gorm, list_all}
use dcm_policy_manager.Store.Table.{untimed, only_row}
use dcm_policy_manager.Store.Database.{IsDatabase, IsUp}
use dcm_policy_manager.Store.Writes.{delete-rows, delete-err_rows, update-rows, get-row}
use dcm_policy_manager.Service.{World, create_policy, update_policy, rego_changed}
use dcm_policy_manager.Service.Rollback.{Undone, update_checks-get}
use dcm_policy_manager.Service.Publishing.{recompile-Published}
use dcm_policy_manager.Service.Remaining.{
  update_policy-Kept, Deleted, refused, published, unpublished, delete_policy-Deleted,
}
use dcm_policy_manager.Opa.{Library, embedded_engine}
use dcm_policy_manager.Opa.Compiling.{embedded_engine-IsAtomic}
use dcm_policy_manager.Opa.Serving.{
  InSync, Published-InSync, create_policy-InSync, update_policy-InSync,
}
use dcm_policy_manager.System.{
  policy_store, start, Step, create, update, delete, Reach, started, stepped,
}
use dcm_policy_manager.System.Served.{
  Served, Served-SameRows, Served-remove, Served-overwritten, Serves-Served,
}
use dcm_policy_manager.System.Undoing.{Same, create-Undone, update-Undone}

module _ {K Q : Type 0} (opa : Library K Q) where
  module _ {D : Type 0} (gorm : Gorm D) (rows : D → List Policy) (database : IsDatabase gorm rows)
      (up : IsUp gorm rows) (show_priority : ℤ → String) where
    -- Every policy of the table is served.
    abbrev pub Serving : World D (Assoc Q) → Type 0
    Serving w = All (Served opa w.engine) (rows w.db)

    InSync-Serving :
        (w : World D (Assoc Q)) → InSync opa (policy_store gorm) show_priority w → Serving w
    unfolding list_all
    InSync-Serving w s = All_of (Served opa w.engine) (rows w.db) (λ p m.
        let sound = database.find_all_sound w.db "id ASC" s.rows s.listed in
        let only = only_row p (rows w.db) (database.unique w.db) m in
        Serves-Served opa p s.rows w.engine s.served
          (All_of (λ r. r.id ≡ p.id → r ≡ p) s.rows
            (λ r k. All_at (λ r. r.id ≡ p.id → r ≡ p) r (rows w.db) only ((sound r).0 k)))
          ((sound p).1 m))

    Undone-Serving :
        (w w' : World D (Assoc Q)) → Undone (Same gorm rows database) w' w → Serving w → Serving w'
    Undone-Serving w w' (same, e) h =
        subst (λ n. All (Served opa n) (rows w'.db)) (sym e)
          (Served-SameRows opa w.engine (rows w.db) (rows w'.db) (sym same) h)

    create-Serving :
        (w w' : World D (Assoc Q)) (policy : ApiPolicy) (client_id : Option String)
        (generated : String) (r : Result ServiceError ApiPolicy)
        → create_policy
            (policy_store gorm)
            (embedded_engine opa)
            show_priority
            w
            policy
            client_id
            generated
          ≡ (w', r)
        → Serving w
        → Serving w'
    create-Serving w w' policy client_id generated (ok api) e h =
        let (_, _, _, _, _, s) =
          create_policy-InSync opa (policy_store gorm) show_priority w w' policy api client_id
            generated e in
        InSync-Serving w' s
    create-Serving w w' policy client_id generated (err x) e h =
        Undone-Serving w w'
          (create-Undone gorm rows database up opa show_priority w w' policy client_id generated x
            e)
          h

    kept_code :
        (patch : Option ApiPolicy) (previous : Policy) (id : String)
        → rego_changed (policy_store gorm) (embedded_engine opa) show_priority patch ≡ false
        → (api_to_db_model (merge_policy_onto_policy patch (db_to_api_model previous)) id).rego_code
          ≡ previous.rego_code
    unfolding api_to_db_model merge_policy_onto_policy db_to_api_model
    kept_code none previous id c = refl
    kept_code (some patch) previous id c = ground (arith, c)

    written_id :
        (patch : Option ApiPolicy) (previous : Policy) (id : String)
        → (api_to_db_model (merge_policy_onto_policy patch (db_to_api_model previous)) id).id ≡ id
    unfolding api_to_db_model
    written_id patch previous id = refl

    kept-Serving :
        (w w' : World D (Assoc Q)) (id : String) (patch : Option ApiPolicy) (api : ApiPolicy)
        → rego_changed (policy_store gorm) (embedded_engine opa) show_priority patch ≡ false
        → update_policy (policy_store gorm) (embedded_engine opa) show_priority w id patch
          ≡ (w', ok api)
        → Serving w
        → Serving w'
    kept-Serving w w' id patch api c e h =
        let (previous, checked, kept) =
          update_policy-Kept (policy_store gorm) (embedded_engine opa) show_priority w w' id patch
            api c e in
        let p : Policy =
          api_to_db_model (merge_policy_onto_policy patch (db_to_api_model previous)) id in
        let (m, i) = get-row gorm rows database w.db id previous (
          update_checks-get (policy_store gorm) (embedded_engine opa) show_priority w id patch
            previous checked) in
        let code = kept_code patch previous id c in
        let (stamp, written) = update-rows gorm rows database w.db w'.db p kept.row kept.stored in
        let same : All (λ r. r.id ≡ p.id → r.rego_code ≡ p.rego_code) (rows w.db) =
          All-map (λ r. r.id ≡ previous.id → r ≡ previous)
            (λ r. r.id ≡ p.id → r.rego_code ≡ p.rego_code) (rows w.db)
            (λ r f j.
              ap (λ q. q.rego_code) (f (j ∙ written_id patch previous id ∙ sym i)) ∙ sym code)
            (only_row previous (rows w.db) (database.unique w.db) m) in
        subst (λ q. All (Served opa q) (rows w'.db)) (sym kept.same_engine)
          (subst (All (Served opa w.engine)) (sym written)
            (Served-overwritten opa w.engine p stamp (rows w.db) same h))

    update-Serving :
        (w w' : World D (Assoc Q)) (id : String) (patch : Option ApiPolicy)
        (r : Result ServiceError ApiPolicy)
        → update_policy (policy_store gorm) (embedded_engine opa) show_priority w id patch ≡ (w', r)
        → Serving w
        → Serving w'
    update-Serving w w' id patch (ok api) e h =
        elim (Bool-cases
          (rego_changed (policy_store gorm) (embedded_engine opa) show_priority patch)) [
            | inl changed ↦
                let (_, _, _, _, _, s) =
                  update_policy-InSync opa (policy_store gorm) show_priority w w' id patch api
                    changed e in
                InSync-Serving w' s
            | inr same ↦ kept-Serving w w' id patch api same e h
          ]
    update-Serving w w' id patch (err x) e h =
        Undone-Serving w w'
          (update-Undone gorm rows database up opa show_priority w w' id patch x e) h

    Deleted-Serving :
        (w w' : World D (Assoc Q)) (id : String)
        → Deleted
            (policy_store gorm)
            (embedded_engine opa)
            show_priority
            w
            w'
            ((policy_store gorm).delete w.db id)
        → Serving w
        → Serving w'
    Deleted-Serving w w' id (refused x e n) h =
        Undone-Serving w w'
          (ap (map untimed) (delete-err_rows gorm rows database w.db w'.db id x e), n) h
    Deleted-Serving w w' id (published e p) h =
        InSync-Serving w' (Published-InSync opa (policy_store gorm) show_priority w w' p)
    Deleted-Serving w w' id (unpublished e n) h =
        subst (λ q. All (Served opa q) (rows w'.db)) (sym n)
          (subst (All (Served opa w.engine)) (sym (delete-rows gorm rows database w.db w'.db id e))
            (Served-remove opa w.engine id (rows w.db) h))

    Step-Serving :
        {w w' : World D (Assoc Q)} → Step gorm opa show_priority w w' → Serving w → Serving w'
    Step-Serving {w} {w'} (create {r} policy client_id generated e) h =
        create-Serving w w' policy client_id generated r e h
    Step-Serving {w} {w'} (update {r} id patch e) h = update-Serving w w' id patch r e h
    Step-Serving {w} {w'} (delete {r} id e) h =
        Deleted-Serving w w' id
          (delete_policy-Deleted (policy_store gorm) (embedded_engine opa) show_priority
            (embedded_engine-IsAtomic opa) w w' id r e)
          h

    -- If the database does as documented and answers, then in every state that the program reaches
    -- by a start and any creations, updates and deletions, successful or not, each policy of the
    -- table has a query in the engine that was prepared from the policy's present Rego code.
    pub Reach-Serving : {w : World D (Assoc Q)} → Reach gorm opa show_priority w → Serving w
    unfolding start
    Reach-Serving {w} (started d e) =
        let (_, p) =
          recompile-Published (policy_store gorm) (embedded_engine opa) show_priority
            (record { db = d; engine = [] }) w e in
        InSync-Serving w (
          Published-InSync opa (policy_store gorm) show_priority (record { db = d; engine = [] }) w
            p)
    Reach-Serving (stepped r s) = Step-Serving s (Reach-Serving r)
