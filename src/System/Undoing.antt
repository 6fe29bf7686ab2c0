-- ===== src/System/Undoing.antt =====
-- The store over a database keeps the promises that the policy service relies on.
use dcm_policy_manager.Prelude.{
  ℕ, String, List, ◌∷◌, map, All, ◌≡◌, refl, sym, ap, ◌∙◌, subst, arith, eq_iff, ok, err, Option,
  Assoc,
}
use dcm_policy_manager.Policy.{Policy}
use dcm_policy_manager.Store.{Gorm, create, delete, update, get}
use dcm_policy_manager.Store.Table.{
  IsUnique, remove, overwritten, SameRows, untimed, remove_absent, overwritten_back, only_row,
  IsUnique-SameRows,
}
use dcm_policy_manager.Store.Database.{IsDatabase, IsUp, timeless}
use dcm_policy_manager.Store.Writes.{
  create-rows, create-err_rows, delete-rows_up, update-rows, update-err_rows, update-rows_up,
  get-row,
}
use dcm_policy_manager.Service.{World, create_policy, update_policy}
use dcm_policy_manager.Service.Rollback.{
  IsUndoable, Undone, create_policy_fails, update_policy_fails,
}
use dcm_policy_manager.Prelude.Int.{ℤ}
use dcm_policy_manager.Errors.{ServiceError}
use dcm_policy_manager.Convert.{ApiPolicy}
use dcm_policy_manager.Opa.{Library, embedded_engine}
use dcm_policy_manager.Opa.Compiling.{embedded_engine-IsAtomic}
use dcm_policy_manager.System.{policy_store}

module _ {D : Type 0} (gorm : Gorm D) (rows : D → List Policy)
    (database : IsDatabase gorm rows) where
  -- The rows are the same but for update times.
  abbrev pub Same : D → D → Type 0
  Same d d' = SameRows (rows d) (rows d')

  Same-rows : (d d' : D) → rows d' ≡ rows d → Same d' d
  Same-rows d d' e = ap (map untimed) e

  -- A new row that is deleted leaves the rows that were there.
  removed_new :
      (p row : Policy) (before : List Policy)
      → timeless row ≡ timeless p
      → IsUnique (row ∷ before)
      → remove p.id (row ∷ before) ≡ before
  unfolding remove
  removed_new p row before t (apart, u) =
      let same : row.id ≡ p.id = ap (λ q. q.id) t in
      ground (arith, eq_iff row.id p.id, same, remove_absent p.id row before same apart)

  create_undone :
      IsUp gorm rows
      → (d d' : D) (p row : Policy) → create gorm d p ≡ (d', ok row)
      → Same (delete gorm d' p.id).0 d
  create_undone up d d' p row h =
      let (t, e) = create-rows gorm rows database d d' p row h in
      Same-rows d (delete gorm d' p.id).0 (
        delete-rows_up gorm rows database up d' p.id
        ∙ ap (remove p.id) e
        ∙ removed_new p row (rows d) t (subst IsUnique e (database.unique d')))

  update_undone :
      IsUp gorm rows
      → (d d' : D) (id : String) (previous p row : Policy) → get gorm d id ≡ ok previous
      → p.id ≡ id
      → update gorm d p ≡ (d', ok row)
      → Same (update gorm d' previous).0 d
  update_undone up d d' id previous p row g i h =
      let (m, j) = get-row gorm rows database d id previous g in
      let (s, e) = update-rows gorm rows database d d' p row h in
      let only = only_row previous (rows d) (database.unique d) m in
      let ids : previous.id ≡ p.id = j ∙ sym i in
      let back : (t : ℕ) → SameRows (overwritten previous t (rows d')) (rows d) = λ t.
        subst (λ r. SameRows (overwritten previous t r) (rows d)) (sym e)
          (overwritten_back p previous s t (rows d) ids
            (subst (λ k. All (λ r. r.id ≡ k → r ≡ previous) (rows d)) ids only)) in
      let (t, f) = update-rows_up gorm rows database up d' previous (λ t.
        IsUnique-SameRows (rows d) (overwritten previous t (rows d')) (sym (back t))
          (database.unique d)) in
      ap (map untimed) f ∙ back t

  -- If the database does as documented and answers, the store over it can undo a creation and an
  -- update, but for update times.
  pub policy_store-IsUndoable : IsUp gorm rows → IsUndoable (policy_store gorm) Same
  policy_store-IsUndoable up = record {
    same_refl = λ d. refl;
    create_fails = λ d d' p e h. Same-rows d d' (create-err_rows gorm rows database d d' p e h);
    create_undone = create_undone up;
    update_fails = λ d d' p e h. Same-rows d d' (update-err_rows gorm rows database d d' p e h);
    update_undone = update_undone up;
  }

  module _ {K Q : Type 0} (up : IsUp gorm rows) (opa : Library K Q)
      (show_priority : ℤ → String) where
    -- A creation that fails leaves the rows, but for update times, and the engine.
    pub create-Undone :
        (w w' : World D (Assoc Q)) (policy : ApiPolicy) (client_id : Option String)
        (generated : String) (x : ServiceError)
        → create_policy
            (policy_store gorm)
            (embedded_engine opa)
            show_priority
            w
            policy
            client_id
            generated
          ≡ (w', err x)
        → Undone Same w' w
    create-Undone w w' policy client_id generated x e =
        subst (λ u. Undone Same u w) (ap (λ u. u.0) e)
          (create_policy_fails (policy_store gorm) (embedded_engine opa) show_priority Same
            (policy_store-IsUndoable up) (embedded_engine-IsAtomic opa) w policy client_id generated
            x (ap (λ u. u.1) e))

    -- An update that fails leaves the rows, but for update times, and the engine.
    pub update-Undone :
        (w w' : World D (Assoc Q)) (id : String) (patch : Option ApiPolicy) (x : ServiceError)
        → update_policy (policy_store gorm) (embedded_engine opa) show_priority w id patch
          ≡ (w', err x)
        → Undone Same w' w
    update-Undone w w' id patch x e =
        subst (λ u. Undone Same u w) (ap (λ u. u.0) e)
          (update_policy_fails (policy_store gorm) (embedded_engine opa) show_priority Same
            (policy_store-IsUndoable up) (embedded_engine-IsAtomic opa) w id patch x
            (ap (λ u. u.1) e))
