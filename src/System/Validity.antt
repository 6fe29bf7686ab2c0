-- ===== src/System/Validity.antt =====
-- What holds of every row that a request can write: the checks on the input are never got round.
use dcm_policy_manager.Prelude.{
  ℕ, String, false, Option, List, [], ◌∷◌, All, All_at, ◌==◌, ◌≡◌, sym, ap, subst, arith, Result,
  ok, err, inl, inr, Bool-cases, Assoc,
}
use dcm_policy_manager.Prelude.Int.{ℤ}
use dcm_policy_manager.Policy.{Policy}
use dcm_policy_manager.Errors.{ServiceError}
use dcm_policy_manager.Convert.{ApiPolicy, api_to_db_model, db_to_api_model}
use dcm_policy_manager.Checks.{merge_policy_onto_policy}
use dcm_policy_manager.Checks.Accepted.{InRange, IsValid, post-IsValid, patch-IsValid}
use dcm_policy_manager.Store.{Gorm}
use dcm_policy_manager.Store.Table.{remove, overwrite, overwritten, SameRows, untimed}
use dcm_policy_manager.Store.Database.{IsDatabase, IsUp}
use dcm_policy_manager.Store.Writes.{
  create-rows, delete-rows, delete-err_rows, update-rows, get-row,
}
use dcm_policy_manager.Service.{World, update_checks, create_policy, update_policy, rego_changed}
use dcm_policy_manager.Service.Rollback.{Undone, update_checks-get}
use dcm_policy_manager.Service.Publishing.{create_policy-Written, update_policy-Written}
use dcm_policy_manager.Service.Checked.{
  create_checks-validate_post_input, update_checks-validate_patch_input,
}
use dcm_policy_manager.Text.{trim_space}
use dcm_policy_manager.Service.Remaining.{
  update_policy-Kept, Deleted, refused, published, unpublished, delete_policy-Deleted,
}
use dcm_policy_manager.Opa.{Library, embedded_engine}
use dcm_policy_manager.Opa.Compiling.{embedded_engine-IsAtomic}
use dcm_policy_manager.System.{policy_store, Step, create, update, delete}
use dcm_policy_manager.System.Undoing.{Same, create-Undone, update-Undone}

-- Validity looks at the priority and the Rego code only.
IsValid-code :
    (p q : Policy) → p.priority ≡ q.priority → p.rego_code ≡ q.rego_code → IsValid p → IsValid q
IsValid-code p q n c v = record {
  in_range = subst InRange n v.in_range;
  not_blank = subst (λ s. (trim_space s == "") ≡ false) c v.not_blank;
}

IsValid-rows :
    (rows rows' : List Policy) → SameRows rows rows' → All IsValid rows → All IsValid rows'
IsValid-rows [] [] e h = tt
IsValid-rows [] (q ∷ rows') e h = cc
IsValid-rows (p ∷ rows) [] e h = cc
IsValid-rows (p ∷ rows) (q ∷ rows') e (v, h) =
    let same : untimed p ≡ untimed q = cc in
    (
      IsValid-code p q (ap (λ r. r.priority) same) (ap (λ r. r.rego_code) same) v,
      IsValid-rows rows rows' (cc) h,
    )

IsValid-remove :
    (id : String) (rows : List Policy) → All IsValid rows → All IsValid (remove id rows)
unfolding remove
IsValid-remove id [] h = tt
IsValid-remove id (p ∷ rows) (v, h) = elim (Bool-cases (p.id == id)) [
  | inl e ↦ rw e (IsValid-remove id rows h)
  | inr e ↦ rw e (v, IsValid-remove id rows h)
]

IsValid-overwrite :
    (p : Policy) (stamp : ℕ) (row : Policy)
    → IsValid p
    → IsValid row
    → IsValid (overwrite p stamp row)
IsValid-overwrite p stamp row v r = elim (Bool-cases (row.id == p.id)) [
  | inl e ↦ IsValid-code p (overwrite p stamp row) (ground (arith, e)) (ground (arith, e)) v
  | inr e ↦ rw e r
]

IsValid-overwritten :
    (p : Policy) (stamp : ℕ) (rows : List Policy)
    → IsValid p
    → All IsValid rows
    → All IsValid (overwritten p stamp rows)
unfolding overwritten
IsValid-overwritten p stamp [] v h = tt
IsValid-overwritten p stamp (row ∷ rows) v (r, h) =
    (IsValid-overwrite p stamp row v r, IsValid-overwritten p stamp rows v h)

module _ {D K Q : Type 0} (gorm : Gorm D) (rows : D → List Policy) (database : IsDatabase gorm rows)
    (up : IsUp gorm rows) (opa : Library K Q) (show_priority : ℤ → String) where
  abbrev pub AllValid : World D (Assoc Q) → Type 0
  AllValid w = All IsValid (rows w.db)

  Undone-AllValid :
      (w w' : World D (Assoc Q)) → Undone (Same gorm rows database) w' w → AllValid w → AllValid w'
  Undone-AllValid w w' (same, _) h = IsValid-rows (rows w.db) (rows w'.db) (sym same) h

  create-AllValid :
      (w w' : World D (Assoc Q)) (policy : ApiPolicy) (client_id : Option String)
      (generated : String) (r : Result ServiceError ApiPolicy)
      → create_policy
          (policy_store gorm)
          (embedded_engine opa)
          show_priority
          w
          policy
          client_id
          generated
        ≡ (w', r)
      → AllValid w
      → AllValid w'
  create-AllValid w w' policy client_id generated (ok api) e h =
      let (id, checked, done) =
        create_policy-Written (policy_store gorm) (embedded_engine opa) show_priority w w' policy
          api client_id generated e in
      let (same, written) =
        create-rows gorm rows database w.db w'.db (api_to_db_model policy id) done.row
          done.stored in
      let v = post-IsValid policy id (
        create_checks-validate_post_input (policy_store gorm) (embedded_engine opa) show_priority
          policy client_id generated id checked) in
      subst (All IsValid) (sym written) (
        IsValid-code (api_to_db_model policy id) done.row (ap (λ r. r.priority) (sym same))
            (ap (λ r. r.rego_code) (sym same)) v,
        h,
      )
  create-AllValid w w' policy client_id generated (err x) e h =
      Undone-AllValid w w'
        (create-Undone gorm rows database up opa show_priority w w' policy client_id generated x e)
        h

  written-AllValid :
      (w w' : World D (Assoc Q)) (id : String) (patch : Option ApiPolicy) (previous row : Policy)
      → update_checks (policy_store gorm) (embedded_engine opa) show_priority w id patch
        ≡ ok previous
      → (policy_store gorm).update w.db
          (api_to_db_model (merge_policy_onto_policy patch (db_to_api_model previous)) id)
        ≡ (w'.db, ok row)
      → AllValid w
      → AllValid w'
  written-AllValid w w' id patch previous row checked stored h =
      let p : Policy =
        api_to_db_model (merge_policy_onto_policy patch (db_to_api_model previous)) id in
      let (m, _) = get-row gorm rows database w.db id previous (
        update_checks-get (policy_store gorm) (embedded_engine opa) show_priority w id patch
          previous checked) in
      let (stamp, written) = update-rows gorm rows database w.db w'.db p row stored in
      subst (All IsValid) (sym written) (
        IsValid-overwritten p stamp (rows w.db)
          (patch-IsValid patch previous id
            (update_checks-validate_patch_input (policy_store gorm) (embedded_engine opa)
              show_priority w id patch previous checked)
            (All_at IsValid previous (rows w.db) h m))
          h)

  update-AllValid :
      (w w' : World D (Assoc Q)) (id : String) (patch : Option ApiPolicy)
      (r : Result ServiceError ApiPolicy)
      → update_policy (policy_store gorm) (embedded_engine opa) show_priority w id patch ≡ (w', r)
      → AllValid w
      → AllValid w'
  update-AllValid w w' id patch (ok api) e h =
      elim (Bool-cases
        (rego_changed (policy_store gorm) (embedded_engine opa) show_priority patch)) [
          | inl changed ↦
              let (previous, checked, done) =
                update_policy-Written (policy_store gorm) (embedded_engine opa) show_priority w w'
                  id patch api changed e in
              written-AllValid w w' id patch previous done.row checked done.stored h
          | inr same ↦
              let (previous, checked, kept) =
                update_policy-Kept (policy_store gorm) (embedded_engine opa) show_priority w w' id
                  patch api same e in
              written-AllValid w w' id patch previous kept.row checked kept.stored h
        ]
  update-AllValid w w' id patch (err x) e h =
      Undone-AllValid w w' (update-Undone gorm rows database up opa show_priority w w' id patch x e)
        h

  Deleted-AllValid :
      (w w' : World D (Assoc Q)) (id : String)
      → Deleted
          (policy_store gorm)
          (embedded_engine opa)
          show_priority
          w
          w'
          ((policy_store gorm).delete w.db id)
      → AllValid w
      → AllValid w'
  Deleted-AllValid w w' id (refused x e n) h =
      subst (All IsValid) (sym (delete-err_rows gorm rows database w.db w'.db id x e)) h
  Deleted-AllValid w w' id (published e p) h =
      subst (All IsValid) (sym (delete-rows gorm rows database w.db w'.db id e))
        (IsValid-remove id (rows w.db) h)
  Deleted-AllValid w w' id (unpublished e n) h =
      subst (All IsValid) (sym (delete-rows gorm rows database w.db w'.db id e))
        (IsValid-remove id (rows w.db) h)

  -- If the database does as documented and answers and every row has a priority from 1 to 1000 and
  -- Rego code that is not blank, then so it is after any creation, update or deletion, successful
  -- or not.
  pub Step-AllValid :
      {w w' : World D (Assoc Q)} → Step gorm opa show_priority w w' → AllValid w → AllValid w'
  Step-AllValid {w} {w'} (create {r} policy client_id generated e) h =
      create-AllValid w w' policy client_id generated r e h
  Step-AllValid {w} {w'} (update {r} id patch e) h = update-AllValid w w' id patch r e h
  Step-AllValid {w} {w'} (delete {r} id e) h =
      Deleted-AllValid w w' id
        (delete_policy-Deleted (policy_store gorm) (embedded_engine opa) show_priority
          (embedded_engine-IsAtomic opa) w w' id r e)
        h
