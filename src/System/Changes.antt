-- ===== src/System/Changes.antt =====
-- What a request makes of the table of policies, by its answer: the service, its rollbacks and the
-- store are seen as one step on the rows.
use mathlib.Core.List.{Memᴰ}
use dcm_policy_manager.Prelude.{
  ◌≤◌, is_none, ℕ, String, Bool, true, false, Option, none, some, List, ◌∷◌, ◌≡◌, refl, sym, ap,
  subst, Result, ok, err, Assoc, inl, inr, Bool-cases, map,
}
use dcm_policy_manager.Prelude.Int.{ℤ}
use dcm_policy_manager.Policy.{Policy}
use dcm_policy_manager.Errors.{ServiceError}
use dcm_policy_manager.Convert.{ApiPolicy, api_to_db_model, db_to_api_model}
use dcm_policy_manager.Checks.{merge_policy_onto_policy}
use dcm_policy_manager.Store.{Gorm}
use dcm_policy_manager.Store.Table.{count_id, remove, overwritten, SameRows, untimed}
use dcm_policy_manager.Store.Database.{IsDatabase, IsUp, timeless}
use dcm_policy_manager.Store.Writes.{
  create-rows, delete-rows, delete-count_id, delete-err_rows, update-rows, get-row,
}
use dcm_policy_manager.Service.{World, update_checks, create_policy, update_policy, rego_changed}
use dcm_policy_manager.Service.Rollback.{update_checks-get}
use dcm_policy_manager.Service.Publishing.{create_policy-Written, update_policy-Written}
use dcm_policy_manager.Service.Remaining.{
  update_policy-Kept, Deleted, refused, published, unpublished, delete_policy-Deleted,
  delete_policy-is_none,
}
use dcm_policy_manager.Opa.{Library, embedded_engine}
use dcm_policy_manager.Opa.Compiling.{embedded_engine-IsAtomic}
use dcm_policy_manager.System.{policy_store, Step, create, update, delete}
use dcm_policy_manager.System.Undoing.{create-Undone, update-Undone}

pub data Request : Type 0 where
  create_request : ApiPolicy → Request
  update_request : String → Option ApiPolicy → Request
  delete_request : String → Request

-- What a request makes of the table, by whether it succeeds.
pub data Change (rows : List Policy) : Request → Bool → List Policy → Type 0 where
  -- nothing but update times
  kept :
      {rows' : List Policy} {request : Request}
      → SameRows rows' rows
      → Change rows request false rows'
  -- the policy is new, but for the times that the database gives it
  added :
      {rows' : List Policy} (policy : ApiPolicy) (id : String) (row : Policy)
      → timeless row ≡ timeless (api_to_db_model policy id)
      → rows' ≡ row ∷ rows
      → Change rows (create_request policy) true rows'
  -- the row of the ID is the patched one; its type stays
  patched :
      {rows' : List Policy} (id : String) (patch : Option ApiPolicy) (previous row : Policy)
      (stamp : ℕ)
      → Memᴰ previous rows
      → previous.id ≡ id
      → row ≡ api_to_db_model (merge_policy_onto_policy patch (db_to_api_model previous)) id
      → row.policy_type ≡ previous.policy_type
      → rows' ≡ overwritten row stamp rows
      → Change rows (update_request id patch) true rows'
  -- there was a row of the ID
  removed :
      {rows' : List Policy} (id : String)
      → 1 ≤ count_id id rows
      → rows' ≡ remove id rows
      → Change rows (delete_request id) true rows'

abbrev pub is_ok {ℓ} : {A : Type ℓ} → Result ServiceError A → Bool
is_ok (ok a) = true
is_ok (err e) = false

kept_type :
    (patch : Option ApiPolicy) (previous : Policy) (id : String)
    → (api_to_db_model (merge_policy_onto_policy patch (db_to_api_model previous)) id).policy_type
      ≡ previous.policy_type
unfolding api_to_db_model merge_policy_onto_policy db_to_api_model
kept_type none previous id = refl
kept_type (some patch) previous id = refl

module _ {D K Q : Type 0} (gorm : Gorm D) (rows : D → List Policy) (database : IsDatabase gorm rows)
    (up : IsUp gorm rows) (opa : Library K Q) (show_priority : ℤ → String) where
  -- whether the request is answered without an error
  abbrev pub succeeds : {w w' : World D (Assoc Q)} → Step gorm opa show_priority w w' → Bool
  succeeds (create {r} policy client_id generated e) = is_ok r
  succeeds (update {r} id patch e) = is_ok r
  succeeds (delete {r} id e) = is_none r

  abbrev pub request_of : {w w' : World D (Assoc Q)} → Step gorm opa show_priority w w' → Request
  request_of (create policy client_id generated e) = create_request policy
  request_of (update id patch e) = update_request id patch
  request_of (delete id e) = delete_request id

  create-Change :
      (w w' : World D (Assoc Q)) (policy : ApiPolicy) (client_id : Option String)
      (generated : String) (r : Result ServiceError ApiPolicy)
      → create_policy
          (policy_store gorm)
          (embedded_engine opa)
          show_priority
          w
          policy
          client_id
          generated
        ≡ (w', r)
      → Change (rows w.db) (create_request policy) (is_ok r) (rows w'.db)
  create-Change w w' policy client_id generated (ok api) e =
      let (id, _, done) =
        create_policy-Written (policy_store gorm) (embedded_engine opa) show_priority w w' policy
          api client_id generated e in
      let (same, written) =
        create-rows gorm rows database w.db w'.db (api_to_db_model policy id) done.row
          done.stored in
      added policy id done.row same written
  create-Change w w' policy client_id generated (err x) e =
      let (same, _) =
        create-Undone gorm rows database up opa show_priority w w' policy client_id generated x e in
      kept same

  patched-Change :
      (w w' : World D (Assoc Q)) (id : String) (patch : Option ApiPolicy) (previous row : Policy)
      → update_checks (policy_store gorm) (embedded_engine opa) show_priority w id patch
        ≡ ok previous
      → (policy_store gorm).update w.db
          (api_to_db_model (merge_policy_onto_policy patch (db_to_api_model previous)) id)
        ≡ (w'.db, ok row)
      → Change (rows w.db) (update_request id patch) true (rows w'.db)
  patched-Change w w' id patch previous row checked stored =
      let p : Policy =
        api_to_db_model (merge_policy_onto_policy patch (db_to_api_model previous)) id in
      let (m, i) = get-row gorm rows database w.db id previous (
        update_checks-get (policy_store gorm) (embedded_engine opa) show_priority w id patch
          previous checked) in
      let (stamp, written) = update-rows gorm rows database w.db w'.db p row stored in
      patched id patch previous p stamp m i refl (kept_type patch previous id) written

  update-Change :
      (w w' : World D (Assoc Q)) (id : String) (patch : Option ApiPolicy)
      (r : Result ServiceError ApiPolicy)
      → update_policy (policy_store gorm) (embedded_engine opa) show_priority w id patch ≡ (w', r)
      → Change (rows w.db) (update_request id patch) (is_ok r) (rows w'.db)
  update-Change w w' id patch (ok api) e =
      elim (Bool-cases
        (rego_changed (policy_store gorm) (embedded_engine opa) show_priority patch)) [
          | inl changed ↦
              let (previous, checked, done) =
                update_policy-Written (policy_store gorm) (embedded_engine opa) show_priority w w'
                  id patch api changed e in
              patched-Change w w' id patch previous done.row checked done.stored
          | inr same ↦
              let (previous, checked, done) =
                update_policy-Kept (policy_store gorm) (embedded_engine opa) show_priority w w' id
                  patch api same e in
              patched-Change w w' id patch previous done.row checked done.stored
        ]
  update-Change w w' id patch (err x) e =
      let (same, _) = update-Undone gorm rows database up opa show_priority w w' id patch x e in
      kept same

  delete-Change :
      (w w' : World D (Assoc Q)) (id : String)
      → Deleted
          (policy_store gorm)
          (embedded_engine opa)
          show_priority
          w
          w'
          ((policy_store gorm).delete w.db id)
      → Change
          (rows w.db)
          (delete_request id)
          (is_none ((policy_store gorm).delete w.db id).1)
          (rows w'.db)
  delete-Change w w' id (refused x e n) =
      subst (λ b. Change (rows w.db) (delete_request id) b (rows w'.db))
        (sym (ap (λ u. is_none u.1) e))
        (kept (ap (map untimed) (delete-err_rows gorm rows database w.db w'.db id x e)))
  delete-Change w w' id (published e p) =
      subst (λ b. Change (rows w.db) (delete_request id) b (rows w'.db))
        (sym (ap (λ u. is_none u.1) e))
        (removed id (delete-count_id gorm rows database w.db w'.db id e)
          (delete-rows gorm rows database w.db w'.db id e))
  delete-Change w w' id (unpublished e n) =
      subst (λ b. Change (rows w.db) (delete_request id) b (rows w'.db))
        (sym (ap (λ u. is_none u.1) e))
        (removed id (delete-count_id gorm rows database w.db w'.db id e)
          (delete-rows gorm rows database w.db w'.db id e))

  -- If the database does as documented and answers, each request does to the table what its answer
  -- says: a request that fails changes update times at most, also where it was written and rolled
  -- back; a creation that succeeds adds the policy's row, an update writes the patched row over the
  -- one of its ID, with the same type, and a deletion removes the row of the ID, if there was one:
  -- else it fails.
  pub Step-Change :
      {w w' : World D (Assoc Q)}
      → (s : Step gorm opa show_priority w w')
      → Change (rows w.db) (request_of s) (succeeds s) (rows w'.db)
  Step-Change {w} {w'} (create {r} policy client_id generated e) =
      create-Change w w' policy client_id generated r e
  Step-Change {w} {w'} (update {r} id patch e) = update-Change w w' id patch r e
  Step-Change {w} {w'} (delete {r} id e) =
      subst (λ b. Change (rows w.db) (delete_request id) b (rows w'.db))
        (sym (
          delete_policy-is_none (policy_store gorm) (embedded_engine opa) show_priority w w' id r
            e))
        (delete-Change w w' id (
          delete_policy-Deleted (policy_store gorm) (embedded_engine opa) show_priority
            (embedded_engine-IsAtomic opa) w w' id r e))
