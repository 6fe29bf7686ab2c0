-- ===== src/Store/Database.antt =====
-- What the program relies on of gorm and the database behind it: the rows of the table of policies
-- as a view of the database's state, and what each call makes of them, errors included.
use mathlib.Core.List.{Memᴰ}
use dcm_policy_manager.Prelude.{ℕ, String, true, false, List, [], ◌∷◌, All, ◌≡◌, ◌⊎◌, ok, err}
use dcm_policy_manager.Policy.{Policy}
use dcm_policy_manager.Store.{Gorm, Where, id_is, DbError, record_not_found}
use dcm_policy_manager.Store.Table.{IsUnique, selected, remove, count_id, overwritten}

-- The row that a creation writes is the given one, but for the times.
abbrev pub timeless : Policy → Policy
timeless p = record p { create_time = 0; update_time = 0 }

pub record IsDatabase {D : Type 0} (gorm : Gorm D) (rows : D → List Policy) : Type 0 where
  -- the unique indexes
  pub unique : (d : D) → IsUnique (rows d)
  -- Find, in some order
  pub find_all_sound :
      (d : D) (order : String) (ps : List Policy)
      → gorm.find_all d order ≡ ok ps
      → (p : Policy) → (Memᴰ p ps → Memᴰ p (rows d)) × (Memᴰ p (rows d) → Memᴰ p ps)
  -- First
  pub first_found :
      (d : D) (wheres : List Where) (p : Policy)
      → gorm.first d wheres ≡ ok p
      → Memᴰ p (rows d) × (selected wheres p ≡ true)
  pub first_missing :
      (d : D) (wheres : List Where)
      → gorm.first d wheres ≡ err record_not_found
      → All (λ p. selected wheres p ≡ false) (rows d)
  -- Create
  pub create_written :
      (d d' : D) (p row : Policy)
      → gorm.create d p ≡ (d', ok row)
      → (timeless row ≡ timeless p) × (rows d' ≡ row ∷ rows d)
  pub create_failed :
      (d d' : D) (p : Policy) (e : DbError) → gorm.create d p ≡ (d', err e) → rows d' ≡ rows d
  -- Delete
  pub delete_written :
      (d d' : D) (id : String) (n : ℕ)
      → gorm.delete d (id_is id ∷ []) ≡ (d', ok n)
      → (rows d' ≡ remove id (rows d)) × (n ≡ count_id id (rows d))
  pub delete_failed :
      (d d' : D) (wheres : List Where) (e : DbError)
      → gorm.delete d wheres ≡ (d', err e)
      → rows d' ≡ rows d
  -- Updates, which stamps the update time
  pub update_written :
      (d d' : D) (p row : Policy) (n : ℕ)
      → gorm.update d p ≡ (d', ok (n, row))
      → (stamp : ℕ) × (rows d' ≡ overwritten p stamp (rows d)) × (n ≡ count_id p.id (rows d))
  pub update_failed :
      (d d' : D) (p : Policy) (e : DbError) → gorm.update d p ≡ (d', err e) → rows d' ≡ rows d

-- The database answers: a write fails on a unique index only, and a query that finds nothing says
-- so.
pub record IsUp {D : Type 0} (gorm : Gorm D) (rows : D → List Policy) : Type 0 where
  pub answers :
      (d : D) (wheres : List Where)
      → ((p : Policy) × (gorm.first d wheres ≡ ok p)) ⊎ (gorm.first d wheres ≡ err record_not_found)
  pub deletes :
      (d d' : D) (wheres : List Where) (e : DbError) → gorm.delete d wheres ≡ (d', err e) → ⊥
  pub updates :
      (d d' : D) (p : Policy) (e : DbError)
      → ((stamp : ℕ) → IsUnique (overwritten p stamp (rows d)))
      → gorm.update d p ≡ (d', err e)
      → ⊥
