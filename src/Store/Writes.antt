-- ===== src/Store/Writes.antt =====
-- What the operations of the store make of the rows, whatever they return.
use mathlib.Core.List.{Memᴰ}
use dcm_policy_manager.Prelude.{
  ◌≤◌, ℕ, zero, suc, String, none, some, List, [], ◌∷◌, ◌≡◌, refl, sym, ap, ◌∙◌, arith, eq_iff,
  Result, ok, err,
}
use dcm_policy_manager.Policy.{Policy}
use dcm_policy_manager.Store.{
  Gorm, id_is, DbError, duplicated_key, record_not_found, driver, StoreError, created, deleted,
  updated, found, create, delete, update, get,
}
use dcm_policy_manager.Store.Table.{
  count_id, IsUnique, remove, overwritten, remove_none, overwritten_none,
}
use dcm_policy_manager.Store.Database.{IsDatabase, IsUp, timeless}

module _ {D : Type 0} (gorm : Gorm D) (rows : D → List Policy)
    (database : IsDatabase gorm rows) where
  created_rows :
      (d d' : D) (p row : Policy) (r : D × Result DbError Policy)
      → gorm.create d p ≡ r
      → created gorm p r ≡ (d', ok row)
      → (timeless row ≡ timeless p) × (rows d' ≡ row ∷ rows d)
  unfolding created
  created_rows d d' p row (d₁, ok row₁) g h =
      database.create_written d d' p row (g ∙ ground (arith, h))
  created_rows d d' p row (d₁, err e) g h = cc

  pub create-rows :
      (d d' : D) (p row : Policy)
      → create gorm d p ≡ (d', ok row)
      → (timeless row ≡ timeless p) × (rows d' ≡ row ∷ rows d)
  unfolding create
  create-rows d d' p row h = created_rows d d' p row (gorm.create d p) refl h

  created_err :
      (d d' : D) (p : Policy) (e : StoreError) (r : D × Result DbError Policy)
      → gorm.create d p ≡ r
      → created gorm p r ≡ (d', err e)
      → rows d' ≡ rows d
  unfolding created
  created_err d d' p e (d₁, ok row) g h = cc
  created_err d d' p e (d₁, err x) g h =
      let same : d₁ ≡ d' = cc in ap rows (sym same) ∙ database.create_failed d d₁ p x g

  pub create-err_rows :
      (d d' : D) (p : Policy) (e : StoreError) → create gorm d p ≡ (d', err e) → rows d' ≡ rows d
  unfolding create
  create-err_rows d d' p e h = created_err d d' p e (gorm.create d p) refl h

  deleted_rows :
      (d d' : D) (id : String) (r : D × Result DbError ℕ)
      → gorm.delete d (id_is id ∷ []) ≡ r
      → deleted gorm r ≡ (d', none)
      → rows d' ≡ remove id (rows d)
  unfolding deleted
  deleted_rows d d' id (d₁, err e) g h = cc
  deleted_rows d d' id (d₁, ok zero) g h = cc
  deleted_rows d d' id (d₁, ok (suc n)) g h =
      let same : d₁ ≡ d' = ground (arith, h) in
      ap rows (sym same) ∙ (database.delete_written d d₁ id (suc n) g).0

  pub delete-rows :
      (d d' : D) (id : String) → delete gorm d id ≡ (d', none) → rows d' ≡ remove id (rows d)
  unfolding delete
  delete-rows d d' id h = deleted_rows d d' id (gorm.delete d (id_is id ∷ [])) refl h

  deleted_counted :
      (d d' : D) (id : String) (r : D × Result DbError ℕ)
      → gorm.delete d (id_is id ∷ []) ≡ r
      → deleted gorm r ≡ (d', none)
      → 1 ≤ count_id id (rows d)
  unfolding deleted
  deleted_counted d d' id (d₁, err e) g h = cc
  deleted_counted d d' id (d₁, ok zero) g h = cc
  deleted_counted d d' id (d₁, ok (suc n)) g h =
      let counted = (database.delete_written d d₁ id (suc n) g).1 in omega (arith, counted)

  -- A deletion that succeeds has found a row.
  pub delete-count_id :
      (d d' : D) (id : String) → delete gorm d id ≡ (d', none) → 1 ≤ count_id id (rows d)
  unfolding delete
  delete-count_id d d' id h = deleted_counted d d' id (gorm.delete d (id_is id ∷ [])) refl h

  deleted_err :
      (d d' : D) (id : String) (e : StoreError) (r : D × Result DbError ℕ)
      → gorm.delete d (id_is id ∷ []) ≡ r
      → deleted gorm r ≡ (d', some e)
      → rows d' ≡ rows d
  unfolding deleted
  deleted_err d d' id e (d₁, err x) g h =
      let same : d₁ ≡ d' = cc in
      ap rows (sym same) ∙ database.delete_failed d d₁ (id_is id ∷ []) x g
  deleted_err d d' id e (d₁, ok zero) g h =
      let same : d₁ ≡ d' = ground (arith, h) in
      let (removed, none_there) = database.delete_written d d₁ id zero g in
      ap rows (sym same) ∙ removed ∙ remove_none id (rows d) (sym none_there)
  deleted_err d d' id e (d₁, ok (suc n)) g h = absurd (ground (arith, h))

  pub delete-err_rows :
      (d d' : D) (id : String) (e : StoreError) → delete gorm d id ≡ (d', some e) → rows d' ≡ rows d
  unfolding delete
  delete-err_rows d d' id e h = deleted_err d d' id e (gorm.delete d (id_is id ∷ [])) refl h

  -- A database that answers deletes the row, if there is one.
  deleted_up :
      IsUp gorm rows
      → (d : D) (id : String) (r : D × Result DbError ℕ) → gorm.delete d (id_is id ∷ []) ≡ r
      → rows (deleted gorm r).0 ≡ remove id (rows d)
  unfolding deleted
  deleted_up up d id (d₁, err e) g = absurd (up.deletes d d₁ (id_is id ∷ []) e g)
  deleted_up up d id (d₁, ok n) g =
      let same : (deleted gorm (d₁, ok n)).0 ≡ d₁ = ground arith in
      ap rows same ∙ (database.delete_written d d₁ id n g).0

  pub delete-rows_up :
      IsUp gorm rows → (d : D) (id : String) → rows (delete gorm d id).0 ≡ remove id (rows d)
  unfolding delete
  delete-rows_up up d id = deleted_up up d id (gorm.delete d (id_is id ∷ [])) refl

  updated_rows :
      (d d' : D) (p row : Policy) (r : D × Result DbError (ℕ × Policy))
      → gorm.update d p ≡ r
      → updated gorm p r ≡ (d', ok row)
      → (stamp : ℕ) × (rows d' ≡ overwritten p stamp (rows d))
  unfolding updated
  updated_rows d d' p row (d₁, err e) g h = cc
  updated_rows d d' p row (d₁, ok (zero, row₁)) g h = absurd (ground (arith, h))
  updated_rows d d' p row (d₁, ok (suc n, row₁)) g h =
      let same : d₁ ≡ d' = ground (arith, h) in
      let (stamp, written, _) = database.update_written d d₁ p row₁ (suc n) g in
      (stamp, ap rows (sym same) ∙ written)

  pub update-rows :
      (d d' : D) (p row : Policy)
      → update gorm d p ≡ (d', ok row)
      → (stamp : ℕ) × (rows d' ≡ overwritten p stamp (rows d))
  unfolding update
  update-rows d d' p row h = updated_rows d d' p row (gorm.update d p) refl h

  updated_err :
      (d d' : D) (p : Policy) (e : StoreError) (r : D × Result DbError (ℕ × Policy))
      → gorm.update d p ≡ r
      → updated gorm p r ≡ (d', err e)
      → rows d' ≡ rows d
  unfolding updated
  updated_err d d' p e (d₁, err x) g h =
      let same : d₁ ≡ d' = cc in ap rows (sym same) ∙ database.update_failed d d₁ p x g
  updated_err d d' p e (d₁, ok (zero, row)) g h =
      let same : d₁ ≡ d' = ground (arith, h) in
      let (stamp, written, none_there) = database.update_written d d₁ p row zero g in
      ap rows (sym same) ∙ written ∙ overwritten_none p stamp (rows d) (sym none_there)
  updated_err d d' p e (d₁, ok (suc n, row)) g h = absurd (ground (arith, h))

  pub update-err_rows :
      (d d' : D) (p : Policy) (e : StoreError) → update gorm d p ≡ (d', err e) → rows d' ≡ rows d
  unfolding update
  update-err_rows d d' p e h = updated_err d d' p e (gorm.update d p) refl h

  -- A database that answers writes the row, if the table stays unique.
  updated_up :
      IsUp gorm rows
      → (d : D) (p : Policy) (r : D × Result DbError (ℕ × Policy))
      → ((stamp : ℕ) → IsUnique (overwritten p stamp (rows d)))
      → gorm.update d p ≡ r
      → (stamp : ℕ) × (rows (updated gorm p r).0 ≡ overwritten p stamp (rows d))
  unfolding updated
  updated_up up d p (d₁, err e) u g = absurd (up.updates d d₁ p e u g)
  updated_up up d p (d₁, ok (n, row)) u g =
      let same : (updated gorm p (d₁, ok (n, row))).0 ≡ d₁ = ground arith in
      let (stamp, written, _) = database.update_written d d₁ p row n g in
      (stamp, ap rows same ∙ written)

  pub update-rows_up :
      IsUp gorm rows
      → (d : D) (p : Policy) → ((stamp : ℕ) → IsUnique (overwritten p stamp (rows d)))
      → (stamp : ℕ) × (rows (update gorm d p).0 ≡ overwritten p stamp (rows d))
  unfolding update
  update-rows_up up d p u = updated_up up d p (gorm.update d p) u refl

  found_row :
      (d : D) (id : String) (p : Policy) (r : Result DbError Policy)
      → gorm.first d (id_is id ∷ []) ≡ r
      → found gorm r ≡ ok p
      → Memᴰ p (rows d) × (p.id ≡ id)
  unfolding found
  found_row d id p (ok row) g h =
      let (m, s) = database.first_found d (id_is id ∷ []) p (g ∙ cc) in
      (m, (eq_iff p.id id).0 (ground (arith, s)))
  found_row d id p (err record_not_found) g h = cc
  found_row d id p (err duplicated_key) g h = cc
  found_row d id p (err (driver text)) g h = cc

  pub get-row :
      (d : D) (id : String) (p : Policy) → get gorm d id ≡ ok p → Memᴰ p (rows d) × (p.id ≡ id)
  unfolding get
  get-row d id p h = found_row d id p (gorm.first d (id_is id ∷ [])) refl h
