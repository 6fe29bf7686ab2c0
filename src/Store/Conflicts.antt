-- ===== src/Store/Conflicts.antt =====
-- What a write that hits a unique index reports: mapUniqueConstraintError looks the conflict up.
use mathlib.Core.List.{Memᴰ}
use dcm_policy_manager.Prelude.{
  Bool, true, false, not, ◌&&◌, ◌||◌, List, [], ◌∷◌, All, All-map, sym, ◌∙◌, subst, ◌==◌, ◌≡◌, ◌⊎◌,
  inl, inr, refl, arith, ok, err, if◌then◌else◌,
}
use dcm_policy_manager.Policy.{Policy}
use dcm_policy_manager.Store.{
  Gorm, Where, id_is, display_name_is, policy_type_is, priority_is, DbError, record_not_found,
  StoreError, policy_id_taken, display_name_policy_type_taken, priority_policy_type_taken, db,
  is_unique_violation, run_checks, map_unique_constraint_error, checks, others,
}
use dcm_policy_manager.Store.Table.{selected, same_id, same_name, same_priority}
use dcm_policy_manager.Store.Database.{IsDatabase, IsUp}

abbrev pub any : (Policy → Bool) → List Policy → Bool
any test [] = false
any test (p ∷ rows) = test p || any test rows

-- A row that counts against `p`: on an update, only another one.
abbrev pub is_rival : Bool → Policy → Policy → Bool
is_rival true p q = not (q.id == p.id)
is_rival false p q = true

-- The first index that a write of `p` violates, in the order of the checks.
abbrev pub violated : Bool → Policy → List Policy → DbError → StoreError
violated is_update p rows e =
    if any (λ q. same_id p q && is_rival is_update p q) rows
    then policy_id_taken
    else if any (λ q. same_name p q && is_rival is_update p q) rows
    then display_name_policy_type_taken
    else if any (λ q. same_priority p q && is_rival is_update p q) rows
    then priority_policy_type_taken
    else db e

any_at :
    (test : Policy → Bool) (p : Policy) (rows : List Policy)
    → Memᴰ p rows
    → test p ≡ true
    → any test rows ≡ true
any_at test p [] m h = elim m [ ]
any_at test p (q ∷ rows) (Memᴰ.head e) h =
    let first : test q ≡ true = subst (λ r. test r ≡ true) e h in rw first
any_at test p (q ∷ rows) (Memᴰ.tail m) h = ground (arith, any_at test p rows m h)

any_none :
    (test : Policy → Bool) (rows : List Policy)
    → All (λ p. test p ≡ false) rows
    → any test rows ≡ false
any_none test [] h = refl
any_none test (q ∷ rows) (e, h) = rw (e, any_none test rows h)

module _ {D : Type 0} (gorm : Gorm D) (rows : D → List Policy) (database : IsDatabase gorm rows)
    (up : IsUp gorm rows) where
  asked :
      (d : D) (wheres : List Where) (test : Policy → Bool)
      → ((q : Policy) → selected wheres q ≡ test q)
      → ((row : Policy) × (gorm.first d wheres ≡ ok row) × (any test (rows d) ≡ true))
        ⊎ ((gorm.first d wheres ≡ err record_not_found) × (any test (rows d) ≡ false))
  asked d wheres test same = elim (up.answers d wheres) [
    | inl (row, e) ↦
        let (m, s) = database.first_found d wheres row e in
        inl (row, e, any_at test row (rows d) m (sym (same row) ∙ s))
    | inr e ↦ inr (
      e,
      any_none test (rows d) (
          All-map (λ q. selected wheres q ≡ false) (λ q. test q ≡ false) (rows d)
            (λ q s. sym (same q) ∙ s) (database.first_missing d wheres e)),
    )
  ]

  -- One check of the loop, by the table.
  run_checks_step :
      (d : D) (e : DbError) (p : Policy) (is_update : Bool) (sentinel : StoreError)
      (wheres : List Where) (rest : List (StoreError × List Where)) (test : Policy → Bool)
      → ((q : Policy) → selected (others gorm is_update p wheres) q ≡ test q)
      → run_checks gorm d e p is_update ((sentinel, wheres) ∷ rest)
        ≡ (if any test (rows d) then sentinel else run_checks gorm d e p is_update rest)
  unfolding run_checks
  run_checks_step d e p is_update sentinel wheres rest test same =
      elim (asked d (others gorm is_update p wheres) test same) [
        | inl (row, f, found) ↦ rw (f, run_checks) (rw found)
        | inr (f, missing) ↦ rw (f, run_checks) (rw missing)
      ]

  -- All checks: `test` gives for each the rows that it finds.
  run_all :
      (d : D) (e : DbError) (p : Policy) (is_update : Bool)
      → ((q : Policy)
          → selected (others gorm is_update p (id_is p.id ∷ [])) q
            ≡ (same_id p q && is_rival is_update p q))
      → ((q : Policy)
          → selected
              (others gorm is_update p
                (display_name_is p.display_name ∷ policy_type_is p.policy_type ∷ []))
              q
            ≡ (same_name p q && is_rival is_update p q))
      → ((q : Policy)
          → selected
              (others gorm is_update p (priority_is p.priority ∷ policy_type_is p.policy_type ∷ []))
              q
            ≡ (same_priority p q && is_rival is_update p q))
      → run_checks gorm d e p is_update (checks gorm p) ≡ violated is_update p (rows d) e
  unfolding run_checks
  run_all d e p is_update ids names priorities = rw (run_checks_step d e p is_update _ _ _ _ ids) (
      rw (run_checks_step d e p is_update _ _ _ _ names)
        (rw (run_checks_step d e p is_update _ _ _ _ priorities)))

  -- If the database does as documented and answers, a write that hits a unique index reports the
  -- first index, in the order ID, display name and policy type, priority and policy type, on which
  -- a row of the table conflicts with it, where on an update the row itself does not count; and it
  -- passes the database's error on if no row does.
  pub map_unique_constraint_error_lem :
      (d : D) (e : DbError) (p : Policy) (is_update : Bool)
      → is_unique_violation gorm e ≡ true
      → map_unique_constraint_error gorm d e p is_update ≡ violated is_update p (rows d) e
  unfolding map_unique_constraint_error
  map_unique_constraint_error_lem d e p true h =
      rw h (run_all d e p true (λ q. ground arith) (λ q. ground arith) (λ q. ground arith))
  map_unique_constraint_error_lem d e p false h =
      rw h (run_all d e p false (λ q. ground arith) (λ q. ground arith) (λ q. ground arith))
