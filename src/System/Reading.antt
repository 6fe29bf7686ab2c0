-- ===== src/System/Reading.antt =====
-- What GetPolicy (internal/service/policy.go, internal/store/policy.go) answers after a creation
-- or a deletion.
use mathlib.Core.List.{Memᴰ}
use dcm_policy_manager.Prelude.{
  ℕ, String, true, Option, none, List, [], ◌∷◌, All_at, ◌≡◌, refl, sym, ap, subst, ◌∙◌, arith,
  eq_iff, eq_refl, eq-cases, ok, err, Assoc, inl, inr,
}
use dcm_policy_manager.Prelude.Int.{ℤ}
use dcm_policy_manager.Policy.{Policy}
use dcm_policy_manager.Errors.{new_policy_not_found_error}
use dcm_policy_manager.Convert.{ApiPolicy, api_to_db_model, db_to_api_model}
use dcm_policy_manager.Checks.{merge_policy_onto_policy}
use dcm_policy_manager.Store.{Gorm, id_is, policy_not_found, get}
use dcm_policy_manager.Store.Table.{only_row, remove, written_over, overwrite, overwritten}
use dcm_policy_manager.Store.Database.{IsDatabase, IsUp}
use dcm_policy_manager.Store.Writes.{create-rows, get-row}
use dcm_policy_manager.Service.{
  World, create_checks, create_policy, get_policy, update_policy, delete_policy,
}
use dcm_policy_manager.Service.Publishing.{create_policy-Written}
use dcm_policy_manager.Opa.{Library, embedded_engine}
use dcm_policy_manager.System.{policy_store, update, delete}
use dcm_policy_manager.System.Changes.{
  Change, patched, removed, update_request, delete_request, Step-Change,
}

model_id : (policy : ApiPolicy) (id : String) → (api_to_db_model policy id).id ≡ id
unfolding api_to_db_model
model_id policy id = refl

remove-absent :
    (id : String) (rows : List Policy) (p : Policy) → Memᴰ p (remove id rows) → p.id ≡ id → ⊥
unfolding remove
remove-absent id [] p m e = elim m [ ]
remove-absent id (q ∷ rows) p m e = elim (eq-cases q.id id) [
  | inl same ↦
      let dropped : remove id (q ∷ rows) ≡ remove id rows = rw ((eq_iff q.id id).1 same) in
      remove-absent id rows p (subst (Memᴰ p) dropped m) e
  | inr other ↦
      let kept : remove id (q ∷ rows) ≡ q ∷ remove id rows = rw other in
      elim (subst (Memᴰ p) kept m) [
        | Memᴰ.head h ↦ absurd (cc (other, (eq_iff q.id id).1 (sym (ap (λ r. r.id) h) ∙ e)))
        | Memᴰ.tail n ↦ remove-absent id rows p n e
      ]
]

overwritten-member :
    (p : Policy) (stamp : ℕ) (previous : Policy) (rows : List Policy)
    → previous.id ≡ p.id
    → Memᴰ previous rows
    → Memᴰ (written_over p stamp previous) (overwritten p stamp rows)
unfolding overwritten
overwritten-member p stamp previous [] e m = elim m [ ]
overwritten-member p stamp previous (row ∷ rows) e (Memᴰ.head h) = Memᴰ.head (
    subst (λ r. written_over p stamp previous ≡ overwrite p stamp r) h
      (rw ((eq_iff previous.id p.id).1 e)))
overwritten-member p stamp previous (row ∷ rows) e (Memᴰ.tail m) =
    Memᴰ.tail (overwritten-member p stamp previous rows e m)

module _ {D : Type 0} (gorm : Gorm D) (rows : D → List Policy) (database : IsDatabase gorm rows)
    (up : IsUp gorm rows) where
  get-member : (d : D) (p : Policy) → Memᴰ p (rows d) → get gorm d p.id ≡ ok p
  unfolding get
  get-member d p m = elim (up.answers d (id_is p.id ∷ [])) [
    | inl (q, g) ↦
        let (n, i) = get-row gorm rows database d p.id q (rw g) in
        let same : q ≡ p =
          All_at (λ r. r.id ≡ p.id → r ≡ p) q (rows d) (only_row p (rows d) (database.unique d) m) n
            i in
        rw g (ap ok same)
    | inr g ↦
        let away = All_at _ p (rows d) (database.first_missing d (id_is p.id ∷ []) g) m in
        absurd (ground (arith, away, eq_refl p.id))
  ]

  get-gone :
      (d : D) (id : String)
      → ((p : Policy) → Memᴰ p (rows d) → p.id ≡ id → ⊥)
      → get gorm d id ≡ err policy_not_found
  unfolding get
  get-gone d id gone = elim (up.answers d (id_is id ∷ [])) [
    | inl (q, g) ↦ let (n, i) = get-row gorm rows database d id q (rw g) in absurd (gone q n i)
    | inr g ↦ rw g
  ]

  module _ {K Q : Type 0} (opa : Library K Q) (show_priority : ℤ → String) where
    get_policy-member :
        (w : World D (Assoc Q)) (id : String) (p : Policy)
        → Memᴰ p (rows w.db)
        → p.id ≡ id
        → get_policy (policy_store gorm) (embedded_engine opa) show_priority w id
          ≡ ok (db_to_api_model p)
    unfolding get_policy
    get_policy-member w id p m e =
        rw (get_policy, subst (λ i. get gorm w.db i ≡ ok p) e (get-member w.db p m))

    get_policy-gone :
        (w : World D (Assoc Q)) (id : String)
        → ((p : Policy) → Memᴰ p (rows w.db) → p.id ≡ id → ⊥)
        → get_policy (policy_store gorm) (embedded_engine opa) show_priority w id
          ≡ err (new_policy_not_found_error id)
    unfolding get_policy
    get_policy-gone w id gone = rw (get_policy, get-gone w.db id gone)

    -- If the database does as documented and answers, a creation that succeeds has chosen an ID
    -- under which GetPolicy then returns what the creation returned.
    pub create_policy-get_policy :
        (w w' : World D (Assoc Q)) (policy api : ApiPolicy) (client_id : Option String)
        (generated : String)
        → create_policy
            (policy_store gorm)
            (embedded_engine opa)
            show_priority
            w
            policy
            client_id
            generated
          ≡ (w', ok api)
        → (id : String) × (create_checks
              (policy_store gorm)
              (embedded_engine opa)
              show_priority
              policy
              client_id
              generated
            ≡ ok id)
          × (get_policy (policy_store gorm) (embedded_engine opa) show_priority w' id ≡ ok api)
    create_policy-get_policy w w' policy api client_id generated h =
        let (id, checked, done) =
          create_policy-Written (policy_store gorm) (embedded_engine opa) show_priority w w' policy
            api client_id generated h in
        let (same, written) =
          create-rows gorm rows database w.db w'.db (api_to_db_model policy id) done.row
            done.stored in
        let there : Memᴰ done.row (rows w'.db) =
          subst (Memᴰ done.row) (sym written) (Memᴰ.head refl) in
        let named : done.row.id ≡ id = ap (λ p. p.id) same ∙ model_id policy id in
        (id, checked, get_policy-member w' id done.row there named ∙ ap ok (sym done.returned))

    removed_rows :
        (before after : List Policy) (id : String)
        → Change before (delete_request id) true after
        → after ≡ remove id before
    removed_rows before after id (removed _ counted written) = written

    -- If the database does as documented and answers, GetPolicy says that there is no policy of an
    -- ID after a deletion of the ID that succeeds.
    pub delete_policy-get_policy :
        (w w' : World D (Assoc Q)) (id : String)
        → delete_policy (policy_store gorm) (embedded_engine opa) show_priority w id ≡ (w', none)
        → get_policy (policy_store gorm) (embedded_engine opa) show_priority w' id
          ≡ err (new_policy_not_found_error id)
    delete_policy-get_policy w w' id h =
        let written =
          removed_rows (rows w.db) (rows w'.db) id
            (Step-Change gorm rows database up opa show_priority (delete id h)) in
        get_policy-gone w' id (λ p m. remove-absent id (rows w.db) p (subst (Memᴰ p) written m))

    patched_member :
        (before after : List Policy) (id : String) (patch : Option ApiPolicy)
        → Change before (update_request id patch) true after
        → (previous : Policy) × (stamp : ℕ) × Memᴰ previous before
          × (previous.id ≡ id)
          × Memᴰ
              (written_over
                (api_to_db_model (merge_policy_onto_policy patch (db_to_api_model previous)) id)
                stamp
                previous)
              after
    patched_member before after id _ (patched _ patch previous row stamp m i e t written) =
        let merged : Policy =
          api_to_db_model (merge_policy_onto_policy patch (db_to_api_model previous)) id in
        let same : previous.id ≡ merged.id =
          i ∙ sym (model_id (merge_policy_onto_policy patch (db_to_api_model previous)) id) in
        (
          previous,
          stamp,
          m,
          i,
          subst (Memᴰ (written_over merged stamp previous))
              (sym (written ∙ ap (λ r. overwritten r stamp before) e))
              (overwritten-member merged stamp previous before same m),
        )

    -- If the database does as documented and answers, after an update that succeeds GetPolicy
    -- returns the policy of the ID as it was before, with the patch merged onto it and an update
    -- time.
    pub update_policy-get_policy :
        (w w' : World D (Assoc Q)) (id : String) (patch : Option ApiPolicy) (api : ApiPolicy)
        → update_policy (policy_store gorm) (embedded_engine opa) show_priority w id patch
          ≡ (w', ok api)
        → (previous : Policy) × (stamp : ℕ) × (get_policy
              (policy_store gorm)
              (embedded_engine opa)
              show_priority
              w
              id
            ≡ ok (db_to_api_model previous))
          × (get_policy (policy_store gorm) (embedded_engine opa) show_priority w' id
              ≡ ok (
                  db_to_api_model (
                    written_over
                      (api_to_db_model
                        (merge_policy_onto_policy patch (db_to_api_model previous))
                        id)
                      stamp
                      previous)))
    update_policy-get_policy w w' id patch api h =
        let (previous, stamp, m, i, n) =
          patched_member (rows w.db) (rows w'.db) id patch
            (Step-Change gorm rows database up opa show_priority (update id patch h)) in
        (previous, stamp, get_policy-member w id previous m i, get_policy-member w' id _ n i)
