-- ===== src/Tests/Tables.antt =====
-- A database of one row at most, which keeps what the program relies on, and the store over it.
use mathlib.Core.List.{Memᴰ}
use dcm_policy_manager.Prelude.{
  ◌-◌, take, drop, ℕ, String, true, false, Option, none, some, List, [], ◌∷◌, All, ◌≡◌, ◌⊎◌, inl,
  inr, refl, sym, ap, subst, arith, Result, ok, err, if◌then◌else◌, Bool-cases, ◌∙◌,
}
use dcm_policy_manager.Prelude.Int.{pos, pos_part}
use dcm_policy_manager.Policy.{Policy}
use dcm_policy_manager.Store.{
  Gorm, Where, id_is, DbError, record_not_found, duplicated_key, map_unique_constraint_error,
  display_name_policy_type_taken, is_unique_violation,
}
use dcm_policy_manager.Store.Table.{IsUnique, selected, remove, count_id, overwrite, overwritten}
use dcm_policy_manager.Store.Database.{IsDatabase, IsUp, timeless}
use dcm_policy_manager.Store.Conflicts.{map_unique_constraint_error_lem}
use dcm_policy_manager.Service.Rollback.{IsUndoable}
use dcm_policy_manager.System.{policy_store}
use dcm_policy_manager.System.Undoing.{Same, policy_store-IsUndoable}
use dcm_policy_manager.Tests.Paging.{unary, count, windows-IsTokenCodec}
use dcm_policy_manager.Store.Paging.{IsTokenCodec}
use dcm_policy_manager.Tests.Serving.{sample}

abbrev pub rows_of : Option Policy → List Policy
rows_of none = []
rows_of (some q) = q ∷ []

abbrev found_rows : Option Policy → List Where → List Policy
found_rows none wheres = []
found_rows (some q) wheres = if selected wheres q then q ∷ [] else []

abbrev first_row : Option Policy → List Where → Result DbError Policy
first_row none wheres = err record_not_found
first_row (some q) wheres = if selected wheres q then ok q else err record_not_found

-- a second row is refused
abbrev create_row : Option Policy → Policy → Option Policy × Result DbError Policy
create_row none p = (some p, ok p)
create_row (some q) p = (some q, err duplicated_key)

abbrev delete_row : Option Policy → List Where → Option Policy × Result DbError ℕ
delete_row none wheres = (none, ok 0)
delete_row (some q) wheres = if selected wheres q then (none, ok 1) else (some q, ok 0)

abbrev update_row : Option Policy → Policy → Option Policy × Result DbError (ℕ × Policy)
update_row none p = (none, ok (0, p))
update_row (some q) p = (some (overwrite p 7 q), ok (count_id p.id (q ∷ []), p))

abbrev pub one_row_db : Gorm (Option Policy)
one_row_db = record {
  find = λ d q. ok (take (pos_part q.limit) (drop (pos_part q.offset) (found_rows d q.wheres)));
  find_all = λ d order. ok (rows_of d);
  first = first_row;
  create = create_row;
  delete = delete_row;
  update = update_row;
  names_unique = λ text. false;
  encode_offset = λ offset. unary (pos_part offset);
  decode_offset = λ token. some (pos (count token - 1));
}

one-IsUnique : (d : Option Policy) → IsUnique (rows_of d)
one-IsUnique none = tt
one-IsUnique (some q) = (tt, tt)

all_found :
    (d : Option Policy) (order : String) (ps : List Policy)
    → one_row_db.find_all d order ≡ ok ps
    → (p : Policy) → (Memᴰ p ps → Memᴰ p (rows_of d)) × (Memᴰ p (rows_of d) → Memᴰ p ps)
all_found d order ps e p =
    let same : rows_of d ≡ ps = cc in (subst (Memᴰ p) (sym same), subst (Memᴰ p) same)

found :
    (d : Option Policy) (wheres : List Where) (p : Policy)
    → first_row d wheres ≡ ok p
    → Memᴰ p (rows_of d) × (selected wheres p ≡ true)
found none wheres p e = cc
found (some q) wheres p e = elim (Bool-cases (selected wheres q)) [
  | inl s ↦
      let same : q ≡ p = ground (arith, s, e) in
      (Memᴰ.head (sym same), subst (λ r. selected wheres r ≡ true) same s)
  | inr s ↦ absurd (ground (arith, s, e))
]

missing :
    (d : Option Policy) (wheres : List Where)
    → first_row d wheres ≡ err record_not_found
    → All (λ p. selected wheres p ≡ false) (rows_of d)
missing none wheres e = tt
missing (some q) wheres e = elim (Bool-cases (selected wheres q)) [
  | inl s ↦ absurd (ground (arith, s, e))
  | inr s ↦ (s, tt)
]

created :
    (d d' : Option Policy) (p row : Policy)
    → create_row d p ≡ (d', ok row)
    → (timeless row ≡ timeless p) × (rows_of d' ≡ row ∷ rows_of d)
created none d' p row e =
    let same : row ≡ p = cc in
    (ap timeless same, ap rows_of (sym (ap (λ u. u.0) e)) ∙ ap (λ r. r ∷ []) (sym same))
created (some q) d' p row e = cc

not_created :
    (d d' : Option Policy) (p : Policy) (e : DbError)
    → create_row d p ≡ (d', err e)
    → rows_of d' ≡ rows_of d
not_created none d' p e h = cc
not_created (some q) d' p e h = ap rows_of (sym (ap (λ u. u.0) h))

deleted :
    (d d' : Option Policy) (id : String) (n : ℕ)
    → delete_row d (id_is id ∷ []) ≡ (d', ok n)
    → (rows_of d' ≡ remove id (rows_of d)) × (n ≡ count_id id (rows_of d))
unfolding remove
deleted none d' id n e = (ap (λ u. rows_of u.0) (sym e), cc)
deleted (some q) d' id n e = (ground (arith, e), ground (arith, e))

deleting_answers :
    (d d' : Option Policy) (wheres : List Where) (e : DbError)
    → delete_row d wheres ≡ (d', err e)
    → ⊥
deleting_answers none d' wheres e h = cc
deleting_answers (some q) d' wheres e h = ground (arith, h)

updated :
    (d d' : Option Policy) (p row : Policy) (n : ℕ)
    → update_row d p ≡ (d', ok (n, row))
    → (stamp : ℕ) × (rows_of d' ≡ overwritten p stamp (rows_of d)) × (n ≡ count_id p.id (rows_of d))
unfolding overwritten
updated none d' p row n e = (0, ap (λ u. rows_of u.0) (sym e), cc)
updated (some q) d' p row n e = (7, ap (λ u. rows_of u.0) (sym e), cc)

updating_answers :
    (d d' : Option Policy) (p : Policy) (e : DbError) → update_row d p ≡ (d', err e) → ⊥
updating_answers none d' p e h = cc
updating_answers (some q) d' p e h = cc

pub one_row_db-IsDatabase : IsDatabase one_row_db rows_of
one_row_db-IsDatabase = record {
  unique = one-IsUnique;
  find_all_sound = all_found;
  first_found = found;
  first_missing = missing;
  create_written = created;
  create_failed = not_created;
  delete_written = deleted;
  delete_failed = λ d d' wheres e h. absurd (deleting_answers d d' wheres e h);
  update_written = updated;
  update_failed = λ d d' p e h. absurd (updating_answers d d' p e h);
}

first_answers :
    (d : Option Policy) (wheres : List Where)
    → ((p : Policy) × (first_row d wheres ≡ ok p)) ⊎ (first_row d wheres ≡ err record_not_found)
first_answers none wheres = inr refl
first_answers (some q) wheres = elim (Bool-cases (selected wheres q)) [
  | inl s ↦ inl (q, rw s)
  | inr s ↦ inr (rw s)
]

pub one_row_db-IsUp : IsUp one_row_db rows_of
one_row_db-IsUp = record {
  answers = first_answers;
  deletes = deleting_answers;
  updates = λ d d' p e u h. updating_answers d d' p e h;
}

-- A policy with another ID and the name of the row.
abbrev namesake : Policy
namesake = record sample { id = "p2"; priority = pos 6 }

map_unique_constraint_error_lem_example :
    map_unique_constraint_error one_row_db (some sample) duplicated_key namesake false
    ≡ display_name_policy_type_taken
unfolding is_unique_violation
map_unique_constraint_error_lem_example =
    map_unique_constraint_error_lem one_row_db rows_of one_row_db-IsDatabase one_row_db-IsUp
      (some sample) duplicated_key namesake false refl

policy_store-IsUndoable_example :
    IsUndoable (policy_store one_row_db) (Same one_row_db rows_of one_row_db-IsDatabase)
policy_store-IsUndoable_example =
    policy_store-IsUndoable one_row_db rows_of one_row_db-IsDatabase one_row_db-IsUp

pub one_row_db-IsTokenCodec : IsTokenCodec one_row_db
one_row_db-IsTokenCodec = record {
  decodes = windows-IsTokenCodec.decodes;
  not_empty = windows-IsTokenCodec.not_empty;
}
