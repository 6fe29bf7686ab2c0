-- ===== src/Store/Table.antt =====
-- The table of policies that the database keeps: its unique indexes
-- (internal/store/model/policy.go) and what a deletion and an update by ID make of its rows. It is
-- the view of the database in which the store's promises are stated.
use mathlib.Core.List.{Memᴰ}
use dcm_policy_manager.Prelude.{
  ℕ, ◌+◌, String, Bool, true, false, not, ◌&&◌, List, [], ◌∷◌, map, all, All, All-map, All_at, ◌==◌,
  ◌≡◌, refl, sym, ap, ◌∙◌, arith, eq_iff, eq_refl, eq-cases, if◌then◌else◌, inl, inr, subst,
}
use dcm_policy_manager.Prelude.Int.{eq_ℤ}
use dcm_policy_manager.Policy.{Policy}
use dcm_policy_manager.Store.{
  Where, id_is, id_is_not, display_name_is, policy_type_is, priority_is, enabled_is,
}

-- the three unique indexes: idx primary key, idx_display_name_policy_type, idx_priority_policy_type
abbrev pub same_id : Policy → Policy → Bool
same_id p q = q.id == p.id

abbrev pub same_name : Policy → Policy → Bool
same_name p q = q.display_name == p.display_name && q.policy_type == p.policy_type

abbrev pub same_priority : Policy → Policy → Bool
same_priority p q = eq_ℤ q.priority p.priority && q.policy_type == p.policy_type

pub record Apart (p q : Policy) : Type 0 where
  pub ids : same_id p q ≡ false
  pub names : same_name p q ≡ false
  pub priorities : same_priority p q ≡ false

abbrev pub IsUnique : List Policy → Type 0
IsUnique [] = Unit
IsUnique (p ∷ rows) = All (Apart p) rows × IsUnique rows

-- the meaning of the conditions of a query
abbrev same_bool : Bool → Bool → Bool
same_bool true b = b
same_bool false b = not b

abbrev pub selects : Where → Policy → Bool
selects (id_is id) p = p.id == id
selects (id_is_not id) p = not (p.id == id)
selects (display_name_is name) p = p.display_name == name
selects (policy_type_is t) p = p.policy_type == t
selects (priority_is n) p = eq_ℤ p.priority n
selects (enabled_is b) p = same_bool p.enabled b

abbrev pub selected : List Where → Policy → Bool
selected wheres p = all (λ w. selects w p) wheres

-- DELETE ... WHERE id = ?
unfoldable pub remove : String → List Policy → List Policy
remove id [] = []
remove id (p ∷ rows) = let rest = remove id rows in if p.id == id then rest else p ∷ rest

abbrev pub count_id : String → List Policy → ℕ
count_id id [] = 0
count_id id (p ∷ rows) = (if p.id == id then 1 else 0) + count_id id rows

-- UPDATE of the columns that the store selects, with the update time
abbrev pub written_over : Policy → ℕ → Policy → Policy
written_over p stamp row = record row {
  display_name = p.display_name;
  description = p.description;
  label_selector = p.label_selector;
  priority = p.priority;
  rego_code = p.rego_code;
  enabled = p.enabled;
  update_time = stamp;
}

abbrev pub overwrite : Policy → ℕ → Policy → Policy
overwrite p stamp row = if row.id == p.id then written_over p stamp row else row

unfoldable pub overwritten : Policy → ℕ → List Policy → List Policy
overwritten p stamp [] = []
overwritten p stamp (row ∷ rows) = overwrite p stamp row ∷ overwritten p stamp rows

-- the row but for its update time
abbrev pub untimed : Policy → Policy
untimed p = record p { update_time = 0 }

abbrev pub SameRows : List Policy → List Policy → Type 0
SameRows rows rows' = map untimed rows ≡ map untimed rows'

pub remove_absent :
    (id : String) (p : Policy) (rows : List Policy)
    → p.id ≡ id
    → All (Apart p) rows
    → remove id rows ≡ rows
unfolding remove
remove_absent id p [] e h = refl
remove_absent id p (q ∷ rows) e (a, h) = ground (arith, e, a.ids, remove_absent id p rows e h)

row_back :
    (p previous : Policy) (s t : ℕ) (row : Policy)
    → previous.id ≡ p.id
    → (row.id ≡ p.id → row ≡ previous)
    → untimed (overwrite previous t (overwrite p s row)) ≡ untimed row
row_back p previous s t row e g = elim (eq-cases row.id p.id) [
  | inl same ↦
      subst (λ q. untimed (overwrite previous t (overwrite p s q)) ≡ untimed q) (sym (g same))
        (rw ((eq_iff previous.id p.id).1 e, eq_refl previous.id))
  | inr other ↦ let kept : (row.id == previous.id) ≡ false = rw e other in rw (other, kept)
]

-- The row that was there, written back, restores the rows but for update times.
pub overwritten_back :
    (p previous : Policy) (s t : ℕ) (rows : List Policy)
    → previous.id ≡ p.id
    → All (λ row. row.id ≡ p.id → row ≡ previous) rows
    → SameRows (overwritten previous t (overwritten p s rows)) rows
unfolding overwritten
overwritten_back p previous s t [] e h = refl
overwritten_back p previous s t (row ∷ rows) e (g, h) =
    cc (row_back p previous s t row e g, overwritten_back p previous s t rows e h)

-- Rows that are apart have different IDs.
Apart-ids : (p q : Policy) → Apart p q → q.id ≡ p.id → ⊥
Apart-ids p q a e = let same : (q.id == p.id) ≡ true = (eq_iff q.id p.id).1 e in cc (a.ids, same)

-- In a unique table the row of an ID is the only one.
pub only_row :
    (previous : Policy) (rows : List Policy)
    → IsUnique rows
    → Memᴰ previous rows
    → All (λ row. row.id ≡ previous.id → row ≡ previous) rows
only_row previous [] u m = elim m [ ]
only_row previous (row ∷ rows) (apart, u) (Memᴰ.head e) = (
  λ _. sym e,
  All-map (Apart row) (λ q. q.id ≡ previous.id → q ≡ previous) rows
      (λ q a i. absurd (Apart-ids row q a (i ∙ ap (λ r. r.id) e))) apart,
)
only_row previous (row ∷ rows) (apart, u) (Memᴰ.tail m) = (
  λ i. absurd (Apart-ids row previous (All_at (Apart row) previous rows apart m) (sym i)),
  only_row previous rows u m,
)

-- Uniqueness does not see update times.
Apart-timed : (p q q' : Policy) → untimed q ≡ untimed q' → Apart p q → Apart p q'
Apart-timed p q q' e a = record {
  ids = subst (λ r. same_id p r ≡ false) e a.ids;
  names = subst (λ r. same_name p r ≡ false) e a.names;
  priorities = subst (λ r. same_priority p r ≡ false) e a.priorities;
}

Apart-timed_left : (p p' q : Policy) → untimed p ≡ untimed p' → Apart p q → Apart p' q
Apart-timed_left p p' q e a = record {
  ids = subst (λ r. same_id r q ≡ false) e a.ids;
  names = subst (λ r. same_name r q ≡ false) e a.names;
  priorities = subst (λ r. same_priority r q ≡ false) e a.priorities;
}

Apart-SameRows :
    (p : Policy) (rows rows' : List Policy)
    → SameRows rows rows'
    → All (Apart p) rows
    → All (Apart p) rows'
Apart-SameRows p [] [] e h = tt
Apart-SameRows p [] (q ∷ rows') e h = cc
Apart-SameRows p (q ∷ rows) [] e h = cc
Apart-SameRows p (q ∷ rows) (q' ∷ rows') e (a, h) =
    (Apart-timed p q q' (cc) a, Apart-SameRows p rows rows' (cc) h)

pub IsUnique-SameRows :
    (rows rows' : List Policy) → SameRows rows rows' → IsUnique rows → IsUnique rows'
IsUnique-SameRows [] [] e u = tt
IsUnique-SameRows [] (p' ∷ rows') e u = cc
IsUnique-SameRows (p ∷ rows) [] e u = cc
IsUnique-SameRows (p ∷ rows) (p' ∷ rows') e (a, u) = (
  All-map (Apart p) (Apart p') rows' (λ q. Apart-timed_left p p' q (cc))
      (Apart-SameRows p rows rows' (cc) a),
  IsUnique-SameRows rows rows' (cc) u,
)

-- A table without a row of the ID is left alone.
pub remove_none : (id : String) (rows : List Policy) → count_id id rows ≡ 0 → remove id rows ≡ rows
unfolding remove
remove_none id [] h = refl
remove_none id (p ∷ rows) h = ground (arith, h, remove_none id rows)

pub overwritten_none :
    (p : Policy) (stamp : ℕ) (rows : List Policy)
    → count_id p.id rows ≡ 0
    → overwritten p stamp rows ≡ rows
unfolding overwritten
overwritten_none p stamp [] h = refl
overwritten_none p stamp (row ∷ rows) h = ground (arith, h, overwritten_none p stamp rows)
