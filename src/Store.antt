-- ===== src/Store.antt =====
-- internal/store/policy.go: PolicyStore over the database. What gorm does is a parameter, `Gorm`:
-- each of its calls returns the database after it and a result or an error. base64 and the decimal
-- numbers of strconv, which make a page token of an offset, are its codec.
pub mod Paging
pub mod Table
pub mod Database
pub mod Conflicts
pub mod Writes
use dcm_policy_manager.Prelude.{
  ℕ, zero, suc, ◌+◌, String, Bool, true, false, not, Option, none, some, List, [], ◌∷◌, ◌++◌, ◌==◌,
  Result, ok, err, if◌then◌else◌, ltb, nat_eq, length, take,
}
use dcm_policy_manager.Prelude.Int.{ℤ, pos, negsuc, ltb_ℤ, pos_part}
use dcm_policy_manager.Policy.{Policy, PolicyListOptions, PolicyListResult}

-- gorm.ErrDuplicatedKey, gorm.ErrRecordNotFound, or another error of the driver.
pub data DbError : Type 0 where
  duplicated_key record_not_found : DbError
  driver : String → DbError

pub data StoreError : Type 0 where
  policy_not_found policy_id_taken display_name_policy_type_taken priority_policy_type_taken :
      StoreError
  db : DbError → StoreError

-- The conditions of a `Where` and of the chain that follows it.
pub data Where : Type 0 where
  id_is : String → Where
  id_is_not : String → Where
  display_name_is : String → Where
  policy_type_is : String → Where
  priority_is : ℤ → Where
  enabled_is : Bool → Where

pub record Query : Type 0 where
  pub wheres : List Where
  pub order : String
  pub limit : ℤ
  pub offset : ℤ

pub record Gorm (D : Type 0) : Type 0 where
  pub find : D → Query → Result DbError (List Policy)
  pub find_all : D → String → Result DbError (List Policy)
  pub first : D → List Where → Result DbError Policy
  pub create : D → Policy → D × Result DbError Policy
  -- the rows affected
  pub delete : D → List Where → D × Result DbError ℕ
  -- Updates of the columns display_name, description, label_selector, priority, rego_code, enabled
  pub update : D → Policy → D × Result DbError (ℕ × Policy)
  -- whether the error's text speaks of a unique constraint (in lower case), or of a duplicate key
  pub names_unique : String → Bool
  -- base64.StdEncoding over strconv.Itoa and Atoi
  pub encode_offset : ℤ → String
  pub decode_offset : String → Option ℤ

abbrev pub default_order : String
default_order = "policy_type ASC, priority ASC, id ASC"

-- a + n
abbrev pub add_ℤ : ℤ → ℕ → ℤ
add_ℤ (pos a) n = pos (a + n)
add_ℤ (negsuc zero) zero = negsuc zero
add_ℤ (negsuc zero) (suc n) = pos n
add_ℤ (negsuc (suc a)) zero = negsuc (suc a)
add_ℤ (negsuc (suc a)) (suc n) = add_ℤ (negsuc a) n

module _ {D : Type 0} (gorm : Gorm D) where
  -- the page size, 50 unless a positive one is given
  unfoldable pub page_size : Option PolicyListOptions → ℕ
  page_size none = 50
  page_size (some opts) = if ltb_ℤ (pos 0) opts.page_size then pos_part opts.page_size else 50

  -- a token that cannot be read is offset 0
  offset_of_token : Option String → ℤ
  offset_of_token none = pos 0
  offset_of_token (some token) =
      if token == ""
      then pos 0
      else elim (gorm.decode_offset token) [ some offset ↦ offset | none ↦ pos 0 ]

  unfoldable pub offset_of : Option PolicyListOptions → ℤ
  unfolding offset_of_token
  offset_of none = pos 0
  offset_of (some opts) = offset_of_token opts.page_token

  type_conditions : Option String → List Where
  type_conditions none = []
  type_conditions (some t) = policy_type_is t ∷ []

  enabled_conditions : Option Bool → List Where
  enabled_conditions none = []
  enabled_conditions (some b) = enabled_is b ∷ []

  unfoldable pub list_query : Option PolicyListOptions → Query
  unfolding page_size offset_of type_conditions enabled_conditions
  list_query opts = record {
    wheres = elim opts [
      | none ↦ []
      | some o ↦ elim o.filter [
        | none ↦ []
        | some f ↦ ◌++◌ (type_conditions f.policy_type) (enabled_conditions f.enabled)
      ]
    ];
    order = elim opts [
      | none ↦ default_order
      | some o ↦ if not (o.order_by == "") then o.order_by else default_order
    ];
    limit = pos (page_size opts + 1);
    offset = offset_of opts;
  }

  -- One row more than the page holds shows that there is a next page.
  pub page_of : ℕ → ℤ → List Policy → PolicyListResult
  page_of size offset policies =
      if ltb size (length policies)
      then record {
        policies = take size policies;
        next_page_token = gorm.encode_offset (add_ℤ offset size);
      }
      else record { policies = policies; next_page_token = "" }

  unfoldable pub list : D → Option PolicyListOptions → Result DbError PolicyListResult
  unfolding list_query page_of
  list d opts = elim (gorm.find d (list_query opts)) [
    | err e ↦ err e
    | ok policies ↦ ok (page_of (page_size opts) (offset_of opts) policies)
  ]

  unfoldable pub list_all : D → Result DbError (List Policy)
  list_all d = gorm.find_all d "id ASC"

  -- whether a failed write may come from a unique constraint
  unfoldable pub is_unique_violation : DbError → Bool
  is_unique_violation duplicated_key = true
  is_unique_violation record_not_found = false
  is_unique_violation (driver text) = gorm.names_unique text

  abbrev pub checks : Policy → List (StoreError × List Where)
  checks attempted =
      (policy_id_taken, id_is attempted.id ∷ [])
      ∷ (
        display_name_policy_type_taken,
        display_name_is attempted.display_name ∷ policy_type_is attempted.policy_type ∷ [],
      )
      ∷ (
        priority_policy_type_taken,
        priority_is attempted.priority ∷ policy_type_is attempted.policy_type ∷ [],
      )
      ∷ []

  -- on an update the row itself does not count
  abbrev pub others : Bool → Policy → List Where → List Where
  others true attempted wheres = ◌++◌ wheres (id_is_not attempted.id ∷ [])
  others false attempted wheres = wheres

  -- the loop over the checks
  pub run_checks : D → DbError → Policy → Bool → List (StoreError × List Where) → StoreError
  run_checks d e attempted is_update [] = db e
  run_checks d e attempted is_update ((sentinel, wheres) ∷ rest) =
      elim (gorm.first d (others is_update attempted wheres)) [
        | ok row ↦ sentinel
        | err record_not_found ↦ run_checks d e attempted is_update rest
        | err duplicated_key ↦ db e
        | err (driver text) ↦ db e
      ]

  unfoldable pub map_unique_constraint_error : D → DbError → Policy → Bool → StoreError
  unfolding is_unique_violation run_checks
  map_unique_constraint_error d e attempted is_update =
      if is_unique_violation e then run_checks d e attempted is_update (checks attempted) else db e

  created : Policy → D × Result DbError Policy → D × Result StoreError Policy
  unfolding map_unique_constraint_error
  created policy (d, ok row) = (d, ok row)
  created policy (d, err e) = (d, err (map_unique_constraint_error d e policy false))

  unfoldable pub create : D → Policy → D × Result StoreError Policy
  unfolding created
  create d policy = created policy (gorm.create d policy)

  -- `none` for the error `nil`
  deleted : D × Result DbError ℕ → D × Option StoreError
  deleted (d, err e) = (d, some (db e))
  deleted (d, ok rows_affected) =
      if nat_eq rows_affected 0 then (d, some policy_not_found) else (d, none)

  unfoldable pub delete : D → String → D × Option StoreError
  unfolding deleted
  delete d id = deleted (gorm.delete d (id_is id ∷ []))

  updated : Policy → D × Result DbError (ℕ × Policy) → D × Result StoreError Policy
  unfolding map_unique_constraint_error
  updated policy (d, err e) = (d, err (map_unique_constraint_error d e policy true))
  updated policy (d, ok (rows_affected, row)) =
      if nat_eq rows_affected 0 then (d, err policy_not_found) else (d, ok row)

  unfoldable pub update : D → Policy → D × Result StoreError Policy
  unfolding updated
  update d policy = updated policy (gorm.update d policy)

  found : Result DbError Policy → Result StoreError Policy
  found (ok row) = ok row
  found (err record_not_found) = err policy_not_found
  found (err duplicated_key) = err (db duplicated_key)
  found (err (driver text)) = err (db (driver text))

  unfoldable pub get : D → String → Result StoreError Policy
  unfolding found
  get d id = found (gorm.first d (id_is id ∷ []))
