-- ===== src/Value.antt =====
-- The values that a Go `any` holds in this program: what encoding/json and the policy engine
-- produce (api/v1alpha1/engine and internal/opa), and the `float64` that
-- internal/service/constraints.go writes. A `map[string]any` is the list of its entries, in the
-- order in which `range` meets them; a `float64` is a whole multiple of 2^-1074, which every finite
-- float64 is; a `json.Number` is its text.
pub mod Laws
pub mod Copy
use dcm_policy_manager.Prelude.{
  String, Bool, Option, none, some, List, [], ◌∷◌, ◌==◌, ◌≢◌, false, true, if◌then◌else◌,
}
use dcm_policy_manager.Prelude.Int.{ℤ}

mutual
  pub data Fields : Type 0 where
    end : Fields
    field : String → Value → Fields → Fields

  pub data Value : Type 0 where
    obj : Fields → Value
    arr : Items → Value
    str : String → Value
    number : String → Value
    float64 : ℤ → Value
    boolean : Bool → Value
    null : Value

  pub data Items : Type 0 where
    nil : Items
    cons : Value → Items → Items

-- m[key], with whether the key is there
unfoldable pub get : String → Fields → Option Value
get key end = none
get key (field k v rest) = if k == key then some v else get key rest

-- m[key] = value
unfoldable pub put : String → Value → Fields → Fields
put key v end = field key v end
put key v (field k w rest) = if k == key then field key v rest else field k w (put key v rest)

-- delete(m, key)
unfoldable pub delete : String → Fields → Fields
delete key end = end
delete key (field k v rest) = if k == key then delete key rest else field k v (delete key rest)

-- A `[]any` as a list, and back.
abbrev pub items : Items → List Value
items nil = []
items (cons v vs) = v ∷ items vs

abbrev pub from_items : List Value → Items
from_items [] = nil
from_items (v ∷ vs) = cons v (from_items vs)

-- The type assertions `v.(map[string]any)`, `v.([]any)`, `v.(string)` and `v.(bool)`.
abbrev pub as_map : Value → Option Fields
as_map (obj fs) = some fs
as_map _ = none

abbrev pub as_slice : Value → Option Items
as_slice (arr vs) = some vs
as_slice _ = none

abbrev pub as_string : Value → Option String
as_string (str s) = some s
as_string _ = none

abbrev pub as_bool : Value → Option Bool
as_bool (boolean b) = some b
as_bool _ = none

-- An assertion on `m[key]`, which fails where the key is missing.
abbrev pub assert {ℓ} : {A : Type ℓ} → (Value → Option A) → Option Value → Option A
assert read none = none
assert read (some v) = read v

-- A key that no entry has; a map has each key once.
abbrev pub Absent : String → Fields → Type 0
Absent key end = Unit
Absent key (field k v rest) = (k ≢ key) × Absent key rest

abbrev pub IsMap : Fields → Type 0
IsMap end = Unit
IsMap (field k v rest) = Absent k rest × IsMap rest
