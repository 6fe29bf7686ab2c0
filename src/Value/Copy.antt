-- ===== src/Value/Copy.antt =====
-- deepCopySchemaMap, deepCopySchemaMapRecursive and deepCopySchemaValue of
-- internal/service/constraints.go. The loop over a map writes each copied entry into a new map.
use dcm_policy_manager.Prelude.{String, ◌≡◌, refl, ap, Result, ok, err}
use dcm_policy_manager.Value.{
  Value, null, boolean, float64, number, str, arr, obj, Items, nil, cons, Fields, end, field,
}

unfoldable mutual
  pub deep_copy_schema_value : Value → Value
  deep_copy_schema_value (obj fs) = obj (deep_copy_schema_map_recursive fs)
  deep_copy_schema_value (arr vs) = arr (copy_items vs)
  deep_copy_schema_value null = null
  deep_copy_schema_value (boolean b) = boolean b
  deep_copy_schema_value (float64 n) = float64 n
  deep_copy_schema_value (number s) = number s
  deep_copy_schema_value (str s) = str s

  pub copy_items : Items → Items
  copy_items nil = nil
  copy_items (cons v vs) = cons (deep_copy_schema_value v) (copy_items vs)

  pub deep_copy_schema_map_recursive : Fields → Fields
  deep_copy_schema_map_recursive end = end
  deep_copy_schema_map_recursive (field k v fs) =
      field k (deep_copy_schema_value v) (deep_copy_schema_map_recursive fs)

-- `deep.Copy` of github.com/brunoga/deep, which returns a copy or an error.
unfoldable pub deep_copy_schema_map : (Fields → Result String Fields) → Fields → Fields
deep_copy_schema_map copy m = elim (copy m) [
  | ok copied ↦ copied
  | err e ↦ deep_copy_schema_map_recursive m
]

mutual
  unfolding deep_copy_schema_value

  copy_value-eq : (v : Value) → deep_copy_schema_value v ≡ v
  copy_value-eq (obj fs) = ap obj (copy_map-eq fs)
  copy_value-eq (arr vs) = ap arr (copy_items-eq vs)
  copy_value-eq null = refl
  copy_value-eq (boolean b) = refl
  copy_value-eq (float64 n) = refl
  copy_value-eq (number s) = refl
  copy_value-eq (str s) = refl

  copy_items-eq : (vs : Items) → copy_items vs ≡ vs
  copy_items-eq nil = refl
  copy_items-eq (cons v vs) = rw (copy_value-eq v, copy_items-eq vs)

  copy_map-eq : (fs : Fields) → deep_copy_schema_map_recursive fs ≡ fs
  copy_map-eq end = refl
  copy_map-eq (field k v fs) = rw (copy_value-eq v, copy_map-eq fs)

-- What is asked of `deep.Copy`: a copy, where it returns one, equals the original.
abbrev pub IsCopy : (Fields → Result String Fields) → Type 0
IsCopy copy = (m m' : Fields) → copy m ≡ ok m' → m' ≡ m

-- If `deep.Copy` returns only faithful copies, a schema map is copied faithfully, also where
-- `deep.Copy` fails and the recursive copy takes over.
pub deep_copy_schema_map-eq :
    (copy : Fields → Result String Fields) (m : Fields)
    → IsCopy copy
    → deep_copy_schema_map copy m ≡ m
unfolding deep_copy_schema_map
deep_copy_schema_map-eq copy m faithful = go (copy m) refl
  where
    go :
        (r : Result String Fields)
        → copy m ≡ r
        → (elim r [ ok copied ↦ copied | err e ↦ deep_copy_schema_map_recursive m ]) ≡ m
    go (ok m') e = faithful m m' e
    go (err e) _ = copy_map-eq m
