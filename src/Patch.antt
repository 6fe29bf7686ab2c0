-- ===== src/Patch.antt =====
-- mergePatch of internal/service/evaluation.go
pub mod Entries
use dcm_policy_manager.Prelude.{String, Option, none, some, Result, ok, err, ◌>>=◌}
use dcm_policy_manager.Value.{
  Value, null, boolean, float64, number, str, arr, obj, Fields, end, field, get, put, delete,
  as_map, assert,
}

module _ (copy : Fields → Result String Fields) where
  unfoldable mutual
    -- the loop over the patch
    pub merge_entries : Fields → Fields → Result String Fields
    merge_entries result end = ok result
    merge_entries result (field key patch_value rest) = do
      result' ← merge_entry result key patch_value
      merge_entries result' rest

    pub merge_entry : Fields → String → Value → Result String Fields
    merge_entry result key null = ok (delete key result)
    merge_entry result key (obj patch_map) = elim (assert as_map (get key result)) [
      | some base_map ↦ do
        base ← copy base_map
        merged ← merge_entries base patch_map
        ok (put key (obj merged) result)
      | none ↦ ok (put key (obj patch_map) result)
    ]
    merge_entry result key (boolean b) = ok (put key (boolean b) result)
    merge_entry result key (float64 n) = ok (put key (float64 n) result)
    merge_entry result key (number s) = ok (put key (number s) result)
    merge_entry result key (str s) = ok (put key (str s) result)
    merge_entry result key (arr vs) = ok (put key (arr vs) result)

  unfoldable pub merge_patch : Fields → Fields → Result String Fields
  merge_patch base patch = do result ← copy base; merge_entries result patch
