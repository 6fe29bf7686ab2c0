-- ===== src/Patch/Entries.antt =====
-- What a patched map holds under each key.
use dcm_policy_manager.Value.Copy.{IsCopy}
use dcm_policy_manager.Prelude.{
  subst, Result-cases, inl, inr, eq-cases, Option-cases, String, Option, none, some, Result, ok,
  ◌>>=◌, ◌≡◌, refl, ◌==◌, arith, eq_refl, false,
}
use dcm_policy_manager.Value.{
  Value, null, obj, Fields, end, field, get, put, delete, as_map, assert, IsMap,
}
use dcm_policy_manager.Value.Laws.{get-put, get-put_self, get-delete, get-Absent}
use dcm_policy_manager.Patch.{merge_entries, merge_entry, merge_patch}

module _ (copy : Fields → Result String Fields) where
  -- The value of one key after the merge, from the base's value and the patch's.
  abbrev pub merged_field : Option Value → Option Value → Result String (Option Value)
  merged_field base none = ok base
  merged_field base (some null) = ok none
  merged_field (some (obj base_map)) (some (obj patch_map)) = do
    merged ← merge_patch copy base_map patch_map
    ok (some (obj merged))
  merged_field base (some v) = ok (some v)

  -- Writing one entry sets its own key and no other.
  merge_entry-get_self :
      (r r' : Fields) (k : String) (v : Value)
      → merge_entry copy r k v ≡ ok r'
      → merged_field (get k r) (some v) ≡ ok (get k r')
  unfolding merge_entry merge_patch
  merge_entry-get_self r r' k null h = ground (arith, get-delete k k r, eq_refl k)
  merge_entry-get_self r r' k (obj pm) h = grind (arith, get-put_self)
  merge_entry-get_self r r' k v h = ground (arith, get-put_self k v r)

  merge_entry-get_ne :
      (r r' : Fields) (k j : String) (v : Value)
      → merge_entry copy r k v ≡ ok r'
      → (k == j) ≡ false
      → get j r' ≡ get j r
  unfolding merge_entry
  merge_entry-get_ne r r' k j null h ne = ground (arith, get-delete k j r)
  merge_entry-get_ne r r' k j (obj pm) h ne = grind (arith, get-put)
  merge_entry-get_ne r r' k j v h ne = ground (arith, get-put k j v r)

  merge_entries-get :
      (patch r m : Fields) (j : String)
      → IsMap patch
      → merge_entries copy r patch ≡ ok m
      → merged_field (get j r) (get j patch) ≡ ok (get j m)
  unfolding merge_entries get
  merge_entries-get end r m j w h = ground arith
  merge_entries-get (field k v rest) r m j (absent, w) h =
      elim (Result-cases (merge_entry copy r k v)) [
        | inl (r', e) ↦
            let h' : merge_entries copy r' rest ≡ ok m = rw e at h in
            elim (eq-cases k j) [
              | inl same ↦
                  subst (λ i. merged_field (get i r) (get i (field k v rest)) ≡ ok (get i m)) same
                    (ground (
                      arith,
                      eq_refl k,
                      merge_entry-get_self r r' k v e,
                      rw (get-Absent k rest absent) at (merge_entries-get rest r' m k w h'),
                    ))
              | inr ne ↦
                  rw ne (
                    rw (merge_entry-get_ne r r' k j v e ne) at (merge_entries-get rest r' m j w h'))
            ]
        | inr (x, e) ↦ ground (arith, e)
      ]

  -- If copies are faithful and the patch is a map, and the merge succeeds, each key of the patched
  -- map holds the base's value where the patch has none, nothing where the patch has null, the
  -- merge of the two where both have a map, and else the patch's value as it is.
  pub merge_patch-get :
      (base patch m : Fields) (j : String)
      → IsCopy copy
      → IsMap patch
      → merge_patch copy base patch ≡ ok m
      → merged_field (get j base) (get j patch) ≡ ok (get j m)
  unfolding merge_patch
  merge_patch-get base patch m j faithful w h = elim (Result-cases (copy base)) [
    | inl (b, e) ↦ rw (← faithful base b e) (merge_entries-get patch b m j w (ground (arith, e)))
    | inr (x, e) ↦ ground (arith, e)
  ]

mutual
  unfolding merge_entries

  merge_entries_total :
      (patch : Fields) (copy : Fields → Result String Fields) (r : Fields)
      → ((m : Fields) → (c : Fields) × (copy m ≡ ok c))
      → (m : Fields) × (merge_entries copy r patch ≡ ok m)
  merge_entries_total end copy r total = (r, refl)
  merge_entries_total (field k v rest) copy r total =
      let (r', e) = merge_entry_total v copy r k total in
      let (m, e') = merge_entries_total rest copy r' total in (m, rw e e')

  merge_entry_total :
      (v : Value) (copy : Fields → Result String Fields) (r : Fields) (k : String)
      → ((m : Fields) → (c : Fields) × (copy m ≡ ok c))
      → (m : Fields) × (merge_entry copy r k v ≡ ok m)
  merge_entry_total (obj pm) copy r k total = elim (Option-cases (assert as_map (get k r))) [
    | inl e ↦ (put k (obj pm) r, ground (arith, e))
    | inr (bm, e) ↦
        let (b, eb) = total bm in
        let (m, em) = merge_entries_total pm copy b total in
        (put k (obj m) r, ground (arith, e, eb, em))
  ]
  merge_entry_total null copy r k total = (delete k r, refl)
  merge_entry_total v copy r k total = (put k v r, refl)

-- If every map can be copied, a patch can always be merged.
pub merge_patch_total :
    (copy : Fields → Result String Fields) (base patch : Fields)
    → ((m : Fields) → (c : Fields) × (copy m ≡ ok c))
    → (m : Fields) × (merge_patch copy base patch ≡ ok m)
unfolding merge_patch
merge_patch_total copy base patch total =
    let (b, e) = total base in let (m, e') = merge_entries_total patch copy b total in (m, rw e e')
