-- ===== src/Evaluation/Listing.antt =====
-- The evaluation over the policy store: the listings that it makes return, page after page, the
-- whole table of enabled policies in the default order.
use dcm_policy_manager.Prelude.{
  ℕ, zero, suc, ◌+◌, ◌*◌, ◌≤◌, ◌<◌, String, true, List, [], ◌∷◌, ◌++◌, ◌≡◌, inl, inr, refl, sym, ap,
  ◌∙◌, subst, arith, Option, none, some, Result, ok, map_err, length, take, drop, length-drop,
  drop-drop, take-append-drop, le_or_gt, Assoc,
}
use dcm_policy_manager.Prelude.Int.{pos}
use dcm_policy_manager.Value.{Fields}
use dcm_policy_manager.Runtime.{Runtime}
use dcm_policy_manager.Decision.{EvaluationResult}
use dcm_policy_manager.Policy.{Policy, PolicyListOptions, PolicyListResult}
use dcm_policy_manager.Store.{
  Gorm, enabled_is, default_order, page_of, page_size, offset_of, list, list_query,
}
use dcm_policy_manager.Store.Paging.{
  IsTable, IsTokenCodec, page_of-last, page_of-more, list-page_of, offset_of-encoded,
  offset_of-none,
}
use dcm_policy_manager.Service.{db_error_text}
use dcm_policy_manager.Evaluation.{Progress, page_options, evaluate_pages, evaluate_page}
use dcm_policy_manager.Evaluation.Pages.{Pages, last, more, evaluate_pages-eq}

-- List of the store, as the evaluation calls it.
abbrev pub stored : {D : Type 0} → Gorm D → D → PolicyListOptions → Result String PolicyListResult
stored gorm d opts = map_err db_error_text (list gorm d (some opts))

module _ {D : Type 0} (gorm : Gorm D) (d : D) (table : List Policy)
    (ordered : IsTable gorm d (enabled_is true ∷ []) default_order table)
    (codec : IsTokenCodec gorm) where
  -- the page at an offset
  page_at : ℕ → PolicyListResult
  page_at k = page_of gorm 1000 (pos k) (take (1000 + 1) (drop k table))

  stored-page_at :
      (token : Option String) (k : ℕ)
      → offset_of gorm (some (page_options token)) ≡ pos k
      → stored gorm d (page_options token) ≡ ok (page_at k)
  unfolding list_query page_at page_size
  stored-page_at token k e =
      ap (map_err db_error_text) (list-page_of gorm d (page_options token) table k ordered e)

  last_page :
      (k : ℕ) (token : Option String)
      → offset_of gorm (some (page_options token)) ≡ pos k
      → length (drop k table) ≤ 1000
      → Pages (stored gorm d) token (drop k table) (suc zero)
  unfolding page_at
  last_page k token e h =
      last (stored-page_at token k e ∙ ap ok (page_of-last gorm 1000 k (drop k table) h)) refl

  earlier_page :
      (k n : ℕ) (token : Option String)
      → offset_of gorm (some (page_options token)) ≡ pos k
      → 1000 < length (drop k table)
      → Pages (stored gorm d) (some (gorm.encode_offset (pos (k + 1000)))) (drop (k + 1000) table) n
      → Pages (stored gorm d) token (drop k table) (suc n)
  unfolding page_at
  earlier_page k n token e h pages =
      subst (λ rows. Pages (stored gorm d) token rows (suc n))
        (ap (λ rest. take 1000 (drop k table) ++ rest) (sym (drop-drop 1000 k table))
          ∙ take-append-drop 1000 (drop k table))
        (more (stored-page_at token k e ∙ ap ok (page_of-more gorm 1000 k (drop k table) h))
          (codec.not_empty (k + 1000)) pages)

  -- With fuel for all rows from an offset on, the pages from there hold them in order.
  Pages-from_offset :
      (fuel k : ℕ) (token : Option String)
      → offset_of gorm (some (page_options token)) ≡ pos k
      → length (drop k table) ≤ 1000 * suc fuel
      → (n : ℕ) × Pages (stored gorm d) token (drop k table) n × (n ≤ suc fuel)
  Pages-from_offset zero k token e h = (1, last_page k token e (omega (arith, h)), omega arith)
  Pages-from_offset (suc fuel) k token e h = elim (le_or_gt (length (drop k table)) 1000) [
    | inl small ↦ (1, last_page k token e small, omega arith)
    | inr large ↦
        let next = some (gorm.encode_offset (pos (k + 1000))) in
        let (n, pages, enough) =
          Pages-from_offset fuel (k + 1000) next
            (offset_of-encoded gorm codec (page_options next) (k + 1000) refl)
            (omega (arith, h, large, length-drop k table, length-drop (k + 1000) table)) in
        (suc n, earlier_page k n token e large pages, omega (arith, enough))
  ]

  -- If the database answers each query with a window of the ordered table of enabled policies, and
  -- page tokens can be read back, an evaluation with fuel for all pages of 1000 policies that the
  -- table fills, and for one at least, ends, and its outcome is that of evaluating the policies of
  -- the table once each, in order.
  pub evaluate_pages-stored :
      {C S : Type 0} (rt : Runtime C S)
      (evaluate : String → Fields → Result String EvaluationResult) (labels : Assoc String)
      (fuel : ℕ) (p : Progress)
      → length table ≤ 1000 * suc fuel
      → evaluate_pages rt evaluate labels (stored gorm d) (suc fuel) none p
        ≡ some (evaluate_page rt evaluate labels table p)
  unfolding offset_of
  evaluate_pages-stored rt evaluate labels fuel p h =
      let (n, pages, enough) =
        Pages-from_offset fuel 0 none (offset_of-none gorm (page_options none) refl) h in
      evaluate_pages-eq rt evaluate labels (stored gorm d) (suc fuel) p pages enough
