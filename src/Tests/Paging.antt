-- ===== src/Tests/Paging.antt =====
-- A database of 1500 policies, and page tokens in unary.
use Prim.Native.String as Text
use dcm_policy_manager.Prelude.{
  ℕ, zero, suc, ◌-◌, String, true, false, Option, none, some, List, [], ◌∷◌, ◌≡◌, ◌≢◌, refl, sym,
  ◌∙◌, ap, arith, ok, err, length, take, drop,
}
use dcm_policy_manager.Prelude.Int.{ℤ, pos, pos_part}
use dcm_policy_manager.Policy.{Policy}
use dcm_policy_manager.Store.{Gorm, enabled_is, default_order, record_not_found}
use dcm_policy_manager.Store.Paging.{IsTable, IsTokenCodec}
use dcm_policy_manager.Evaluation.{evaluate_pages, evaluate_page}
use dcm_policy_manager.Evaluation.Listing.{stored, evaluate_pages-stored}
use dcm_policy_manager.Tests.Libraries.{library}
use dcm_policy_manager.Tests.Evaluating.{small, evaluate, start}

pub unary : ℕ → String
unary zero = "1"
unary (suc n) = Text.◌∷◌ "1" (unary n)

pub count : String → ℕ
count Text.[] = 0
count (Text.◌∷◌ c s) = suc (count s)

abbrev windows : Gorm (List Policy)
windows = record {
  find = λ d q. ok (take (pos_part q.limit) (drop (pos_part q.offset) d));
  find_all = λ d order. ok d;
  first = λ d wheres. err record_not_found;
  create = λ d p. (d, ok p);
  delete = λ d wheres. (d, ok 0);
  update = λ d p. (d, ok (0, p));
  names_unique = λ text. false;
  encode_offset = λ offset. unary (pos_part offset);
  decode_offset = λ token. some (pos (count token - 1));
}

rows : ℕ → List Policy
rows zero = []
rows (suc n) = small ∷ rows n

length-rows : (n : ℕ) → length (rows n) ≡ n
unfolding rows
length-rows zero = refl
length-rows (suc n) = omega (arith, length-rows n)

pub count-unary : (n : ℕ) → count (unary n) ≡ suc n
unfolding count unary
count-unary zero = refl
count-unary (suc n) = omega (arith, count-unary n)

unary_not_empty : (n : ℕ) → unary n ≢ ""
unfolding count
unary_not_empty n e =
    let shown : suc n ≡ 0 = sym (count-unary n) ∙ ap count e in absurd (omega (arith, shown))

pub windows-IsTokenCodec : IsTokenCodec windows
windows-IsTokenCodec = record { decodes = decodes; not_empty = unary_not_empty }
  where
    decodes : (n : ℕ) → ◌≡◌ {A = Option ℤ} (some (pos (count (unary n) - 1))) (some (pos n))
    decodes n =
        let shown : count (unary n) - 1 ≡ n = omega (arith, count-unary n) in
        ap (λ m. some (pos m)) shown

windows-IsTable : IsTable windows (rows 1500) (enabled_is true ∷ []) default_order (rows 1500)
windows-IsTable = record { window = λ limit offset. refl }

evaluate_pages-stored_example :
    evaluate_pages library evaluate [] (stored windows (rows 1500)) 2 none start
    ≡ some (evaluate_page library evaluate [] (rows 1500) start)
evaluate_pages-stored_example =
    evaluate_pages-stored windows (rows 1500) (rows 1500) windows-IsTable windows-IsTokenCodec
      library evaluate [] 1 start (omega (arith, length-rows 1500))
