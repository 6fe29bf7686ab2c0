-- ===== src/Listings/Options.antt =====
-- What the options of a listing are when they are accepted.
use dcm_policy_manager.Prelude.{
  String, Option, none, some, List, ◌≡◌, ◌⊎◌, inl, inr, arith, Result, ok, ◌>>=◌, bind-ok,
  ok-injective, join, All, subst, Bool-cases,
}
use dcm_policy_manager.Prelude.Int.{ℤ, pos, ◌≤ℤ◌, ltb_ℤ}
use dcm_policy_manager.Policy.{PolicyFilter, PolicyListOptions}
use dcm_policy_manager.Errors.{ServiceError}
use dcm_policy_manager.Convert.{deref_or}
use dcm_policy_manager.OrderBy.{default_order_by, parse_order_by}
use dcm_policy_manager.OrderBy.Clauses.{IsClause, parse_order_by-IsClause}
use dcm_policy_manager.Listings.{filter_or_none, page_size_or_default, get_list_options}

-- Options that the store may be asked with.
pub record IsSafe (opts : PolicyListOptions) : Type 0 where
  pub at_least : pos 1 ≤ℤ opts.page_size
  pub at_most : opts.page_size ≤ℤ pos 1000
  pub ordered :
      (opts.order_by ≡ default_order_by)
      ⊎ ((clauses : List String) × All IsClause clauses × (opts.order_by ≡ join clauses ", "))

page_size_lem :
    (page_size : Option ℤ) (size : ℤ)
    → page_size_or_default page_size ≡ ok size
    → (pos 1 ≤ℤ size) × (size ≤ℤ pos 1000)
unfolding page_size_or_default
page_size_lem none size e =
    subst (λ n. (pos 1 ≤ℤ n) × (n ≤ℤ pos 1000)) (ok-injective e) (omega arith, omega arith)
page_size_lem (some n) size e = elim (Bool-cases (ltb_ℤ n (pos 1))) [
  | inl small ↦ absurd (ground (arith, small, e))
  | inr fits ↦ elim (Bool-cases (ltb_ℤ (pos 1000) n)) [
    | inl large ↦ absurd (ground (arith, fits, large, e))
    | inr bounded ↦
        subst (λ m. (pos 1 ≤ℤ m) × (m ≤ℤ pos 1000)) (ok-injective (rw (fits, bounded) at e))
          (ground (arith, fits), ground (arith, bounded))
  ]
]

-- The options that are accepted ask for a page of 1 to 1000 policies, and for the default order or
-- one of supported fields, each with the direction ASC or DESC.
pub get_list_options-IsSafe :
    (filter order_by page_token : Option String) (page_size : Option ℤ) (opts : PolicyListOptions)
    → get_list_options filter order_by page_token page_size ≡ ok opts
    → IsSafe opts
unfolding get_list_options
get_list_options-IsSafe filter order_by page_token page_size opts e =
    let (policy_filter, _, e₁) = bind-ok (filter_or_none filter) (λ f. with_order f) e in
    let (order, ordered, e₂) =
      bind-ok (parse_order_by (deref_or "" order_by)) (λ o. with_size policy_filter o) e₁ in
    let (size, sized, e₃) =
      bind-ok (page_size_or_default page_size) (λ n. ok (options policy_filter order n)) e₂ in
    let (low, high) = page_size_lem page_size size sized in
    subst IsSafe (ok-injective e₃) (record {
      at_least = low;
      at_most = high;
      ordered = parse_order_by-IsClause (deref_or "" order_by) order ordered;
    })
  where
    options : Option PolicyFilter → String → ℤ → PolicyListOptions
    options f o n = record { filter = f; order_by = o; page_token = page_token; page_size = n }

    with_size : Option PolicyFilter → String → Result ServiceError PolicyListOptions
    with_size f o = page_size_or_default page_size >>= λ n. ok (options f o n)

    with_order : Option PolicyFilter → Result ServiceError PolicyListOptions
    with_order f = parse_order_by (deref_or "" order_by) >>= λ o. with_size f o
