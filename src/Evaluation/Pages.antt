-- ===== src/Evaluation/Pages.antt =====
-- The loop over the pages of the policy listing: it evaluates the policies of all pages in order.
use mathlib.Core.Path.{fun_ext}
use dcm_policy_manager.Prelude.{
  ℕ, zero, suc, ◌≤◌, String, true, false, Option, some, List, [], ◌∷◌, ◌++◌, ◌≡◌, ◌≢◌, refl, inl,
  inr, arith, Result, ok, err, ◌>>=◌, bind-ok, ok-injective, Bool-cases, Assoc, ne→eq_false, subst,
  ap, sym, ◌∙◌,
}
use dcm_policy_manager.Value.{Fields}
use dcm_policy_manager.Value.Copy.{IsCopy}
use dcm_policy_manager.Runtime.{Runtime}
use dcm_policy_manager.Labels.{matches_label_selector}
use dcm_policy_manager.Decision.{EvaluationResult}
use dcm_policy_manager.Errors.{ServiceError}
use dcm_policy_manager.Policy.{Policy, PolicyListOptions, PolicyListResult}
use dcm_policy_manager.Evaluation.{
  Progress, evaluate_policy, evaluate_page, page_options, evaluate_pages,
}
use dcm_policy_manager.Evaluation.Step.{
  Narrows, Narrows-refl, Narrows-trans, evaluate_policy-Advances,
}

-- The pages from a token on, until one has no next token: their policies, and how many pages.
pub data Pages (list : PolicyListOptions → Result String PolicyListResult)
    : Option String → List Policy → ℕ → Type 0 where
  last :
      {token : Option String} {page : PolicyListResult}
      → list (page_options token) ≡ ok page
      → page.next_page_token ≡ ""
      → Pages list token page.policies (suc zero)
  more :
      {token : Option String} {page : PolicyListResult} {rest : List Policy} {n : ℕ}
      → list (page_options token) ≡ ok page
      → page.next_page_token ≢ ""
      → Pages list (some page.next_page_token) rest n
      → Pages list token (page.policies ++ rest) (suc n)

module _ {C S : Type 0} (rt : Runtime C S)
    (evaluate : String → Fields → Result String EvaluationResult) (labels : Assoc String) where
  -- A policy that matches is evaluated, and one that does not is passed over.
  page_match :
      (x : Policy) (xs : List Policy) (p : Progress)
      → matches_label_selector x.label_selector labels ≡ true
      → evaluate_page rt evaluate labels (x ∷ xs) p
        ≡ (evaluate_policy rt evaluate x p >>= evaluate_page rt evaluate labels xs)
  unfolding evaluate_page
  page_match x xs p m = rw (m, evaluate_page)

  page_skip :
      (x : Policy) (xs : List Policy) (p : Progress)
      → matches_label_selector x.label_selector labels ≡ false
      → evaluate_page rt evaluate labels (x ∷ xs) p ≡ evaluate_page rt evaluate labels xs p
  unfolding evaluate_page
  page_skip x xs p m = rw (m, evaluate_page)

  page_nil : (p : Progress) → evaluate_page rt evaluate labels [] p ≡ ok p
  unfolding evaluate_page
  page_nil p = refl

  pub evaluate_page-append :
      (xs ys : List Policy) (p : Progress)
      → evaluate_page rt evaluate labels (xs ++ ys) p
        ≡ (evaluate_page rt evaluate labels xs p >>= evaluate_page rt evaluate labels ys)
  evaluate_page-append [] ys p = unfold evaluate_page in refl
  evaluate_page-append (x ∷ xs) ys p =
      elim (Bool-cases (matches_label_selector x.label_selector labels)) [
        | inl m ↦ rw (page_match x (xs ++ ys) p m) (
            rw (page_match x xs p m)
              (bind_append (evaluate_policy rt evaluate x p) (evaluate_page-append xs ys)))
        | inr m ↦
            rw (page_skip x (xs ++ ys) p m) (rw (page_skip x xs p m) (evaluate_page-append xs ys p))
      ]
    where
      bind_append :
          (r : Result ServiceError Progress)
          → ((q : Progress)
              → evaluate_page rt evaluate labels (xs ++ ys) q
                ≡ (evaluate_page rt evaluate labels xs q >>= evaluate_page rt evaluate labels ys))
          → (r >>= evaluate_page rt evaluate labels (xs ++ ys))
            ≡ ((r >>= evaluate_page rt evaluate labels xs) >>= evaluate_page rt evaluate labels ys)
      bind_append (ok q) ih = ih q
      bind_append (err f) ih = refl

  one_page :
      (list : PolicyListOptions → Result String PolicyListResult) (fuel : ℕ) (token : Option String)
      (page : PolicyListResult) (p : Progress) (r : Result ServiceError Progress)
      → evaluate_page rt evaluate labels page.policies p ≡ r
      → list (page_options token) ≡ ok page
      → page.next_page_token ≡ ""
      → evaluate_pages rt evaluate labels list (suc fuel) token p ≡ some r
  unfolding evaluate_pages
  one_page list fuel token page p (ok q) f e t = rw (e, f, t, evaluate_pages)
  one_page list fuel token page p (err x) f e t = rw (e, f, evaluate_pages)

  more_pages :
      (list : PolicyListOptions → Result String PolicyListResult) (fuel : ℕ) (token : Option String)
      (page : PolicyListResult) (rest : List Policy) (p : Progress)
      (r : Result ServiceError Progress)
      → evaluate_page rt evaluate labels page.policies p ≡ r
      → list (page_options token) ≡ ok page
      → page.next_page_token ≢ ""
      → ((q : Progress)
          → evaluate_pages rt evaluate labels list fuel (some page.next_page_token) q
            ≡ some (evaluate_page rt evaluate labels rest q))
      → evaluate_pages rt evaluate labels list (suc fuel) token p
        ≡ some (
            evaluate_page rt evaluate labels page.policies p
            >>= evaluate_page rt evaluate labels rest)
  unfolding evaluate_pages
  more_pages list fuel token page rest p (ok q) f e t ih =
      ground (arith, f, e, ne→eq_false page.next_page_token "" t, ih q)
  more_pages list fuel token page rest p (err x) f e t ih = ground (arith, f, e)

  -- With fuel for every page, the loop over the pages ends, and its outcome is that of evaluating
  -- the policies of all pages in order, an error of which ends the evaluation.
  pub evaluate_pages-eq :
      (list : PolicyListOptions → Result String PolicyListResult) (fuel : ℕ) {token : Option String}
      {all : List Policy} {n : ℕ} (p : Progress)
      → Pages list token all n
      → n ≤ fuel
      → evaluate_pages rt evaluate labels list fuel token p
        ≡ some (evaluate_page rt evaluate labels all p)
  evaluate_pages-eq list zero p (last e t) h = absurd (omega arith)
  evaluate_pages-eq list zero p (more e t pages) h = absurd (omega arith)
  evaluate_pages-eq list (suc fuel) {token} p (last {page} e t) h =
      one_page list fuel token page p (evaluate_page rt evaluate labels page.policies p) refl e t
  evaluate_pages-eq list (suc fuel) {token} p (more {page} {rest} e t pages) h =
      rw (evaluate_page-append page.policies rest p) (
        more_pages list fuel token page rest p (evaluate_page rt evaluate labels page.policies p)
          refl e t (λ q. evaluate_pages-eq list fuel q pages (omega arith)))

  -- A policy whose selector does not match the request's labels can be left out of a list without
  -- a change of the outcome.
  pub evaluate_page-skips :
      (xs ys : List Policy) (x : Policy) (p : Progress)
      → matches_label_selector x.label_selector labels ≡ false
      → evaluate_page rt evaluate labels (xs ++ x ∷ ys) p
        ≡ evaluate_page rt evaluate labels (xs ++ ys) p
  evaluate_page-skips xs ys x p h = rw (evaluate_page-append xs (x ∷ ys) p) (
      rw (evaluate_page-append xs ys p)
        (ap (λ g. evaluate_page rt evaluate labels xs p >>= g) (fun_ext (λ q. page_skip x ys q h))))

  -- If copies are faithful and the policies of a list are evaluated without an error, no keyword in
  -- force before is lost, none that mergeSchemaKeywords has a rule for is loosened, and every
  -- provider that is allowed afterwards was allowed before.
  pub evaluate_page-Narrows :
      (xs : List Policy) (p p' : Progress)
      → IsCopy rt.copy
      → evaluate_page rt evaluate labels xs p ≡ ok p'
      → Narrows rt p.constraint_ctx p'.constraint_ctx
  evaluate_page-Narrows [] p p' faithful e =
      subst (λ q. Narrows rt p.constraint_ctx q.constraint_ctx)
        (ok-injective (sym (page_nil p) ∙ e)) (Narrows-refl rt p.constraint_ctx)
  evaluate_page-Narrows (x ∷ xs) p p' faithful e =
      elim (Bool-cases (matches_label_selector x.label_selector labels)) [
        | inl m ↦
            let (q, e₁, e₂) =
              bind-ok (evaluate_policy rt evaluate x p) (evaluate_page rt evaluate labels xs)
                (rw (page_match x xs p m) at e) in
            Narrows-trans rt (evaluate_policy-Advances rt evaluate x p q faithful e₁).narrows
              (evaluate_page-Narrows xs q p' faithful e₂)
        | inr m ↦ evaluate_page-Narrows xs p p' faithful (rw (page_skip x xs p m) at e)
      ]
