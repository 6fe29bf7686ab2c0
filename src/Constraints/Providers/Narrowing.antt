-- ===== src/Constraints/Providers/Narrowing.antt =====
-- A merge of provider constraints allows what both sides allow.
use dcm_policy_manager.Prelude.{
  String, true, Option, none, some, List, [], ◌∷◌, ◌++◌, ◌≡◌, ◌↔◌, ◌⊎◌, inl, inr, refl, arith,
  All-append, append-All, Result, ok, contains, is_empty, Bool-cases, Result-cases, ◌&&◌, subst,
}
use dcm_policy_manager.Runtime.{Runtime}
use dcm_policy_manager.Decision.{ServiceProviderConstraints}
use dcm_policy_manager.Constraints.{ConstraintContext, AccumulatedSpConstraints}
use dcm_policy_manager.Constraints.Providers.{
  merged_allow_list, merge_accumulated, merge_sp_constraints,
}
use dcm_policy_manager.Constraints.Providers.Meaning.{
  contains-intersect, intersect-contains, Allows, AllowsSp, AllowsProvider, DecisionAllows,
}

abbrev Listed : List String → String → Type 0
Listed xs p = (is_empty xs ≡ true) ⊎ (contains xs p ≡ true)

the_same :
    (c c' : ConstraintContext) → ◌≡◌ {A = Result String ConstraintContext} (ok c) (ok c') → c ≡ c'
the_same c c' h = cc

module _ {C S : Type 0} (rt : Runtime C S) where
  merged_allow_list-Listed :
      (new : List String) (acc : AccumulatedSpConstraints) (id p : String) (merged : List String)
      → merged_allow_list rt new acc id ≡ ok merged
      → Listed merged p ↔ (Listed acc.allow_list p × Listed new p)
  unfolding merged_allow_list
  merged_allow_list-Listed new acc id p merged h = (
    λ l. (
      ground (arith, contains-intersect acc.allow_list new p),
      ground (arith, contains-intersect acc.allow_list new p),
    ),
    λ l. ground (arith, intersect-contains acc.allow_list new p),
  )

  merge_accumulated-Allows :
      (c c' : ConstraintContext) (sp : ServiceProviderConstraints)
      (acc : Option AccumulatedSpConstraints) (id p : String)
      → merge_accumulated rt c sp acc id ≡ ok c'
      → AllowsProvider rt c' p ↔ (AllowsSp rt acc p × Allows rt sp.allow_list sp.patterns p)
  unfolding merge_accumulated
  merge_accumulated-Allows c c' sp none id p h =
      let e : record c {
        service_provider_constraints =
            some
              (record { allow_list = sp.allow_list; patterns = sp.patterns; set_by_policy = id });
      }
          ≡ c' =
        cc in
      subst (λ x. AllowsProvider rt x p ↔ (Unit {0} × Allows rt sp.allow_list sp.patterns p)) e
        (λ a. (tt, a), λ b. b.1)
  merge_accumulated-Allows c c' sp (some acc) id p h =
      elim (Result-cases (merged_allow_list rt sp.allow_list acc id)) [
        | inr (x, f) ↦ absurd (ground (arith, f))
        | inl (l, f) ↦
            let e : record c {
              service_provider_constraints =
                  some (record acc { allow_list = l; patterns = acc.patterns ++ sp.patterns });
            }
                ≡ c' =
              ground (arith, f) in
            let listed = merged_allow_list-Listed sp.allow_list acc id p l f in
            subst
              (λ x.
                AllowsProvider rt x p
                ↔ (Allows rt acc.allow_list acc.patterns p × Allows rt sp.allow_list sp.patterns p))
              e
              (
                λ a.
                    let (l₁, l₂) = listed.0 a.listed in
                    let (m₁, m₂) = append-All _ acc.patterns sp.patterns a.matched in
                    (record { listed = l₁; matched = m₁ }, record { listed = l₂; matched = m₂ }),
                λ (a, b). record {
                  listed = listed.1 (a.listed, b.listed);
                  matched = All-append _ acc.patterns sp.patterns a.matched b.matched;
                },
              )
      ]

  nothing_asked :
      (allow_list patterns : List String) (p : String)
      → is_empty allow_list && is_empty patterns ≡ true
      → Allows rt allow_list patterns p
  nothing_asked [] [] p h = record { listed = inl refl; matched = tt }
  nothing_asked [] (y ∷ ys) p h = cc
  nothing_asked (x ∷ xs) ys p h = cc

  -- After a merge that succeeds, a provider is allowed exactly if the constraints so far and the
  -- decision's own both allow it: provider constraints only ever narrow.
  pub merge_sp_constraints_iff :
      (c c' : ConstraintContext) (sp : Option ServiceProviderConstraints) (id p : String)
      → merge_sp_constraints rt c sp id ≡ ok c'
      → AllowsProvider rt c' p ↔ (AllowsProvider rt c p × DecisionAllows rt sp p)
  unfolding merge_sp_constraints
  merge_sp_constraints_iff c c' none id p h =
      subst (λ x. AllowsProvider rt x p ↔ (AllowsProvider rt c p × Unit {0})) (the_same c c' h)
        (λ a. (a, tt), λ b. b.0)
  merge_sp_constraints_iff c c' (some sp) id p h =
      elim (Bool-cases (is_empty sp.allow_list && is_empty sp.patterns)) [
        | inl nothing ↦
            subst
              (λ x. AllowsProvider rt x p ↔ (AllowsProvider rt c p × DecisionAllows rt (some sp) p))
              (the_same c c' (rw nothing at h))
              (λ a. (a, nothing_asked sp.allow_list sp.patterns p nothing), λ b. b.0)
        | inr asked ↦
            merge_accumulated-Allows c c' sp c.service_provider_constraints id p (rw asked at h)
      ]

  -- Provider constraints do not touch the field constraints.
  pub merge_sp_constraints-fields :
      (c c' : ConstraintContext) (sp : Option ServiceProviderConstraints) (id : String)
      → merge_sp_constraints rt c sp id ≡ ok c'
      → c'.constrained_fields_by_field_path ≡ c.constrained_fields_by_field_path
  unfolding merge_sp_constraints merge_accumulated
  merge_sp_constraints-fields c c' none id h = ground arith
  merge_sp_constraints-fields c c' (some sp) id h = ground arith
