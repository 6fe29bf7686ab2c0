-- ===== src/Constraints/Providers/Meaning.antt =====
-- Which providers the accumulated constraints allow.
use dcm_policy_manager.Prelude.{
  String, true, Option, none, some, List, [], ◌∷◌, ◌≡◌, ◌≢◌, ◌↔◌, ◌⊎◌, refl, arith, All, ok,
  contains, is_empty, eq_iff, ◌==◌, ne→eq_false, if◌then◌else◌,
}
use dcm_policy_manager.Runtime.{Runtime}
use dcm_policy_manager.Decision.{ServiceProviderConstraints}
use dcm_policy_manager.Constraints.{ConstraintContext, AccumulatedSpConstraints}
use dcm_policy_manager.Constraints.Providers.{
  intersect_string_slices, check_patterns, check_provider, validate_service_provider,
}

pub contains-intersect :
    (a b : List String) (p : String)
    → contains (intersect_string_slices a b) p ≡ true
    → (contains a p ≡ true) × (contains b p ≡ true)
unfolding intersect_string_slices
contains-intersect a [] p h = cc
contains-intersect a (s ∷ b) p h = ground (arith, contains-intersect a b p, eq_iff s p)

pub intersect-contains :
    (a b : List String) (p : String)
    → contains a p ≡ true
    → contains b p ≡ true
    → contains (intersect_string_slices a b) p ≡ true
unfolding intersect_string_slices
intersect-contains a [] p h k = cc
intersect-contains a (s ∷ b) p h k = ground (arith, intersect-contains a b p h, eq_iff s p)

module _ {C S : Type 0} (rt : Runtime C S) where
  -- A list of allowed providers, where an empty list allows all, and patterns that must all match.
  pub record Allows (allow_list patterns : List String) (provider : String) : Type 0 where
    pub listed : (is_empty allow_list ≡ true) ⊎ (contains allow_list provider ≡ true)
    pub matched : All (λ pattern. rt.match_string pattern provider ≡ ok true) patterns

  abbrev pub AllowsSp : Option AccumulatedSpConstraints → String → Type 0
  AllowsSp none provider = Unit
  AllowsSp (some sp) provider = Allows sp.allow_list sp.patterns provider

  abbrev pub AllowsProvider : ConstraintContext → String → Type 0
  AllowsProvider c provider = AllowsSp c.service_provider_constraints provider

  -- what one policy's decision asks for
  abbrev pub DecisionAllows : Option ServiceProviderConstraints → String → Type 0
  DecisionAllows none provider = Unit
  DecisionAllows (some sp) provider = Allows sp.allow_list sp.patterns provider

  abbrev Matches : String → String → Type 0
  Matches provider pattern = rt.match_string pattern provider ≡ ok true

  check_patterns_sound :
      (ps : List String) (p : String) → check_patterns rt ps p ≡ none → All (Matches p) ps
  unfolding check_patterns
  check_patterns_sound [] p h = tt
  check_patterns_sound (x ∷ ps) p h = ground (arith, check_patterns_sound ps p)

  check_patterns_complete :
      (ps : List String) (p : String) → All (Matches p) ps → check_patterns rt ps p ≡ none
  unfolding check_patterns
  check_patterns_complete [] p h = refl
  check_patterns_complete (x ∷ ps) p (m, h) =
      rw (m, check_patterns) (check_patterns_complete ps p h)

  check_provider_sound :
      (sp : AccumulatedSpConstraints) (p : String)
      → check_provider rt sp p ≡ none
      → Allows sp.allow_list sp.patterns p
  unfolding check_provider
  check_provider_sound sp p h = record {
    listed = ground arith;
    matched = check_patterns_sound sp.patterns p (ground arith);
  }

  check_provider_complete :
      (sp : AccumulatedSpConstraints) (p : String)
      → Allows sp.allow_list sp.patterns p
      → check_provider rt sp p ≡ none
  unfolding check_provider
  check_provider_complete sp p h =
      let ps = check_patterns_complete sp.patterns p h.matched in ground (arith, h.listed)

  -- A provider that is named passes the check exactly when the accumulated allow list, if it has
  -- items, has it, and every accumulated pattern matches it.
  pub validate_service_provider_iff :
      (c : ConstraintContext) (p : String)
      → p ≢ ""
      → (validate_service_provider rt c p ≡ none) ↔ AllowsProvider c p
  unfolding validate_service_provider
  validate_service_provider_iff c p named = go c.service_provider_constraints
    where
      go :
          (o : Option AccumulatedSpConstraints)
          → ((elim o [ none ↦ none | some sp ↦ if p == "" then none else check_provider rt sp p ])
              ≡ none)
            ↔ AllowsSp o p
      go none = (λ _. tt, λ _. refl)
      go (some sp) =
          rw (ne→eq_false p "" named) (check_provider_sound sp p, check_provider_complete sp p)
