-- ===== src/Evaluation/Step.antt =====
-- What one policy that neither fails nor rejects does to the progress of an evaluation.
use dcm_policy_manager.Prelude.{
  String, Option, none, some, List, [], ◌∷◌, ◌==◌, ◌≡◌, ◌≢◌, refl, ◌⊎◌, inl, inr, arith, Result, ok,
  check, bind-ok, chain-ok, ok-injective, map_err, map_err-ok, if◌then◌else◌, Bool-cases, eq_iff,
  subst, sym,
}
use dcm_policy_manager.Value.{Value, Fields}
use dcm_policy_manager.Value.Copy.{IsCopy}
use dcm_policy_manager.Runtime.{Runtime}
use dcm_policy_manager.Decision.{EvaluationResult, PolicyDecision, parse_policy_decision}
use dcm_policy_manager.Patch.{merge_patch}
use dcm_policy_manager.Constraints.{ConstraintContext, ConstraintConflictError, ConstraintViolation}
use dcm_policy_manager.Constraints.Merging.{merge_constraints}
use dcm_policy_manager.Constraints.Merging.Keeping.{
  InForce, StaysInForce, merge_constraints-StaysInForce, merge_constraints-sp,
}
use dcm_policy_manager.Constraints.Providers.{merge_sp_constraints, validate_service_provider}
use dcm_policy_manager.Constraints.Providers.Meaning.{
  AllowsSp, AllowsProvider, validate_service_provider_iff,
}
use dcm_policy_manager.Constraints.Providers.Narrowing.{
  merge_sp_constraints_iff, merge_sp_constraints-fields,
}
use dcm_policy_manager.Constraints.Validation.{validate_patch}
use dcm_policy_manager.Errors.{new_service_provider_constraint_error}
use dcm_policy_manager.Policy.{Policy}
use dcm_policy_manager.Evaluation.{
  Progress, merged_constraints, merge_step, reject_violations, patch_step, provider_step,
  apply_decision, evaluate_policy, opa_input, merge_failure, evaluation_failure,
}

checked : (o : Option String) {u : Unit {0}} → check o ≡ ok u → o ≡ none
checked none h = refl
checked (some e) h = cc

module _ {C S : Type 0} (rt : Runtime C S) where
  -- A later context is at least as strict: no keyword in force is lost or loosened, and no provider
  -- is allowed that was not allowed before.
  pub record Narrows (c c' : ConstraintContext) : Type 0 where
    pub fields : (fp k : String) (v : Value) → InForce c fp k v → StaysInForce rt c' fp k v
    pub providers : (x : String) → AllowsProvider rt c' x → AllowsProvider rt c x

  pub Narrows-refl : (c : ConstraintContext) → Narrows c c
  Narrows-refl c = record { fields = λ fp k v h. (v, h, λ x t. t); providers = λ x h. h }

  pub Narrows-trans : {a b c : ConstraintContext} → Narrows a b → Narrows b c → Narrows a c
  Narrows-trans f g = record {
    fields = λ fp k v h.
        let (v₁, h₁, t₁) = f.fields fp k v h in
        let (v₂, h₂, t₂) = g.fields fp k v₁ h₁ in (v₂, h₂, λ x t. t₁ x (t₂ x t));
    providers = λ x h. f.providers x (g.providers x h);
  }

  merged_ok :
      (id : String) (r : ConstraintContext × Option ConstraintConflictError)
      {c' : ConstraintContext}
      → merged_constraints rt id r ≡ ok c'
      → r ≡ (c', none)
  unfolding merged_constraints
  merged_ok id (c, none) e = rw (ok-injective e)
  merged_ok id (c, some x) e = cc

  violations_ok :
      (id : String) (vs : List ConstraintViolation) {u : Unit {0}}
      → reject_violations rt id vs ≡ ok u
      → vs ≡ []
  unfolding reject_violations
  violations_ok id [] e = refl
  violations_ok id (v ∷ vs) e = cc

  merge_step-fields :
      (id : String) (new : Option Fields) (c c' : ConstraintContext)
      → IsCopy rt.copy
      → merge_step rt id new c ≡ ok c'
      → (fp k : String) (v : Value) → InForce c fp k v
      → StaysInForce rt c' fp k v
  unfolding merge_step
  merge_step-fields id none c c' faithful e fp k v h =
      (v, subst (λ q. InForce q fp k v) (ok-injective e) h, λ x t. t)
  merge_step-fields id (some new) c c' faithful e fp k v h =
      merge_constraints-StaysInForce rt c c' fp k v new id faithful h
        (merged_ok id (merge_constraints rt c new id) e)

  -- The spec stays, or a patch that no accumulated constraint forbids is merged into it.
  pub IsPatched : ConstraintContext → Fields → Fields → Type 0
  IsPatched c spec spec' =
      (spec' ≡ spec)
      ⊎ ((patch : Fields) × (validate_patch rt c patch ≡ [])
          × (merge_patch rt.copy spec patch ≡ ok spec'))

  patch_step-IsPatched :
      (id : String) (patch : Option Fields) (c : ConstraintContext) (spec spec' : Fields)
      → patch_step rt id patch c spec ≡ ok spec'
      → IsPatched c spec spec'
  unfolding patch_step IsPatched
  patch_step-IsPatched id none c spec spec' e = inl (ok-injective (sym e))
  patch_step-IsPatched id (some patch) c spec spec' e =
      let (u, clean, merged) =
        bind-ok (reject_violations rt id (validate_patch rt c patch))
          (λ _. map_err (merge_failure rt) (merge_patch rt.copy spec patch)) e in
      inr (
        patch,
        violations_ok id (validate_patch rt c patch) clean,
        map_err-ok (merge_failure rt) (merge_patch rt.copy spec patch) merged,
      )

  -- The provider stays, or one is chosen that the accumulated constraints allow.
  pub IsChosen : ConstraintContext → String → String → Type 0
  IsChosen c selected selected' =
      (selected' ≡ selected) ⊎ ((selected' ≢ "") × AllowsProvider rt c selected')

  provider_step-IsChosen :
      (id chosen selected selected' : String) (c : ConstraintContext)
      → provider_step rt id chosen c selected ≡ ok selected'
      → IsChosen c selected selected'
  unfolding provider_step IsChosen
  provider_step-IsChosen id chosen selected selected' c e = elim (Bool-cases (chosen == "")) [
    | inl none_chosen ↦ inl (ok-injective (sym (rw none_chosen at e)))
    | inr ne ↦
        let (u, passed, same) =
          bind-ok
            (map_err (new_service_provider_constraint_error id)
              (check (validate_service_provider rt c chosen)))
            (λ _. ok chosen) (rw ne at e) in
        let named : chosen ≢ "" = ground (arith, eq_iff chosen "") in
        inr (
          subst (λ q. (q ≢ "") × AllowsProvider rt c q) (ok-injective same)
            (
              named,
              (validate_service_provider_iff rt c chosen named).0 (
                  checked (validate_service_provider rt c chosen) (
                    map_err-ok (new_service_provider_constraint_error id)
                      (check (validate_service_provider rt c chosen)) passed)),
            ))
  ]

  -- What a policy's success means for the progress.
  pub record Advances (p p' : Progress) : Type 0 where
    pub narrows : Narrows p.constraint_ctx p'.constraint_ctx
    pub patched : IsPatched p'.constraint_ctx p.current_spec p'.current_spec
    pub chosen : IsChosen p'.constraint_ctx p.selected_provider p'.selected_provider

  Advances-refl : (p : Progress) → Advances p p
  unfolding IsPatched IsChosen
  Advances-refl p = record {
    narrows = Narrows-refl p.constraint_ctx;
    patched = inl refl;
    chosen = inl refl;
  }

  merge_step-sp :
      (id : String) (new : Option Fields) (c c' : ConstraintContext)
      → merge_step rt id new c ≡ ok c'
      → c'.service_provider_constraints ≡ c.service_provider_constraints
  unfolding merge_step
  merge_step-sp id none c c' e = ground arith
  merge_step-sp id (some new) c c' e =
      rw (merged_ok id (merge_constraints rt c new id) e) at (merge_constraints-sp rt c new id)

  same_fields :
      {c c' : ConstraintContext} {fp k : String} {v : Value}
      → c'.constrained_fields_by_field_path ≡ c.constrained_fields_by_field_path
      → InForce c fp k v
      → InForce c' fp k v
  same_fields e h = record { schema = h.schema; constrained = rw e h.constrained; given = h.given }

  -- Both merges of one decision.
  merges-Narrows :
      (id : String) (d : PolicyDecision) (c c₁ c' : ConstraintContext)
      → IsCopy rt.copy
      → merge_step rt id d.constraints c ≡ ok c₁
      → merge_sp_constraints rt c₁ d.service_provider_constraints id ≡ ok c'
      → Narrows c c'
  merges-Narrows id d c c₁ c' faithful e e' = record {
    fields = λ fp k v h.
        let (v', h', t) = merge_step-fields id d.constraints c c₁ faithful e fp k v h in
        (
          v',
          same_fields (merge_sp_constraints-fields rt c₁ c' d.service_provider_constraints id e')
              h',
          t,
        );
    providers = λ x h.
        subst (λ o. AllowsSp rt o x) (merge_step-sp id d.constraints c c₁ e)
          ((merge_sp_constraints_iff rt c₁ c' d.service_provider_constraints id x e').0 h).0;
  }

  apply_decision-Advances :
      (id : String) (d : PolicyDecision) (p p' : Progress)
      → IsCopy rt.copy
      → apply_decision rt id d p ≡ ok p'
      → Advances p p'
  unfolding apply_decision
  apply_decision-Advances id d p p' faithful e = elim (Bool-cases d.rejected) [
    | inl r ↦ ground (arith, r)
    | inr r ↦ go (
        chain-ok (merge_step rt id d.constraints p.constraint_ctx)
          (λ c.
            map_err (new_service_provider_constraint_error id)
              (merge_sp_constraints rt c d.service_provider_constraints id))
          (λ c. patch_step rt id d.patch c p.current_spec)
          (λ c. provider_step rt id d.selected_provider c p.selected_provider) make (rw r at e))
  ]
    where
      make : ConstraintContext → Fields → String → Progress
      make c spec provider = record {
        current_spec = spec;
        selected_provider = provider;
        constraint_ctx = c;
      }

      go :
          (c₁ : ConstraintContext) × (c' : ConstraintContext) × (spec : Fields)
            × (provider : String) × (merge_step rt id d.constraints p.constraint_ctx ≡ ok c₁)
            × (map_err
                  (new_service_provider_constraint_error id)
                  (merge_sp_constraints rt c₁ d.service_provider_constraints id)
                ≡ ok c')
            × (patch_step rt id d.patch c' p.current_spec ≡ ok spec)
            × (provider_step rt id d.selected_provider c' p.selected_provider ≡ ok provider)
            × (make c' spec provider ≡ p')
          → Advances p p'
      go (c₁, c', spec, provider, e₁, e₂, e₃, e₄, made) = subst (Advances p) made (record {
        narrows = merges-Narrows id d p.constraint_ctx c₁ c' faithful e₁ (
            map_err-ok (new_service_provider_constraint_error id)
              (merge_sp_constraints rt c₁ d.service_provider_constraints id) e₂);
        patched = patch_step-IsPatched id d.patch c' p.current_spec spec e₃;
        chosen = provider_step-IsChosen id d.selected_provider p.selected_provider provider c' e₄;
      })

  module _ (evaluate : String → Fields → Result String EvaluationResult) where
    -- If copies are faithful, a policy that is evaluated without an error leaves constraints at
    -- least as strict as before, for the keywords that mergeSchemaKeywords has a rule for; it
    -- leaves the spec alone or merges a patch into it that violates no accumulated constraint; and
    -- it leaves the provider alone or chooses one that the accumulated constraints allow.
    pub evaluate_policy-Advances :
        (policy : Policy) (p p' : Progress)
        → IsCopy rt.copy
        → evaluate_policy rt evaluate policy p ≡ ok p'
        → Advances p p'
    unfolding evaluate_policy
    evaluate_policy-Advances policy p p' faithful e = go (
        bind-ok
          (map_err (evaluation_failure rt evaluate policy.id) (evaluate policy.id (opa_input p))) _
          e)
      where
        go :
            (r : EvaluationResult) × (map_err
                  (evaluation_failure rt evaluate policy.id)
                  (evaluate policy.id (opa_input p))
                ≡ ok r)
              × ((if r.defined
                    then apply_decision rt policy.id (parse_policy_decision r.result) p
                    else ok p)
                  ≡ ok p')
            → Advances p p'
        go (r, _, k) = elim (Bool-cases r.defined) [
          | inl d ↦
              apply_decision-Advances policy.id (parse_policy_decision r.result) p p' faithful
                (rw d at k)
          | inr d ↦ subst (Advances p) (ok-injective (rw d at k)) (Advances-refl p)
        ]
