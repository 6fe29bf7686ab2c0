-- ===== src/Constraints/Merging/Keeping.antt =====
-- What a constraint that is in force becomes when a later policy's constraints are merged.
use dcm_policy_manager.Prelude.{
  String, Option, none, some, ok, ◌≡◌, refl, ◌==◌, arith, lookup, assign, lookup-assign,
  lookup-assign_self, eq-cases, Option-cases, Result-cases, inl, inr, subst, sym, ◌∙◌, ap, false,
}
use dcm_policy_manager.Value.{Value, Fields, end, field, get, as_map}
use dcm_policy_manager.Value.Copy.{IsCopy}
use dcm_policy_manager.Runtime.{Runtime}
use dcm_policy_manager.Constraints.{ConstraintContext, ConstraintConflictError}
use dcm_policy_manager.Constraints.Keywords.{rule_of, merge_schema_keywords}
use dcm_policy_manager.Constraints.Keywords.Tightening.{Tightens, merge_schema_keywords-tight}
use dcm_policy_manager.Constraints.Merging.{
  merge_existing, merge_constraint, merge_constraints, text_at,
}

-- The field has a constraint with this value for this keyword.
pub record InForce (c : ConstraintContext) (field_path keyword : String) (v : Value) : Type 0 where
  pub schema : Fields
  pub constrained : lookup field_path c.constrained_fields_by_field_path ≡ some schema
  pub given : get keyword schema ≡ some v

one_schema : (old new : Fields) → ◌≡◌ {A = Option Fields} (some old) (some new) → old ≡ new
one_schema old new h = cc

missing_present : (fs : Fields) → ◌≡◌ {A = Option Fields} none (some fs) → ⊥
missing_present fs h = cc

module _ {C S : Type 0} (rt : Runtime C S) where
  -- The field still has the keyword, and whatever meets its value meets the one before.
  abbrev pub StaysInForce : ConstraintContext → String → String → Value → Type 0
  StaysInForce c fp k v = (v' : Value) × InForce c fp k v' × Tightens rt (rule_of k) v v'

  unchanged :
      (c : ConstraintContext) (fp k : String) (v : Value) → InForce c fp k v → StaysInForce c fp k v
  unchanged c fp k v h = (v, h, λ x t. t)

  -- A write to another field.
  other_field :
      (c c' : ConstraintContext) (fp k q : String) (v : Value) (x : Fields)
      → c'.constrained_fields_by_field_path ≡ assign q x c.constrained_fields_by_field_path
      → (q == fp) ≡ false
      → InForce c fp k v
      → StaysInForce c' fp k v
  other_field c c' fp k q v x e ne h = (
    v,
    record {
      schema = h.schema;
      constrained =
          rw e (rw (lookup-assign q fp x c.constrained_fields_by_field_path, ne) h.constrained);
      given = h.given;
    },
    λ y t. t,
  )

  -- A write of a merged schema to the field itself.
  same_field :
      (c c' : ConstraintContext) (fp k id : String) (v : Value) (old new merged : Fields)
      → IsCopy rt.copy
      → c'.constrained_fields_by_field_path ≡ assign fp merged c.constrained_fields_by_field_path
      → lookup fp c.constrained_fields_by_field_path ≡ some old
      → merge_schema_keywords rt old new fp id ≡ ok merged
      → InForce c fp k v
      → StaysInForce c' fp k v
  same_field c c' fp k id v old new merged faithful e l m h =
      let g : get k old ≡ some v = rw (one_schema old h.schema (cc (l, h.constrained))) h.given in
      let (v', g', t) = merge_schema_keywords-tight rt old new merged fp id k v faithful g m in
      (
        v',
        record {
          schema = merged;
          constrained = rw e (lookup-assign_self fp merged c.constrained_fields_by_field_path);
          given = g';
        },
        t,
      )

  merge_existing-StaysInForce :
      (c c' : ConstraintContext) (fp k q : String) (v : Value) (new : Fields) (id : String)
      (o : Option Fields)
      → IsCopy rt.copy
      → InForce c fp k v
      → lookup q c.constrained_fields_by_field_path ≡ o
      → merge_existing rt c q new o id ≡ (c', none)
      → StaysInForce c' fp k v
  unfolding merge_existing
  merge_existing-StaysInForce c c' fp k q v new id none faithful h l e = elim (eq-cases q fp) [
    | inl same ↦ absurd (
        missing_present h.schema (
          sym l
          ∙ (subst (λ r. lookup r c.constrained_fields_by_field_path ≡ some h.schema) (sym same)
              h.constrained)))
    | inr ne ↦
        other_field c c' fp k q v _ (ap (λ r. r.0.constrained_fields_by_field_path) (sym e)) ne h
  ]
  merge_existing-StaysInForce c c' fp k q v new id (some old) faithful h l e =
      elim (Result-cases
        (merge_schema_keywords rt old new q (text_at q c.policy_id_by_field_path))) [
          | inr (x, m) ↦ ground (arith, m)
          | inl (merged, m) ↦
              let w : c'.constrained_fields_by_field_path
                  ≡ assign q merged c.constrained_fields_by_field_path =
                ground (arith, m) in
              elim (eq-cases q fp) [
                | inl same ↦
                    subst (λ r. StaysInForce c' r k v) same
                      (same_field c c' q k _ v old new merged faithful w l m
                        (subst (λ r. InForce c r k v) (sym same) h))
                | inr ne ↦ other_field c c' fp k q v merged w ne h
              ]
        ]

  merge_constraint-StaysInForce :
      (c c' : ConstraintContext) (fp k q : String) (v constraint : Value) (id : String)
      → IsCopy rt.copy
      → InForce c fp k v
      → merge_constraint rt c q constraint id ≡ (c', none)
      → StaysInForce c' fp k v
  unfolding merge_constraint
  merge_constraint-StaysInForce c c' fp k q v constraint id faithful h e =
      elim (Option-cases (as_map constraint)) [
        | inl f ↦ subst (λ r. StaysInForce r fp k v) (ground (arith, f)) (unchanged c fp k v h)
        | inr (new, f) ↦
            merge_existing-StaysInForce c c' fp k q v new id
              (lookup q c.constrained_fields_by_field_path) faithful h refl (ground (arith, f))
      ]

  -- If copies are faithful and a policy's constraints merge without an error, every keyword of
  -- every field that was in force stays in force, with a value at least as tight where
  -- mergeSchemaKeywords has a rule for the keyword.
  pub merge_constraints-StaysInForce :
      (c c' : ConstraintContext) (fp k : String) (v : Value) (new : Fields) (id : String)
      → IsCopy rt.copy
      → InForce c fp k v
      → merge_constraints rt c new id ≡ (c', none)
      → StaysInForce c' fp k v
  unfolding merge_constraints
  merge_constraints-StaysInForce c c' fp k v end id faithful h e =
      subst (λ r. StaysInForce r fp k v) (ap (λ r. r.0) e) (unchanged c fp k v h)
  merge_constraints-StaysInForce c c' fp k v (field q x rest) id faithful h e =
      go (merge_constraint rt c q x id)
        (λ c₁ v₁ h₁ e'. merge_constraints-StaysInForce c₁ c' fp k v₁ rest id faithful h₁ e') refl e
    where
      go :
          (r : ConstraintContext × Option ConstraintConflictError)
          → ((c₁ : ConstraintContext) (v₁ : Value)
              → InForce c₁ fp k v₁
              → merge_constraints rt c₁ rest id ≡ (c', none)
              → StaysInForce c' fp k v₁)
          → merge_constraint rt c q x id ≡ r
          → (elim r.1 [ none ↦ merge_constraints rt r.0 rest id | some f ↦ (r.0, some f) ])
            ≡ (c', none)
          → StaysInForce c' fp k v
      go (c₁, none) later f e' =
          let (v₁, h₁, t₁) = merge_constraint-StaysInForce c c₁ fp k q v x id faithful h f in
          let (v₂, h₂, t₂) = later c₁ v₁ h₁ e' in (v₂, h₂, λ y t. t₁ y (t₂ y t))
      go (c₁, some f) later _ e' = cc

  merge_existing-sp :
      (c : ConstraintContext) (q : String) (new : Fields) (o : Option Fields) (id : String)
      → (merge_existing rt c q new o id).0.service_provider_constraints
        ≡ c.service_provider_constraints
  unfolding merge_existing
  merge_existing-sp c q new none id = refl
  merge_existing-sp c q new (some old) id = ground arith

  merge_constraint-sp :
      (c : ConstraintContext) (q : String) (x : Value) (id : String)
      → (merge_constraint rt c q x id).0.service_provider_constraints
        ≡ c.service_provider_constraints
  unfolding merge_constraint
  merge_constraint-sp c q x id = elim (Option-cases (as_map x)) [
    | inl e ↦ ground (arith, e)
    | inr (new, e) ↦
        ground
          (arith, e, merge_existing-sp c q new (lookup q c.constrained_fields_by_field_path) id)
  ]

  -- Field constraints do not touch the provider constraints.
  pub merge_constraints-sp :
      (c : ConstraintContext) (new : Fields) (id : String)
      → (merge_constraints rt c new id).0.service_provider_constraints
        ≡ c.service_provider_constraints
  unfolding merge_constraints
  merge_constraints-sp c end id = refl
  merge_constraints-sp c (field q x rest) id = ground (
    arith,
    merge_constraint-sp c q x id,
    merge_constraints-sp (merge_constraint rt c q x id).0 rest id,
  )
