-- ===== src/Constraints/Keywords/Tightening.antt =====
-- A merge of keywords never loosens a keyword that the existing schema has.
use dcm_policy_manager.Prelude.{
  String, true, false, Option, none, some, List, [], ◌∷◌, ◌==◌, ◌≡◌, refl, inl, inr, arith, ok,
  Result-cases, eq-cases, subst,
}
use dcm_policy_manager.Prelude.Int.{ℤ, ◌≤ℤ◌, ◌<ℤ◌}
use dcm_policy_manager.Value.{
  Value, Items, Fields, end, field, get, put, items, from_items, as_slice, as_string,
}
use dcm_policy_manager.Value.Copy.{IsCopy, deep_copy_schema_map-eq}
use dcm_policy_manager.Value.Laws.{get-put, get-put_self}
use dcm_policy_manager.Runtime.{Runtime}
use dcm_policy_manager.Constraints.Keywords.Cases.{
  raise_cases, lower_cases, multiple_of_cases, const_same, pattern_cases, enum_cases,
  all_of_written, Written, same, set_keyword, set_all_of, merge_keyword-Written, divides_trans,
  not_all_of, rule_of-all_of,
}
use dcm_policy_manager.Constraints.Keywords.{
  Rule, const_rule, enum_rule, at_least, at_most, above, below, pattern_rule, multiple_of_rule,
  other, rule_of, divides, to_float64, json_values_equal, occurs_in, intersect_any_slices,
  merge_by_rule, merge_keyword, merge_keywords, merge_schema_keywords,
}

-- What a keyword looks at in the value that a schema is about: the value itself, the number that a
-- bound is about (the value, its length or its count), and the text that a pattern is about.
pub record Subject : Type 0 where
  pub value : Value
  pub amount : ℤ
  pub text : String

module _ {C S : Type 0} (rt : Runtime C S) where
  abbrev OfNumber : Option ℤ → (ℤ → Type 0) → Type 0
  OfNumber none P = Unit
  OfNumber (some n) P = P n

  abbrev OfSlice : Option Items → (Items → Type 0) → Type 0
  OfSlice none P = Unit
  OfSlice (some vs) P = P vs

  abbrev OfText : Option String → (String → Type 0) → Type 0
  OfText none P = Unit
  OfText (some s) P = P s

  -- What JSON Schema asks of a subject for a keyword's value. A value of the wrong kind asks
  -- nothing, and so does a keyword that the merge has no rule for.
  abbrev pub Holds : Rule → Value → Subject → Type 0
  Holds const_rule v x = json_values_equal rt x.value v ≡ true
  Holds enum_rule v x = OfSlice (as_slice v) (λ vs. occurs_in rt x.value (items vs) ≡ true)
  Holds at_least v x = OfNumber (to_float64 rt v) (λ n. n ≤ℤ x.amount)
  Holds at_most v x = OfNumber (to_float64 rt v) (λ n. x.amount ≤ℤ n)
  Holds above v x = OfNumber (to_float64 rt v) (λ n. n <ℤ x.amount)
  Holds below v x = OfNumber (to_float64 rt v) (λ n. x.amount <ℤ n)
  Holds pattern_rule v x = OfText (as_string v) (λ p. rt.match_string p x.text ≡ ok true)
  Holds multiple_of_rule v x = OfNumber (to_float64 rt v) (λ n. divides n x.amount ≡ true)
  Holds other v x = Unit

  -- Whatever meets the second value meets the first.
  abbrev pub Tightens : Rule → Value → Value → Type 0
  Tightens r ev mv = (x : Subject) → Holds r mv x → Holds r ev x

  Stays : Rule → String → Value → Fields → Type 0
  Stays r k ev m = (mv : Value) × (get k m ≡ some mv) × Tightens r ev mv

  items-from_items : (vs : List Value) → items (from_items vs) ≡ vs
  items-from_items [] = refl
  items-from_items (v ∷ vs) = rw (items-from_items vs)

  occurs_in-intersect :
      (x : Value) (a b : List Value)
      → occurs_in rt x (intersect_any_slices rt a b) ≡ true
      → occurs_in rt x a ≡ true
  unfolding occurs_in intersect_any_slices
  occurs_in-intersect x [] b h = h
  occurs_in-intersect x (av ∷ a) b h = ground (arith, occurs_in-intersect x a b)

  -- A key keeps a value, and the value it has tightens the value that it had.
  abbrev pub StaysTight : Rule → String → Value → Fields → Type 0
  StaysTight r k ev m = (mv : Value) × (get k m ≡ some mv) × Tightens r ev mv

  module _ (fp id k : String) (ev nv : Value) (m m' : Fields) (g : get k m ≡ some ev) where
    untouched : (r : Rule) → m' ≡ m → StaysTight r k ev m'
    untouched r e = (ev, rw e g, λ x h. h)

    written : (r : Rule) (v : Value) → m' ≡ put k v m → Tightens r ev v → StaysTight r k ev m'
    written r v e t = (v, rw e (get-put_self k v m), t)

    -- One case of the switch, for the key that it is about.
    merge_by_rule-tight :
        (r : Rule)
        → rule_of k ≡ r
        → merge_by_rule rt fp id r k ev nv m ≡ ok m'
        → StaysTight r k ev m'
    unfolding merge_by_rule to_float64
    merge_by_rule-tight const_rule rk h = untouched const_rule (const_same rt fp id k m m' ev nv h)
    merge_by_rule-tight enum_rule rk h =
        elim (enum_cases rt fp id k m m' (as_slice ev) (as_slice nv) h) [
          | inl e ↦ untouched enum_rule e
          | inr (es, ns, e, e') ↦ written enum_rule _ e' (λ x t. rw e (
              occurs_in-intersect x.value (items es) (items ns)
                (rw (items-from_items (intersect_any_slices rt (items es) (items ns))) at t)))
        ]
    merge_by_rule-tight at_least rk h =
        elim (raise_cases rt fp id k m m' (to_float64 rt ev) (to_float64 rt nv) h) [
          | inl e ↦ untouched at_least e
          | inr (a, b, e, e', le) ↦ written at_least _ e' (λ x t. rw e (omega arith))
        ]
    merge_by_rule-tight at_most rk h =
        elim (lower_cases rt fp id k m m' (to_float64 rt ev) (to_float64 rt nv) h) [
          | inl e ↦ untouched at_most e
          | inr (a, b, e, e', le) ↦ written at_most _ e' (λ x t. rw e (omega arith))
        ]
    merge_by_rule-tight above rk h =
        elim (raise_cases rt fp id k m m' (to_float64 rt ev) (to_float64 rt nv) h) [
          | inl e ↦ untouched above e
          | inr (a, b, e, e', le) ↦ written above _ e' (λ x t. rw e (omega arith))
        ]
    merge_by_rule-tight below rk h =
        elim (lower_cases rt fp id k m m' (to_float64 rt ev) (to_float64 rt nv) h) [
          | inl e ↦ untouched below e
          | inr (a, b, e, e', le) ↦ written below _ e' (λ x t. rw e (omega arith))
        ]
    merge_by_rule-tight pattern_rule rk h =
        elim (pattern_cases rt fp id k m m' (as_string ev) (as_string nv) h) [
          | inl e ↦ untouched pattern_rule e
          | inr (v, e) ↦ (ev, rw e (rw (get-put "allOf" k v m, not_all_of k rk) g), λ x t. t)
        ]
    merge_by_rule-tight multiple_of_rule rk h =
        elim (multiple_of_cases rt fp id k m m' (to_float64 rt ev) (to_float64 rt nv) h) [
          | inl e ↦ untouched multiple_of_rule e
          | inr (a, b, e, e', d, nz) ↦
              written multiple_of_rule _ e' (λ x t. rw e (divides_trans a b x.amount d t))
        ]
    merge_by_rule-tight other rk h = written other nv (ground arith) (λ x t. tt)

  -- A round that writes another key leaves this one, or sets it under "allOf".
  elsewhere :
      (k kw : String) (ev : Value) (m m' : Fields)
      → get k m ≡ some ev
      → (kw == k) ≡ false
      → Written kw m m'
      → StaysTight (rule_of k) k ev m'
  elsewhere k kw ev m m' g ne (same e) = (ev, rw e g, λ x h. h)
  elsewhere k kw ev m m' g ne (set_keyword v e) = (ev, rw e (rw (get-put kw k v m, ne) g), λ x h. h)
  elsewhere k kw ev m m' g ne (set_all_of v e) = elim (eq-cases "allOf" k) [
    | inl q ↦ (
      v,
      subst (λ j. get j m' ≡ some v) q (rw e (get-put_self "allOf" v m)),
      subst (λ j. Tightens (rule_of j) ev v) q (rw rule_of-all_of (λ x h. tt)),
    )
    | inr q ↦ (ev, rw e (rw (get-put "allOf" k v m, q) g), λ x h. h)
  ]

  merge_keyword-tight :
      (fp id k kw : String) (ev nv : Value) (m m' : Fields)
      → get k m ≡ some ev
      → merge_keyword rt fp id m kw nv ≡ ok m'
      → StaysTight (rule_of k) k ev m'
  unfolding merge_keyword
  merge_keyword-tight fp id k kw ev nv m m' g h = elim (eq-cases kw k) [
    | inl e ↦
        merge_by_rule-tight fp id k ev nv m m' g (rule_of k) refl
          (ground (arith, g, subst (λ q. merge_keyword rt fp id m q nv ≡ ok m') e h))
    | inr ne ↦ elsewhere k kw ev m m' g ne (merge_keyword-Written rt fp id kw m m' nv h)
  ]

  merge_keywords-tight :
      (fp id k : String) (new m m' : Fields) (ev : Value)
      → get k m ≡ some ev
      → merge_keywords rt fp id m new ≡ ok m'
      → StaysTight (rule_of k) k ev m'
  unfolding merge_keywords
  merge_keywords-tight fp id k end m m' ev g h =
      (ev, rw (all_of_written rt fp id k m m' h) g, λ x t. t)
  merge_keywords-tight fp id k (field kw nv rest) m m' ev g h =
      elim (Result-cases (merge_keyword rt fp id m kw nv)) [
        | inr (x, e) ↦ ground (arith, e)
        | inl (m₁, e) ↦
            let (v₁, g₁, t₁) = merge_keyword-tight fp id k kw ev nv m m₁ g e in
            let (v₂, g₂, t₂) = merge_keywords-tight fp id k rest m₁ m' v₁ g₁ (rw e at h) in
            (v₂, g₂, λ x t. t₁ x (t₂ x t))
      ]

  -- If copies are faithful and the merge of two schemas succeeds, every keyword of the existing
  -- schema is still there, and if the merge has a rule for the keyword, whatever meets its merged
  -- value meets the value that it had.
  pub merge_schema_keywords-tight :
      (existing new merged : Fields) (fp id k : String) (ev : Value)
      → IsCopy rt.copy
      → get k existing ≡ some ev
      → merge_schema_keywords rt existing new fp id ≡ ok merged
      → StaysTight (rule_of k) k ev merged
  unfolding merge_schema_keywords
  merge_schema_keywords-tight existing new merged fp id k ev faithful g h =
      merge_keywords-tight fp id k new existing merged ev g
        (rw (deep_copy_schema_map-eq rt.copy existing faithful) at h)
