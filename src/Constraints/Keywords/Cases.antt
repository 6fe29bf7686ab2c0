-- ===== src/Constraints/Keywords/Cases.antt =====
-- The outcomes of one case of the switch of mergeSchemaKeywords.
use native.Mathlib.Nat.{mod-eq-zero_of_dvd, dvd_trans, dvd_of_mod-eq-zero}
use dcm_policy_manager.Prelude.{
  String, true, false, Option, none, some, List, [], ◌∷◌, ◌==◌, ◌≡◌, refl, ◌⊎◌, inl, inr, arith,
  Result, ok, eq_iff, Bool-cases, Option-cases,
}
use dcm_policy_manager.Prelude.Int.{ℤ, magnitude, ◌≤ℤ◌}
use dcm_policy_manager.Value.{
  Value, float64, arr, Items, Fields, get, put, items, from_items, as_slice, as_string,
}
use dcm_policy_manager.Runtime.{Runtime}
use dcm_policy_manager.Constraints.{ConstraintConflictError}
use dcm_policy_manager.Constraints.Keywords.{
  Rule, const_rule, enum_rule, at_least, at_most, above, below, pattern_rule, multiple_of_rule,
  other, rule_of, max_ℤ, min_ℤ, divides, is_zero, to_float64, intersect_any_slices, raise, lower,
  merge_const, merge_enum, intersected_enum, merge_pattern, merge_multiple_of, merge_by_rule,
  merge_keyword,
}

pub divides_trans : (a b c : ℤ) → divides a b ≡ true → divides b c ≡ true → divides a c ≡ true
unfolding divides
divides_trans a b c h k = ground (
  arith,
  mod-eq-zero_of_dvd (magnitude a) (
      dvd_trans (magnitude a) (dvd_of_mod-eq-zero (magnitude a) {n = magnitude b} (ground arith))
        (dvd_of_mod-eq-zero (magnitude b) {n = magnitude c} (ground arith))),
)

pub rule_of-all_of : rule_of "allOf" ≡ other
unfolding rule_of
rule_of-all_of = refl

pub not_all_of : (k : String) → rule_of k ≡ pattern_rule → ("allOf" == k) ≡ false
not_all_of k h = ground (arith, eq_iff "allOf" k, rule_of-all_of)

-- What one round can do to the merged keywords: nothing, set the round's keyword, or set "allOf".
pub data Written (kw : String) (m m' : Fields) : Type 0 where
  same : m' ≡ m → Written kw m m'
  set_keyword : (v : Value) → m' ≡ put kw v m → Written kw m m'
  set_all_of : (v : Value) → m' ≡ put "allOf" v m → Written kw m m'

bound_Written :
    {kw : String} {m m' : Fields} {P : ℤ → ℤ → Type 0} {e : Option ℤ}
    → (m' ≡ m) ⊎ ((a b : ℤ) × (e ≡ some a) × (m' ≡ put kw (float64 b) m) × P a b)
    → Written kw m m'
bound_Written (inl e) = same e
bound_Written (inr (a, b, e, e', p)) = set_keyword (float64 b) e'

module _ {C S : Type 0} (rt : Runtime C S) where
  module _ (fp id k : String) (m m' : Fields) where
    pub all_of_written :
        {x : Fields} → ◌≡◌ {A = Result ConstraintConflictError Fields} (ok x) (ok m') → m' ≡ x
    all_of_written h = cc

    -- The bound is left alone, or a tighter one is written.
    pub raise_cases :
        (e n : Option ℤ)
        → raise rt fp id k e n m ≡ ok m'
        → (m' ≡ m) ⊎ ((a b : ℤ) × (e ≡ some a) × (m' ≡ put k (float64 b) m) × (a ≤ℤ b))
    unfolding raise max_ℤ
    raise_cases none n h = inl (ground arith)
    raise_cases (some a) none h = inl (ground arith)
    raise_cases (some a) (some b) h = inr (a, max_ℤ a b, refl, ground arith, ground arith)

    pub lower_cases :
        (e n : Option ℤ)
        → lower rt fp id k e n m ≡ ok m'
        → (m' ≡ m) ⊎ ((a b : ℤ) × (e ≡ some a) × (m' ≡ put k (float64 b) m) × (b ≤ℤ a))
    unfolding lower min_ℤ
    lower_cases none n h = inl (ground arith)
    lower_cases (some a) none h = inl (ground arith)
    lower_cases (some a) (some b) h = inr (a, min_ℤ a b, refl, ground arith, ground arith)

    pub multiple_of_cases :
        (e n : Option ℤ)
        → merge_multiple_of rt fp id k e n m ≡ ok m'
        → (m' ≡ m)
          ⊎ ((a b : ℤ) × (e ≡ some a)
              × (m' ≡ put k (float64 b) m)
              × (divides a b ≡ true)
              × (is_zero a ≡ false))
    unfolding merge_multiple_of
    multiple_of_cases none n h = inl (ground arith)
    multiple_of_cases (some a) none h = inl (ground arith)
    multiple_of_cases (some a) (some b) h = elim (Bool-cases (is_zero a)) [
      | inl z ↦ inl (ground (arith, z))
      | inr nz ↦ inr (a, b, refl, ground (arith, nz), ground (arith, nz), nz)
    ]

    pub const_same : (ev nv : Value) → merge_const rt fp id ev nv m ≡ ok m' → m' ≡ m
    unfolding merge_const
    const_same ev nv h = ground arith

    pub pattern_cases :
        (e n : Option String)
        → merge_pattern rt fp id e n m ≡ ok m'
        → (m' ≡ m) ⊎ ((v : Value) × (m' ≡ put "allOf" v m))
    unfolding merge_pattern
    pattern_cases none n h = inl (ground arith)
    pattern_cases (some a) none h = inl (ground arith)
    pattern_cases (some a) (some b) h = elim (Bool-cases (a == b)) [
      | inl e ↦ inl (ground (arith, e))
      | inr e ↦ inr (_, all_of_written (rw (e) at h))
    ]

    pub enum_written :
        (es ns : Items) (vs : List Value)
        → intersected_enum rt fp id k es ns vs m ≡ ok m'
        → m' ≡ put k (arr (from_items vs)) m
    unfolding intersected_enum
    enum_written es ns [] h = cc
    enum_written es ns (v ∷ vs) h = cc

    pub enum_cases :
        (e n : Option Items)
        → merge_enum rt fp id k e n m ≡ ok m'
        → (m' ≡ m)
          ⊎ ((es ns : Items) × (e ≡ some es)
              × (m' ≡ put k (arr (from_items (intersect_any_slices rt (items es) (items ns)))) m))
    unfolding merge_enum
    enum_cases none n h = inl (ground arith)
    enum_cases (some es) none h = inl (ground arith)
    enum_cases (some es) (some ns) h = inr (es, ns, refl, enum_written es ns _ h)

  module _ (fp id kw : String) (m m' : Fields) where
    merge_by_rule-Written :
        (r : Rule) (ev nv : Value) → merge_by_rule rt fp id r kw ev nv m ≡ ok m' → Written kw m m'
    unfolding merge_by_rule
    merge_by_rule-Written const_rule ev nv h = same (const_same fp id kw m m' ev nv h)
    merge_by_rule-Written enum_rule ev nv h =
        elim (enum_cases fp id kw m m' (as_slice ev) (as_slice nv) h) [
          | inl e ↦ same e
          | inr (es, ns, e, e') ↦ set_keyword _ e'
        ]
    merge_by_rule-Written at_least ev nv h =
        bound_Written (raise_cases fp id kw m m' (to_float64 rt ev) (to_float64 rt nv) h)
    merge_by_rule-Written at_most ev nv h =
        bound_Written (lower_cases fp id kw m m' (to_float64 rt ev) (to_float64 rt nv) h)
    merge_by_rule-Written above ev nv h =
        bound_Written (raise_cases fp id kw m m' (to_float64 rt ev) (to_float64 rt nv) h)
    merge_by_rule-Written below ev nv h =
        bound_Written (lower_cases fp id kw m m' (to_float64 rt ev) (to_float64 rt nv) h)
    merge_by_rule-Written pattern_rule ev nv h =
        elim (pattern_cases fp id kw m m' (as_string ev) (as_string nv) h) [
          | inl e ↦ same e
          | inr (v, e) ↦ set_all_of v e
        ]
    merge_by_rule-Written multiple_of_rule ev nv h =
        elim (multiple_of_cases fp id kw m m' (to_float64 rt ev) (to_float64 rt nv) h) [
          | inl e ↦ same e
          | inr (a, b, e, e', d, nz) ↦ set_keyword _ e'
        ]
    merge_by_rule-Written other ev nv h = set_keyword nv (all_of_written fp id kw m m' h)

    pub merge_keyword-Written :
        (nv : Value) → merge_keyword rt fp id m kw nv ≡ ok m' → Written kw m m'
    unfolding merge_keyword
    merge_keyword-Written nv h = elim (Option-cases (get kw m)) [
      | inl e ↦ set_keyword nv (ground (arith, e))
      | inr (ev, e) ↦ merge_by_rule-Written (rule_of kw) ev nv (ground (arith, e))
    ]
