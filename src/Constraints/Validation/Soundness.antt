-- ===== src/Constraints/Validation/Soundness.antt =====
-- What it means that ValidatePatch finds no violation.
use dcm_policy_manager.Prelude.{
  String, Option, none, some, List, [], ◌∷◌, ◌++◌, Result, ok, err, ◌≡◌, refl, sym, ◌∙◌, subst, inl,
  inr, lookup, Option-cases,
}
use dcm_policy_manager.Value.{
  Value, null, boolean, float64, number, str, arr, obj, Fields, end, field,
}
use dcm_policy_manager.Runtime.{Runtime}
use dcm_policy_manager.Constraints.{ConstraintContext}
use dcm_policy_manager.Constraints.Validation.{
  Validator, judge, report, verdict, validate_field, path_below, validate_patch_recursive,
  validate_nested, validate_patch, get_or_compile_schema,
}
use dcm_policy_manager.Constraints.Validation.Schemas.{
  IsCompiled, IsCache, IsObtained, get_or_compile_schema-IsObtained,
}

module _ {C S : Type 0} (rt : Runtime C S) (c : ConstraintContext) where
  -- A value meets the constraints of its field path, if there are any: a schema compiled from them
  -- takes it.
  abbrev pub MeetsConstraints : String → Value → Type 0
  MeetsConstraints field_path value =
      (schema_map : Fields)
      → lookup field_path c.constrained_fields_by_field_path ≡ some schema_map
      → (comp : S) × IsCompiled rt field_path schema_map comp × (rt.validate comp value ≡ none)

  unfoldable mutual
    -- All fields below a path do, at any depth of maps.
    pub AllMeet : String → Fields → Type 0
    AllMeet prefix end = Unit
    AllMeet prefix (field key value rest) =
        MeetsConstraints (path_below rt c prefix key) value
        × NestedMeet (path_below rt c prefix key) value
        × AllMeet prefix rest

    pub NestedMeet : String → Value → Type 0
    NestedMeet field_path (obj nested_map) = AllMeet field_path nested_map
    NestedMeet field_path null = Unit
    NestedMeet field_path (boolean b) = Unit
    NestedMeet field_path (float64 n) = Unit
    NestedMeet field_path (number s) = Unit
    NestedMeet field_path (str s) = Unit
    NestedMeet field_path (arr vs) = Unit

  -- From v to v' the cache stays one, and if there is no violation at the end then there was none
  -- before, and P holds.
  record IsSound (v v' : Validator C S) (P : Type 0) : Type 0 where
    cache : IsCache rt c v'.compiled
    clean : v'.violations ≡ [] → (v.violations ≡ []) × P

  more_than_none : {A : Type 0} → (xs : List A) (x : A) → xs ++ x ∷ [] ≡ [] → ⊥
  more_than_none [] x h = cc
  more_than_none (y ∷ xs) x h = cc

  judge-IsSound :
      (v : Validator C S) (field_path : String) (value : Value) (schema_map : Fields)
      → lookup field_path c.constrained_fields_by_field_path ≡ some schema_map
      → (result : Validator C S × Result String S) → IsObtained rt c v field_path schema_map result
      → IsSound v (judge rt c field_path value result) (MeetsConstraints field_path value)
  unfolding judge report verdict
  judge-IsSound v field_path value schema_map known (w, err e) r = record {
    cache = r.cache;
    clean = λ h. absurd (more_than_none w.violations _ h);
  }
  judge-IsSound v field_path value schema_map known (w, ok comp) r =
      judged (rt.validate comp value) refl
    where
      judged :
          (outcome : Option String)
          → rt.validate comp value ≡ outcome
          → IsSound v (verdict rt c field_path value w outcome) (MeetsConstraints field_path value)
      judged none e = record {
        cache = r.cache;
        clean = λ h. (
          sym r.same ∙ h,
          λ other k.
              let same : schema_map ≡ other = cc (known, k) in
              (comp, subst (λ m. IsCompiled rt field_path m comp) same (r.source comp refl), e),
        );
      }
      judged (some message) e = record {
        cache = r.cache;
        clean = λ h. absurd (more_than_none w.violations _ h);
      }

  field-IsSound :
      (v : Validator C S) (field_path : String) (value : Value)
      → IsCache rt c v.compiled
      → IsSound v (validate_field rt c v field_path value) (MeetsConstraints field_path value)
  unfolding validate_field
  field-IsSound v field_path value cached =
      elim (Option-cases (lookup field_path c.constrained_fields_by_field_path)) [
        | inl e ↦
            let step : validate_field rt c v field_path value ≡ v = rw (e, validate_field) in
            subst (λ w. IsSound v w (MeetsConstraints field_path value)) (sym step)
              (record { cache = cached; clean = λ h. (h, λ schema_map k. cc (e, k)) })
        | inr (schema_map, e) ↦
            let obtained = get_or_compile_schema rt v field_path schema_map in
            let step : validate_field rt c v field_path value
                ≡ judge rt c field_path value obtained =
              rw (e, validate_field) in
            subst (λ w. IsSound v w (MeetsConstraints field_path value)) (sym step)
              (judge-IsSound v field_path value schema_map e obtained
                (get_or_compile_schema-IsObtained rt c v field_path schema_map cached e))
      ]

  mutual
    unfolding validate_patch_recursive AllMeet

    patch-IsSound :
        (prefix : String) (fields : Fields) (v : Validator C S)
        → IsCache rt c v.compiled
        → IsSound v (validate_patch_recursive rt c prefix fields v) (AllMeet prefix fields)
    patch-IsSound prefix end v cached = record { cache = cached; clean = λ h. (h, tt) }
    patch-IsSound prefix (field key value rest) v cached =
        let path = path_below rt c prefix key in
        let s1 = field-IsSound v path value cached in
        let s2 = nested-IsSound path value (validate_field rt c v path value) s1.cache in
        let s3 =
          patch-IsSound prefix rest
            (validate_nested rt c path value (validate_field rt c v path value)) s2.cache in
        record {
          cache = s3.cache;
          clean = λ h.
              let (h2, all) = s3.clean h in
              let (h1, nested) = s2.clean h2 in
              let (h0, meets) = s1.clean h1 in (h0, (meets, nested, all));
        }

    nested-IsSound :
        (field_path : String) (value : Value) (v : Validator C S)
        → IsCache rt c v.compiled
        → IsSound v (validate_nested rt c field_path value v) (NestedMeet field_path value)
    nested-IsSound field_path (obj nested_map) v cached =
        patch-IsSound field_path nested_map v cached
    nested-IsSound field_path null v cached = record { cache = cached; clean = λ h. (h, tt) }
    nested-IsSound field_path (boolean b) v cached = record { cache = cached; clean = λ h. (h, tt) }
    nested-IsSound field_path (float64 n) v cached = record { cache = cached; clean = λ h. (h, tt) }
    nested-IsSound field_path (number s) v cached = record { cache = cached; clean = λ h. (h, tt) }
    nested-IsSound field_path (str s) v cached = record { cache = cached; clean = λ h. (h, tt) }
    nested-IsSound field_path (arr vs) v cached = record { cache = cached; clean = λ h. (h, tt) }

  empty-IsCache : IsCache rt c []
  unfolding lookup
  empty-IsCache field_path comp schema_map e k = absurd (nothing_read e)
    where
      nothing_read : ◌≡◌ {A = Option S} none (some comp) → ⊥
      nothing_read h = cc

  -- If ValidatePatch finds no violation, then every field of the patch, at any depth of maps, whose
  -- path has constraints has a value that a schema compiled from these constraints takes.
  pub validate_patch_sound : (patch : Fields) → validate_patch rt c patch ≡ [] → AllMeet "" patch
  unfolding validate_patch
  validate_patch_sound patch h =
      ((patch-IsSound "" patch
          (record { compiler = rt.new_compiler; compiled = []; violations = [] })
          empty-IsCache).clean
        h).1
