-- ===== src/Constraints/Validation/Schemas.antt =====
-- What getOrCompileSchema returns: a schema that the library compiled from the constraints of the
-- field, also when it comes from the cache.
use dcm_policy_manager.Prelude.{
  String, Option, none, some, Result, ok, err, Assoc, ◌≡◌, ◌==◌, true, subst, eq_iff, refl, arith,
  inl, inr, eq-cases, lookup, assign, lookup-assign, Option-cases,
}
use dcm_policy_manager.Value.{Value, Fields, obj}
use dcm_policy_manager.Runtime.{Runtime}
use dcm_policy_manager.Constraints.{ConstraintContext}
use dcm_policy_manager.Constraints.Validation.{
  Validator, resource_uri, finish_compile, compile_resource, add_document, parse_schema,
  get_or_compile_schema,
}

module _ {C S : Type 0} (rt : Runtime C S) where
  -- The schema of a field path, compiled from its constraints by a compiler that took them in.
  pub record IsCompiled (field_path : String) (schema_map : Fields) (comp : S) : Type 0 where
    pub schema_bytes : String
    pub schema : Value
    pub before : C
    pub added : C
    pub after : C
    pub marshalled : rt.marshal (obj schema_map) ≡ ok schema_bytes
    pub parsed : rt.unmarshal schema_bytes ≡ ok schema
    pub taken_in : rt.add_resource before (resource_uri field_path) schema ≡ (added, none)
    pub compiled : rt.compile added (resource_uri field_path) ≡ (after, ok comp)

  module _ (c : ConstraintContext) where
    -- Every schema of the cache is one of its field path's constraints.
    abbrev pub IsCache : Assoc S → Type 0
    IsCache compiled =
        (field_path : String) (comp : S) (schema_map : Fields)
        → lookup field_path compiled ≡ some comp
        → lookup field_path c.constrained_fields_by_field_path ≡ some schema_map
        → IsCompiled field_path schema_map comp

    pub record IsObtained (v : Validator C S) (field_path : String) (schema_map : Fields)
        (result : Validator C S × Result String S) : Type 0 where
      pub cache : IsCache result.0.compiled
      pub same : result.0.violations ≡ v.violations
      pub source : (comp : S) → result.1 ≡ ok comp → IsCompiled field_path schema_map comp

    module _ (v : Validator C S) (field_path : String) (schema_map : Fields)
        (cached : IsCache v.compiled)
        (known : lookup field_path c.constrained_fields_by_field_path ≡ some schema_map) where
      -- a failure leaves the cache
      failure-IsObtained :
          (k : C) (e : String)
          → IsObtained v field_path schema_map (record v { compiler = k }, err e)
      failure-IsObtained k e = record { cache = cached; same = refl; source = λ comp h. cc }

      -- The new schema is cached under its field path only.
      new-IsCache :
          (comp : S)
          → IsCompiled field_path schema_map comp
          → IsCache (assign field_path comp v.compiled)
      new-IsCache comp made path other schema h k = elim (eq-cases field_path path) [
        | inl same ↦
            let hit : (field_path == path) ≡ true = (eq_iff field_path path).1 same in
            let read : comp ≡ other =
              ground (arith, h, lookup-assign field_path path comp v.compiled, hit) in
            let map : schema_map ≡ schema = ground (arith, k, known, same) in
            subst (λ s. IsCompiled path s other) map
              (subst (IsCompiled path schema_map) read
                (subst (λ q. IsCompiled q schema_map comp) same made))
        | inr differ ↦
            let missed : lookup path v.compiled ≡ some other =
              ground (arith, h, lookup-assign field_path path comp v.compiled, differ) in
            cached path other schema missed k
      ]

      compile-IsObtained :
          (schema_bytes : String) (schema : Value) (before added : C)
          → rt.marshal (obj schema_map) ≡ ok schema_bytes
          → rt.unmarshal schema_bytes ≡ ok schema
          → rt.add_resource before (resource_uri field_path) schema ≡ (added, none)
          → (made : C × Result String S) → rt.compile added (resource_uri field_path) ≡ made
          → IsObtained v field_path schema_map (finish_compile rt v field_path made)
      unfolding finish_compile
      compile-IsObtained schema_bytes schema before added m u a (after, err e) f =
          failure-IsObtained after _
      compile-IsObtained schema_bytes schema before added m u a (after, ok comp) f =
          let made : IsCompiled field_path schema_map comp = record {
            schema_bytes = schema_bytes;
            schema = schema;
            before = before;
            added = added;
            after = after;
            marshalled = m;
            parsed = u;
            taken_in = a;
            compiled = f;
          } in
          record {
            cache = new-IsCache comp made;
            same = refl;
            source = λ other h. subst (IsCompiled field_path schema_map) (cc) made;
          }

      add-IsObtained :
          (schema_bytes : String) (schema : Value)
          → rt.marshal (obj schema_map) ≡ ok schema_bytes
          → rt.unmarshal schema_bytes ≡ ok schema
          → (taken : C × Option String)
          → rt.add_resource v.compiler (resource_uri field_path) schema ≡ taken
          → IsObtained v field_path schema_map (compile_resource rt v field_path taken)
      unfolding compile_resource
      add-IsObtained schema_bytes schema m u (added, some e) a = failure-IsObtained added _
      add-IsObtained schema_bytes schema m u (added, none) a =
          compile-IsObtained schema_bytes schema v.compiler added m u a
            (rt.compile added (resource_uri field_path)) refl

      parse-IsObtained :
          (schema_bytes : String)
          → rt.marshal (obj schema_map) ≡ ok schema_bytes
          → (parsed : Result String Value) → rt.unmarshal schema_bytes ≡ parsed
          → IsObtained v field_path schema_map (add_document rt v field_path parsed)
      unfolding add_document
      parse-IsObtained schema_bytes m (err e) u = failure-IsObtained v.compiler _
      parse-IsObtained schema_bytes m (ok schema) u =
          add-IsObtained schema_bytes schema m u
            (rt.add_resource v.compiler (resource_uri field_path) schema) refl

      marshal-IsObtained :
          (marshalled : Result String String)
          → rt.marshal (obj schema_map) ≡ marshalled
          → IsObtained v field_path schema_map (parse_schema rt v field_path marshalled)
      unfolding parse_schema
      marshal-IsObtained (err e) m = failure-IsObtained v.compiler _
      marshal-IsObtained (ok schema_bytes) m =
          parse-IsObtained schema_bytes m (rt.unmarshal schema_bytes) refl

      pub get_or_compile_schema-IsObtained :
          IsObtained v field_path schema_map (get_or_compile_schema rt v field_path schema_map)
      unfolding get_or_compile_schema
      get_or_compile_schema-IsObtained = elim (Option-cases (lookup field_path v.compiled)) [
        | inl e ↦
            rw (e, get_or_compile_schema) (marshal-IsObtained (rt.marshal (obj schema_map)) refl)
        | inr (comp, e) ↦
            rw (e, get_or_compile_schema)
              (record {
                cache = cached;
                same = refl;
                source = λ other h. cached field_path other schema_map (ground (arith, e, h)) known;
              })
      ]
