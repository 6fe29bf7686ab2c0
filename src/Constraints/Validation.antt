-- ===== src/Constraints/Validation.antt =====
-- ValidatePatch, validatePatchRecursive and getOrCompileSchema of internal/service/constraints.go.
pub mod Schemas
pub mod Soundness
use dcm_policy_manager.Prelude.{
  String, Option, none, some, List, [], ◌∷◌, ◌++◌, ◌==◌, Result, ok, err, Assoc, lookup, assign,
  if◌then◌else◌, concat, nat_eq,
}
use Prim.Native.Char.{code}
use dcm_policy_manager.Value.{
  Value, null, boolean, float64, number, str, arr, obj, Fields, end, field,
}
use dcm_policy_manager.Runtime.{Runtime}
use dcm_policy_manager.Constraints.{ConstraintContext, ConstraintViolation}
use dcm_policy_manager.Constraints.Merging.{text_at}

-- strings.ReplaceAll(fieldPath, ".", "_")
unfoldable pub replace_dots : String → String
replace_dots String.[] = ""
replace_dots (String.◌∷◌ c s) =
    if nat_eq (code c) b'.' then String.◌∷◌ "_" (replace_dots s) else String.◌∷◌ c (replace_dots s)

unfoldable pub resource_uri : String → String
unfolding replace_dots
resource_uri field_path = concat ("file:///constraint/" ∷ replace_dots field_path ∷ [])

-- The compiler and the cache of compiled schemas by field path, which one call of ValidatePatch
-- shares, and the violations found so far.
pub record Validator (C S : Type 0) : Type 0 where
  pub compiler : C
  pub compiled : Assoc S
  pub violations : List ConstraintViolation

module _ {C S : Type 0} (rt : Runtime C S) where
  abbrev failing : String → String → Result String S
  failing what e = err (concat (what ∷ e ∷ []))

  finish_compile : Validator C S → String → C × Result String S → Validator C S × Result String S
  finish_compile v field_path (compiler, err e) =
      (record v { compiler = compiler }, failing "failed to compile schema: " e)
  finish_compile v field_path (compiler, ok comp) =
      (record v { compiler = compiler; compiled = assign field_path comp v.compiled }, ok comp)

  compile_resource : Validator C S → String → C × Option String → Validator C S × Result String S
  unfolding finish_compile resource_uri
  compile_resource v field_path (compiler, some e) =
      (record v { compiler = compiler }, failing "failed to add schema resource: " e)
  compile_resource v field_path (compiler, none) =
      finish_compile v field_path (rt.compile compiler (resource_uri field_path))

  add_document : Validator C S → String → Result String Value → Validator C S × Result String S
  unfolding compile_resource
  add_document v field_path (err e) = (v, failing "failed to parse schema: " e)
  add_document v field_path (ok schema) =
      compile_resource v field_path (rt.add_resource v.compiler (resource_uri field_path) schema)

  parse_schema : Validator C S → String → Result String String → Validator C S × Result String S
  unfolding add_document
  parse_schema v field_path (err e) = (v, failing "failed to marshal schema: " e)
  parse_schema v field_path (ok schema_bytes) =
      add_document v field_path (rt.unmarshal schema_bytes)

  unfoldable pub get_or_compile_schema :
      Validator C S → String → Fields → Validator C S × Result String S
  unfolding parse_schema
  get_or_compile_schema v field_path schema_map = elim (lookup field_path v.compiled) [
    | some s ↦ (v, ok s)
    | none ↦ parse_schema v field_path (rt.marshal (obj schema_map))
  ]

  module _ (c : ConstraintContext) where
    report : Validator C S → String → String → Validator C S
    unfolding text_at
    report v field_path reason = record v {
      violations =
          v.violations
          ++ record {
            field_path = field_path;
            reason = reason;
            set_by_policy = text_at field_path c.policy_id_by_field_path;
          }
            ∷ [];
    }

    -- the outcome of validating the value
    verdict : String → Value → Validator C S → Option String → Validator C S
    unfolding report
    verdict field_path value v none = v
    verdict field_path value v (some e) =
        report v field_path
          (concat ("value " ∷ rt.sprint value ∷ " violates constraint: " ∷ e ∷ []))

    -- the outcome of compiling the schema, and then of validating the value
    judge : String → Value → Validator C S × Result String S → Validator C S
    unfolding report verdict
    judge field_path value (v, err e) = report v field_path e
    judge field_path value (v, ok comp) = verdict field_path value v (rt.validate comp value)

    -- one field of the patch, without the fields below it
    unfoldable pub validate_field : Validator C S → String → Value → Validator C S
    unfolding judge get_or_compile_schema
    validate_field v field_path value =
        elim (lookup field_path c.constrained_fields_by_field_path) [
          | none ↦ v
          | some schema_map ↦ judge field_path value (get_or_compile_schema v field_path schema_map)
        ]

    -- the path of a key below a prefix
    unfoldable pub path_below : String → String → String
    path_below prefix key = if prefix == "" then key else concat (prefix ∷ "." ∷ key ∷ [])

    unfoldable mutual
      unfolding validate_field path_below

      pub validate_patch_recursive : String → Fields → Validator C S → Validator C S
      validate_patch_recursive prefix end v = v
      validate_patch_recursive prefix (field key value rest) v =
          validate_patch_recursive prefix rest (
            validate_nested (path_below prefix key) value
              (validate_field v (path_below prefix key) value))

      -- a map is entered, any other value has nothing below it
      pub validate_nested : String → Value → Validator C S → Validator C S
      validate_nested field_path (obj nested_map) v =
          validate_patch_recursive field_path nested_map v
      validate_nested field_path null v = v
      validate_nested field_path (boolean b) v = v
      validate_nested field_path (float64 n) v = v
      validate_nested field_path (number s) v = v
      validate_nested field_path (str s) v = v
      validate_nested field_path (arr vs) v = v

    unfoldable pub validate_patch : Fields → List ConstraintViolation
    unfolding validate_patch_recursive
    validate_patch patch =
        (validate_patch_recursive "" patch
          (record { compiler = rt.new_compiler; compiled = []; violations = [] })).violations
