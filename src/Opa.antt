-- ===== src/Opa.antt =====
-- internal/opa/engine.go: the embedded policy engine. OPA's library is a parameter. The engine's
-- state is its map of prepared queries, by policy ID, where a nil map is one without entries; the
-- locks make each operation one step.
pub mod Compiling
pub mod Serving
use Prim.Native.String as Text
use Prim.Native.Char.{code}
use dcm_policy_manager.Prelude.{
  String, Bool, true, false, Option, none, some, List, [], ◌∷◌, ◌==◌, Result, ok, err, ◌>>=◌,
  map_err, if◌then◌else◌, Assoc, lookup, assign, concat, nat_eq,
}
use dcm_policy_manager.Text.{trim_space}
use dcm_policy_manager.Value.{Value, null, obj, arr, str, number, float64, boolean, Fields, end}
use dcm_policy_manager.Decision.{EvaluationResult}
use dcm_policy_manager.Service.{
  Engine, EngineError, invalid_rego, engine_internal, unexpected, PolicyModule,
}

-- What the engine calls of OPA: `K` is the type of a compiler, `Q` of a prepared query. An error is
-- its text.
pub record Library (K Q : Type 0) : Type 0 where
  -- ast.CompileModulesWithOpt
  pub compile_modules : Assoc String → Result String K
  -- compiler.Modules[id].Package.Path.String()
  pub package_path : K → String → String
  -- rego.New with a query, then PrepareForEval
  pub prepare : K → String → Result String Q
  -- Eval, with the values of the expressions of each result
  pub eval : Q → Fields → Result String (List (List Value))
  -- ast.ParseModuleWithOpts
  pub parse_module : String → Option String
  -- %T
  pub type_name : Value → String

-- strings.TrimPrefix: what follows the prefix, or the whole text
after_prefix : String → String → Option String
after_prefix Text.[] s = some s
after_prefix (Text.◌∷◌ c p) Text.[] = none
after_prefix (Text.◌∷◌ c p) (Text.◌∷◌ d s) =
    let rest = after_prefix p s in if nat_eq (code c) (code d) then rest else none

or_whole : Option String → String → String
or_whole none s = s
or_whole (some rest) s = rest

unfoldable pub trim_prefix : String → String → String
unfolding after_prefix or_whole
trim_prefix s prefix = or_whole (after_prefix prefix s) s

unfoldable pub undefined_result : EvaluationResult
undefined_result = record { result = end; defined = false }

-- the map of the sources, by ID
unfoldable pub add_sources : List PolicyModule → Assoc String → Assoc String
add_sources [] sources = sources
add_sources (p ∷ policies) sources = add_sources policies (assign p.id p.rego_code sources)

module _ {K Q : Type 0} (opa : Library K Q) where
  unfoldable pub main_query : K → String → String
  main_query compiler id =
      concat ("data." ∷ trim_prefix (opa.package_path compiler id) "data." ∷ ".main" ∷ [])

  abbrev pub prepare_failure : String → String → EngineError
  prepare_failure id e =
      invalid_rego
        (concat ("invalid Rego code: failed to prepare query for policy '" ∷ id ∷ "': " ∷ e ∷ []))

  -- the loop that makes one prepared query per policy
  unfoldable pub build_queries : K → List PolicyModule → Assoc Q → Result EngineError (Assoc Q)
  build_queries compiler [] queries = ok queries
  build_queries compiler (p ∷ policies) queries = do
    q ← map_err (prepare_failure p.id) (opa.prepare compiler (main_query compiler p.id))
    build_queries compiler policies (assign p.id q queries)

  abbrev pub syntax_failure : String → EngineError
  syntax_failure e = invalid_rego (concat ("invalid Rego code: " ∷ e ∷ []))

  unfoldable pub new_queries : List PolicyModule → Result EngineError (Assoc Q)
  unfolding build_queries
  new_queries policies = do
    compiler ← map_err syntax_failure (opa.compile_modules (add_sources policies []))
    build_queries compiler policies []

  -- the assignment to `e.queries`, or the error that comes before it
  swapped : Assoc Q → Result EngineError (Assoc Q) → Assoc Q × Option EngineError
  swapped queries (err e) = (queries, some e)
  swapped queries (ok fresh) = (fresh, none)

  unfoldable pub compile : Assoc Q → List PolicyModule → Assoc Q × Option EngineError
  unfolding swapped
  compile queries [] = ([], none)
  compile queries (p ∷ policies) = swapped queries (new_queries (p ∷ policies))

  abbrev not_an_object : Value → EngineError
  not_an_object v = engine_internal (
      concat (
        "policy engine internal error: policy main rule must return an object; got "
        ∷ opa.type_name v
        ∷ []))

  result_of_value : Value → Result EngineError EvaluationResult
  unfolding undefined_result
  result_of_value null = ok undefined_result
  result_of_value (obj result) = ok (record { result = result; defined = true })
  result_of_value (arr vs) = err (not_an_object (arr vs))
  result_of_value (str s) = err (not_an_object (str s))
  result_of_value (number s) = err (not_an_object (number s))
  result_of_value (float64 n) = err (not_an_object (float64 n))
  result_of_value (boolean b) = err (not_an_object (boolean b))

  -- rs[0].Expressions[0].Value, if there is one
  result_of_set : List (List Value) → Result EngineError EvaluationResult
  unfolding result_of_value
  result_of_set [] = ok undefined_result
  result_of_set ([] ∷ rs) = ok undefined_result
  result_of_set ((v ∷ vs) ∷ rs) = result_of_value v

  abbrev evaluation_failure : String → String → EngineError
  evaluation_failure policy_id e =
      unexpected (concat ("evaluation error for policy '" ∷ policy_id ∷ "': " ∷ e ∷ []))

  run_query : String → Option Q → Fields → Result EngineError EvaluationResult
  unfolding result_of_set
  run_query policy_id none input = ok undefined_result
  run_query policy_id (some pq) input = do
    rs ← map_err (evaluation_failure policy_id) (opa.eval pq input)
    result_of_set rs

  unfoldable pub evaluate_policy : Assoc Q → String → Fields → Result EngineError EvaluationResult
  unfolding run_query
  evaluate_policy queries policy_id input = run_query policy_id (lookup policy_id queries) input

  syntax_error : Option String → Option EngineError
  syntax_error none = none
  syntax_error (some e) = some (syntax_failure e)

  unfoldable pub validate_rego : String → Option EngineError
  unfolding syntax_error
  validate_rego rego_code =
      if trim_space rego_code == ""
      then some (invalid_rego "invalid Rego code: empty Rego code")
      else syntax_error (opa.parse_module rego_code)

  -- the engine that the policy service uses
  abbrev pub embedded_engine : Engine (Assoc Q)
  embedded_engine = record { compile = compile; validate_rego = validate_rego }
