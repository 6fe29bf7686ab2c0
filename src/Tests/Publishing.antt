-- ===== src/Tests/Publishing.antt =====
-- The embedded engine over a library whose compiler is the map of the sources and whose query is
-- its text, and the policy service over the store of one row and this engine.
use dcm_policy_manager.Prelude.{String, none, some, [], ◌∷◌, ◌≡◌, refl, ok, Assoc, assign, concat}
use dcm_policy_manager.Value.{obj}
use dcm_policy_manager.Convert.{ApiPolicy}
use dcm_policy_manager.Service.{PolicyModule}
use dcm_policy_manager.Opa.{Library, compile, new_queries, build_queries, main_query, trim_prefix}
use dcm_policy_manager.Opa.Compiling.{Serves, compile-Serves}
use dcm_policy_manager.Tests.Serving.{nothing_given}

abbrev path_in : Assoc String → String → String
path_in sources id = concat ("data.policies." ∷ id ∷ [])

abbrev pub echo : Library (Assoc String) String
echo = record {
  compile_modules = λ sources. ok sources;
  package_path = path_in;
  prepare = λ compiler query. ok query;
  eval = λ q input. ok ((obj input ∷ []) ∷ []);
  parse_module = λ code. none;
  type_name = λ v. "string";
}

abbrev first_module : PolicyModule
first_module = record { id = "p1"; rego_code = "package policies.p1" }

abbrev pub queries_of_p1 : Assoc String
queries_of_p1 = ("p1", "data.policies.p1.main") ∷ []

compiled_p1 : compile echo [] (first_module ∷ []) ≡ (queries_of_p1, none)
unfolding compile new_queries build_queries main_query trim_prefix assign concat
compiled_p1 = refl

compile-Serves_example : Serves echo (first_module ∷ []) queries_of_p1
compile-Serves_example = compile-Serves echo (first_module ∷ []) [] queries_of_p1 compiled_p1

abbrev pub new_policy : ApiPolicy
new_policy = record nothing_given {
  display_name = some "first";
  policy_type = some "GLOBAL";
  rego_code = some "package policies.p1";
}

abbrev pub new_code : ApiPolicy
new_code = record nothing_given { rego_code = some "package policies.p1 # v2" }
