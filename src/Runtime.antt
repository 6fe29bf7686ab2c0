-- ===== src/Runtime.antt =====
-- What the program calls and does not implement: github.com/brunoga/deep, encoding/json, the verb
-- %v of fmt, strconv's reading of a float64, regexp, and github.com/santhosh-tekuri/jsonschema.
-- An error is its message. `C` and `S` are the schema library's compiler and compiled schema.
use dcm_policy_manager.Prelude.{String, Bool, Option, List, Result, map}
use dcm_policy_manager.Prelude.Int.{ℤ}
use dcm_policy_manager.Value.{Value, Fields, str, arr, from_items}

pub record Runtime (C S : Type 0) : Type 0 where
  -- deep.Copy, deep.Equal
  pub copy : Fields → Result String Fields
  pub equal : Fields → Fields → Bool
  -- json.Marshal, fmt's %v, json.Number.Float64, regexp.MatchString (pattern, then text)
  pub marshal : Value → Result String String
  pub sprint : Value → String
  pub parse_float : String → Option ℤ
  pub match_string : String → String → Result String Bool
  -- jsonschema.NewCompiler, UnmarshalJSON, AddResource, Compile, Validate
  pub new_compiler : C
  pub unmarshal : String → Result String Value
  pub add_resource : C → String → Value → C × Option String
  pub compile : C → String → C × Result String S
  pub validate : S → Value → Option String

-- What %v prints for a `[]string`, by what it prints for the same texts as values.
abbrev pub sprint_strings : {C S : Type 0} → Runtime C S → List String → String
sprint_strings rt ss = rt.sprint (arr (from_items (map str ss)))
