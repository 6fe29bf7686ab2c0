-- ===== src/Tests/Libraries.antt =====
-- A small stand-in for the libraries: copies are faithful, texts marshal to themselves, a pattern
-- matches the text that equals it, and a schema's "const" is all that validation looks at.
use dcm_policy_manager.Prelude.{
  String, false, Option, none, some, [], ◌==◌, Result, ok, err, if◌then◌else◌, Assoc, lookup,
  assign,
}
use dcm_policy_manager.Prelude.Int.{pos}
use dcm_policy_manager.Value.{Value, str, number, obj, end, field, get, as_map, as_string, assert}
use dcm_policy_manager.Value.Copy.{IsCopy}
use dcm_policy_manager.Runtime.{Runtime}

abbrev text_of : Value → String
text_of (str s) = s
text_of (number s) = s
text_of _ = ""

abbrev const_of : Value → Option String
const_of schema = elim (as_map schema) [ none ↦ none | some fs ↦ assert as_string (get "const" fs) ]

abbrev judged : Option String → Value → Option String
judged none v = none
judged (some c) v = if text_of v == c then none else some "const"

abbrev registered : Assoc Value → String → Value → Option Value → Assoc Value × Option String
registered c uri doc none = (assign uri doc c, none)
registered c uri doc (some old) = (c, some "exists")

abbrev looked_up : Assoc Value → Option Value → Assoc Value × Result String Value
looked_up c none = (c, err "missing")
looked_up c (some doc) = (c, ok doc)

abbrev pub library : Runtime (Assoc Value) Value
library = record {
  copy = λ m. ok m;
  equal = λ a b. false;
  marshal = λ v. ok (text_of v);
  sprint = text_of;
  parse_float = λ s. if s == "4" then some (pos 4) else none;
  match_string = λ pattern s. ok (pattern == s);
  new_compiler = [];
  unmarshal = λ s. ok (obj (field "const" (str "small") end));
  add_resource = λ c uri doc. registered c uri doc (lookup uri c);
  compile = λ c uri. looked_up c (lookup uri c);
  validate = λ s v. judged (const_of s) v;
}

pub copy_faithful : IsCopy library.copy
copy_faithful m m' h = cc
