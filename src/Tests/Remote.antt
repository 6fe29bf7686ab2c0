-- ===== src/Tests/Remote.antt =====
-- HTTP requests to the program started over the empty database of Tests/Tables, and the client
-- connected to it.
use dcm_policy_manager.Prelude.{
  String, Option, none, some, List, [], ◌∷◌, ◌++◌, All, Result, ok, err,
}
use dcm_policy_manager.Checks.Accepted.{IsValid}
use dcm_policy_manager.PolicyApi.{ServerPolicy}
use dcm_policy_manager.Http.{Codec, Request}
use dcm_policy_manager.Http.Web.{Values}
use dcm_policy_manager.Api.{ServerCodecs}
use dcm_policy_manager.System.Serving.{Serving}
use dcm_policy_manager.System.Remote.{after_requests, after_requests-Serving}
use dcm_policy_manager.Tests.Serving.{show_priority}
use dcm_policy_manager.Tests.Publishing.{echo}
use dcm_policy_manager.Tests.Tables.{rows_of, one_row_db, one_row_db-IsDatabase, one_row_db-IsUp}
use dcm_policy_manager.Tests.Running.{at_start, starting}
use dcm_policy_manager.Tests.Calling.{empty_body}
use dcm_policy_manager.Tests.Web.{Place, web, base, router}

abbrev text_of : Option String → String
text_of none = ""
text_of (some text) = text

-- A type of which only one text is used, for some value or for none.
abbrev pub constant : {A : Type 0} → Result String A → Codec A
constant value = record {
  marshal = λ a. ok "text";
  unmarshal = λ text. value;
  encode = λ a. ok "text";
  decode = λ body. value;
}

-- A policy with Rego code, written as its display name; an absent body cannot be read.
abbrev named : String → ServerPolicy
named name = record empty_body {
  display_name = some name;
  policy_type = some "GLOBAL";
  rego_code = some "package policies.p1";
}

abbrev read_named : Option String → Result String ServerPolicy
read_named none = err "EOF"
read_named (some name) = ok (named name)

abbrev policy_codec : Codec ServerPolicy
policy_codec = record {
  marshal = λ p. ok (text_of p.display_name);
  unmarshal = λ text. ok (named text);
  encode = λ p. ok (text_of p.display_name);
  decode = read_named;
}

abbrev pub server_codecs : ServerCodecs
server_codecs = record {
  health = constant (err "no health");
  policy = policy_codec;
  policy_list = constant (err "no list");
  error = constant (err "no error");
}

abbrev place : List String → Values → Place
place segments values = record { segments = base ++ segments; values = values }

abbrev request : String → Place → Option String → String × Request Place
request method url body = ("g", record { method = method; url = url; header = []; body = body })

-- a creation, a creation without a body, a deletion of what is not there, and a path of no route
abbrev requests : List (String × Request Place)
requests =
    request "POST" (place ("policies" ∷ []) (("id", "p1" ∷ []) ∷ [])) (some "first")
    ∷ request "POST" (place ("policies" ∷ []) []) none
    ∷ request "DELETE" (place ("policies" ∷ "p9" ∷ []) []) none
    ∷ request "GET" (place ("policy" ∷ []) []) none
    ∷ []

after_requests-Serving_example :
    let after =
      after_requests one_row_db echo show_priority web server_codecs router base at_start
        requests in
    Serving echo one_row_db rows_of one_row_db-IsDatabase one_row_db-IsUp show_priority after
    × All IsValid (rows_of after.db)
after_requests-Serving_example =
    after_requests-Serving one_row_db echo show_priority web server_codecs router base rows_of
      one_row_db-IsDatabase one_row_db-IsUp none at_start requests starting tt
