-- ===== src/Http.antt =====
-- What the generated servers and clients (internal/api, pkg/client, pkg/engineclient) use of
-- net/http and of encoding/json: requests, the response writer, responses, and the encoding of a
-- type. The parts that neither net/url nor the packages oapi-codegen/runtime and go-chi/chi leave
-- to the program are in Http/Web and Http/Routes.
pub mod Web
pub mod Routes
use dcm_policy_manager.Prelude.{
  ℕ, String, Option, none, some, List, [], ◌∷◌, Result, ok, err, Assoc, assign, lookup, concat, ◌≡◌,
}

-- http.Request; `U` is url.URL. A request without a body has none.
pub record Request (U : Type 0) : Type 0 where
  pub method : String
  pub url : U
  pub header : Assoc String
  pub body : Option String

pub record HttpResponse : Type 0 where
  pub status : ℕ
  pub header : Assoc String
  pub body : String

-- http.ResponseWriter: the header map, and what has been sent. The header that is sent is the one
-- at the first WriteHeader.
pub record Writer : Type 0 where
  pub header : Assoc String
  pub status : Option ℕ
  pub sent : Assoc String
  pub body : String

abbrev pub new_writer : Writer
new_writer = record { header = []; status = none; sent = []; body = "" }

abbrev pub set_header : String → String → Writer → Writer
set_header key value w = record w { header = assign key value w.header }

abbrev begin : Option ℕ → ℕ → Writer → Writer
begin none code w = record w { status = some code; sent = w.header }
begin (some sent) code w = w

-- WriteHeader, which has no effect after the first one
abbrev pub write_header : ℕ → Writer → Writer
write_header code w = begin w.status code w

-- Write sends the status 200 if none has been sent.
abbrev pub write : String → Writer → Writer
write text w = let w = write_header 200 w in record w { body = concat (w.body ∷ text ∷ []) }

-- http.Error
unfoldable pub http_error : String → ℕ → Writer → Writer
http_error message code w = write (concat (message ∷ "\n" ∷ [])) (
    write_header code (
      set_header "X-Content-Type-Options" "nosniff"
        (set_header "Content-Type" "text/plain; charset=utf-8" w)))

abbrev status_or : ℕ → Option ℕ → ℕ
status_or code none = code
status_or code (some sent) = sent

-- the response that the client gets when the handler has returned
abbrev pub written : Writer → HttpResponse
written w =
    let final = write_header 200 w in
    record { status = status_or 200 final.status; header = final.sent; body = final.body }

-- what the client gets for a request
abbrev pub completed : {S : Type 0} → S × Writer → S × HttpResponse
completed (s, w) = (s, written w)

abbrev text_or_empty : Option String → String
text_or_empty none = ""
text_or_empty (some text) = text

-- Header.Get
unfoldable pub header_get : String → HttpResponse → String
header_get key response = text_or_empty (lookup key response.header)

-- encoding/json at a type: Marshal, Unmarshal, what an Encoder writes, and what a Decoder reads
-- from the body of a request
pub record Codec (A : Type 0) : Type 0 where
  pub marshal : A → Result String String
  pub unmarshal : String → Result String A
  pub encode : A → Result String String
  pub decode : Option String → Result String A

abbrev pub encoded : Result String String → Writer → Writer × Option String
encoded (ok text) w = (write text w, none)
encoded (err e) w = (w, some e)

-- What the Visit methods of the response objects have in common: a status and a JSON body.
unfoldable pub visit_json : {A : Type 0} → Codec A → ℕ → A → Writer → Writer × Option String
visit_json codec code body w =
    encoded (codec.encode body) (write_header code (set_header "Content-Type" "application/json" w))

-- What the server encodes as `a` the client reads as `f a`.
abbrev pub Carries : {A B : Type 0} → Codec A → Codec B → (A → B) → A → Type 0
Carries server client f a =
    (text : String) × (server.encode a ≡ ok text) × (client.unmarshal text ≡ ok (f a))
