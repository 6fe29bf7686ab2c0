-- ===== src/Http/Web.antt =====
-- What the generated servers and clients call of net/url and of github.com/oapi-codegen/runtime,
-- and what is assumed of it.
use dcm_policy_manager.Prelude.{
  ℕ, String, Bool, Option, none, some, List, [], ◌∷◌, ◌++◌, ◌≡◌, ◌≢◌, Result, ok, Assoc, assign,
  lookup, concat, leb, nat_eq, ◌&&◌, ◌||◌, true, not,
}
use dcm_policy_manager.Prelude.Int.{ℤ}
use dcm_policy_manager.Text.{codes}

-- url.Values
abbrev pub Values : Type 0
Values = Assoc (List String)

abbrev pub or_empty : Option (List String) → List String
or_empty none = []
or_empty (some vs) = vs

-- values[key]
unfoldable pub values_at : String → Values → List String
values_at key values = or_empty (lookup key values)

-- Add
unfoldable pub add : String → String → Values → Values
unfolding values_at
add key value values = assign key (values_at key values ++ value ∷ []) values

-- `U` is url.URL, and `F` a query in its text form.
pub record Web (U F : Type 0) : Type 0 where
  -- url.Parse, (*URL).Parse, (*URL).Query, ParseQuery
  pub parse : String → Result String U
  pub resolve : U → String → Result String U
  pub query : U → Values
  pub parse_query : F → Result String Values
  -- u.RawQuery = values.Encode()
  pub with_query : U → Values → U
  -- what http.NewRequest reads from u.String()
  pub reparse : U → Result String U
  -- the segments of the path that chi routes on: RawPath, which is escaped, or where it is empty
  -- Path, which is decoded
  pub route_path : U → List String
  -- StyleParamWithLocation: "simple" in a path; "form" in a query, of a text and of an int32
  pub style_path : String → String → Result String String
  pub style_query : String → String → Result String F
  pub style_query_int : String → ℤ → Result String F
  -- BindStyledParameterWithOptions; BindQueryParameter, of a text and of an int32
  pub bind_path : String → String → Result String String
  pub bind_query : String → Values → Result String (Option String)
  pub bind_query_int : String → Values → Result String (Option ℤ)

-- ASCII letters and colons
abbrev plain_code : ℕ → Bool
plain_code c = leb b'a' c && leb c b'z' || leb b'A' c && leb c b'Z' || nat_eq c b':'

abbrev pub all_plain : List ℕ → Bool
all_plain [] = true
all_plain (c ∷ cs) = plain_code c && all_plain cs

abbrev pub no_percent : List ℕ → Bool
no_percent [] = true
no_percent (c ∷ cs) = not (nat_eq c b'%') && no_percent cs

-- `v` has the path and the query of `u`.
abbrev pub SamePlace : {U F : Type 0} → Web U F → U → U → Type 0
SamePlace web u v =
    (web.route_path v ≡ web.route_path u)
    × ((key : String) → values_at key (web.query v) ≡ values_at key (web.query u))

-- `u` has the path, and an empty query.
abbrev pub IsAt : {U F : Type 0} → Web U F → List String → U → Type 0
IsAt web segments u =
    (web.route_path u ≡ segments) × ((key : String) → values_at key (web.query u) ≡ [])

-- What is assumed of these packages, where `root` is the URL of the server as the client parses it
-- and `base` has the segments of its path, which read the same escaped and decoded.
pub record IsWeb {U F : Type 0} (web : Web U F) (root : U) (base : List String) : Type 0 where
  -- A relative reference is put behind the path of a URL that ends in a slash.
  pub resolve_word :
      (word : String)
      → all_plain (codes word) ≡ true
      → (u : U) × (web.resolve root (concat ("./" ∷ word ∷ [])) ≡ ok u)
        × IsAt web (base ++ word ∷ []) u
  -- A styled path parameter is one segment, unless it is empty or a dot segment. The segment that
  -- chi routes on may be decoded already, and BindStyledParameterWithOptions decodes it once more:
  -- it is read back if the value has no percent sign, which a second decoding would take for an
  -- escape.
  pub resolve_styled :
      (word name value text : String)
      → all_plain (codes word) ≡ true
      → web.style_path name value ≡ ok text
      → value ≢ ""
      → value ≢ "."
      → value ≢ ".."
      → no_percent (codes value) ≡ true
      → (u : U) × (segment : String) × (web.resolve root (concat ("./" ∷ word ∷ "/" ∷ text ∷ []))
          ≡ ok u)
        × IsAt web (base ++ word ∷ segment ∷ []) u
        × (segment ≢ "")
        × (web.bind_path name segment ≡ ok value)
  pub reparse_same : (u v : U) → web.reparse u ≡ ok v → SamePlace web u v
  pub with_query_path :
      (u : U) (values : Values) → web.route_path (web.with_query u values) ≡ web.route_path u
  pub with_query_query :
      (u : U) (values : Values) (key : String)
      → values_at key (web.query (web.with_query u values)) ≡ values_at key values
  -- Parameters of a query are read back as they were written.
  pub styled :
      (name value : String) (fragment : F) (values : Values)
      → web.style_query name value ≡ ok fragment
      → web.parse_query fragment ≡ ok values
      → values ≡ (name, value ∷ []) ∷ []
  pub bind_text :
      (name value : String) (values : Values)
      → values_at name values ≡ value ∷ []
      → web.bind_query name values ≡ ok (some value)
  pub styled_int :
      (name : String) (value : ℤ) (fragment : F) (values : Values)
      → web.style_query_int name value ≡ ok fragment
      → web.parse_query fragment ≡ ok values
      → (text : String) × (values ≡ (name, text ∷ []) ∷ [])
        × ((values : Values)
            → values_at name values ≡ text ∷ []
            → web.bind_query_int name values ≡ ok (some value))
  pub bind_missing :
      (name : String) (values : Values)
      → values_at name values ≡ []
      → (web.bind_query name values ≡ ok none) × (web.bind_query_int name values ≡ ok none)
