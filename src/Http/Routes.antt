-- ===== src/Http/Routes.antt =====
-- Routes as the generated servers register them with github.com/go-chi/chi, whose router is a
-- parameter, and what is assumed of it.
use dcm_policy_manager.Prelude.{
  String, Option, none, some, List, [], ◌∷◌, ◌++◌, map, ◌≡◌, ◌==◌, ◌⊎◌, Assoc, if◌then◌else◌,
  eq_refl, refl,
}
use dcm_policy_manager.Http.{HttpResponse}

-- A segment of a pattern: a text, or a name in braces.
pub data Segment : Type 0 where
  literal : String → Segment
  placeholder : String → Segment

pub record Route (E : Type 0) : Type 0 where
  pub method : String
  pub pattern : List Segment
  pub endpoint : E

-- What the router does with a request: an endpoint with the values of the placeholders, or the
-- router's own response.
pub data Found (E : Type 0) : Type 0 where
  found : E → Assoc String → Found E
  unrouted : HttpResponse → Found E

abbrev pub Router : Type 0 → Type 0
Router E = List (Route E) → String → List String → Found E

abbrev with_value : String → String → Option (Assoc String) → Option (Assoc String)
with_value name value none = none
with_value name value (some values) = some ((name, value) ∷ values)

-- The values of the placeholders if the path has the form of the pattern; a placeholder stands for
-- a segment that is not empty.
unfoldable pub match_path : List Segment → List String → Option (Assoc String)
match_path [] [] = some []
match_path [] (s ∷ path) = none
match_path (p ∷ pattern) [] = none
match_path (literal text ∷ pattern) (s ∷ path) =
    let rest = match_path pattern path in if text == s then rest else none
match_path (placeholder name ∷ pattern) (s ∷ path) =
    let rest = match_path pattern path in if s == "" then none else with_value name s rest

abbrev pub literals : List String → List Segment
literals = map literal

-- A base path takes no part in the match.
pub match_path-literals :
    (base path : List String) (pattern : List Segment)
    → match_path (literals base ++ pattern) (base ++ path) ≡ match_path pattern path
unfolding match_path
match_path-literals [] path pattern = refl
match_path-literals (s ∷ base) path pattern = simp (eq_refl, match_path-literals base path pattern)

module _ {E : Type 0} where
  abbrev candidate : Route E → Option (Assoc String) → List (E × Assoc String)
  candidate route none = []
  candidate route (some values) = (route.endpoint, values) ∷ []

  -- the endpoints of the routes that fit the method and the path
  unfoldable pub candidates : List (Route E) → String → List String → List (E × Assoc String)
  candidates [] method path = []
  candidates (route ∷ routes) method path =
      let rest = candidates routes method path in
      if route.method == method
      then candidate route (match_path route.pattern path) ++ rest
      else rest

  -- What is assumed of the router: a request that one route fits goes to it; one that no route
  -- fits is answered with 404, or with 405 if a route fits but for the method.
  pub record IsRouter (router : Router E) : Type 0 where
    pub only :
        (routes : List (Route E)) (method : String) (path : List String) (endpoint : E)
        (values : Assoc String)
        → candidates routes method path ≡ (endpoint, values) ∷ []
        → router routes method path ≡ found endpoint values
    pub none_fits :
        (routes : List (Route E)) (method : String) (path : List String)
        → candidates routes method path ≡ []
        → (response : HttpResponse) × (router routes method path ≡ unrouted response)
          × ((response.status ≡ 404) ⊎ (response.status ≡ 405))
