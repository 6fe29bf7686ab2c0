-- ===== src/OrderBy/Clauses.antt =====
-- What an accepted order_by becomes.
use dcm_policy_manager.Prelude.{
  String, Bool, true, false, List, [], ◌∷◌, ◌++◌, ◌==◌, ◌≡◌, ◌⊎◌, inl, inr, sym, arith, Result, ok,
  err, bind-ok, ok-injective, concat, join, All, All-append, Bool-cases, subst, if◌then◌else◌, ltb,
  nat_eq, length,
}
use dcm_policy_manager.Text.{trim_space, split_at, fields}
use dcm_policy_manager.Errors.{ServiceError}
use dcm_policy_manager.OrderBy.{
  too_many, default_order_by, is_supported, parse_direction, parse_tokens, parse_clause,
  parse_parts, joined, parse_order_by,
}

-- A supported field and a direction.
pub record IsClause (clause : String) : Type 0 where
  pub field : String
  pub direction : String
  pub supported : is_supported field ≡ true
  pub directed : (direction ≡ "ASC") ⊎ (direction ≡ "DESC")
  pub printed : clause ≡ concat (field ∷ " " ∷ direction ∷ [])

-- The direction that is chosen by the two tests.
chosen :
    (asc desc : Bool) (failure : ServiceError) (direction : String)
    → (if asc then ok "ASC" else if desc then ok "DESC" else err failure) ≡ ok direction
    → (direction ≡ "ASC") ⊎ (direction ≡ "DESC")
chosen true desc failure direction e = inl (sym (ok-injective e))
chosen false true failure direction e = inr (sym (ok-injective e))
chosen false false failure direction e = cc

parse_direction_lem :
    (rest : List String) (direction : String)
    → parse_direction rest ≡ ok direction
    → (direction ≡ "ASC") ⊎ (direction ≡ "DESC")
unfolding parse_direction
parse_direction_lem [] direction e = inl (sym (ok-injective e))
parse_direction_lem (token ∷ extra) direction e = chosen _ _ _ direction e

parse_tokens-IsClause :
    (part field : String) (rest : List String) (clause : String)
    → parse_tokens part field rest ≡ ok clause
    → IsClause clause
unfolding parse_tokens
parse_tokens-IsClause part field rest clause e = elim (Bool-cases (is_supported field)) [
  | inr unknown ↦ absurd (ground (arith, unknown, e))
  | inl known ↦
      let finish : String → Result ServiceError String = λ direction.
        if ltb 1 (length rest)
        then err (too_many part)
        else ok (concat (field ∷ " " ∷ direction ∷ [])) in
      let (direction, first, last) = bind-ok (parse_direction rest) finish (rw known at e) in
      record {
        field = field;
        direction = direction;
        supported = known;
        directed = parse_direction_lem rest direction first;
        printed = ground (arith, last);
      }
]

parse_clause-All :
    (part : String) (tokens clauses : List String)
    → parse_clause part tokens ≡ ok clauses
    → All IsClause clauses
parse_clause-All part [] clauses e = subst (All IsClause) (ok-injective e) tt
parse_clause-All part (field ∷ rest) clauses e =
    let (clause, first, last) = bind-ok (parse_tokens part field rest) (λ c. ok (c ∷ [])) e in
    subst (All IsClause) (ok-injective last)
      (parse_tokens-IsClause part field rest clause first, tt)

parse_parts-All :
    (parts gorm_parts clauses : List String)
    → All IsClause gorm_parts
    → parse_parts parts gorm_parts ≡ ok clauses
    → All IsClause clauses
unfolding parse_parts
parse_parts-All [] gorm_parts clauses h e = subst (All IsClause) (ok-injective e) h
parse_parts-All (part ∷ parts) gorm_parts clauses h e =
    let tokens = fields (trim_space part) in
    let (clause, first, later) =
      bind-ok (parse_clause (trim_space part) tokens) (λ c. parse_parts parts (gorm_parts ++ c))
        e in
    parse_parts-All parts (gorm_parts ++ clause) clauses
      (All-append IsClause gorm_parts clause h
        (parse_clause-All (trim_space part) tokens clause first))
      later

-- An order_by that is accepted becomes the default order, or a list of clauses separated by commas,
-- each of which is a supported field with the direction ASC or DESC: no other text of the client
-- reaches the query.
pub parse_order_by-IsClause :
    (order_by order : String)
    → parse_order_by order_by ≡ ok order
    → (order ≡ default_order_by)
      ⊎ ((clauses : List String) × All IsClause clauses × (order ≡ join clauses ", "))
unfolding parse_order_by
parse_order_by-IsClause order_by order e = elim (Bool-cases (order_by == "")) [
  | inl empty ↦ inl (ground (arith, empty, e))
  | inr given ↦
      let parts = split_at (λ c. nat_eq c b',') order_by in
      let (clauses, first, last) =
        bind-ok (parse_parts parts []) (λ c. ok (joined c)) (rw given at e) in
      joined_lem clauses (parse_parts-All parts [] clauses tt first) (sym (ok-injective last))
]
  where
    joined_lem :
        (clauses : List String)
        → All IsClause clauses
        → order ≡ joined clauses
        → (order ≡ default_order_by)
          ⊎ ((clauses : List String) × All IsClause clauses × (order ≡ join clauses ", "))
    joined_lem [] h e = inl e
    joined_lem (c ∷ cs) h e = inr (c ∷ cs, h, e)
