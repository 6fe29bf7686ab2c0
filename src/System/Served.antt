-- ===== src/System/Served.antt =====
-- A policy that the engine serves: it holds a query that was prepared from the policy's Rego code.
-- What the tables of policies that the store's operations leave have served.
use mathlib.Core.List.{Memᴰ}
use dcm_policy_manager.Prelude.{
  ℕ, String, true, some, List, [], ◌∷◌, map, All, ◌==◌, ◌≡◌, sym, ap, ◌∙◌, arith, eq_iff, ok, inl,
  inr, Bool-cases, Assoc, lookup, eq-cases,
}
use dcm_policy_manager.Policy.{Policy}
use dcm_policy_manager.Store.Table.{remove, overwrite, overwritten, SameRows, untimed}
use dcm_policy_manager.Service.{module_of}
use dcm_policy_manager.Opa.{Library, add_sources, main_query}
use dcm_policy_manager.Opa.Compiling.{Serves, listed, add_sources-lookup}

module _ {K Q : Type 0} (opa : Library K Q) where
  -- The engine's query of the policy comes from a compilation of its Rego code.
  pub record Served (queries : Assoc Q) (p : Policy) : Type 0 where
    pub sources : Assoc String
    pub compiler : K
    pub query : Q
    pub source : lookup p.id sources ≡ some p.rego_code
    pub compiled : opa.compile_modules sources ≡ ok compiler
    pub prepared : opa.prepare compiler (main_query opa compiler p.id) ≡ ok query
    pub found : lookup p.id queries ≡ some query

  -- Serving looks at the ID and the Rego code only.
  Served-code :
      (queries : Assoc Q) (p p' : Policy)
      → p.id ≡ p'.id
      → p.rego_code ≡ p'.rego_code
      → Served queries p
      → Served queries p'
  Served-code queries p p' i c s = record {
    sources = s.sources;
    compiler = s.compiler;
    query = s.query;
    source = ap (λ id. lookup id s.sources) (sym i) ∙ s.source ∙ ap (λ x. some x) c;
    compiled = s.compiled;
    prepared =
        ap (λ id. opa.prepare s.compiler (main_query opa s.compiler id)) (sym i) ∙ s.prepared;
    found = ap (λ id. lookup id queries) (sym i) ∙ s.found;
  }

  pub Served-SameRows :
      (queries : Assoc Q) (rows rows' : List Policy)
      → SameRows rows rows'
      → All (Served queries) rows
      → All (Served queries) rows'
  Served-SameRows queries [] [] e h = tt
  Served-SameRows queries [] (q ∷ rows') e h = cc
  Served-SameRows queries (q ∷ rows) [] e h = cc
  Served-SameRows queries (q ∷ rows) (q' ∷ rows') e (s, h) =
      let same : untimed q ≡ untimed q' = cc in
      (
        Served-code queries q q' (ap (λ r. r.id) same) (ap (λ r. r.rego_code) same) s,
        Served-SameRows queries rows rows' (cc) h,
      )

  pub Served-remove :
      (queries : Assoc Q) (id : String) (rows : List Policy)
      → All (Served queries) rows
      → All (Served queries) (remove id rows)
  unfolding remove
  Served-remove queries id [] h = tt
  Served-remove queries id (p ∷ rows) (s, h) = elim (Bool-cases (p.id == id)) [
    | inl e ↦ rw e (Served-remove queries id rows h)
    | inr e ↦ rw e (s, Served-remove queries id rows h)
  ]

  -- A row written over by one with its Rego code is still served.
  pub Served-overwritten :
      (queries : Assoc Q) (p : Policy) (stamp : ℕ) (rows : List Policy)
      → All (λ row. row.id ≡ p.id → row.rego_code ≡ p.rego_code) rows
      → All (Served queries) rows
      → All (Served queries) (overwritten p stamp rows)
  unfolding overwritten
  Served-overwritten queries p stamp [] c h = tt
  Served-overwritten queries p stamp (row ∷ rows) (same, c) (s, h) =
      (one, Served-overwritten queries p stamp rows c h)
    where
      one : Served queries (overwrite p stamp row)
      one = elim (eq-cases row.id p.id) [
        | inl e ↦
            Served-code queries row (overwrite p stamp row) (ground arith)
              (ground (arith, eq_iff row.id p.id, e, same e)) s
        | inr e ↦ rw e s
      ]

  module_listed :
      (p : Policy) (rows : List Policy) → Memᴰ p rows → listed (map module_of rows) p.id ≡ true
  module_listed p [] m = elim m [ ]
  module_listed p (q ∷ rows) (Memᴰ.head e) =
      let same : (q.id == p.id) ≡ true = (eq_iff q.id p.id).1 (ap (λ r. r.id) (sym e)) in rw same
  module_listed p (q ∷ rows) (Memᴰ.tail m) = ground (arith, module_listed p rows m)

  module_code :
      (p : Policy) (rows : List Policy)
      → All (λ r. r.id ≡ p.id → r ≡ p) rows
      → All (λ m. m.id ≡ p.id → m.rego_code ≡ p.rego_code) (map module_of rows)
  module_code p [] h = tt
  module_code p (q ∷ rows) (same, h) = (λ e. ap (λ r. r.rego_code) (same e), module_code p rows h)

  -- An engine that serves a list of policies serves each policy in it that is alone with its ID.
  pub Serves-Served :
      (p : Policy) (ps : List Policy) (queries : Assoc Q)
      → Serves opa (map module_of ps) queries
      → All (λ r. r.id ≡ p.id → r ≡ p) ps
      → Memᴰ p ps
      → Served queries p
  Serves-Served p ps queries s only m =
      let there = module_listed p ps m in
      let (compiler, query, c, q, l) = s.prepared p.id there in
      record {
        sources = add_sources (map module_of ps) [];
        compiler = compiler;
        query = query;
        source =
            add_sources-lookup (map module_of ps) [] p.id p.rego_code (module_code p ps only)
              (inl there);
        compiled = c;
        prepared = q;
        found = l;
      }
