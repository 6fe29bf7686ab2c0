-- ===== src/Opa/Compiling.antt =====
-- What a compilation leaves in the engine: the queries of exactly the modules that it compiled, or
-- where it fails the queries that were there.
use dcm_policy_manager.Prelude.{
  String, Bool, true, false, none, some, List, [], ◌∷◌, ◌≡◌, sym, ap, ◌∙◌, arith, eq_iff, ok,
  map_err, map_err-ok, bind-ok, ok-injective, Assoc, lookup, assign, lookup-assign, map, contains,
  inl, inr, eq-cases, ◌⊎◌, All, Result-cases,
}
use dcm_policy_manager.Service.{EngineError, PolicyModule}
use dcm_policy_manager.Service.Rollback.{IsAtomic}
use dcm_policy_manager.Opa.{
  Library, main_query, build_queries, new_queries, compile, add_sources, embedded_engine,
  prepare_failure, syntax_failure,
}

abbrev id_of : PolicyModule → String
id_of p = p.id

-- Whether a module has the ID.
abbrev pub listed : List PolicyModule → String → Bool
listed policies id = contains (map id_of policies) id

module _ {K Q : Type 0} (opa : Library K Q) where
  -- The queries are those of a compiler that has compiled the modules, and no others.
  pub record Serves (policies : List PolicyModule) (queries : Assoc Q) : Type 0 where
    pub absent : (id : String) → listed policies id ≡ false → lookup id queries ≡ none
    pub prepared :
        (id : String)
        → listed policies id ≡ true
        → (compiler : K) × (q : Q) × (opa.compile_modules (add_sources policies []) ≡ ok compiler)
          × (opa.prepare compiler (main_query opa compiler id) ≡ ok q)
          × (lookup id queries ≡ some q)

  build_queries-absent :
      (compiler : K) (policies : List PolicyModule) (queries queries' : Assoc Q) (id : String)
      → build_queries opa compiler policies queries ≡ ok queries'
      → listed policies id ≡ false
      → lookup id queries' ≡ lookup id queries
  unfolding build_queries
  build_queries-absent compiler [] queries queries' id e h = ap (lookup id) (sym (ok-injective e))
  build_queries-absent compiler (p ∷ policies) queries queries' id e h =
      let prepared =
        map_err (prepare_failure opa p.id) (opa.prepare compiler (main_query opa compiler p.id)) in
      let (q, _, later) =
        bind-ok prepared (λ q. build_queries opa compiler policies (assign p.id q queries)) e in
      let ih =
        build_queries-absent compiler policies (assign p.id q queries) queries' id later
          (ground (arith, h)) in
      ih ∙ ground (arith, h, lookup-assign p.id id q queries)

  -- The query of an ID stays, since a later one for it is the same.
  build_queries-kept :
      (compiler : K) (policies : List PolicyModule) (queries queries' : Assoc Q) (id : String)
      (q : Q)
      → build_queries opa compiler policies queries ≡ ok queries'
      → opa.prepare compiler (main_query opa compiler id) ≡ ok q
      → lookup id queries ≡ some q
      → lookup id queries' ≡ some q
  unfolding build_queries
  build_queries-kept compiler [] queries queries' id q e s h =
      ap (lookup id) (sym (ok-injective e)) ∙ h
  build_queries-kept compiler (p ∷ policies) queries queries' id q e s h =
      let prepared =
        map_err (prepare_failure opa p.id) (opa.prepare compiler (main_query opa compiler p.id)) in
      let (q', first, later) =
        bind-ok prepared (λ r. build_queries opa compiler policies (assign p.id r queries)) e in
      build_queries-kept compiler policies (assign p.id q' queries) queries' id q later s
        (elim (eq-cases p.id id) [
          | inl same ↦
              let agrees = ok-injective (
                sym (map_err-ok (prepare_failure opa p.id) _ first)
                ∙ (ap (λ i. opa.prepare compiler (main_query opa compiler i)) same ∙ s)) in
              ground (arith, lookup-assign p.id id q' queries, eq_iff p.id id, agrees, same)
          | inr other ↦ ground (arith, lookup-assign p.id id q' queries, other, h)
        ])

  build_queries-prepared :
      (compiler : K) (policies : List PolicyModule) (queries queries' : Assoc Q) (id : String)
      → build_queries opa compiler policies queries ≡ ok queries'
      → listed policies id ≡ true
      → (q : Q) × (opa.prepare compiler (main_query opa compiler id) ≡ ok q)
        × (lookup id queries' ≡ some q)
  unfolding build_queries
  build_queries-prepared compiler [] queries queries' id e h = cc
  build_queries-prepared compiler (p ∷ policies) queries queries' id e h =
      let prepared =
        map_err (prepare_failure opa p.id) (opa.prepare compiler (main_query opa compiler p.id)) in
      let (q, first, later) =
        bind-ok prepared (λ r. build_queries opa compiler policies (assign p.id r queries)) e in
      elim (eq-cases p.id id) [
        | inl same ↦
            let s =
              ap (λ i. opa.prepare compiler (main_query opa compiler i)) (sym same)
              ∙ map_err-ok (prepare_failure opa p.id) _ first in
            (
              q,
              s,
              build_queries-kept compiler policies (assign p.id q queries) queries' id q later s
                  (ground (arith, lookup-assign p.id id q queries, eq_iff p.id id, same)),
            )
        | inr other ↦
            build_queries-prepared compiler policies (assign p.id q queries) queries' id later
              (ground (arith, h, other))
      ]

  new_queries-Serves :
      (policies : List PolicyModule) (queries : Assoc Q)
      → new_queries opa policies ≡ ok queries
      → Serves policies queries
  unfolding new_queries lookup
  new_queries-Serves policies queries e =
      let compiled = map_err (syntax_failure opa) (opa.compile_modules (add_sources policies [])) in
      let (compiler, first, later) = bind-ok compiled (λ k. build_queries opa k policies []) e in
      record {
        absent = λ id h. build_queries-absent compiler policies [] queries id later h;
        prepared = λ id h.
            let (q, s, l) = build_queries-prepared compiler policies [] queries id later h in
            (compiler, q, map_err-ok (syntax_failure opa) _ first, s, l);
      }

  -- A compilation that succeeds replaces the queries: each ID among the modules then has the query
  -- that was prepared for it by a compiler of all the modules, and every other ID has none.
  pub compile-Serves :
      (policies : List PolicyModule) (queries queries' : Assoc Q)
      → compile opa queries policies ≡ (queries', none)
      → Serves policies queries'
  unfolding compile lookup
  compile-Serves [] queries queries' e = record {
    absent = λ id h. ground arith;
    prepared = λ id h. absurd (ground (arith, h));
  }
  compile-Serves (p ∷ policies) queries queries' e =
      new_queries-Serves (p ∷ policies) queries'
        (elim (Result-cases (new_queries opa (p ∷ policies))) [
          | inl (fresh, f) ↦ ground (arith, f)
          | inr (x, f) ↦ ground (arith, f)
        ])

  compile_fails :
      (n n' : Assoc Q) (modules : List PolicyModule) (e : EngineError)
      → compile opa n modules ≡ (n', some e)
      → n' ≡ n
  unfolding compile
  compile_fails n n' [] e h = cc
  compile_fails n n' (m ∷ ms) e h = elim (Result-cases (new_queries opa (m ∷ ms))) [
    | inl (fresh, f) ↦ ground (arith, f)
    | inr (x, f) ↦ ground (arith, f)
  ]

  -- A compilation that fails, at whatever step, leaves the engine with the queries it had.
  pub embedded_engine-IsAtomic : IsAtomic (embedded_engine opa)
  embedded_engine-IsAtomic = record { compile_fails = compile_fails }

-- The source of an ID, if all modules with the ID have the same.
pub add_sources-lookup :
    (policies : List PolicyModule) (sources : Assoc String) (id code : String)
    → All (λ m. m.id ≡ id → m.rego_code ≡ code) policies
    → (listed policies id ≡ true) ⊎ (lookup id sources ≡ some code)
    → lookup id (add_sources policies sources) ≡ some code
unfolding add_sources
add_sources-lookup [] sources id code h (inl l) = cc
add_sources-lookup [] sources id code h (inr l) = l
add_sources-lookup (m ∷ policies) sources id code (same, h) l =
    add_sources-lookup policies (assign m.id m.rego_code sources) id code h
      (elim (eq-cases m.id id) [
        | inl e ↦
            inr
              (ground (arith, lookup-assign m.id id m.rego_code sources, eq_iff m.id id, e, same e))
        | inr other ↦ elim l [
          | inl listed_first ↦ inl (ground (arith, other, listed_first))
          | inr found ↦
              inr (ground (arith, lookup-assign m.id id m.rego_code sources, other, found))
        ]
      ])
