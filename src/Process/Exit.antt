-- ===== src/Process/Exit.antt =====
-- What the exit code of `run` says, and in which state the servers run.
use dcm_policy_manager.Prelude.{
  Bool, true, false, String, Option, none, some, List, [], ◌∷◌, Result, ok, err, ◌≡◌, ◌↔◌, refl,
  arith,
}
use dcm_policy_manager.Prelude.Int.{ℤ}
use dcm_policy_manager.Store.{Gorm}
use dcm_policy_manager.Opa.{Library}
use dcm_policy_manager.System.{start}
use dcm_policy_manager.Process.{
  Event, opened, closed, serving, Resource, exit_code, Opening, not_opened, unprepared, ready,
  Environment, Run, opening, or_exit, or_exit_with, or_exit_unready, serve_apis, open_apis,
  compile_and_open, open_store, run,
}

or_exit-none :
    (o : Option String) (rest : Run) (deferred : List Resource)
    → (or_exit o rest deferred).0 ≡ 0
    → (o ≡ none) × ((rest deferred).0 ≡ 0)
or_exit-none none rest deferred h = (refl, h)
or_exit-none (some e) rest deferred h = absurd (omega (arith, h))

or_exit_with-ok {ℓ} :
    {A : Type ℓ}
    → (r : Result String A) (rest : A → Run) (deferred : List Resource)
    → (or_exit_with r rest deferred).0 ≡ 0
    → (a : A) × (r ≡ ok a) × ((rest a deferred).0 ≡ 0)
or_exit_with-ok (ok a) rest deferred h = (a, refl, h)
or_exit_with-ok (err e) rest deferred h = absurd (omega (arith, h))

or_exit_unready-ready :
    {D : Type 0} (o : Opening D) (rest : D → Run) (deferred : List Resource)
    → (or_exit_unready o rest deferred).0 ≡ 0
    → (d : D) × (o ≡ ready d) × ((rest d deferred).0 ≡ 0)
or_exit_unready-ready (ready d) rest deferred h = (d, refl, h)
or_exit_unready-ready (not_opened e) rest deferred h = absurd (omega (arith, h))
or_exit_unready-ready (unprepared e) rest deferred h = absurd (omega (arith, h))

exit_code-none : (o : Option String) → exit_code o ≡ 0 → o ≡ none
exit_code-none none h = refl
exit_code-none (some e) h = absurd (omega (arith, h))

-- whether the servers have been run
unfoldable pub has_served : List Event → Bool
has_served [] = false
has_served (serving ∷ events) = true
has_served (opened r ∷ events) = has_served events
has_served (closed r ∷ events) = has_served events

module _ {C D K Q : Type 0} (env : Environment C D) (gorm : Gorm D) (opa : Library K Q)
    (show_priority : ℤ → String) where
  -- Everything that `run` asks for succeeds up to the servers.
  pub record IsSetUp : Type 0 where
    pub cfg : C
    pub database : D
    pub loaded : env.load ≡ ok cfg
    pub opened : env.init_db cfg ≡ ready database
    pub compiled : (start gorm opa show_priority database).1 ≡ none
    pub public_api : env.listen_public cfg ≡ none
    pub engine_api : env.listen_engine cfg ≡ none

  run_succeeds : IsSetUp × (env.serve ≡ none) → (run env gorm opa show_priority).0 ≡ 0
  unfolding run opening serve_apis open_apis compile_and_open open_store
  run_succeeds (s, e) = rw (s.loaded, s.opened, s.compiled, s.public_api, s.engine_api, e, run)

  succeeded : (run env gorm opa show_priority).0 ≡ 0 → IsSetUp × (env.serve ≡ none)
  unfolding run opening serve_apis open_apis compile_and_open open_store
  succeeded h =
      let (cfg, loaded, h1) = or_exit_with-ok env.load _ [] h in
      let (d, init, h2) = or_exit_unready-ready (env.init_db cfg) _ [] h1 in
      let (compiled, h3) = or_exit-none (start gorm opa show_priority d).1 _ _ h2 in
      let (public_api, h4) = or_exit-none (env.listen_public cfg) _ _ h3 in
      let (engine_api, h5) = or_exit-none (env.listen_engine cfg) _ _ h4 in
      (
        record {
          cfg = cfg;
          database = d;
          loaded = loaded;
          opened = init;
          compiled = compiled;
          public_api = public_api;
          engine_api = engine_api;
        },
        exit_code-none env.serve h5,
      )

  -- The exit code is 0 exactly if the set-up succeeds on every step and the servers run without an
  -- error.
  pub run_iff : ((run env gorm opa show_priority).0 ≡ 0) ↔ (IsSetUp × (env.serve ≡ none))
  run_iff = (succeeded, run_succeeds)
