-- ===== src/Process/Closing.antt =====
-- What `run` (cmd/policy-manager/main.go) opens and closes, whatever fails.
use dcm_policy_manager.Prelude.{
  Result, ok, err, String, Bool, true, false, Option, none, some, List, [], ◌∷◌, ◌≡◌, refl,
}
use dcm_policy_manager.Prelude.Int.{ℤ}
use dcm_policy_manager.Store.{Gorm}
use dcm_policy_manager.Opa.{Library}
use dcm_policy_manager.System.{start}
use dcm_policy_manager.Process.{
  Resource, data_store, public_listener, engine_listener, Event, opened, closed, serving, Opening,
  not_opened, unprepared, ready, Environment, opening, serve_until, or_exit, or_exit_with,
  or_exit_unready, run, serve_apis, open_apis, compile_and_open, open_store,
}

abbrev pub same_resource : Resource → Resource → Bool
same_resource data_store data_store = true
same_resource public_listener public_listener = true
same_resource engine_listener engine_listener = true
same_resource r s = false

-- The database and both listeners are open.
abbrev pub all_open : List Resource → Bool
all_open (engine_listener ∷ public_listener ∷ data_store ∷ []) = true
all_open stack = false

-- Reads the events with the resources that are open, the last one opened first: a resource is
-- closed only if it is the last one opened, and the servers run only while all are open. Returns
-- what is open at the end.
unfoldable pub left_open : List Resource → List Event → Option (List Resource)
left_open stack [] = some stack
left_open stack (opened r ∷ events) = left_open (r ∷ stack) events
left_open stack (serving ∷ events) = elim (all_open stack) [
  | true ↦ left_open stack events
  | false ↦ none
]
left_open [] (closed r ∷ events) = none
left_open (s ∷ stack) (closed r ∷ events) = elim (same_resource s r) [
  | true ↦ left_open stack events
  | false ↦ none
]

abbrev kept_open : {D : Type 0} → Opening D → List Resource
kept_open (not_opened e) = []
kept_open (unprepared e) = data_store ∷ []
kept_open (ready d) = []

abbrev from_store : List Resource
from_store = data_store ∷ []

abbrev from_listener : List Resource
from_listener = public_listener ∷ data_store ∷ []

module _ {C D : Type 0} (env : Environment C D) where
  -- the database that InitDB has opened before it fails
  abbrev pub leaked : List Resource
  leaked = elim env.load [ err e ↦ [] | ok cfg ↦ kept_open (env.init_db cfg) ]

  engine_closed :
      (o : Option String)
      → left_open from_listener
          (or_exit o (opening engine_listener (serve_until env)) from_listener).1
        ≡ some []
  unfolding left_open opening
  engine_closed none = refl
  engine_closed (some e) = refl

  public_closed :
      (o : Option String) (cfg : C)
      → left_open from_store (or_exit o (opening public_listener (serve_apis env cfg)) from_store).1
        ≡ some []
  unfolding left_open opening serve_apis
  public_closed none cfg = engine_closed (env.listen_engine cfg)
  public_closed (some e) cfg = refl

  started_closed :
      (o : Option String) (cfg : C)
      → left_open from_store (or_exit o (open_apis env cfg) from_store).1 ≡ some []
  unfolding left_open open_apis
  started_closed none cfg = public_closed (env.listen_public cfg) cfg
  started_closed (some e) cfg = refl

  module _ {K Q : Type 0} (gorm : Gorm D) (opa : Library K Q) (show_priority : ℤ → String) where
    store_closed :
        (o : Opening D) (cfg : C)
        → left_open []
            (or_exit_unready o
              (λ d. opening data_store (compile_and_open env gorm opa show_priority cfg d))
              []).1
          ≡ some (kept_open o)
    unfolding left_open opening compile_and_open
    store_closed (not_opened e) cfg = refl
    store_closed (unprepared e) cfg = refl
    store_closed (ready d) cfg = started_closed (start gorm opa show_priority d).1 cfg

    loaded_closed :
        (o : Result String C)
        → left_open [] (or_exit_with o (open_store env gorm opa show_priority) []).1
          ≡ some (elim o [ err e ↦ [] | ok cfg ↦ kept_open (env.init_db cfg) ])
    unfolding left_open open_store
    loaded_closed (err e) = refl
    loaded_closed (ok cfg) = store_closed (env.init_db cfg) cfg

    -- Whatever fails, the deferred calls of `run` close what it has opened, once each and in the
    -- opposite order, but for a database that InitDB has opened and then fails to set up, which is
    -- left open; and the servers run only while the database and both listeners have not been
    -- closed by them.
    pub run-left_open : left_open [] (run env gorm opa show_priority).1 ≡ some leaked
    unfolding run
    run-left_open = loaded_closed env.load
