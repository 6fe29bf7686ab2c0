-- ===== src/Process.antt =====
-- cmd/policy-manager/main.go: `run` sets the program up, runs its servers and returns the exit
-- code. What the environment answers (the configuration, the database, the listeners) is an
-- argument.
pub mod Servers
pub mod Closing
pub mod Exit
pub mod Setup
pub mod Server
use dcm_policy_manager.Prelude.{
  ℕ, String, Bool, true, false, Option, none, some, List, [], ◌∷◌, map, Result, ok, err,
}
use dcm_policy_manager.Prelude.Int.{ℤ}
use dcm_policy_manager.Store.{Gorm}
use dcm_policy_manager.Service.{World}
use dcm_policy_manager.Opa.{Library}
use dcm_policy_manager.System.{start}

-- What `run` opens: the database, and the listeners of the two APIs.
pub data Resource : Type 0 where
  data_store public_listener engine_listener : Resource

pub data Event : Type 0 where
  opened : Resource → Event
  -- a deferred call of Close; Serve of http.Server has closed its listener when it returns
  closed : Resource → Event
  -- runServers, while the policies of the state are served
  serving : Event

-- How store.InitDB ends: a failure leaves open a database that it has opened.
pub data Opening (D : Type 0) : Type 0 where
  not_opened unprepared : String → Opening D
  ready : D → Opening D

-- What the calls of `run` answer, for the configuration C and a database in state D.
pub record Environment (C D : Type 0) : Type 0 where
  -- config.Load
  pub load : Result String C
  -- store.InitDB
  pub init_db : C → Opening D
  -- net.Listen at the two addresses
  pub listen_public : C → Option String
  pub listen_engine : C → Option String
  -- runServers, over the state after the start
  pub serve : Option String

-- What is left of `run`, by the calls that it has deferred, the last one first: the exit code and the
-- events to come.
abbrev pub Run : Type 0
Run = List Resource → ℕ × List Event

abbrev pub logged : Event → ℕ × List Event → ℕ × List Event
logged event (code, events) = (code, event ∷ events)

-- `return`, which makes the deferred calls
abbrev pub returns : ℕ → Run
returns code deferred = (code, map closed deferred)

-- an opening, with `defer Close`
unfoldable pub opening : Resource → Run → Run
opening r rest deferred = logged (opened r) (rest (r ∷ deferred))

-- the exit code of `run` for the error of runServers
abbrev pub exit_code : Option String → ℕ
exit_code none = 0
exit_code (some e) = 1

-- `if err != nil { return 1 }` after a call
abbrev pub or_exit : Option String → Run → Run
or_exit (some e) rest = returns 1
or_exit none rest = rest

abbrev pub or_exit_with {ℓ} : {A : Type ℓ} → Result String A → (A → Run) → Run
or_exit_with (err e) rest = returns 1
or_exit_with (ok a) rest = rest a

abbrev pub or_exit_unready : {D : Type 0} → Opening D → (D → Run) → Run
or_exit_unready (not_opened e) rest = returns 1
or_exit_unready (unprepared e) rest = λ deferred. logged (opened data_store) (returns 1 deferred)
or_exit_unready (ready d) rest = rest d

module _ {C D : Type 0} (env : Environment C D) where
  -- runServers, and the end
  abbrev pub serve_until : Run
  serve_until deferred = logged serving (returns (exit_code env.serve) deferred)

  -- from the second listener on
  unfoldable pub serve_apis : C → Run
  unfolding opening
  serve_apis cfg = or_exit (env.listen_engine cfg) (opening engine_listener serve_until)

  -- from the first listener on
  unfoldable pub open_apis : C → Run
  unfolding opening
  open_apis cfg = or_exit (env.listen_public cfg) (opening public_listener (serve_apis cfg))

  module _ {K Q : Type 0} (gorm : Gorm D) (opa : Library K Q) (show_priority : ℤ → String) where
    -- from CompileAll on
    unfoldable pub compile_and_open : C → D → Run
    compile_and_open cfg d = or_exit (start gorm opa show_priority d).1 (open_apis cfg)

    -- from InitDB on
    unfoldable pub open_store : C → Run
    unfolding opening
    open_store cfg =
        or_exit_unready (env.init_db cfg) (λ d. opening data_store (compile_and_open cfg d))

    unfoldable pub run : ℕ × List Event
    unfolding open_store
    run = or_exit_with env.load open_store []
