-- ===== src/Tests/Starting.antt =====
-- Runs of the whole program over the empty database of Tests/Tables: one that ends well, and one
-- whose second listener fails; and a run of two servers of which one fails.
use dcm_policy_manager.Prelude.{
  String, true, Option, none, some, List, [], ◌∷◌, ◌≤◌, ◌*◌, ◌+◌, ◌≡◌, ◌⊎◌, ◌↔◌, refl, ok, arith,
}
use dcm_policy_manager.Policy.{Policy}
use dcm_policy_manager.Process.{Environment, unprepared, ready, data_store, run}
use dcm_policy_manager.Process.Closing.{left_open, run-left_open}
use dcm_policy_manager.Process.Exit.{IsSetUp, run_iff}
use dcm_policy_manager.Process.Servers.{
  Servers, ServerStep, fails, sends, receives, stops, closes, Runs, begins, goes_on, HasEnded,
}
use dcm_policy_manager.Process.Servers.Ending.{Runs-first_err, Runs-go_on}
use dcm_policy_manager.Tests.Serving.{show_priority}
use dcm_policy_manager.Tests.Publishing.{echo}
use dcm_policy_manager.Tests.Tables.{one_row_db}

abbrev all_well : Environment String (Option Policy)
all_well = record {
  load = ok "config";
  init_db = λ cfg. ready none;
  listen_public = λ cfg. none;
  listen_engine = λ cfg. none;
  serve = none;
}

abbrev port_taken : Environment String (Option Policy)
port_taken = record all_well { listen_engine = λ cfg. some "address already in use" }

abbrev unmigrated : Environment String (Option Policy)
unmigrated = record all_well { init_db = λ cfg. unprepared "failed to migrate database" }

closed_on_failure : left_open [] (run port_taken one_row_db echo show_priority).1 ≡ some []
closed_on_failure = run-left_open port_taken one_row_db echo show_priority

run-left_open_example :
    left_open [] (run unmigrated one_row_db echo show_priority).1 ≡ some (data_store ∷ [])
run-left_open_example = run-left_open unmigrated one_row_db echo show_priority

run_iff_example :
    ((run port_taken one_row_db echo show_priority).0 ≡ 0)
    ↔ (IsSetUp port_taken one_row_db echo show_priority × (port_taken.serve ≡ none))
run_iff_example = run_iff port_taken one_row_db echo show_priority

-- the second server fails, and the first one is stopped
abbrev ended : Servers
ended = record {
  running = 0;
  sending = [];
  channel = [];
  is_closed = true;
  first_err = some "failed to serve";
  cancelled = true;
}

two_servers : Runs 2 5 ("failed to serve" ∷ []) ended
two_servers =
    goes_on
      (goes_on
        (goes_on
          (goes_on (goes_on begins (fails 1 "failed to serve" refl))
            (sends [] [] "failed to serve" refl (omega arith)))
          (receives "failed to serve" [] refl))
        (stops 0 refl))
      (closes refl refl refl)

Runs-first_err_example :
    (ended.first_err ≡ some "failed to serve") × (ended.running ≡ 0) × (ended.sending ≡ [])
Runs-first_err_example = Runs-first_err two_servers (refl, refl)

Runs-go_on_example :
    (5 ≤ 3 * 2 + 2)
    × (HasEnded ended ⊎ ((more : List String) × (s : Servers) × ServerStep 2 more ended s))
Runs-go_on_example = Runs-go_on two_servers
