-- ===== src/Tests/Running.antt =====
-- The program started over the empty database of Tests/Tables: a policy is created, updated
-- and deleted.
use dcm_policy_manager.Prelude.{
  ℕ, true, String, Option, none, some, [], ◌≡◌, refl, ok, err, Assoc, assign, concat,
}
use dcm_policy_manager.Text.{trim_space}
use dcm_policy_manager.Policy.{Policy}
use dcm_policy_manager.Store as Store
use dcm_policy_manager.Convert.{api_to_db_model, db_to_api_model}
use dcm_policy_manager.Checks.{
  validate_post_input, get_policy_id, validate_patch_input, validate_patch_immutable_fields,
  merge_policy_onto_policy,
}
use dcm_policy_manager.Store.{list_all}
use dcm_policy_manager.Store.Table.{written_over}
use dcm_policy_manager.Errors.{new_policy_not_found_error}
use dcm_policy_manager.Service.{
  World, create_checks, create_policy, get_policy, update_policy, delete_policy, recompile_engine,
}
use dcm_policy_manager.Opa.{
  embedded_engine, compile, new_queries, build_queries, main_query, trim_prefix, validate_rego,
}
use dcm_policy_manager.System.{policy_store, start, Step, create, update, Reach, started, stepped}
use dcm_policy_manager.System.Changes.{Change, update_request, Step-Change}
use dcm_policy_manager.System.Reading.{
  create_policy-get_policy, update_policy-get_policy, delete_policy-get_policy,
}
use dcm_policy_manager.System.Serving.{Serving, Reach-Serving}
use dcm_policy_manager.System.Validity.{AllValid, Step-AllValid}
use dcm_policy_manager.Tests.Serving.{show_priority}
use dcm_policy_manager.Tests.Publishing.{echo, new_policy, new_code, queries_of_p1}
use dcm_policy_manager.Tests.Tables.{rows_of, one_row_db, one_row_db-IsDatabase, one_row_db-IsUp}

abbrev pub at_start : World (Option Policy) (Assoc String)
at_start = record { db = none; engine = [] }

pub starting : start one_row_db echo show_priority none ≡ (at_start, none)
unfolding start recompile_engine list_all compile new_queries build_queries
starting = refl

abbrev with_p1 : World (Option Policy) (Assoc String)
with_p1 = record { db = some (api_to_db_model new_policy "p1"); engine = queries_of_p1 }

created :
    create_policy
      (policy_store one_row_db)
      (embedded_engine echo)
      show_priority
      at_start
      new_policy
      (some "p1")
      "g"
    ≡ (with_p1, ok (db_to_api_model (api_to_db_model new_policy "p1")))
unfolding create_policy recompile_engine validate_post_input trim_space get_policy_id
    api_to_db_model compile new_queries build_queries main_query trim_prefix validate_rego assign
    concat list_all Store.create
created = refl

creating : Step one_row_db echo show_priority at_start with_p1
creating = create new_policy (some "p1") "g" created

abbrev pub updated_p1 : Policy
updated_p1 =
    record (api_to_db_model
      (merge_policy_onto_policy (some new_code) (db_to_api_model (api_to_db_model new_policy "p1")))
      "p1") { update_time = 7 }

abbrev pub with_new_code : World (Option Policy) (Assoc String)
with_new_code = record { db = some updated_p1; engine = queries_of_p1 }

updated :
    update_policy
      (policy_store one_row_db)
      (embedded_engine echo)
      show_priority
      with_p1
      "p1"
      (some new_code)
    ≡ (with_new_code, ok (db_to_api_model (record updated_p1 { update_time = 0 })))
unfolding update_policy recompile_engine validate_patch_input trim_space
    validate_patch_immutable_fields api_to_db_model db_to_api_model merge_policy_onto_policy compile
    new_queries build_queries main_query trim_prefix validate_rego assign concat list_all
    Store.update Store.get
updated = refl

updating : Step one_row_db echo show_priority with_p1 with_new_code
updating = update "p1" (some new_code) updated

deleted :
    delete_policy (policy_store one_row_db) (embedded_engine echo) show_priority with_new_code "p1"
    ≡ (at_start, none)
unfolding delete_policy recompile_engine compile new_queries build_queries list_all Store.delete
    api_to_db_model
deleted = refl

pub reached : Reach one_row_db echo show_priority with_new_code
reached = stepped (stepped (started none starting) creating) updating

Reach-Serving_example :
    Serving echo one_row_db rows_of one_row_db-IsDatabase one_row_db-IsUp show_priority
      with_new_code
Reach-Serving_example =
    Reach-Serving echo one_row_db rows_of one_row_db-IsDatabase one_row_db-IsUp show_priority
      reached

p1_IsValid :
    AllValid one_row_db rows_of one_row_db-IsDatabase one_row_db-IsUp echo show_priority with_p1
p1_IsValid =
    Step-AllValid one_row_db rows_of one_row_db-IsDatabase one_row_db-IsUp echo show_priority
      creating tt

Step-AllValid_example :
    AllValid one_row_db rows_of one_row_db-IsDatabase one_row_db-IsUp echo show_priority
      with_new_code
Step-AllValid_example =
    Step-AllValid one_row_db rows_of one_row_db-IsDatabase one_row_db-IsUp echo show_priority
      updating p1_IsValid

Step-Change_example :
    Change
      (rows_of with_p1.db)
      (update_request "p1" (some new_code))
      true
      (rows_of with_new_code.db)
unfolding updating
Step-Change_example =
    Step-Change one_row_db rows_of one_row_db-IsDatabase one_row_db-IsUp echo show_priority updating

create_policy-get_policy_example :
    (id : String) × (create_checks
        (policy_store one_row_db)
        (embedded_engine echo)
        show_priority
        new_policy
        (some "p1")
        "g"
      ≡ ok id)
    × (get_policy (policy_store one_row_db) (embedded_engine echo) show_priority with_p1 id
        ≡ ok (db_to_api_model (api_to_db_model new_policy "p1")))
create_policy-get_policy_example =
    create_policy-get_policy one_row_db rows_of one_row_db-IsDatabase one_row_db-IsUp echo
      show_priority at_start with_p1 new_policy (db_to_api_model (api_to_db_model new_policy "p1"))
      (some "p1") "g" created

update_policy-get_policy_example :
    (previous : Policy) × (stamp : ℕ) × (get_policy
        (policy_store one_row_db)
        (embedded_engine echo)
        show_priority
        with_p1
        "p1"
      ≡ ok (db_to_api_model previous))
    × (get_policy (policy_store one_row_db) (embedded_engine echo) show_priority with_new_code "p1"
        ≡ ok (
            db_to_api_model (
              written_over
                (api_to_db_model
                  (merge_policy_onto_policy (some new_code) (db_to_api_model previous))
                  "p1")
                stamp
                previous)))
update_policy-get_policy_example =
    update_policy-get_policy one_row_db rows_of one_row_db-IsDatabase one_row_db-IsUp echo
      show_priority with_p1 with_new_code "p1" (some new_code)
      (db_to_api_model (record updated_p1 { update_time = 0 })) updated

delete_policy-get_policy_example :
    get_policy (policy_store one_row_db) (embedded_engine echo) show_priority at_start "p1"
    ≡ err (new_policy_not_found_error "p1")
delete_policy-get_policy_example =
    delete_policy-get_policy one_row_db rows_of one_row_db-IsDatabase one_row_db-IsUp echo
      show_priority with_new_code at_start "p1" deleted
