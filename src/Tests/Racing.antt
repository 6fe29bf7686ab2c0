-- ===== src/Tests/Racing.antt =====
-- Two requests at the same time over the database of Tests/Tables: p1 is deleted and created again,
-- and the deletion compiles last what it has listed before the creation. At the end the table has p1
-- and the engine serves nothing.
use dcm_policy_manager.Prelude.{
  String, Option, none, some, List, [], ◌∷◌, map, refl, assign, concat,
}
use dcm_policy_manager.Policy.{Policy}
use dcm_policy_manager.Convert.{api_to_db_model}
use dcm_policy_manager.Store as Store
use dcm_policy_manager.Service.{module_of}
use dcm_policy_manager.Opa.{compile, new_queries, build_queries, main_query, trim_prefix}
use dcm_policy_manager.Opa.Compiling.{Serves}
use dcm_policy_manager.System.Interleaving.{
  Concurrent, to_compile, creates, deletes, writes, recompiles, lists, compiles, Interleaved, begun,
  moved,
}
use dcm_policy_manager.System.Interleaving.Snapshots.{IsSnapshot, Interleaved-Serves}
use dcm_policy_manager.Tests.Serving.{show_priority}
use dcm_policy_manager.Tests.Publishing.{echo, new_policy, queries_of_p1}
use dcm_policy_manager.Tests.Tables.{one_row_db}
use dcm_policy_manager.Tests.Running.{starting}

abbrev p1 : Policy
p1 = api_to_db_model new_policy "p1"

abbrev history : List (Option Policy)
history =
    some p1
    ∷ some p1
    ∷ some p1
    ∷ some p1
    ∷ some p1
    ∷ none
    ∷ none
    ∷ none
    ∷ some p1
    ∷ some p1
    ∷ some p1
    ∷ some p1
    ∷ none
    ∷ []

abbrev raced : Concurrent (Option Policy) String
raced = record { db = some p1; engine = []; tasks = [] }

created :
    Interleaved one_row_db echo show_priority
      (some p1 ∷ some p1 ∷ some p1 ∷ some p1 ∷ none ∷ [])
      (record { db = some p1; engine = queries_of_p1; tasks = [] })
unfolding Store.create Store.list_all compile new_queries build_queries main_query trim_prefix
    assign concat api_to_db_model
created =
    moved
      (moved (moved (moved (begun none starting) (writes (creates p1))) recompiles)
        (lists [] [] (p1 ∷ []) refl refl))
      (compiles [] [] (p1 ∷ []) refl)

race : Interleaved one_row_db echo show_priority history raced
unfolding Store.create Store.delete Store.list_all compile new_queries build_queries main_query
    trim_prefix assign concat api_to_db_model
race =
    moved
      (moved
        (moved
          (moved
            (moved
              (moved (moved (moved created (writes (deletes "p1"))) recompiles)
                (lists [] [] [] refl refl))
              (writes (creates p1)))
            recompiles)
          (lists [] (to_compile [] ∷ []) (p1 ∷ []) refl refl))
        (compiles [] (to_compile [] ∷ []) (p1 ∷ []) refl))
      (compiles [] [] [] refl)

Interleaved-Serves_example :
    (policies : List Policy) × IsSnapshot one_row_db echo show_priority history policies
    × Serves echo (map module_of policies) []
Interleaved-Serves_example = Interleaved-Serves one_row_db echo show_priority race
