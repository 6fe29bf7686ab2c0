-- ===== src/System/Interleaving.antt =====
-- Requests at the same time. CreatePolicy, UpdatePolicy and DeletePolicy of
-- internal/service/policy.go hold no lock: what one of them does to the database, its listing of all
-- policies and its compilation (recompileEngine) come in any order with those of the others; Compile
-- exchanges the queries in one step, under the lock of internal/opa/engine.go.
pub mod Snapshots
use mathlib.Core.List.{Memᴰ}
use dcm_policy_manager.Prelude.{
  String, Option, none, some, List, [], ◌∷◌, ◌++◌, map, ◌≡◌, ok, err, refl, sym, ap, ◌∙◌, subst,
  Assoc, Option-cases, inl, inr,
}
use dcm_policy_manager.Prelude.Int.{ℤ}
use dcm_policy_manager.Policy.{Policy}
use dcm_policy_manager.Store.{Gorm, DbError}
use dcm_policy_manager.Service.{World, EngineError, module_of}
use dcm_policy_manager.Opa.{Library, embedded_engine, compile}
use dcm_policy_manager.Opa.Compiling.{Serves, compile-Serves, embedded_engine-IsAtomic}
use dcm_policy_manager.Opa.Serving.{Published-InSync}
use dcm_policy_manager.Service.Publishing.{recompile-Published}
use dcm_policy_manager.System.{policy_store, start}

-- A call of recompileEngine that is under way: it has still to list the policies, or has listed them
-- and has to compile them.
pub data Recompiling : Type 0 where
  to_list : Recompiling
  to_compile : List Policy → Recompiling

pub record Concurrent (D Q : Type 0) : Type 0 where
  pub db : D
  pub engine : Assoc Q
  pub tasks : List Recompiling

module _ {D K Q : Type 0} (gorm : Gorm D) (opa : Library K Q) (show_priority : ℤ → String) where
  -- what a request does to the database, also to undo what it did
  pub data Write (d : D) : D → Type 0 where
    creates : (policy : Policy) → Write d ((policy_store gorm).create d policy).0
    updates : (policy : Policy) → Write d ((policy_store gorm).update d policy).0
    deletes : (id : String) → Write d ((policy_store gorm).delete d id).0

  pub data ConcurrentStep (s : Concurrent D Q) : Concurrent D Q → Type 0 where
    writes : {d : D} → Write s.db d → ConcurrentStep s (record s { db = d })
    -- a request whose write has succeeded calls recompileEngine; here at any time
    recompiles : ConcurrentStep s (record s { tasks = to_list ∷ s.tasks })
    lists :
        (before later : List Recompiling) (policies : List Policy)
        → s.tasks ≡ before ++ to_list ∷ later
        → (policy_store gorm).list_all s.db ≡ ok policies
        → ConcurrentStep s (record s { tasks = before ++ to_compile policies ∷ later })
    list_fails :
        (before later : List Recompiling) (e : DbError)
        → s.tasks ≡ before ++ to_list ∷ later
        → (policy_store gorm).list_all s.db ≡ err e
        → ConcurrentStep s (record s { tasks = before ++ later })
    compiles :
        (before later : List Recompiling) (policies : List Policy)
        → s.tasks ≡ before ++ to_compile policies ∷ later
        → ConcurrentStep s (record s {
          engine = (compile opa s.engine (map module_of policies)).0;
          tasks = before ++ later;
        })

  -- An interleaving from a start on, with the states that the database has been in, the last first.
  pub data Interleaved : List D → Concurrent D Q → Type 0 where
    begun :
        {w : World D (Assoc Q)} (d : D)
        → start gorm opa show_priority d ≡ (w, none)
        → Interleaved (w.db ∷ []) (record { db = w.db; engine = w.engine; tasks = [] })
    moved :
        {history : List D} {s s' : Concurrent D Q}
        → Interleaved history s
        → ConcurrentStep s s'
        → Interleaved (s'.db ∷ history) s'
