-- ===== src/System/Interleaving/Snapshots.antt =====
-- However requests interleave, the engine serves the policies of one state of the database.
use mathlib.Core.List.{Memᴰ}
use dcm_policy_manager.Prelude.{
  String, none, List, [], ◌∷◌, ◌++◌, map, All, All-map, ◌≡◌, ok, refl, sym, ap, subst, Assoc,
  Option-cases, inl, inr,
}
use dcm_policy_manager.Prelude.Int.{ℤ}
use dcm_policy_manager.Policy.{Policy}
use dcm_policy_manager.Store.{Gorm}
use dcm_policy_manager.Service.{World, module_of}
use dcm_policy_manager.Service.Publishing.{recompile-Published}
use dcm_policy_manager.Opa.{Library, embedded_engine, compile}
use dcm_policy_manager.Opa.Compiling.{Serves, compile-Serves, embedded_engine-IsAtomic}
use dcm_policy_manager.Opa.Serving.{Published-InSync}
use dcm_policy_manager.System.{policy_store, start}
use dcm_policy_manager.System.Interleaving.{
  Recompiling, to_list, to_compile, Concurrent, ConcurrentStep, writes, recompiles, lists,
  list_fails, compiles, Interleaved, begun, moved,
}

module _ {ℓ} {A : Type ℓ} (P : A → Type 0) where
  -- An item in the middle, and the others.
  All-taken :
      (before later : List A) (x : A) → All P (before ++ x ∷ later) → P x × All P (before ++ later)
  All-taken [] later x (p, h) = (p, h)
  All-taken (y ∷ before) later x (q, h) =
      let (p, rest) = All-taken before later x h in (p, (q, rest))

  All-put :
      (before later : List A) (x : A) → P x → All P (before ++ later) → All P (before ++ x ∷ later)
  All-put [] later x p h = (p, h)
  All-put (y ∷ before) later x p (q, h) = (q, All-put before later x p h)

module _ {D K Q : Type 0} (gorm : Gorm D) (opa : Library K Q) (show_priority : ℤ → String) where
  -- The policies are all those of a state that the database has been in.
  pub record IsSnapshot (history : List D) (policies : List Policy) : Type 0 where
    pub db : D
    pub past : Memᴰ db history
    pub listed : (policy_store gorm).list_all db ≡ ok policies

  -- what a recompilation has listed is a snapshot
  abbrev Listed : List D → Recompiling → Type 0
  Listed history to_list = Unit
  Listed history (to_compile policies) = IsSnapshot history policies

  record IsConsistent (history : List D) (s : Concurrent D Q) : Type 0 where
    policies : List Policy
    snapshot : IsSnapshot history policies
    served : Serves opa (map module_of policies) s.engine
    tasks : All (Listed history) s.tasks

  later-IsSnapshot :
      (d : D) (history : List D) (policies : List Policy)
      → IsSnapshot history policies
      → IsSnapshot (d ∷ history) policies
  later-IsSnapshot d history policies s = record {
    db = s.db;
    past = Memᴰ.tail s.past;
    listed = s.listed;
  }

  later-Listed :
      (d : D) (history : List D) (task : Recompiling)
      → Listed history task
      → Listed (d ∷ history) task
  later-Listed d history to_list h = tt
  later-Listed d history (to_compile policies) h = later-IsSnapshot d history policies h

  -- The tasks may change to ones whose listings are snapshots.
  kept-IsConsistent :
      (d : D) (history : List D) (s : Concurrent D Q) (db : D) (tasks : List Recompiling)
      → IsConsistent history s
      → All (Listed (d ∷ history)) tasks
      → IsConsistent (d ∷ history) (record s { db = db; tasks = tasks })
  kept-IsConsistent d history s db tasks c t = record {
    policies = c.policies;
    snapshot = later-IsSnapshot d history c.policies c.snapshot;
    served = c.served;
    tasks = t;
  }

  later_tasks :
      (d : D) (history : List D) (s : Concurrent D Q)
      → IsConsistent history s
      → All (Listed (d ∷ history)) s.tasks
  later_tasks d history s c =
      All-map (Listed history) (Listed (d ∷ history)) s.tasks (later-Listed d history) c.tasks

  compiled-IsConsistent :
      (history : List D) (s : Concurrent D Q) (before later : List Recompiling)
      (policies : List Policy)
      → s.tasks ≡ before ++ to_compile policies ∷ later
      → IsConsistent history s
      → IsConsistent (s.db ∷ history) (record s {
        engine = (compile opa s.engine (map module_of policies)).0;
        tasks = before ++ later;
      })
  compiled-IsConsistent history s before later policies e c =
      let result = compile opa s.engine (map module_of policies) in
      let (listed, others) =
        All-taken (Listed (s.db ∷ history)) before later (to_compile policies)
          (subst (All (Listed (s.db ∷ history))) e (later_tasks s.db history s c)) in
      elim (Option-cases result.1) [
        | inl done ↦ record {
          policies = policies;
          snapshot = listed;
          served =
              compile-Serves opa (map module_of policies) s.engine result.0
                (ap (λ x. (result.0, x)) done);
          tasks = others;
        }
        | inr (x, failed) ↦
            let same : result.0 ≡ s.engine =
              (embedded_engine-IsAtomic opa).compile_fails s.engine result.0
                (map module_of policies) x (ap (λ x. (result.0, x)) failed) in
            record {
              policies = c.policies;
              snapshot = later-IsSnapshot s.db history c.policies c.snapshot;
              served = subst (Serves opa (map module_of c.policies)) (sym same) c.served;
              tasks = others;
            }
      ]

  step-IsConsistent :
      (history : List D) (s s' : Concurrent D Q)
      → ConcurrentStep gorm opa show_priority s s'
      → IsConsistent history s
      → IsConsistent (s'.db ∷ history) s'
  step-IsConsistent history s s' (writes {d} w) c =
      kept-IsConsistent d history s d s.tasks c (later_tasks d history s c)
  step-IsConsistent history s s' recompiles c =
      kept-IsConsistent s.db history s s.db (to_list ∷ s.tasks) c (tt, later_tasks s.db history s c)
  step-IsConsistent history s s' (lists before later policies e l) c =
      let (_, others) =
        All-taken (Listed (s.db ∷ history)) before later to_list
          (subst (All (Listed (s.db ∷ history))) e (later_tasks s.db history s c)) in
      kept-IsConsistent s.db history s s.db (before ++ to_compile policies ∷ later) c (
        All-put (Listed (s.db ∷ history)) before later (to_compile policies)
          (record { db = s.db; past = Memᴰ.head refl; listed = l }) others)
  step-IsConsistent history s s' (list_fails before later x e l) c =
      let (_, others) =
        All-taken (Listed (s.db ∷ history)) before later to_list
          (subst (All (Listed (s.db ∷ history))) e (later_tasks s.db history s c)) in
      kept-IsConsistent s.db history s s.db (before ++ later) c others
  step-IsConsistent history s s' (compiles before later policies e) c =
      compiled-IsConsistent history s before later policies e c

  begun-IsConsistent :
      (w : World D (Assoc Q)) (d : D)
      → start gorm opa show_priority d ≡ (w, none)
      → IsConsistent (w.db ∷ []) (record { db = w.db; engine = w.engine; tasks = [] })
  unfolding start
  begun-IsConsistent w d e =
      let (_, p) =
        recompile-Published (policy_store gorm) (embedded_engine opa) show_priority
          (record { db = d; engine = [] }) w e in
      let s =
        Published-InSync opa (policy_store gorm) show_priority (record { db = d; engine = [] }) w
          p in
      record {
        policies = s.rows;
        snapshot = record { db = w.db; past = Memᴰ.head refl; listed = s.listed };
        served = s.served;
        tasks = tt;
      }

  Interleaved-IsConsistent :
      {history : List D} {s : Concurrent D Q}
      → Interleaved gorm opa show_priority history s
      → IsConsistent history s
  Interleaved-IsConsistent (begun {w} d e) = begun-IsConsistent w d e
  Interleaved-IsConsistent (moved {history} {s} {s'} run step) =
      step-IsConsistent history s s' step (Interleaved-IsConsistent run)

  -- In every interleaving of requests, with their writes, rollbacks and recompilations in any order
  -- and successful or not, the engine serves exactly the policies of one state that the database has
  -- been in, never some of one and some of another: each has a query that a compiler of all of them
  -- prepared, and no other ID has one.
  pub Interleaved-Serves :
      {history : List D} {s : Concurrent D Q}
      → Interleaved gorm opa show_priority history s
      → (policies : List Policy) × IsSnapshot history policies
        × Serves opa (map module_of policies) s.engine
  Interleaved-Serves run =
      let c = Interleaved-IsConsistent run in (c.policies, c.snapshot, c.served)
