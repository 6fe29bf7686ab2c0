-- ===== src/Tests/Serving.antt =====
-- A store of one row, whose creations can be undone, and an engine that refuses one policy.
use dcm_policy_manager.Prelude.{
  suc, String, true, Option, none, some, List, [], ◌∷◌, ◌==◌, ◌≡◌, refl, arith, eq_iff, Result, ok,
  err, if◌then◌else◌, eq_refl,
}
use dcm_policy_manager.Prelude.Int.{ℤ, pos}
use dcm_policy_manager.Policy.{Policy}
use dcm_policy_manager.Errors.{ServiceError, new_internal_error}
use dcm_policy_manager.Store.{StoreError, policy_not_found, policy_id_taken}
use dcm_policy_manager.Convert.{ApiPolicy, api_to_db_model, db_to_api_model}
use dcm_policy_manager.Text.{trim_space}
use dcm_policy_manager.Checks.{
  validate_post_input, get_policy_id, validate_patch_input, validate_patch_immutable_fields,
  merge_policy_onto_policy,
}
use dcm_policy_manager.Convert.RoundTrip.{api_to_db_model-db_to_api_model}
use dcm_policy_manager.Service.{
  PolicyStore, Engine, EngineError, invalid_rego, PolicyModule, World, recompile_engine,
  create_policy, update_policy,
}
use dcm_policy_manager.Service.Rollback.{
  IsUndoable, IsAtomic, Undone, create_policy_fails, update_policy_fails,
}

abbrev pub sample : Policy
sample = record {
  id = "p1";
  display_name = "first";
  description = "";
  policy_type = "GLOBAL";
  label_selector = [];
  priority = pos 5;
  rego_code = "package p1";
  enabled = true;
  create_time = 3;
  update_time = 4;
}

api_to_db_model-db_to_api_model_example :
    api_to_db_model (db_to_api_model sample) "p1"
    ≡ record sample { create_time = 0; update_time = 0 }
api_to_db_model-db_to_api_model_example = api_to_db_model-db_to_api_model sample

-- The store's state is its one row, if there is one.
abbrev put_row : Option Policy → Policy → Option Policy × Result StoreError Policy
put_row none p = (some p, ok p)
put_row (some q) p = (some q, err policy_id_taken)

abbrev replace_row : Option Policy → Policy → Option Policy × Result StoreError Policy
replace_row none p = (none, err policy_not_found)
replace_row (some q) p =
    if q.id == p.id
    then (some (record p { update_time = suc q.update_time }), ok p)
    else (some q, err policy_not_found)

-- The two states differ in the update time at most.
abbrev pub untimed : Option Policy → Option Policy
untimed none = none
untimed (some q) = some (record q { update_time = 0 })

abbrev pub SameRow : Option Policy → Option Policy → Type 0
SameRow d d' = untimed d ≡ untimed d'

abbrev remove_row : Option Policy → String → Option Policy × Option StoreError
remove_row none id = (none, some policy_not_found)
remove_row (some q) id = if q.id == id then (none, none) else (some q, some policy_not_found)

abbrev row_of : Option Policy → String → Result StoreError Policy
row_of none id = err policy_not_found
row_of (some q) id = if q.id == id then ok q else err policy_not_found

abbrev rows : Option Policy → List Policy
rows none = []
rows (some q) = q ∷ []

abbrev pub one_row : PolicyStore (Option Policy)
one_row = record {
  list = λ d opts. ok (record { policies = rows d; next_page_token = "" });
  list_all = λ d. ok (rows d);
  create = put_row;
  delete = remove_row;
  update = replace_row;
  get = row_of;
}

create_fails :
    (d d' : Option Policy) (p : Policy) (e : StoreError) → put_row d p ≡ (d', err e) → SameRow d' d
create_fails none d' p e h = cc
create_fails (some q) d' p e h = cc

create_undone :
    (d d' : Option Policy) (p row : Policy)
    → put_row d p ≡ (d', ok row)
    → SameRow (remove_row d' p.id).0 d
create_undone none d' p row h = ground (arith, eq_refl p.id)
create_undone (some q) d' p row h = cc

update_fails :
    (d d' : Option Policy) (p : Policy) (e : StoreError)
    → replace_row d p ≡ (d', err e)
    → SameRow d' d
update_fails none d' p e h = cc
update_fails (some q) d' p e h = ground arith

update_undone :
    (d d' : Option Policy) (id : String) (previous p row : Policy)
    → row_of d id ≡ ok previous
    → p.id ≡ id
    → replace_row d p ≡ (d', ok row)
    → SameRow (replace_row d' previous).0 d
update_undone none d' id previous p row g i h = cc
update_undone (some q) d' id previous p row g i h =
    ground (arith, eq_iff q.id p.id, eq_refl p.id, eq_iff p.id previous.id)

pub one_row-IsUndoable : IsUndoable one_row SameRow
one_row-IsUndoable = record {
  same_refl = λ d. refl;
  create_fails = create_fails;
  create_undone = create_undone;
  update_fails = update_fails;
  update_undone = update_undone;
}

-- The engine's state is its modules; it cannot compile the code "bad".
abbrev pub compile_all :
    List PolicyModule → List PolicyModule → List PolicyModule × Option EngineError
compile_all n [] = ([], none)
compile_all n (m ∷ ms) =
    if m.rego_code == "bad" then (n, some (invalid_rego "bad")) else (m ∷ ms, none)

abbrev pub picky : Engine (List PolicyModule)
picky = record { compile = compile_all; validate_rego = λ code. none }

pub picky-IsAtomic : IsAtomic picky
picky-IsAtomic = record { compile_fails = fails }
  where
    fails :
        (n n' modules : List PolicyModule) (e : EngineError)
        → compile_all n modules ≡ (n', some e)
        → n' ≡ n
    fails n n' [] e h = cc
    fails n n' (m ∷ ms) e h = ground arith

abbrev pub show_priority : ℤ → String
show_priority p = "5"

abbrev pub nothing_given : ApiPolicy
nothing_given = record {
  create_time = none;
  description = none;
  display_name = none;
  enabled = none;
  id = none;
  label_selector = none;
  path = none;
  policy_type = none;
  priority = none;
  rego_code = none;
  update_time = none;
}

abbrev bad_policy : ApiPolicy
bad_policy = record nothing_given {
  display_name = some "second";
  policy_type = some "USER";
  rego_code = some "bad";
}

abbrev pub empty_world : World (Option Policy) (List PolicyModule)
empty_world = record { db = none; engine = [] }

abbrev compile_failure : String → ServiceError
compile_failure message = new_internal_error message "bad" "bad"

bad_creation :
    (create_policy one_row picky show_priority empty_world bad_policy (some "p2") "generated").1
    ≡ err (compile_failure "Failed to compile policies after create")
unfolding create_policy recompile_engine validate_post_input trim_space get_policy_id
    api_to_db_model
bad_creation = refl

create_policy_fails_example :
    Undone SameRow
      (create_policy one_row picky show_priority empty_world bad_policy (some "p2") "generated").0
      empty_world
create_policy_fails_example =
    create_policy_fails one_row picky show_priority SameRow one_row-IsUndoable picky-IsAtomic
      empty_world bad_policy (some "p2") "generated"
      (compile_failure "Failed to compile policies after create") bad_creation

abbrev one_policy : World (Option Policy) (List PolicyModule)
one_policy = record {
  db = some sample;
  engine = record { id = "p1"; rego_code = "package p1" } ∷ [];
}

abbrev pub bad_patch : ApiPolicy
bad_patch = record nothing_given { rego_code = some "bad" }

bad_update :
    (update_policy one_row picky show_priority one_policy "p1" (some bad_patch)).1
    ≡ err (compile_failure "Failed to compile policies after update")
unfolding update_policy recompile_engine validate_patch_input trim_space
    validate_patch_immutable_fields api_to_db_model merge_policy_onto_policy
bad_update = refl

update_policy_fails_example :
    Undone SameRow
      (update_policy one_row picky show_priority one_policy "p1" (some bad_patch)).0
      one_policy
update_policy_fails_example =
    update_policy_fails one_row picky show_priority SameRow one_row-IsUndoable picky-IsAtomic
      one_policy "p1" (some bad_patch) (compile_failure "Failed to compile policies after update")
      bad_update
