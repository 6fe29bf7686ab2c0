-- ===== src/Value/Laws.antt =====
-- Reading a map after a write.
use dcm_policy_manager.Prelude.{
  String, Option, none, some, ◌==◌, ◌≡◌, refl, arith, eq_iff, eq_refl, if◌then◌else◌, ne→eq_false,
}
use dcm_policy_manager.Value.{Value, Fields, end, field, get, put, delete, Absent}

pub get-put :
    (k j : String) (v : Value) (fs : Fields)
    → get j (put k v fs) ≡ (if k == j then some v else get j fs)
unfolding get put
get-put k j v end = refl
get-put k j v (field i w fs) = ground (arith, eq_iff k j, eq_iff i k, eq_iff i j, get-put k j v fs)

pub get-put_self : (k : String) (v : Value) (fs : Fields) → get k (put k v fs) ≡ some v
get-put_self k v fs = rw (get-put k k v fs, eq_refl k)

pub get-delete :
    (k j : String) (fs : Fields) → get j (delete k fs) ≡ (if k == j then none else get j fs)
unfolding get delete
get-delete k j end = ground arith
get-delete k j (field i w fs) =
    ground (arith, eq_iff k j, eq_iff i k, eq_iff i j, get-delete k j fs)

pub get-Absent : (k : String) (fs : Fields) → Absent k fs → get k fs ≡ none
unfolding get
get-Absent k end h = refl
get-Absent k (field i w fs) (ne, h) = rw (ne→eq_false i k ne) (get-Absent k fs h)

pub ruleset map_laws = (get-put, get-delete, eq_refl)
