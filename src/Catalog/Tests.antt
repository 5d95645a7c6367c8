-- ===== src/Catalog/Tests.antt =====
-- Runs of the services of departments and of reasons on small tables.
use vms_backend_testing.Base.{◌+◌, true, none, some, List, [], ◌∷◌, ◌≡◌, refl, arith}
use vms_backend_testing.Base.Text.{Text, text_eq, normalize, trim}
use vms_backend_testing.Base.Request.{is_ok}
use vms_backend_testing.Base.Role.{root}
use vms_backend_testing.Catalog.{Entry, Db, Env, Caller, check_target, check_member}
use vms_backend_testing.Catalog.Department.{create_department}
use vms_backend_testing.Catalog.Unique.{
  Request, new_department, new_departments, drop_reason, Once, run, run-Once,
}

abbrev sales : Text
sales = b's' ∷ []

abbrev a_department : Entry
a_department = record { id = 3; org_id = 2; name = sales; created_at = 0 }

abbrev small : Db
small = record {
  organizations = 1 ∷ 2 ∷ [];
  users = [];
  entries = a_department ∷ [];
  references = [];
}

abbrev the_root : Caller
the_root = record { org_id = none; user_id = 4; role = root; q_org_id = some 1 }

abbrev env : Env
env = record { now = 100; fresh = λ k. 20 + k }

abbrev requests : List (Env × Caller × Request)
requests =
    (env, the_root, new_department sales)
    ∷ (env, the_root, new_departments (sales ∷ sales ∷ []))
    ∷ (env, the_root, drop_reason 3)
    ∷ []

run-Once_example : Once 1 sales (run requests small)
run-Once_example = run-Once requests 1 sales small (ground arith)

-- A name that differs in its case from one that is there is added.
variant :
    is_ok (create_department env (record the_root { q_org_id = some 2 }) (b'S' ∷ []) small).0 ≡ true
unfolding create_department check_target check_member normalize trim text_eq
variant = refl
