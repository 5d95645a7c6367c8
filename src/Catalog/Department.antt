-- ===== src/Catalog/Department.antt =====
-- `createDepartment`, `addDepartmentBulk`, `getAllDepartments` and `deleteDepartment`
use vms_backend_testing.Base.{
  ℕ, ◌+◌, Bool, true, false, not, Option, none, some, List, [], ◌∷◌, map, ◌==◌, if◌then◌else◌,
  Ident,
}
use vms_backend_testing.Base.Text.{Text}
use vms_backend_testing.Base.Request.{
  Action, bad_request, unauthorized, not_found, internal, ◌>>=◌, ◌>>◌, pure, gets, throw_if, modify,
}
use vms_backend_testing.Base.Role.{root, super_admin, includes}
use vms_backend_testing.Base.Table.{any, find_many}
use vms_backend_testing.Catalog.{
  Entry, Db, Env, Caller, editors, check_target, check_member, exists_already, new_entry, add_entry,
  Imported, import_all, has_organization, drop_entry, SortBy, by_name, by_created_at, by_other,
  Order, precedes, in_order, sorted,
}

unfoldable pub create_department : Env → Caller → Text → Action Db Entry
create_department env c name = do
  target ← check_target c
  throw_if (not (includes editors c.role))
      (unauthorized "Only root, superadmin and admin can add departments.")
  check_member c target
  exists ← gets (exists_already target name)
  throw_if exists (bad_request "Department already exists.")
  modify (add_entry (new_entry (env.fresh 0) target name env.now))
  pure (new_entry (env.fresh 0) target name env.now)

unfoldable pub add_department_bulk : Env → Caller → List Text → Action Db (List Imported)
add_department_bulk env c names = do
  target ← check_target c
  throw_if (not (includes editors c.role))
      (unauthorized "Only root, superadmin and admin can add employee")
  there ← gets (has_organization target)
  throw_if (not there) (not_found "Organization doesn't exist.")
  import_all env target names

abbrev same : Option Ident → Option Ident → Bool
same none none = true
same (some i) (some j) = i == j
same _ _ = false

abbrev one : Option Ident → ℕ
one none = 0
one (some i) = 1

abbrev pub bump : Option Ident → List (Option Ident × ℕ) → List (Option Ident × ℕ)
bump d [] = (d, one d) ∷ []
bump d ((e, n) ∷ groups) =
    let rest = bump d groups in if same e d then (e, n + one d) ∷ groups else (e, n) ∷ rest

-- `staff.groupBy({ by: ['departmentId'], _count: { departmentId: true } })`
abbrev pub group_by : List (Option Ident) → List (Option Ident × ℕ)
group_by [] = []
group_by (d ∷ ds) = bump d (group_by ds)

-- `countMap[dept.id] || 0`
abbrev pub lookup : Ident → List (Option Ident × ℕ) → ℕ
lookup id [] = 0
lookup id ((none, n) ∷ groups) = lookup id groups
lookup id ((some i, n) ∷ groups) = let rest = lookup id groups in if i == id then n else rest

abbrev pub with_counts : List (Option Ident) → List Entry → List (Entry × ℕ)
with_counts staff departments = map (λ d. (d, lookup d.id (group_by staff))) departments

abbrev pub is_other : SortBy → Bool
is_other by_other = true
is_other by_name = false
is_other by_created_at = false

-- The query sorts by the field as it is named, and the database refuses a field that it has not.
unfoldable pub get_all_departments : Caller → SortBy → Order → Action Db (List (Entry × ℕ))
get_all_departments c sort_by order = do
  target ← check_target c
  throw_if (not (includes editors c.role))
      (unauthorized "Only root, superadmin and admin can access departments.")
  check_member c target
  throw_if (is_other sort_by) (internal "Unknown argument")
  departments ← gets (λ db.
      sorted (in_order order (precedes sort_by)) (find_many (λ r. r.org_id == target) db.entries))
  staff ← gets (λ db. db.references)
  pure (with_counts staff departments)

unfoldable pub delete_department : Caller → Ident → Action Db Unit
delete_department c id = do
  target ← check_target c
  throw_if (not (includes (root ∷ super_admin ∷ []) c.role))
      (unauthorized "Only root and superadmin can delete department.")
  check_member c target
  there ← gets (λ db. any (λ r. r.id == id) db.entries)
  throw_if (not there) (not_found "Department doesn't exists.")
  modify (drop_entry id)
