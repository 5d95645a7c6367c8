-- ===== src/Catalog/Reason.antt =====
-- `addReason`, `addReasonBulk`, `getAllReasons` and `deleteReason`
use vms_backend_testing.Base.{not, ◌||◌, List, [], ◌∷◌, ◌==◌, Ident}
use vms_backend_testing.Base.Text.{Text}
use vms_backend_testing.Base.Request.{
  Action, bad_request, unauthorized, not_found, ◌>>=◌, ◌>>◌, pure, gets, or_throw, throw_if, modify,
}
use vms_backend_testing.Base.Role.{root, super_admin, admin, system, role_eq, includes}
use vms_backend_testing.Base.Table.{any, find_many}
use vms_backend_testing.Catalog.{
  Entry, Db, Env, Caller, chosen, editors, check_target, check_member, exists_already, new_entry,
  add_entry, Imported, import_all, has_organization, drop_entry, SortBy, Order, precedes, in_order,
  sorted,
}

unfoldable pub add_reason : Env → Caller → Text → Action Db Entry
add_reason env c name = do
  target ← check_target c
  throw_if (not (includes editors c.role))
      (unauthorized "Only root, superadmin and admin can add departments.")
  check_member c target
  exists ← gets (exists_already target name)
  throw_if exists (bad_request "Reason already exists.")
  modify (add_entry (new_entry (env.fresh 0) target name env.now))
  pure (new_entry (env.fresh 0) target name env.now)

unfoldable pub add_reason_bulk : Env → Caller → List Text → Action Db (List Imported)
add_reason_bulk env c names = do
  target ← check_target c
  throw_if (not (includes editors c.role))
      (unauthorized "Only root, superadmin and admin can add employee")
  there ← gets (has_organization target)
  throw_if (not there) (not_found "Organization doesn't exist.")
  import_all env target names

-- An unknown field stands for the time of creation.
unfoldable pub get_all_reasons : Caller → SortBy → Order → Action Db (List Entry)
get_all_reasons c sort_by order = do
  target ←
      or_throw (chosen (role_eq root c.role || role_eq system c.role) c.q_org_id c.org_id)
        (bad_request "Organization ID is required.")
  throw_if (not (includes (root ∷ super_admin ∷ admin ∷ system ∷ []) c.role))
      (unauthorized "Only root, superadmin and admin can access reasons of visit.")
  there ← gets (has_organization target)
  throw_if (not there) (not_found "Organization doesn't exist.")
  gets (λ db.
      sorted (in_order order (precedes sort_by)) (find_many (λ r. r.org_id == target) db.entries))

unfoldable pub delete_reason : Caller → Ident → Action Db Unit
delete_reason c id = do
  target ← check_target c
  throw_if (not (includes editors c.role))
      (unauthorized "Only root and superadmin can delete reasons of visit.")
  check_member c target
  there ← gets (λ db. any (λ r. r.id == id) db.entries)
  throw_if (not there) (not_found "Reason of visit doesn't exists.")
  modify (drop_entry id)
