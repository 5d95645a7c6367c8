-- ===== src/Catalog/Access.antt =====
-- When a name is taken in, and when one is deleted.
use vms_backend_testing.Base.{
  Bool, false, not, ◌&&◌, ◌||◌, Option, none, some, List, [], ◌∷◌, ◌==◌, Ident, is_ident, ◌≡◌,
  Option-cases, inl, inr, arith,
}
use vms_backend_testing.Base.Text.{Text}
use vms_backend_testing.Base.Request.{is_ok}
use vms_backend_testing.Base.Role.{Role, root, super_admin, role_eq, includes}
use vms_backend_testing.Base.Table.{any, find_first}
use vms_backend_testing.Auth.Model.{UserCredential}
use vms_backend_testing.Catalog.{
  Db, Env, Caller, target_org, editors, is_named, check_target, check_member, check_user,
}
use vms_backend_testing.Catalog.Department.{create_department, delete_department}
use vms_backend_testing.Catalog.Reason.{add_reason, delete_reason}
use vms_backend_testing.Catalog.Unique.{exists_already-any}

abbrev pub is_user_of : Ident → Option UserCredential → Bool
is_user_of org none = false
is_user_of org (some u) = is_ident u.org_id org

-- The caller has one of the roles, and is of the organisation or is root.
abbrev pub may_write : List Role → Caller → Ident → Db → Bool
may_write roles c org db =
    includes roles c.role
    && (role_eq root c.role || is_user_of org (find_first (λ u. u.id == c.user_id) db.users))

abbrev pub may_add : Caller → Text → Option Ident → Db → Bool
may_add c name none db = false
may_add c name (some org) db =
    may_write editors c org db && not (any (is_named org name) db.entries)

abbrev pub may_drop : List Role → Caller → Ident → Option Ident → Db → Bool
may_drop roles c id none db = false
may_drop roles c id (some org) db = may_write roles c org db && any (λ r. r.id == id) db.entries

check_member-is_ok :
    (c : Caller) (org : Ident) (db : Db)
    → is_ok (check_member c org db).0
      ≡ (role_eq root c.role || is_user_of org (find_first (λ u. u.id == c.user_id) db.users))
unfolding check_member check_user
check_member-is_ok c org db = ground arith

check_member-state : (c : Caller) (org : Ident) (db : Db) → (check_member c org db).1 ≡ db
unfolding check_member check_user
check_member-state c org db = ground arith

-- A department or a reason is added exactly if the caller may write for the organisation and the
-- organisation has no row of the very same name: one that differs in its case or in spaces is no
-- obstacle.
pub add_iff :
    (env : Env) (c : Caller) (name : Text) (db : Db)
    → (is_ok (create_department env c name db).0 ≡ may_add c name (target_org c) db)
      × (is_ok (add_reason env c name db).0 ≡ may_add c name (target_org c) db)
unfolding create_department add_reason check_target
add_iff env c name db = elim (Option-cases (target_org c)) [
  | inl n ↦ ground arith
  | inr (org, e) ↦ ground (
    arith,
    check_member-is_ok c org db,
    check_member-state c org db,
    exists_already-any org name db,
  )
]

-- A department or a reason is deleted exactly if the caller may write for the own organisation and
-- there is such a row, be it of that organisation or of another; an admin may delete reasons only.
pub drop_iff :
    (c : Caller) (id : Ident) (db : Db)
    → (is_ok (delete_department c id db).0
        ≡ may_drop (root ∷ super_admin ∷ []) c id (target_org c) db)
      × (is_ok (delete_reason c id db).0 ≡ may_drop editors c id (target_org c) db)
unfolding delete_department delete_reason check_target
drop_iff c id db = elim (Option-cases (target_org c)) [
  | inl n ↦ ground arith
  | inr (org, e) ↦ ground (arith, check_member-is_ok c org db, check_member-state c org db)
]
