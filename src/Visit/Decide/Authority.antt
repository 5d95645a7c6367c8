-- ===== src/Visit/Decide/Authority.antt =====
-- Who decides on a visit.
use vms_backend_testing.Base.{
  refl, ◌≡◌, Bool, true, false, ◌&&◌, ◌||◌, Option, some, [], ◌∷◌, inl, inr, arith, ◌==◌, Ident,
  Option-cases,
}
use vms_backend_testing.Base.Text.{Text}
use vms_backend_testing.Base.Request.{is_ok}
use vms_backend_testing.Base.Role.{Role, super_admin, admin, staff, includes}
use vms_backend_testing.Base.Table.{find_first}
use vms_backend_testing.Base.Table.Counts.{count_pos_of_find_first, find_first-holds}
use vms_backend_testing.Base.Table.Rows.{find_first-update_many}
use vms_backend_testing.Visit.Model.{Visit, Staff, NotificationAction, Db, Env}
use vms_backend_testing.Visit.Access.{find_staff_of_user}
use vms_backend_testing.Visit.Decide.{
  is_pending_visit, find_pending, check_decision, commit_decision, accept, reject, accept_visit,
  reject_visit,
}

-- An administrator of the organisation may decide on its visits, and a member of the staff on the
-- visits to himself.
abbrev pub may_decide : Role → Option Staff → Option Visit → Bool
may_decide role (some s) (some v) =
    includes (super_admin ∷ admin ∷ []) role || includes (staff ∷ []) role && v.staff_id == s.id
may_decide _ _ _ = false

commit_pending :
    (id org_id : Ident) (f : Visit → Visit) (a : NotificationAction) (v : Visit) (db : Db)
    → ((w : Visit) → (f w).id ≡ w.id)
    → find_pending id org_id db ≡ some v
    → is_ok (commit_decision id f a db).0 ≡ true
unfolding commit_decision find_pending
commit_pending id org_id f a v db h e =
    elim (Option-cases (find_first (is_pending_visit id) db.visits)) [
      | inl missing ↦ ground arith
      | inr (w, found) ↦ ground (
        arith,
        count_pos_of_find_first (is_pending_visit id) w db.visits found,
        find_first-holds (is_pending_visit id) db.visits found,
        find_first-update_many (is_pending_visit id) (λ u. u.id == id) (is_pending_visit id) f w
            db.visits found (ground (arith, find_first-holds (is_pending_visit id) db.visits found))
            (λ u. ground (arith, h u)),
      )
    ]

pub accept_visit_iff :
    (env : Env) (org_id user_id : Ident) (role : Role) (id : Ident) (reason : Option Text) (db : Db)
    → is_ok (accept_visit env org_id user_id role id reason db).0
      ≡ may_decide role (find_staff_of_user user_id org_id db) (find_pending id org_id db)
unfolding accept_visit check_decision
accept_visit_iff env org_id user_id role id reason db =
    elim (Option-cases (find_pending id org_id db)) [
      | inl missing ↦ ground arith
      | inr (v, e) ↦ ground (
        arith,
        commit_pending id org_id (accept env reason) NotificationAction.accepted v db (λ w. refl) e,
      )
    ]

-- The same for a rejection.
pub reject_visit_iff :
    (env : Env) (org_id user_id : Ident) (role : Role) (id : Ident) (reason : Text) (db : Db)
    → is_ok (reject_visit env org_id user_id role id reason db).0
      ≡ may_decide role (find_staff_of_user user_id org_id db) (find_pending id org_id db)
unfolding reject_visit check_decision
reject_visit_iff env org_id user_id role id reason db =
    elim (Option-cases (find_pending id org_id db)) [
      | inl missing ↦ ground arith
      | inr (v, e) ↦ ground (
        arith,
        commit_pending id org_id (reject env reason) NotificationAction.rejected v db (λ w. refl) e,
      )
    ]
