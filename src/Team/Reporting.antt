-- ===== src/Team/Reporting.antt =====
-- `setReporting`, `setReportingBulk` and `removeReporting`.
pub mod Counting
pub mod Complete
pub mod Bulk
use vms_backend_testing.Base.{
  ℕ, suc, ◌+◌, Bool, true, false, not, ◌&&◌, Option, none, some, List, [], ◌∷◌, map, ◌==◌, ltb,
  if◌then◌else◌, Ident,
}
use vms_backend_testing.Base.Request.{
  Action, Exception, Result, ok, err, bad_request, unauthorized, not_found, ◌>>=◌, ◌>>◌, pure, gets,
  or_throw, throw_if, modify,
}
use vms_backend_testing.Base.Role.{Role, super_admin}
use vms_backend_testing.Base.Table.{length, any, find_first, find_many, delete_many}
use vms_backend_testing.Base.{◌++◌}
use vms_backend_testing.Team.Model.{Team, TeamMember, TeamReporting, Db, Fresh, SetReportingDto}
use vms_backend_testing.Team.Access.{
  contains, authorize, find_team, of_org, is_member, find_member, is_report, reports, members_among,
  except_ids,
}

-- Those managers among `ids` to whom the staff reports already.
abbrev pub managers_among : Ident → Ident → List Ident → Db → List Ident
managers_among team_id staff_id ids db =
    map (λ r. r.manager_id)
      (find_many
        (λ r. r.team_id == team_id && (r.staff_id == staff_id && contains ids r.manager_id))
        db.reporting)

abbrev pub reverse_among : Ident → Ident → List Ident → Db → Bool
reverse_among team_id staff_id ids db =
    any (λ r. r.team_id == team_id && (contains ids r.staff_id && r.manager_id == staff_id))
      db.reporting

-- What `setReporting` answers.
pub record Assigned : Type 0 where
  pub assigned : ℕ
  pub skipped : ℕ

abbrev pub report_rows : Fresh → TeamMember → List Ident → List TeamReporting
report_rows fresh m [] = []
report_rows fresh m (i ∷ is) =
    record {
      id = fresh 0;
      team_id = m.team_id;
      staff_id = m.staff_id;
      manager_id = i;
      team_member_id = some m.id;
    }
    ∷ report_rows (λ k. fresh (suc k)) m is

-- `createMany`
unfoldable pub add_reports : Fresh → TeamMember → List Ident → Db → Db
add_reports fresh m ids db = record db { reporting = db.reporting ++ report_rows fresh m ids }

-- From the query of the managers that are assigned already.
unfoldable pub assign : Fresh → TeamMember → List Ident → Action Db Assigned
assign fresh m managers = do
  existing ← gets (managers_among m.team_id m.staff_id managers)
  let new = except_ids existing managers
  reverse ← gets (reverse_among m.team_id m.staff_id new)
  elim new [
    | [] ↦ pure (record { assigned = 0; skipped = length existing })
    | i ∷ is ↦ do
      throw_if reverse (bad_request "Reverse reporting relationship detected.")
      modify (add_reports fresh m (i ∷ is))
      pure (record { assigned = length (i ∷ is); skipped = 0 })
  ]

-- From the query of the member on.
unfoldable pub set_in_team : Fresh → Team → SetReportingDto → Action Db Assigned
set_in_team fresh team dto = do
  found ← gets (find_member team.id dto.staff_id)
  member ← or_throw found (bad_request "Staff is not a member of the team.")
  throw_if (contains dto.manager_ids dto.staff_id)
      (bad_request "A staff member cannot report to themselves.")
  throw_if (team.master_manager_id == dto.staff_id)
      (bad_request "Master manager cannot report to other managers.")
  managers ← gets (members_among team.id dto.manager_ids)
  throw_if (not (length managers == length dto.manager_ids))
      (bad_request "One or more managers are not members of the team.")
  assign fresh member managers

unfoldable pub set_reporting :
    Fresh → Ident → Ident → Role → Ident → SetReportingDto → Action Db Assigned
set_reporting fresh org_id user_id role team_id dto = do
  authorize (super_admin ∷ []) (unauthorized "Only superadmin is allowed to assign reporting.")
      org_id user_id role
  found ← gets (λ db. of_org org_id (find_team team_id db))
  team ← or_throw found (not_found "Team doesn't exist.")
  set_in_team fresh team dto

-- What `setReportingBulk` answers; a failure carries the exception instead of its message.
pub record Summary : Type 0 where
  pub assigned : ℕ
  pub skipped : ℕ
  pub failed : List (Ident × Exception)

abbrev pub tally : Ident → Result Assigned → Summary → Summary
tally staff_id (ok r) s =
    if r.assigned == 0
    then record s { skipped = suc s.skipped }
    else record s { assigned = s.assigned + r.assigned }
tally staff_id (err e) s = record s { failed = s.failed ++ (staff_id, e) ∷ [] }

-- The loop over `dto.staffIds`; `one` serves the k-th of them.
unfoldable pub bulk : (ℕ → Ident → Action Db Assigned) → List Ident → Summary → Db → Summary × Db
bulk one [] s db = (s, db)
bulk one (i ∷ is) s db = let (r, db') = one 0 i db in bulk (λ k. one (suc k)) is (tally i r s) db'

unfoldable pub set_reporting_bulk :
    (ℕ → Fresh) → Ident → Ident → Role → Ident → List Ident → List Ident → Db → Summary × Db
set_reporting_bulk fresh org_id user_id role team_id staff_ids manager_ids =
    bulk
      (λ k i.
        set_reporting (fresh k) org_id user_id role team_id
          (record { staff_id = i; manager_ids = manager_ids }))
      staff_ids (record { assigned = 0; skipped = 0; failed = [] })

unfoldable pub drop_report : Ident → Ident → Ident → Db → Db
drop_report team_id staff_id manager_id db = record db {
  reporting = delete_many (is_report team_id staff_id manager_id) db.reporting;
}

unfoldable pub remove_reporting : Ident → Ident → Role → Ident → Ident → Ident → Action Db Unit
remove_reporting org_id user_id role team_id staff_id manager_id = do
  authorize (super_admin ∷ []) (unauthorized "Only SuperAdmin can remove reporting.") org_id user_id
      role
  found ← gets (λ db. of_org org_id (find_team team_id db))
  or_throw found (not_found "Team not found in organization.")
  member ← gets (find_member team_id staff_id)
  or_throw member (bad_request "Staff is not a member of this team.")
  manager ← gets (find_member team_id manager_id)
  or_throw manager (bad_request "Manager is not a member of this team.")
  exists ← gets (reports team_id staff_id manager_id)
  throw_if (not exists) (bad_request "Reporting relationship does not exist.")
  modify (drop_report team_id staff_id manager_id)
