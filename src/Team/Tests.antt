-- ===== src/Team/Tests.antt =====
-- Runs of the team service on small tables.
use vms_backend_testing.Base.{
  ℕ, ◌+◌, ◌*◌, ◌≤◌, true, false, ◌&&◌, ◌==◌, some, List, [], ◌∷◌, Ident, ◌≡◌, refl, arith,
}
use vms_backend_testing.Base.Request.{err, bad_request, is_ok}
use vms_backend_testing.Base.Role
use vms_backend_testing.Base.Role.{super_admin, admin, root, staff, includes}
use vms_backend_testing.Base.Table.{any, count}
use vms_backend_testing.Team.Model.{Db}
use vms_backend_testing.Team.Access.{known, is_member, reports, authorize}
use vms_backend_testing.Team.Members.{
  add_team, create_team, add_members, store_members, insert_members, remove_member, delete_team,
}
use vms_backend_testing.Team.Members.Unique.{Unique, run-Unique}
use vms_backend_testing.Team.Members.Removal.{remove_member-removes, delete_team_iff}
use vms_backend_testing.Team.Reporting.{
  assign, add_reports, set_in_team, set_reporting, bulk, set_reporting_bulk,
}
use vms_backend_testing.Team.Reporting.Bulk.{set_reporting_bulk-reports}
use vms_backend_testing.Team.Requests.{Request, Caller, handle, run}
use vms_backend_testing.Team.Hierarchy.{has_member, Sound}
use vms_backend_testing.Team.Hierarchy.Runs.{run-Sound}

-- An organisation 1 with the user 2 and the staff 11 to 13, and another one with the user 4.
abbrev empty : Db
empty = record {
  organizations = 1 ∷ 3 ∷ [];
  users = record { id = 2; org_id = 1 } ∷ record { id = 4; org_id = 3 } ∷ [];
  staff =
      record { id = 11; org_id = 1 }
      ∷ record { id = 12; org_id = 1 }
      ∷ record { id = 13; org_id = 1 }
      ∷ [];
  teams = [];
  members = [];
  reporting = [];
}

abbrev ids_from : ℕ → ℕ → ℕ → Ident
ids_from base k i = base + k * 10 + i

abbrev by : ℕ → Caller
by base = record { org_id = 1; user_id = 2; role = super_admin; fresh = ids_from base }

-- A team 100 of 11, with 12 and 13 as members, in which 12 and 13 report to 11.
abbrev a_team : List (Caller × Request)
a_team =
    (by 100, Request.add [] 11)
    ∷ (by 200, Request.add_all 100 (11 ∷ 12 ∷ 13 ∷ []))
    ∷ (by 300, Request.report_bulk 100 (12 ∷ 13 ∷ []) (11 ∷ []))
    ∷ []

abbrev unled : Db
unled = record empty {
  teams = record { id = 100; org_id = 1; name = []; master_manager_id = 11 } ∷ [];
  members =
      record { id = 101; team_id = 100; staff_id = 11 }
      ∷ record { id = 200; team_id = 100; staff_id = 12 }
      ∷ record { id = 201; team_id = 100; staff_id = 13 }
      ∷ [];
}

abbrev with_team : Db
with_team = record unled {
  reporting =
      record { id = 300; team_id = 100; staff_id = 12; manager_id = 11; team_member_id = some 200 }
      ∷ record {
        id = 310;
        team_id = 100;
        staff_id = 13;
        manager_id = 11;
        team_member_id = some 201;
      }
      ∷ [];
}

a_team_runs : run a_team empty ≡ with_team
unfolding run handle add_team authorize known create_team add_members store_members insert_members
    set_reporting_bulk bulk set_reporting set_in_team assign add_reports
a_team_runs = refl

-- Neither a report to the own report nor one of the master manager.
reverse_refused :
    (set_reporting
      (λ i. 400 + i)
      1
      2
      super_admin
      100
      (record { staff_id = 11; manager_ids = 12 ∷ [] })
      with_team).0
    ≡ err (bad_request "Master manager cannot report to other managers.")
unfolding set_reporting authorize known set_in_team
reverse_refused = refl

unled_once : (a : Ident) → count (is_member 100 a) unled.members ≤ 1
unled_once a = ground arith

run-Sound_example : Sound (run a_team empty)
run-Sound_example = run-Sound a_team empty (λ t a b r. absurd (ground arith))

run-Unique_example : Unique (run a_team empty).members
run-Unique_example = run-Unique a_team empty (λ t a. omega arith)

-- 99 is no member and fails; 13 does not.
set_reporting_bulk-reports_example :
    reports 100 13 12
      (set_reporting_bulk (ids_from 400) 1 2 super_admin 100 (99 ∷ 13 ∷ []) (12 ∷ []) unled).1
    ≡ true
unfolding set_reporting_bulk bulk set_reporting authorize known set_in_team assign
set_reporting_bulk-reports_example =
    set_reporting_bulk-reports (ids_from 400) 1 2 super_admin 100 (99 ∷ 13 ∷ []) (12 ∷ []) 13 12
      unled unled_once refl refl refl

remove_member-removes_example :
    let db' = (remove_member 1 2 super_admin 100 200 with_team).1 in
    (has_member 100 12 db' ≡ false)
    × (reports 100 12 11 db' ≡ false)
    × (reports 100 11 12 db' ≡ false)
unfolding remove_member authorize known
remove_member-removes_example =
    remove_member-removes 1 2 super_admin 100 200
      (record { id = 200; team_id = 100; staff_id = 12 }) 11 with_team refl (unled_once 12) refl

delete_team_iff_example : is_ok (delete_team 3 4 Role.staff 100 with_team).0 ≡ (
    includes (super_admin ∷ admin ∷ root ∷ staff ∷ []) Role.staff
    && (known 3 4 with_team && any (λ t. t.id == 100) with_team.teams))
delete_team_iff_example = delete_team_iff 3 4 Role.staff 100 with_team
