-- ===== src/Team/Reporting/Complete.antt =====
-- What a successful assignment of managers has done, for one person.
use vms_backend_testing.Base.{
  ◌≤◌, true, List, ◌==◌, Ident, ◌≡◌, refl, Option-cases, inl, inr, arith,
}
use vms_backend_testing.Base.Request.{is_ok}
use vms_backend_testing.Base.Role.{Role}
use vms_backend_testing.Base.Table.{count, find_many}
use vms_backend_testing.Team.Model.{Team, TeamMember, Db, Fresh, SetReportingDto}
use vms_backend_testing.Team.Access.{
  contains, authorize, find_team, is_member, find_member, is_report, reports, members_among,
  except_ids,
}
use vms_backend_testing.Team.Hierarchy.{any-report_rows}
use vms_backend_testing.Base.Table.Any.{any-append}
use vms_backend_testing.Team.Reporting.Counting.{
  in_team, all_members, contains-in_team, length-map, contains-except_ids_of, contains-managers,
}
use mathlib.Core.Path.{sym, subst}
use vms_backend_testing.Base.Table.Counts.{find_first-holds}
use vms_backend_testing.Team.Hierarchy.Runs.{find_member-keys}
use vms_backend_testing.Team.Reporting.{
  managers_among, report_rows, add_reports, assign, set_in_team, set_reporting,
}

-- If it succeeds, the member reports to all the managers.
assign-reports :
    (fresh : Fresh) (m : TeamMember) (managers : List Ident) (b : Ident) (db : Db)
    → is_ok (assign fresh m managers db).0 ≡ true
    → contains managers b ≡ true
    → reports m.team_id m.staff_id b (assign fresh m managers db).1 ≡ true
unfolding assign add_reports
assign-reports fresh m managers b db h c =
    let old = managers_among m.team_id m.staff_id managers db in
    let new = except_ids old managers in
    ground (
      arith,
      contains-managers m.team_id m.staff_id managers b db.reporting,
      contains-except_ids_of old managers b,
      any-append (is_report m.team_id m.staff_id b) db.reporting (report_rows fresh m new),
      any-report_rows fresh m new m.team_id m.staff_id b,
    )

reports-keys :
    (t a b t' a' : Ident) (db : Db)
    → t' ≡ t
    → a' ≡ a
    → reports t' a' b db ≡ true
    → reports t a b db ≡ true
reports-keys t a b t' a' db e f h =
    subst (λ x. reports x a b db ≡ true) e (subst (λ y. reports t' y b db ≡ true) f h)

set_in_team-reports :
    (fresh : Fresh) (team : Team) (dto : SetReportingDto) (b : Ident) (db : Db)
    → ((a : Ident) → count (is_member team.id a) db.members ≤ 1)
    → is_ok (set_in_team fresh team dto db).0 ≡ true
    → contains dto.manager_ids b ≡ true
    → reports team.id dto.staff_id b (set_in_team fresh team dto db).1 ≡ true
unfolding set_in_team
set_in_team-reports fresh team dto b db once h c =
    let managers = members_among team.id dto.manager_ids db in
    elim (Option-cases (find_member team.id dto.staff_id db)) [
      | inl f ↦ ground arith
      | inr (m, f) ↦
          let (team_eq, staff_eq) = find_member-keys team.id dto.staff_id m db f in
          let k : is_ok (assign fresh m managers db).0 ≡ true
              → contains managers b ≡ true
              → reports team.id dto.staff_id b (assign fresh m managers db).1 ≡ true =
            λ good among.
              reports-keys team.id dto.staff_id b m.team_id m.staff_id
                (assign fresh m managers db).1 team_eq staff_eq
                (assign-reports fresh m managers b db good among) in
          ground (
            arith,
            k,
            all_members team.id db.members once dto.manager_ids b,
            contains-in_team team.id dto.manager_ids b db.members,
            length-map (λ m. m.staff_id) (find_many (in_team team.id dto.manager_ids) db.members),
          )
    ]

-- If nobody is twice a member of the team and the assignment succeeds, then the person reports to
-- every manager of the request.
pub set_reporting-reports :
    (fresh : Fresh) (org user : Ident) (role : Role) (id : Ident) (dto : SetReportingDto)
    (b : Ident) (db : Db)
    → ((a : Ident) → count (is_member id a) db.members ≤ 1)
    → is_ok (set_reporting fresh org user role id dto db).0 ≡ true
    → contains dto.manager_ids b ≡ true
    → reports id dto.staff_id b (set_reporting fresh org user role id dto db).1 ≡ true
unfolding set_reporting authorize
set_reporting-reports fresh org user role id dto b db once h c =
    elim (Option-cases (find_team id db)) [
      | inl e ↦ ground arith
      | inr (team, e) ↦
          let id_eq : team.id ≡ id =
            ground (arith, find_first-holds (λ x. x.id == id) db.teams {s = team}) in
          let k : is_ok (set_in_team fresh team dto db).0 ≡ true
              → reports id dto.staff_id b (set_in_team fresh team dto db).1 ≡ true =
            λ good.
              reports-keys id dto.staff_id b team.id dto.staff_id (set_in_team fresh team dto db).1
                id_eq refl
                (set_in_team-reports fresh team dto b db
                  (subst (λ i. (a : Ident) → count (is_member i a) db.members ≤ 1) (sym id_eq) once)
                  good c) in
          ground (arith, k)
    ]

pub set_reporting-members :
    (fresh : Fresh) (org user : Ident) (role : Role) (id : Ident) (dto : SetReportingDto) (db : Db)
    → (set_reporting fresh org user role id dto db).1.members ≡ db.members
unfolding set_reporting authorize set_in_team assign add_reports
set_reporting-members fresh org user role id dto db = ground arith

add_reports-keeps :
    (t a b : Ident) (fresh : Fresh) (m : TeamMember) (ids : List Ident) (db : Db)
    → reports t a b db ≡ true
    → reports t a b (add_reports fresh m ids db) ≡ true
unfolding add_reports
add_reports-keeps t a b fresh m ids db h =
    ground (arith, any-append (is_report t a b) db.reporting (report_rows fresh m ids))

pub set_reporting-keeps :
    (fresh : Fresh) (org user : Ident) (role : Role) (id : Ident) (dto : SetReportingDto)
    (t a b : Ident) (db : Db)
    → reports t a b db ≡ true
    → reports t a b (set_reporting fresh org user role id dto db).1 ≡ true
unfolding set_reporting authorize set_in_team assign
set_reporting-keeps fresh org user role id dto t a b db h = grind (arith, add_reports-keeps)
