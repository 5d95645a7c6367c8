-- ===== src/Team/Hierarchy/Runs.antt =====
-- Every request keeps the reporting sound, and so do all sequences of them.
use vms_backend_testing.Base.{
  ℕ, suc, true, false, ◌||◌, some, List, [], ◌∷◌, ◌==◌, Ident, ◌≡◌, Option-cases, Bool-cases, inl,
  inr, arith,
}
use mathlib.Core.Path.{subst, sym}
use vms_backend_testing.Base.Request.{Action}
use vms_backend_testing.Base.Role.{Role}
use vms_backend_testing.Base.Table.{any, find_first, delete_many}
use vms_backend_testing.Base.Table.Any.{any_of_find_first}
use vms_backend_testing.Base.Table.Counts.{find_first-holds}
use vms_backend_testing.Team.Model.{Team, TeamMember, Db, Fresh, SetReportingDto}
use vms_backend_testing.Team.Access.{
  contains, authorize, is_member, find_team, find_member, members_among, except_ids,
}
use vms_backend_testing.Team.Members.{
  add_team, edit_team, add_members, valid_ids, store_members, is_row, remove_member, delete_team,
}
use vms_backend_testing.Team.Reporting.{
  Assigned, Summary, tally, managers_among, reverse_among, assign, set_in_team, set_reporting, bulk,
  set_reporting_bulk, remove_reporting, add_reports,
}
use vms_backend_testing.Team.Requests.{Request, Caller, handle, run}
use vms_backend_testing.Team.Hierarchy.{
  has_member, leads, Sound, add_reports-Sound, delete_member-Sound, drop_team-Sound,
  drop_report-Sound, contains-members_among, contains-except_ids,
}
use vms_backend_testing.Team.Hierarchy.Operations.{
  insert_members-Sound, create_team-Sound, edit_transaction-Sound,
}

assign-Sound :
    (fresh : Fresh) (m : TeamMember) (managers : List Ident) (db : Db)
    → has_member m.team_id m.staff_id db ≡ true
    → ((b : Ident) → contains managers b ≡ true → has_member m.team_id b db ≡ true)
    → contains managers m.staff_id ≡ false
    → any (λ team. team.id == m.team_id) db.teams ≡ true
    → leads m.team_id m.staff_id db ≡ false
    → Sound db
    → Sound (assign fresh m managers db).1
unfolding assign
assign-Sound fresh m managers db mem mems others team lead h t a b r =
    let old = managers_among m.team_id m.staff_id managers db in
    let new = except_ids old managers in
    elim (Bool-cases (reverse_among m.team_id m.staff_id new db)) [
      | inl rev ↦ ground (arith, h t a b)
      | inr free ↦
          let k : Sound (add_reports fresh m new db) =
            add_reports-Sound fresh m new db
              (record {
                member = mem;
                managers = λ b c. mems b (contains-except_ids old managers b c);
                others = ground (arith, contains-except_ids old managers m.staff_id);
                team = team;
                not_lead = lead;
                no_reverse = free;
              })
              h in
          ground (arith, h t a b, k t a b)
    ]

pub find_member-keys :
    (t a : Ident) (m : TeamMember) (db : Db)
    → find_member t a db ≡ some m
    → (m.team_id ≡ t) × (m.staff_id ≡ a)
find_member-keys t a m db e = ground (arith, find_first-holds (is_member t a) db.members {s = m})

set_in_team-Sound :
    (fresh : Fresh) (team : Team) (dto : SetReportingDto) (db : Db)
    → find_team team.id db ≡ some team
    → Sound db
    → Sound (set_in_team fresh team dto db).1
unfolding set_in_team
set_in_team-Sound fresh team dto db e h t a b r =
    elim (Option-cases (find_member team.id dto.staff_id db)) [
      | inl f ↦ ground (arith, h t a b)
      | inr (m, f) ↦
          elim (Bool-cases
            (contains dto.manager_ids dto.staff_id || team.master_manager_id == dto.staff_id)) [
              | inl refused ↦ ground (arith, h t a b)
              | inr fine ↦
                  let managers = members_among team.id dto.manager_ids db in
                  let (team_eq, staff_eq) = find_member-keys team.id dto.staff_id m db f in
                  let among : (b : Ident)
                      → contains managers b ≡ true
                      → (contains dto.manager_ids b ≡ true) × (has_member team.id b db ≡ true) =
                    λ b. contains-members_among team.id dto.manager_ids b db.members in
                  let k : Sound (assign fresh m managers db).1 =
                    assign-Sound fresh m managers db
                      (rw (team_eq, staff_eq)
                        (any_of_find_first (is_member team.id dto.staff_id) m db.members f))
                      (λ b c. rw team_eq (among b c).1)
                      (rw staff_eq (ground (arith, among dto.staff_id)))
                      (rw team_eq (any_of_find_first (λ x. x.id == team.id) team db.teams e))
                      (rw (team_eq, staff_eq) (ground arith)) h in
                  ground (arith, h t a b, k t a b)
            ]
    ]

bulk-Sound :
    (one : ℕ → Ident → Action Db Assigned)
    → ((k : ℕ) (i : Ident) (db : Db) → Sound db → Sound (one k i db).1)
    → (ids : List Ident) (s : Summary) (db : Db) → Sound db
    → Sound (bulk one ids s db).1
unfolding bulk
bulk-Sound one keep [] s db h = h
bulk-Sound one keep (i ∷ is) s db h =
    bulk-Sound (λ k. one (suc k)) (λ k. keep (suc k)) is (tally i (one 0 i db).0 s) (one 0 i db).1
      (keep 0 i db h)

pub find_row_self :
    (id team : Ident) (m : TeamMember) (db : Db)
    → find_first (is_row id team) db.members ≡ some m
    → find_first (is_row m.id m.team_id) db.members ≡ some m
find_row_self id team m db e =
    let fits : is_row id team m ≡ true = find_first-holds (is_row id team) db.members e in
    let id_eq : m.id ≡ id = ground arith in
    let team_eq : m.team_id ≡ team = ground arith in
    subst (λ i. find_first (is_row i m.team_id) db.members ≡ some m) (sym id_eq)
      (subst (λ t. find_first (is_row id t) db.members ≡ some m) (sym team_eq) e)

find_team_self :
    (i : Ident) (t : Team) (db : Db) → find_team i db ≡ some t → find_team t.id db ≡ some t
find_team_self i t db e =
    let same : t.id ≡ i = ground (arith, find_first-holds (λ x. x.id == i) db.teams {s = t}) in
    subst (λ j. find_team j db ≡ some t) (sym same) e

set_reporting-Sound :
    (fresh : Fresh) (org user : Ident) (role : Role) (id : Ident) (dto : SetReportingDto) (db : Db)
    → Sound db
    → Sound (set_reporting fresh org user role id dto db).1
unfolding set_reporting authorize
set_reporting-Sound fresh org user role id dto db h t a b r =
    elim (Option-cases (find_team id db)) [
      | inl e ↦ ground (arith, h t a b)
      | inr (team, e) ↦
          let k : Sound (set_in_team fresh team dto db).1 =
            set_in_team-Sound fresh team dto db (find_team_self id team db e) h in
          ground (arith, h t a b, k t a b)
    ]

store_members-Sound :
    (fresh : Fresh) (team : Team) (asked valid : List Ident) (db : Db)
    → Sound db
    → Sound (store_members fresh team asked valid db).1
unfolding store_members
store_members-Sound fresh team asked valid db h =
    let filtered = delete_many (λ i. i == team.master_manager_id) valid in
    insert_members-Sound fresh team.id (except_ids (members_among team.id filtered db) filtered) db
      h

handle-Sound : (c : Caller) (r : Request) (db : Db) → Sound db → Sound (handle c r db)
unfolding handle add_team edit_team add_members remove_member set_reporting_bulk remove_reporting
    delete_team authorize
handle-Sound c (Request.add name manager) db h t a b r =
    ground (arith, h t a b, create_team-Sound (c.fresh 0) c.org_id name manager db h t a b)
handle-Sound c (Request.edit id dto) db h t a b r = elim (Option-cases (find_team id db)) [
  | inl e ↦ ground (arith, h t a b)
  | inr (team, e) ↦ ground (arith, h t a b, edit_transaction-Sound c.org_id team dto db h t a b)
]
handle-Sound c (Request.add_all id ids) db h t a b r = elim (Option-cases (find_team id db)) [
  | inl e ↦ ground (arith, h t a b)
  | inr (team, e) ↦ ground (
    arith,
    h t a b,
    store_members-Sound (c.fresh 0) team ids (valid_ids c.org_id ids db) db h t a b,
  )
]
handle-Sound c (Request.remove team_id member_id) db h t a b r =
    elim (Option-cases (find_first (is_row member_id team_id) db.members)) [
      | inl e ↦ ground (arith, h t a b)
      | inr (m, e) ↦ ground (
        arith,
        h t a b,
        delete_member-Sound m db (find_row_self member_id team_id m db e) h t a b,
      )
    ]
handle-Sound c (Request.report id dto) db h t a b r =
    set_reporting-Sound (c.fresh 0) c.org_id c.user_id c.role id dto db h t a b r
handle-Sound c (Request.report_bulk id staff managers) db h t a b r =
    bulk-Sound
      (λ k i.
        set_reporting (c.fresh k) c.org_id c.user_id c.role id
          (record { staff_id = i; manager_ids = managers }))
      (λ k i db' h'.
        set_reporting-Sound (c.fresh k) c.org_id c.user_id c.role id
          (record { staff_id = i; manager_ids = managers }) db' h')
      staff (record { assigned = 0; skipped = 0; failed = [] }) db h t a b r
handle-Sound c (Request.unreport team_id s k) db h t a b r =
    ground (arith, h t a b, drop_report-Sound team_id s k db h t a b)
handle-Sound c (Request.drop id) db h t a b r =
    ground (arith, h t a b, drop_team-Sound id db h t a b)

-- Requests on teams of any callers, served one after the other, keep the reporting sound, whatever
-- they answer: whoever reports to somebody in a team does so within an existing team of which both
-- are members, the other one does not report back, nobody reports to oneself, and a master manager
-- reports to nobody.
pub run-Sound : (requests : List (Caller × Request)) (db : Db) → Sound db → Sound (run requests db)
unfolding run
run-Sound [] db h = h
run-Sound ((c, r) ∷ rest) db h = run-Sound rest (handle c r db) (handle-Sound c r db h)
