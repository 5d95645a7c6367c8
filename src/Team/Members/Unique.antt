-- ===== src/Team/Members/Unique.antt =====
-- A person is at most once a member of a team.
use vms_backend_testing.Base.{
  ℕ, suc, ◌≤◌, Option, List, [], ◌∷◌, if◌then◌else◌, Ident, ◌≡◌, refl, ◌∙◌, ◌==◌, Option-cases, inl,
  inr, arith,
}
use vms_backend_testing.Base.Table.{count, any, find_first, create, delete_many}
use vms_backend_testing.Base.Table.Counts.{
  count-delete-le, count-delete_many-le, count-create, count-eq-zero_of_any,
}
use vms_backend_testing.Team.Model.{Team, TeamMember, Db, Fresh, EditTeamDto}
use vms_backend_testing.Team.Reporting.Complete.{set_reporting-members}
use vms_backend_testing.Base.Text.{Text}
use vms_backend_testing.Base.Request.{Action}
use vms_backend_testing.Team.Access.{
  authorize, find_team, members_among, except_ids, is_member, clear_reporting,
}
use vms_backend_testing.Team.Members.{
  add_team, create_team, edit_team, edit_transaction, install_manager, dismiss_manager, add_members,
  valid_ids, is_row, store_members, insert_members, remove_member, delete_member, delete_team,
  drop_team, clear_old,
}
use vms_backend_testing.Team.Requests.{Request, Caller, handle, run}
use vms_backend_testing.Team.Reporting.{
  Assigned, Summary, tally, set_reporting, bulk, set_reporting_bulk, remove_reporting, drop_report,
}

abbrev pub Unique : List TeamMember → Type 0
Unique ms = (t a : Ident) → count (is_member t a) ms ≤ 1

insert_members-Unique :
    (fresh : Fresh) (team : Ident) (ids : List Ident) (ms : List TeamMember)
    → Unique ms
    → Unique (insert_members fresh team ids ms)
unfolding insert_members
insert_members-Unique fresh team [] ms h = h
insert_members-Unique fresh team (i ∷ is) ms h =
    let new : TeamMember = record { id = fresh 0; team_id = team; staff_id = i } in
    insert_members-Unique (λ k. fresh (suc k)) team is
      (if any (is_member team i) ms then ms else create new ms)
      (λ t a. ground (
        arith,
        h t a,
        count-create (is_member t a) new ms,
        count-eq-zero_of_any (is_member team i) ms,
      ))

create_team-Unique :
    (fresh : Fresh) (org : Ident) (name : Text) (manager : Ident) (db : Db)
    → Unique db.members
    → Unique (create_team fresh org name manager db).1.members
unfolding create_team
create_team-Unique fresh org name manager db h t a =
    let m : TeamMember = record { id = fresh 1; team_id = fresh 0; staff_id = manager } in
    ground (
      arith,
      h t a,
      count-create (is_member t a) m db.members,
      count-eq-zero_of_any (is_member (fresh 0) manager) db.members,
    )

members-dismiss_manager :
    (team : Team) (new : Option Ident) (db : Db)
    → (dismiss_manager team new db).members ≡ db.members
unfolding dismiss_manager clear_old clear_reporting
members-dismiss_manager team new db = ground arith

members-edit_transaction :
    (org : Ident) (team : Team) (dto : EditTeamDto) (db : Db)
    → (edit_transaction org team dto db).1.members ≡ db.members
unfolding edit_transaction install_manager clear_reporting
members-edit_transaction org team dto db = grind (arith, members-dismiss_manager)

bulk-members :
    (one : ℕ → Ident → Action Db Assigned)
    → ((k : ℕ) (i : Ident) (db : Db) → (one k i db).1.members ≡ db.members)
    → (ids : List Ident) (s : Summary) (db : Db) → (bulk one ids s db).1.members ≡ db.members
unfolding bulk
bulk-members one keep [] s db = refl
bulk-members one keep (i ∷ is) s db =
    bulk-members (λ k. one (suc k)) (λ k. keep (suc k)) is (tally i (one 0 i db).0 s) (one 0 i db).1
    ∙ keep 0 i db

store_members-Unique :
    (fresh : Fresh) (team : Team) (asked valid : List Ident) (db : Db)
    → Unique db.members
    → Unique (store_members fresh team asked valid db).1.members
unfolding store_members
store_members-Unique fresh team asked valid db h =
    let filtered = delete_many (λ i. i == team.master_manager_id) valid in
    insert_members-Unique fresh team.id (except_ids (members_among team.id filtered db) filtered)
      db.members h

delete_member-Unique :
    (m : TeamMember) (db : Db) → Unique db.members → Unique (delete_member m db).members
unfolding delete_member clear_reporting
delete_member-Unique m db h t a =
    ground (arith, h t a, count-delete-le (is_member t a) (is_row m.id m.team_id) db.members)

members-drop_report : (t s k : Ident) (db : Db) → (drop_report t s k db).members ≡ db.members
unfolding drop_report
members-drop_report t s k db = refl

drop_team-Unique : (id : Ident) (db : Db) → Unique db.members → Unique (drop_team id db).members
unfolding drop_team
drop_team-Unique id db h t a =
    ground (arith, h t a, count-delete_many-le (is_member t a) (λ m. m.team_id == id) db.members)

handle-Unique :
    (c : Caller) (r : Request) (db : Db) → Unique db.members → Unique (handle c r db).members
unfolding handle add_team edit_team add_members remove_member remove_reporting delete_team authorize
    set_reporting_bulk
handle-Unique c (Request.add name manager) db h t a =
    ground (arith, h t a, create_team-Unique (c.fresh 0) c.org_id name manager db h t a)
handle-Unique c (Request.edit id dto) db h t a = elim (Option-cases (find_team id db)) [
  | inl e ↦ ground (arith, h t a)
  | inr (team, e) ↦ ground (arith, h t a, members-edit_transaction c.org_id team dto db)
]
handle-Unique c (Request.add_all id ids) db h t a = elim (Option-cases (find_team id db)) [
  | inl e ↦ ground (arith, h t a)
  | inr (team, e) ↦
      ground (
        arith,
        h t a,
        store_members-Unique (c.fresh 0) team ids (valid_ids c.org_id ids db) db h t a,
      )
]
handle-Unique c (Request.remove team_id member_id) db h t a =
    elim (Option-cases (find_first (is_row member_id team_id) db.members)) [
      | inl e ↦ ground (arith, h t a)
      | inr (m, e) ↦ ground (arith, h t a, delete_member-Unique m db h t a)
    ]
handle-Unique c (Request.report id dto) db h t a =
    ground (arith, h t a, set_reporting-members (c.fresh 0) c.org_id c.user_id c.role id dto db)
handle-Unique c (Request.report_bulk id staff managers) db h t a = ground (
  arith,
  h t a,
  bulk-members
      (λ k i.
        set_reporting (c.fresh k) c.org_id c.user_id c.role id
          (record { staff_id = i; manager_ids = managers }))
      (λ k i db'.
        set_reporting-members (c.fresh k) c.org_id c.user_id c.role id
          (record { staff_id = i; manager_ids = managers }) db')
      staff (record { assigned = 0; skipped = 0; failed = [] }) db,
)
handle-Unique c (Request.unreport team_id s k) db h t a =
    ground (arith, h t a, members-drop_report team_id s k db)
handle-Unique c (Request.drop id) db h t a = ground (arith, h t a, drop_team-Unique id db h t a)

pub run-Unique :
    (requests : List (Caller × Request)) (db : Db)
    → Unique db.members
    → Unique (run requests db).members
unfolding run
run-Unique [] db h = h
run-Unique ((c, r) ∷ rest) db h = run-Unique rest (handle c r db) (handle-Unique c r db h)
