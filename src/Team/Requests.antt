-- ===== src/Team/Requests.antt =====
-- Every request that changes teams, as one type, and runs of them.
use vms_backend_testing.Base.{ℕ, List, [], ◌∷◌, Ident}
use vms_backend_testing.Base.Text.{Text}
use vms_backend_testing.Base.Role.{Role}
use vms_backend_testing.Team.Model.{Db, EditTeamDto, SetReportingDto}
use vms_backend_testing.Team.Members.{add_team, edit_team, add_members, remove_member, delete_team}
use vms_backend_testing.Team.Reporting.{set_reporting, set_reporting_bulk, remove_reporting}

pub data Request : Type 0 where
  add : Text → Ident → Request
  edit : Ident → EditTeamDto → Request
  add_all : Ident → List Ident → Request
  remove : Ident → Ident → Request
  report : Ident → SetReportingDto → Request
  report_bulk : Ident → List Ident → List Ident → Request
  unreport : Ident → Ident → Ident → Request
  drop : Ident → Request

-- Who asks: the organisation, the user and the role of the token; and the identifiers that the
-- database generates meanwhile.
pub record Caller : Type 0 where
  pub org_id : Ident
  pub user_id : Ident
  pub role : Role
  pub fresh : ℕ → ℕ → Ident

-- What a request does to the tables, whatever it answers.
unfoldable pub handle : Caller → Request → Db → Db
handle c (add name manager) db = (add_team (c.fresh 0) c.org_id c.user_id c.role name manager db).1
handle c (edit team_id dto) db = (edit_team c.org_id c.user_id c.role team_id dto db).1
handle c (add_all team_id ids) db =
    (add_members (c.fresh 0) c.org_id c.user_id c.role team_id ids db).1
handle c (remove team_id member_id) db =
    (remove_member c.org_id c.user_id c.role team_id member_id db).1
handle c (report team_id dto) db =
    (set_reporting (c.fresh 0) c.org_id c.user_id c.role team_id dto db).1
handle c (report_bulk team_id staff_ids manager_ids) db =
    (set_reporting_bulk c.fresh c.org_id c.user_id c.role team_id staff_ids manager_ids db).1
handle c (unreport team_id staff_id manager_id) db =
    (remove_reporting c.org_id c.user_id c.role team_id staff_id manager_id db).1
handle c (drop team_id) db = (delete_team c.org_id c.user_id c.role team_id db).1

unfoldable pub run : List (Caller × Request) → Db → Db
run [] db = db
run ((c, r) ∷ rest) db = run rest (handle c r db)
