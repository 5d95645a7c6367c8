-- ===== src/Team/Access.antt =====
-- The checks that the operations on teams begin with, and the queries that they share.
use vms_backend_testing.Base.{
  Bool, false, not, ◌&&◌, ◌||◌, Option, none, some, List, [], ◌∷◌, map, ◌==◌, if◌then◌else◌, Ident,
  is_ident,
}
use vms_backend_testing.Base.Request.{Action, Exception, bad_request, ◌>>=◌, ◌>>◌, gets, throw_if}
use vms_backend_testing.Base.Role.{Role, includes}
use vms_backend_testing.Base.Table.{any, find_first, find_many, delete_many}
use vms_backend_testing.Team.Model.{Team, TeamMember, TeamReporting, Staff, Db}

-- `ids.includes(id)`
abbrev pub contains : List Ident → Ident → Bool
contains [] i = false
contains (j ∷ js) i = j == i || contains js i

-- The organisation exists and the user belongs to it.
unfoldable pub known : Ident → Ident → Db → Bool
known org_id user_id db =
    any (λ o. o == org_id) db.organizations
    && any (λ u. u.id == user_id && u.org_id == org_id) db.users

unfoldable pub authorize : List Role → Exception → Ident → Ident → Role → Action Db Unit
authorize allowed refused org_id user_id role = do
  throw_if (not (includes allowed role)) refused
  valid ← gets (known org_id user_id)
  throw_if (not valid) (bad_request "Invalid credentials.")

abbrev pub find_team : Ident → Db → Option Team
find_team id db = find_first (λ t. t.id == id) db.teams

abbrev pub of_org : Ident → Option Team → Option Team
of_org org_id none = none
of_org org_id (some t) = if t.org_id == org_id then some t else none

abbrev pub is_member : Ident → Ident → TeamMember → Bool
is_member team_id staff_id m = m.team_id == team_id && m.staff_id == staff_id

abbrev pub find_member : Ident → Ident → Db → Option TeamMember
find_member team_id staff_id db = find_first (is_member team_id staff_id) db.members

abbrev pub is_report : Ident → Ident → Ident → TeamReporting → Bool
is_report team_id staff_id manager_id r =
    r.team_id == team_id && (r.staff_id == staff_id && r.manager_id == manager_id)

-- The staff of an identifier reports to the other one in the team.
abbrev pub reports : Ident → Ident → Ident → Db → Bool
reports team_id staff_id manager_id db = any (is_report team_id staff_id manager_id) db.reporting

abbrev pub is_staff_of : Ident → Ident → Staff → Bool
is_staff_of org_id staff_id s = s.id == staff_id && s.org_id == org_id

-- `OR: [{ staffId }, { managerId: staffId }, { teamMemberId }]` within the team
abbrev pub concerns : TeamMember → TeamReporting → Bool
concerns m r =
    r.team_id == m.team_id
    && (r.staff_id == m.staff_id || (r.manager_id == m.staff_id || is_ident r.team_member_id m.id))

-- The staff of `ids` who are members of the team.
abbrev pub members_among : Ident → List Ident → Db → List Ident
members_among team_id ids db =
    map (λ m. m.staff_id)
      (find_many (λ m. m.team_id == team_id && contains ids m.staff_id) db.members)

-- `ids.filter((id) => !out.includes(id))`
abbrev pub except_ids : List Ident → List Ident → List Ident
except_ids out ids = delete_many (contains out) ids

unfoldable pub clear_reporting : TeamMember → Db → Db
clear_reporting m db = record db { reporting = delete_many (concerns m) db.reporting }
