-- ===== src/Team/Members.antt =====
-- `addTeam`, `editTeam`, `addMembers`, `removeMember` and `deleteTeam`.
pub mod Unique
pub mod Removal
use vms_backend_testing.Base.{
  ℕ, suc, ◌-◌, Bool, true, false, not, ◌&&◌, ◌||◌, Option, none, some, List, [], ◌∷◌, map, ◌==◌,
  if◌then◌else◌, Ident, present, is_ident,
}
use vms_backend_testing.Base.Text.{Text}
use vms_backend_testing.Base.Request.{
  Action, bad_request, unauthorized, not_found, internal, ◌>>=◌, ◌>>◌, pure, gets, or_throw,
  throw_if, modify, transaction,
}
use vms_backend_testing.Base.Role.{Role, root, super_admin, admin, staff}
use vms_backend_testing.Base.Table.{
  length, any, find_first, find_many, create, update, delete, delete_many,
}
use vms_backend_testing.Team.Model.{Team, TeamMember, Staff, Db, Fresh, EditTeamDto}
use vms_backend_testing.Team.Access.{
  contains, authorize, find_team, of_org, is_member, find_member, is_staff_of, members_among,
  except_ids, clear_reporting,
}

abbrev add_member : TeamMember → Db → Db
add_member m db = record db { members = create m db.members }

abbrev pub new_team : Fresh → Ident → Text → Ident → Team
new_team fresh org_id name manager = record {
  id = fresh 0;
  org_id = org_id;
  name = name;
  master_manager_id = manager;
}

-- The two inserts are not in a transaction; (teamId, staffId) is unique among the members.
unfoldable pub create_team : Fresh → Ident → Text → Ident → Action Db Team
create_team fresh org_id name manager = do
  let team = new_team fresh org_id name manager
  modify (λ db. record db { teams = create team db.teams })
  double ← gets (λ db. any (is_member team.id manager) db.members)
  throw_if double (internal "Unique constraint failed")
  modify (add_member (record { id = fresh 1; team_id = team.id; staff_id = manager }))
  pure team

unfoldable pub add_team : Fresh → Ident → Ident → Role → Text → Ident → Action Db Team
add_team fresh org_id user_id role name manager = do
  authorize (super_admin ∷ []) (unauthorized "Only superadmin is allowed to add team.") org_id
      user_id role
  found ← gets (λ db. find_first (is_staff_of org_id manager) db.staff)
  or_throw found (bad_request "Master manager not in organization.")
  create_team fresh org_id name manager

-- `...(name && { name })`
abbrev new_name : Option Text → Text → Text
new_name none old = old
new_name (some []) old = old
new_name (some (c ∷ s)) old = c ∷ s

abbrev new_manager : Option Ident → Ident → Ident
new_manager none old = old
new_manager (some m) old = m

abbrev pub rename : EditTeamDto → Team → Team
rename dto t = record t {
  name = new_name dto.name t.name;
  master_manager_id = new_manager (present dto.master_manager_id) t.master_manager_id;
}

-- The new master manager must be a member, and no longer reports to anybody, nor anybody to it.
unfoldable pub install_manager : Ident → Ident → Option Ident → Action Db Unit
install_manager org_id team_id none = pure tt
install_manager org_id team_id (some m) = do
  found ← gets (λ db. find_first (is_staff_of org_id m) db.staff)
  or_throw found (bad_request "Master manager not in organization.")
  found' ← gets (find_member team_id m)
  member ← or_throw found' (bad_request "Selected master manager is not a team member.")
  modify (clear_reporting member)

unfoldable pub clear_old : Option TeamMember → Db → Db
clear_old none db = db
clear_old (some m) db = clear_reporting m db

-- `if (team.masterManagerId && team.masterManagerId !== masterManagerId)`
unfoldable pub dismiss_manager : Team → Option Ident → Db → Db
unfolding clear_old
dismiss_manager team new db =
    if not (team.master_manager_id == 0) && not (is_ident new team.master_manager_id)
    then clear_old (find_member team.id team.master_manager_id db) db
    else db

abbrev pub update_team : Ident → EditTeamDto → Db → Db
update_team id dto db = record db { teams = update (λ t. t.id == id) (rename dto) db.teams }

-- What follows the checks of the new master manager.
abbrev pub replace_team : Team → EditTeamDto → Db → Db
replace_team team dto db = update_team team.id dto (dismiss_manager team dto.master_manager_id db)

unfoldable pub edit_transaction : Ident → Team → EditTeamDto → Action Db Unit
edit_transaction org_id team dto = transaction (do
  install_manager org_id team.id (present dto.master_manager_id)
  modify (replace_team team dto))

unfoldable pub edit_team : Ident → Ident → Role → Ident → EditTeamDto → Action Db Unit
edit_team org_id user_id role team_id dto = do
  authorize (super_admin ∷ []) (unauthorized "Only superadmin can update team.") org_id user_id role
  found ← gets (λ db. of_org org_id (find_team team_id db))
  team ← or_throw found (not_found "Team not found.")
  edit_transaction org_id team dto

-- What `addMembers` answers. Identifiers of staff are unique, so the differences are not negative.
pub record Added : Type 0 where
  pub added : ℕ
  pub duplicates : List Ident
  pub skipped_master_manager : ℕ
  pub skipped_invalid_staff : ℕ

-- `createMany` with `skipDuplicates`
unfoldable pub insert_members : Fresh → Ident → List Ident → List TeamMember → List TeamMember
insert_members fresh team_id [] ms = ms
insert_members fresh team_id (i ∷ is) ms =
    insert_members (λ k. fresh (suc k)) team_id is
      (if any (is_member team_id i) ms
        then ms
        else create (record { id = fresh 0; team_id = team_id; staff_id = i }) ms)

abbrev pub valid_ids : Ident → List Ident → Db → List Ident
valid_ids org_id ids db =
    map (λ s. s.id) (find_many (λ s. contains ids s.id && s.org_id == org_id) db.staff)

unfoldable pub store_members : Fresh → Team → List Ident → List Ident → Action Db Added
store_members fresh team asked valid = do
  let filtered = delete_many (λ i. i == team.master_manager_id) valid
  duplicates ← gets (members_among team.id filtered)
  let new = except_ids duplicates filtered
  modify (λ db. record db { members = insert_members fresh team.id new db.members })
  pure (record {
    added = length new;
    duplicates = duplicates;
    skipped_master_manager = length valid - length filtered;
    skipped_invalid_staff = length asked - length valid;
  })

unfoldable pub add_members : Fresh → Ident → Ident → Role → Ident → List Ident → Action Db Added
add_members fresh org_id user_id role team_id ids = do
  authorize (super_admin ∷ []) (unauthorized "Only superadmin is allowed to add team.") org_id
      user_id role
  found ← gets (find_team team_id)
  team ← or_throw found (not_found "Team not found.")
  valid ← gets (valid_ids org_id ids)
  throw_if (length valid == 0) (bad_request "No valid staff provided.")
  store_members fresh team ids valid

abbrev pub is_row : Ident → Ident → TeamMember → Bool
is_row id team_id m = m.id == id && m.team_id == team_id

-- The row, the reporting that refers to it (by the foreign key's cascade), and the reporting that
-- is deleted by hand.
unfoldable pub delete_member : TeamMember → Db → Db
delete_member m db = clear_reporting m (record db {
  members = delete (is_row m.id m.team_id) db.members;
  reporting = delete_many (λ r. is_ident r.team_member_id m.id) db.reporting;
})

unfoldable pub remove_member : Ident → Ident → Role → Ident → Ident → Action Db Unit
remove_member org_id user_id role team_id member_id = do
  authorize (super_admin ∷ []) (unauthorized "Only superadmin is allowed to add team.") org_id
      user_id role
  found ← gets (λ db. find_first (is_row member_id team_id) db.members)
  member ← or_throw found (not_found "Member does not exists.")
  modify (delete_member member)

abbrev pub is_row_of : Ident → Option Ident → TeamMember → Bool
is_row_of team_id id m = m.team_id == team_id && is_ident id m.id

-- A team with its members and its reporting, by the foreign keys' cascades.
unfoldable pub drop_team : Ident → Db → Db
drop_team id db = record db {
  teams = delete (λ t. t.id == id) db.teams;
  members = delete_many (λ m. m.team_id == id) db.members;
  reporting =
      delete_many (λ r. r.team_id == id || any (is_row_of id r.team_member_id) db.members)
        db.reporting;
}

unfoldable pub delete_team : Ident → Ident → Role → Ident → Action Db Unit
delete_team org_id user_id role team_id = do
  authorize (super_admin ∷ admin ∷ root ∷ staff ∷ []) (unauthorized "Role not allowed.") org_id
      user_id role
  found ← gets (find_team team_id)
  or_throw found (internal "An operation failed because it depends on one or more records")
  modify (drop_team team_id)
