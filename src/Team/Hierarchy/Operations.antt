-- ===== src/Team/Hierarchy/Operations.antt =====
-- The checks of every operation on teams are enough: they keep the reporting sound.
use vms_backend_testing.Base.{
  suc, Bool, true, false, not, ◌&&◌, Option, none, some, List, [], ◌∷◌, ◌==◌, if◌then◌else◌, Ident,
  ◌≡◌, refl, Option-cases, inl, inr, ==→eq, arith, present, is_ident,
}
use vms_backend_testing.Base.Text.{Text}
use vms_backend_testing.Base.Table.{any, find_first, create, update}
use vms_backend_testing.Base.Table.Any.{
  any-create, any-update_same, any-delete_many, find_first-create,
}
use vms_backend_testing.Base.Table.Counts.{find_first-holds}
use vms_backend_testing.Team.Model.{Team, TeamMember, Db, Fresh, EditTeamDto}
use vms_backend_testing.Team.Access.{
  is_member, is_report, reports, find_member, concerns, clear_reporting,
}
use vms_backend_testing.Team.Members.{
  new_team, create_team, rename, install_manager, clear_old, dismiss_manager, replace_team,
  edit_transaction, insert_members,
}
use vms_backend_testing.Team.Hierarchy.{
  is_lead_of, Sound, clear_reporting-Sound, clear_reporting-clears,
}

members-Sound :
    (ms : List TeamMember) (db : Db)
    → ((t a : Ident) → any (is_member t a) db.members ≡ true → any (is_member t a) ms ≡ true)
    → Sound db
    → Sound (record db { members = ms })
members-Sound ms db keep h t a b r = ground (arith, h t a b, keep t a, keep t b)

any-insert_members :
    (fresh : Fresh) (team : Ident) (ids : List Ident) (t a : Ident) (ms : List TeamMember)
    → any (is_member t a) ms ≡ true
    → any (is_member t a) (insert_members fresh team ids ms) ≡ true
unfolding insert_members
any-insert_members fresh team [] t a ms h = h
any-insert_members fresh team (i ∷ is) t a ms h =
    let new : TeamMember = record { id = fresh 0; team_id = team; staff_id = i } in
    any-insert_members (λ k. fresh (suc k)) team is t a
      (if any (is_member team i) ms then ms else create new ms)
      (ground (arith, any-create (is_member t a) new ms))

pub insert_members-Sound :
    (fresh : Fresh) (team : Ident) (ids : List Ident) (db : Db)
    → Sound db
    → Sound (record db { members = insert_members fresh team ids db.members })
insert_members-Sound fresh team ids db h =
    members-Sound (insert_members fresh team ids db.members) db
      (λ t a. any-insert_members fresh team ids t a db.members) h

pub create_team-Sound :
    (fresh : Fresh) (org : Ident) (name : Text) (manager : Ident) (db : Db)
    → Sound db
    → Sound (create_team fresh org name manager db).1
unfolding create_team
create_team-Sound fresh org name manager db h t a b r =
    let team = new_team fresh org name manager in
    let m : TeamMember = record { id = fresh 1; team_id = fresh 0; staff_id = manager } in
    ground (
      arith,
      h t a b,
      any-create (is_member t a) m db.members,
      any-create (is_member t b) m db.members,
      any-create (λ x. x.id == t) team db.teams,
      find_first-create (λ x. x.id == t) team db.teams,
    )

is_lead_of-rename :
    (dto : EditTeamDto) (i t a : Ident) (ts : List Team)
    → is_lead_of a (find_first (λ x. x.id == t) ts) ≡ false
    → (t == i && is_ident (present dto.master_manager_id) a) ≡ false
    → is_lead_of a (find_first (λ x. x.id == t) (update (λ x. x.id == i) (rename dto) ts)) ≡ false
is_lead_of-rename dto i t a [] h k = refl
is_lead_of-rename dto i t a (x ∷ ts) h k = ground (arith, is_lead_of-rename dto i t a ts)

rename-Sound :
    (dto : EditTeamDto) (i : Ident) (db : Db)
    → ((m b : Ident) → present dto.master_manager_id ≡ some m → reports i m b db ≡ false)
    → Sound db
    → Sound (record db { teams = update (λ x. x.id == i) (rename dto) db.teams })
rename-Sound dto i db free h t a b r = ground (
  arith,
  h t a b,
  free a b,
  ==→eq t i,
  any-update_same (λ x. x.id == t) (λ x. x.id == i) (rename dto) db.teams (λ x. refl),
  is_lead_of-rename dto i t a db.teams,
)

clear_old-Sound : (o : Option TeamMember) (db : Db) → Sound db → Sound (clear_old o db)
unfolding clear_old
clear_old-Sound none db h = h
clear_old-Sound (some m) db h = clear_reporting-Sound m db h

if-Sound : (c : Bool) (x y : Db) → Sound x → Sound y → Sound (if c then x else y)
if-Sound true x y h k = h
if-Sound false x y h k = k

dismiss_manager-Sound :
    (team : Team) (new : Option Ident) (db : Db) → Sound db → Sound (dismiss_manager team new db)
unfolding dismiss_manager
dismiss_manager-Sound team new db h =
    let old = find_member team.id team.master_manager_id db in
    if-Sound (not (team.master_manager_id == 0) && not (is_ident new team.master_manager_id))
      (clear_old old db) db (clear_old-Sound old db h) h

reports-clear_old :
    (t a b : Ident) (o : Option TeamMember) (db : Db)
    → reports t a b db ≡ false
    → reports t a b (clear_old o db) ≡ false
unfolding clear_old clear_reporting
reports-clear_old t a b none db h = h
reports-clear_old t a b (some m) db h =
    ground (arith, any-delete_many (is_report t a b) (concerns m) db.reporting)

reports-dismiss_manager :
    (team : Team) (new : Option Ident) (t a b : Ident) (db : Db)
    → reports t a b db ≡ false
    → reports t a b (dismiss_manager team new db) ≡ false
unfolding dismiss_manager
reports-dismiss_manager team new t a b db h =
    ground (arith, reports-clear_old t a b (find_member team.id team.master_manager_id db) db)

-- After the new master manager, if there is one, has been installed.
replaced-Sound :
    (team : Team) (dto : EditTeamDto) (db : Db)
    → ((m b : Ident) → present dto.master_manager_id ≡ some m → reports team.id m b db ≡ false)
    → Sound db
    → Sound (replace_team team dto db)
replaced-Sound team dto db free h =
    let db' = dismiss_manager team dto.master_manager_id db in
    rename-Sound dto team.id db'
      (λ m b e. reports-dismiss_manager team dto.master_manager_id team.id m b db (free m b e))
      (dismiss_manager-Sound team dto.master_manager_id db h)

installed-Sound :
    (team : Team) (dto : EditTeamDto) (m : Ident) (member : TeamMember) (db : Db)
    → present dto.master_manager_id ≡ some m
    → find_member team.id m db ≡ some member
    → Sound db
    → Sound (replace_team team dto (clear_reporting member db))
installed-Sound team dto m member db e f h =
    let fits : is_member team.id m member ≡ true =
      find_first-holds (is_member team.id m) db.members f in
    replaced-Sound team dto (clear_reporting member db)
      (λ m' b e'. grind (arith, clear_reporting-clears member b db))
      (clear_reporting-Sound member db h)

pub edit_transaction-Sound :
    (org : Ident) (team : Team) (dto : EditTeamDto) (db : Db)
    → Sound db
    → Sound (edit_transaction org team dto db).1
unfolding edit_transaction install_manager
edit_transaction-Sound org team dto db h t a b r =
    elim (Option-cases (present dto.master_manager_id)) [
      | inl e ↦
          let k : Sound (replace_team team dto db) =
            replaced-Sound team dto db (λ m b e'. absurd (ground arith)) h in
          ground (arith, k t a b)
      | inr (m, e) ↦ elim (Option-cases (find_member team.id m db)) [
        | inl f ↦ ground (arith, h t a b)
        | inr (member, f) ↦
            let k : Sound (replace_team team dto (clear_reporting member db)) =
              installed-Sound team dto m member db e f h in
            ground (arith, h t a b, k t a b)
      ]
    ]
