-- ===== src/Team/Members/Removal.antt =====
-- What is left of a member or a team that is removed, and what an edit does to the reporting of a
-- master manager.
use vms_backend_testing.Base.{
  ◌≤◌, Bool, true, false, ◌&&◌, none, some, List, [], ◌∷◌, ◌==◌, Ident, is_ident, ◌≡◌, refl, ◌≢◌,
  Option-cases, inl, inr, arith,
}
use vms_backend_testing.Base.Request.{is_ok}
use vms_backend_testing.Base.Role.{Role, root, super_admin, admin, staff, includes}
use vms_backend_testing.Base.Table.{count, any, find_first, delete, delete_many}
use vms_backend_testing.Base.Table.Counts.{find_first-holds, count-delete}
use vms_backend_testing.Base.Table.Any.{any_of_find_first}
use vms_backend_testing.Team.Model.{Team, TeamMember, Db, EditTeamDto}
use vms_backend_testing.Team.Access.{
  authorize, known, find_team, is_member, find_member, reports, clear_reporting,
}
use vms_backend_testing.Team.Members.{
  edit_team, edit_transaction, install_manager, dismiss_manager, clear_old, is_row, remove_member,
  delete_member, delete_team,
}
use mathlib.Core.Path.{subst, sym, ◌∙◌}
use vms_backend_testing.Team.Hierarchy.Runs.{find_member-keys, find_row_self}
use vms_backend_testing.Team.Hierarchy.{has_member, clear_reporting-clears}

any-eq-false_of_count :
    {A : Type 0} (p : A → Bool) (xs : List A) → count p xs ≤ 0 → any p xs ≡ false
any-eq-false_of_count p [] h = refl
any-eq-false_of_count p (x ∷ xs) h = ground (arith, any-eq-false_of_count p xs)

delete_member-removes :
    (m : TeamMember) (b : Ident) (db : Db)
    → find_first (is_row m.id m.team_id) db.members ≡ some m
    → count (is_member m.team_id m.staff_id) db.members ≤ 1
    → (has_member m.team_id m.staff_id (delete_member m db) ≡ false)
      × (reports m.team_id m.staff_id b (delete_member m db) ≡ false)
      × (reports m.team_id b m.staff_id (delete_member m db) ≡ false)
unfolding delete_member clear_reporting
delete_member-removes m b db e once =
    let left : Db = record db {
      members = delete (is_row m.id m.team_id) db.members;
      reporting = delete_many (λ r. is_ident r.team_member_id m.id) db.reporting;
    } in
    let gone : has_member m.team_id m.staff_id (clear_reporting m left) ≡ false =
      any-eq-false_of_count (is_member m.team_id m.staff_id) left.members (
        ground (
          arith,
          count-delete (is_member m.team_id m.staff_id) (is_row m.id m.team_id) m db.members,
        )) in
    let clear = clear_reporting-clears m b left in (gone, clear.0, clear.1)

any_of_find_none :
    {A : Type 0} (p : A → Bool) (xs : List A) → find_first p xs ≡ none → any p xs ≡ false
any_of_find_none p [] h = refl
any_of_find_none p (x ∷ xs) h = ground (arith, any_of_find_none p xs)

-- If a member of a team, who has one row in it, is removed with success, then nobody is that
-- member any more, the person reports to nobody in the team, and nobody to the person.
pub remove_member-removes :
    (org user : Ident) (role : Role) (id member : Ident) (m : TeamMember) (b : Ident) (db : Db)
    → find_first (is_row member id) db.members ≡ some m
    → count (is_member id m.staff_id) db.members ≤ 1
    → is_ok (remove_member org user role id member db).0 ≡ true
    → let db' = (remove_member org user role id member db).1 in
      (has_member id m.staff_id db' ≡ false)
      × (reports id m.staff_id b db' ≡ false)
      × (reports id b m.staff_id db' ≡ false)
unfolding remove_member authorize
remove_member-removes org user role id member m b db e once good =
    let team_eq : m.team_id ≡ id =
      ground (arith, find_first-holds (is_row member id) db.members {s = m}) in
    let once' : count (is_member m.team_id m.staff_id) db.members ≤ 1 =
      subst (λ t. count (is_member t m.staff_id) db.members ≤ 1) (sym team_eq) once in
    let k =
      subst
        (λ t.
          (has_member t m.staff_id (delete_member m db) ≡ false)
          × (reports t m.staff_id b (delete_member m db) ≡ false)
          × (reports t b m.staff_id (delete_member m db) ≡ false))
        team_eq (delete_member-removes m b db (find_row_self member id m db e) once') in
    ground (arith, k)

pub delete_team_iff :
    (org user : Ident) (role : Role) (id : Ident) (db : Db)
    → is_ok (delete_team org user role id db).0 ≡ (
        includes (super_admin ∷ admin ∷ root ∷ staff ∷ []) role
        && (known org user db && any (λ t. t.id == id) db.teams))
unfolding delete_team authorize
delete_team_iff org user role id db = elim (Option-cases (find_team id db)) [
  | inl e ↦ ground (arith, any_of_find_none (λ t. t.id == id) db.teams e)
  | inr (team, e) ↦ ground (arith, any_of_find_first (λ t. t.id == id) team db.teams e)
]

-- An edit that names no new master manager dismisses the one that the team keeps: if the master
-- manager is a member of the team, nobody reports to the master manager afterwards.
pub edit_team_clears_manager :
    (org user : Ident) (role : Role) (id : Ident) (dto : EditTeamDto) (team : Team) (b : Ident)
    (db : Db)
    → find_team id db ≡ some team
    → has_member id team.master_manager_id db ≡ true
    → team.master_manager_id ≢ 0
    → dto.master_manager_id ≡ none
    → is_ok (edit_team org user role id dto db).0 ≡ true
    → reports id b team.master_manager_id (edit_team org user role id dto db).1 ≡ false
unfolding edit_team authorize edit_transaction install_manager dismiss_manager clear_old
edit_team_clears_manager org user role id dto team b db e mem nonzero noone good =
    let id_eq : team.id ≡ id =
      ground (arith, find_first-holds (λ x. x.id == id) db.teams {s = team}) in
    elim (Option-cases (find_member team.id team.master_manager_id db)) [
      | inl f ↦ absurd (
          ground (
            arith,
            any_of_find_none (is_member team.id team.master_manager_id) db.members f,
            subst (λ i. has_member i team.master_manager_id db ≡ true) (sym id_eq) mem,
          ))
      | inr (m, f) ↦
          let (team_eq, staff_eq) = find_member-keys team.id team.master_manager_id m db f in
          let k : reports id b team.master_manager_id (clear_reporting m db) ≡ false =
            subst (λ i. reports i b team.master_manager_id (clear_reporting m db) ≡ false)
              (team_eq ∙ id_eq)
              (subst (λ a. reports m.team_id b a (clear_reporting m db) ≡ false) staff_eq
                (clear_reporting-clears m b db).1) in
          ground (arith, k)
    ]
