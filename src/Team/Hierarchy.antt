-- ===== src/Team/Hierarchy.antt =====
-- What the code checks of the reporting within a team, as a property of the tables.
pub mod Operations
pub mod Runs
use vms_backend_testing.Base.{
  suc, map, Bool, true, false, not, ◌&&◌, ◌||◌, Option, none, some, List, [], ◌∷◌, ◌==◌,
  if◌then◌else◌, Ident, ◌≡◌, refl, Bool-cases, Option-cases, inl, inr, ==→eq, arith, present,
  is_ident,
}
use vms_backend_testing.Base.Table.{any, find_first, find_many, create, update, delete, delete_many}
use vms_backend_testing.Base.Table.Any.{
  any-append, any-create, any-delete_many, any-delete_many_hit, any-delete_many_miss, any-delete,
  any-delete_miss, any_mono, any_of_find_first, find_first-create, find_first-delete_miss,
}
use vms_backend_testing.Team.Model.{Team, TeamMember, TeamReporting, Db, Fresh}
use vms_backend_testing.Team.Access.{
  contains, find_team, is_member, find_member, is_report, reports, concerns, clear_reporting,
  members_among, except_ids,
}
use vms_backend_testing.Team.Reporting.{report_rows, add_reports, reverse_among, drop_report}
use vms_backend_testing.Team.Members.{is_row, is_row_of, delete_member, drop_team}

abbrev pub is_lead_of : Ident → Option Team → Bool
is_lead_of a none = false
is_lead_of a (some t) = t.master_manager_id == a

-- The master manager of the team is `a`.
abbrev pub leads : Ident → Ident → Db → Bool
leads t a db = is_lead_of a (find_team t db)

abbrev pub has_member : Ident → Ident → Db → Bool
has_member t a db = any (is_member t a) db.members

-- `a` may report to `b` in the team: it exists, both are members of it, `b` does not report to `a`
-- (so nobody reports to oneself), and `a` is not the master manager.
abbrev pub Valid : Ident → Ident → Ident → Db → Type 0
Valid t a b db =
    (reports t b a db ≡ false)
    × (has_member t a db ≡ true)
    × (has_member t b db ≡ true)
    × (any (λ team. team.id == t) db.teams ≡ true)
    × (leads t a db ≡ false)

abbrev pub Sound : Db → Type 0
Sound db = (t a b : Ident) → reports t a b db ≡ true → Valid t a b db

pub clear_reporting-Sound : (m : TeamMember) (db : Db) → Sound db → Sound (clear_reporting m db)
unfolding clear_reporting
clear_reporting-Sound m db h t a b r = ground (
  arith,
  h t a b,
  any-delete_many (is_report t a b) (concerns m) db.reporting,
  any-delete_many (is_report t b a) (concerns m) db.reporting,
)

pub drop_report-Sound : (team s k : Ident) (db : Db) → Sound db → Sound (drop_report team s k db)
unfolding drop_report
drop_report-Sound team s k db h t a b r = ground (
  arith,
  h t a b,
  any-delete_many (is_report t a b) (is_report team s k) db.reporting,
  any-delete_many (is_report t b a) (is_report team s k) db.reporting,
)

-- Nobody in the team reports to the member any more, nor the member to anybody.
pub clear_reporting-clears :
    (m : TeamMember) (b : Ident) (db : Db)
    → (reports m.team_id m.staff_id b (clear_reporting m db) ≡ false)
      × (reports m.team_id b m.staff_id (clear_reporting m db) ≡ false)
unfolding clear_reporting
clear_reporting-clears m b db = (
  any-delete_many_hit (is_report m.team_id m.staff_id b) (concerns m) db.reporting
      (λ r e. ground arith),
  any-delete_many_hit (is_report m.team_id b m.staff_id) (concerns m) db.reporting
      (λ r e. ground arith),
)

pub delete_member-Sound :
    (m : TeamMember) (db : Db)
    → find_first (is_row m.id m.team_id) db.members ≡ some m
    → Sound db
    → Sound (delete_member m db)
unfolding delete_member clear_reporting
delete_member-Sound m db e h t a b r =
    let left : List TeamReporting =
      delete_many (λ r. is_ident r.team_member_id m.id) db.reporting in
    elim (Bool-cases (m.team_id == t && (m.staff_id == a || m.staff_id == b))) [
      | inl hit ↦ absurd (
          ground
            (arith, any-delete_many_hit (is_report t a b) (concerns m) left (λ r k. ground arith)))
      | inr miss ↦ ground (
        arith,
        h t a b,
        any-delete_many (is_report t a b) (concerns m) left,
        any-delete_many (is_report t b a) (concerns m) left,
        any-delete_many (is_report t a b) (λ r. is_ident r.team_member_id m.id) db.reporting,
        any-delete_many (is_report t b a) (λ r. is_ident r.team_member_id m.id) db.reporting,
        any-delete (is_member t a) (is_row m.id m.team_id) m db.members e,
        any-delete (is_member t b) (is_row m.id m.team_id) m db.members e,
      )
    ]

pub drop_team-Sound : (id : Ident) (db : Db) → Sound db → Sound (drop_team id db)
unfolding drop_team
drop_team-Sound id db h t a b r =
    let gone : TeamReporting → Bool =
      λ r. r.team_id == id || any (is_row_of id r.team_member_id) db.members in
    elim (Bool-cases (t == id)) [
      | inl hit ↦ absurd (
          ground
            (arith, any-delete_many_hit (is_report t a b) gone db.reporting (λ r k. ground arith)))
      | inr miss ↦ ground (
        arith,
        h t a b,
        any-delete_many (is_report t a b) gone db.reporting,
        any-delete_many (is_report t b a) gone db.reporting,
        any-delete_many_miss (is_member t a) (λ m. m.team_id == id) db.members
            (λ m e. ground arith),
        any-delete_many_miss (is_member t b) (λ m. m.team_id == id) db.members
            (λ m e. ground arith),
        any-delete_miss (λ team. team.id == t) (λ team. team.id == id) db.teams
            (λ m e. ground arith),
        find_first-delete_miss (λ team. team.id == t) (λ team. team.id == id) db.teams
            (λ m e. ground arith),
      )
    ]

pub any-report_rows :
    (fresh : Fresh) (m : TeamMember) (ids : List Ident) (t a b : Ident)
    → any (is_report t a b) (report_rows fresh m ids)
      ≡ (m.team_id == t && (m.staff_id == a && contains ids b))
any-report_rows fresh m [] t a b = ground arith
any-report_rows fresh m (i ∷ is) t a b =
    ground (arith, any-report_rows (λ k. fresh (suc k)) m is t a b)

pub contains-members_among :
    (t : Ident) (ids : List Ident) (a : Ident) (ms : List TeamMember)
    → contains
        (map (λ m. m.staff_id) (find_many (λ m. m.team_id == t && contains ids m.staff_id) ms))
        a
      ≡ true
    → (contains ids a ≡ true) × (any (is_member t a) ms ≡ true)
contains-members_among t ids a [] h = cc
contains-members_among t ids a (m ∷ ms) h =
    ground (arith, contains-members_among t ids a ms, ==→eq m.staff_id a)

pub contains-except_ids :
    (out ids : List Ident) (a : Ident)
    → contains (except_ids out ids) a ≡ true
    → contains ids a ≡ true
contains-except_ids out [] a h = h
contains-except_ids out (i ∷ is) a h = ground (arith, contains-except_ids out is a)

module _ (fresh : Fresh) (m : TeamMember) (ids : List Ident) (db : Db) where
  -- The reports of the member to `ids` may be added.
  pub record Assignable : Type 0 where
    pub member : has_member m.team_id m.staff_id db ≡ true
    pub managers : (b : Ident) → contains ids b ≡ true → has_member m.team_id b db ≡ true
    pub others : contains ids m.staff_id ≡ false
    pub team : any (λ team. team.id == m.team_id) db.teams ≡ true
    pub not_lead : leads m.team_id m.staff_id db ≡ false
    pub no_reverse : reverse_among m.team_id m.staff_id ids db ≡ false

  no_reverse_report :
      (b : Ident)
      → reverse_among m.team_id m.staff_id ids db ≡ false
      → contains ids b ≡ true
      → reports m.team_id b m.staff_id db ≡ false
  no_reverse_report b rev c =
      any_mono (is_report m.team_id b m.staff_id)
        (λ r. r.team_id == m.team_id && (contains ids r.staff_id && r.manager_id == m.staff_id))
        db.reporting (λ r k. ground (arith, ==→eq r.staff_id b)) rev

  new_report-Valid :
      (t a b : Ident)
      → Assignable
      → m.team_id ≡ t
      → m.staff_id ≡ a
      → contains ids b ≡ true
      → Valid t a b db
  new_report-Valid t a b s e1 e2 c = (
    rw (e1, e2) at (no_reverse_report b s.no_reverse c),
    rw (e1, e2) at s.member,
    rw e1 at (s.managers b c),
    rw e1 at s.team,
    rw (e1, e2) at s.not_lead,
  )

  pub add_reports-Sound : Assignable → Sound db → Sound (add_reports fresh m ids db)
  unfolding add_reports
  add_reports-Sound s h t a b r = ground (
    arith,
    h t a b,
    s.others,
    any-append (is_report t a b) db.reporting (report_rows fresh m ids),
    any-append (is_report t b a) db.reporting (report_rows fresh m ids),
    any-report_rows fresh m ids t a b,
    any-report_rows fresh m ids t b a,
    ==→eq m.team_id t,
    ==→eq m.staff_id a,
    ==→eq m.staff_id b,
    new_report-Valid t a b s,
    new_report-Valid t b a s,
  )
