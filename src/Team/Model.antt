-- ===== src/Team/Model.antt =====
-- The tables of prisma/schema.prisma that the team service reads and writes, with the columns that
-- it uses, and its requests' bodies.
use vms_backend_testing.Base.{ℕ, List, Option, Ident}
use vms_backend_testing.Base.Text.{Text}

pub record Team : Type 0 where
  pub id : Ident
  pub org_id : Ident
  pub name : Text
  pub master_manager_id : Ident

pub record TeamMember : Type 0 where
  pub id : Ident
  pub team_id : Ident
  pub staff_id : Ident

pub record TeamReporting : Type 0 where
  pub id : Ident
  pub team_id : Ident
  pub staff_id : Ident
  pub manager_id : Ident
  pub team_member_id : Option Ident

pub record Staff : Type 0 where
  pub id : Ident
  pub org_id : Ident

pub record UserCredential : Type 0 where
  pub id : Ident
  pub org_id : Ident

pub record Db : Type 0 where
  pub organizations : List Ident
  pub users : List UserCredential
  pub staff : List Staff
  pub teams : List Team
  pub members : List TeamMember
  pub reporting : List TeamReporting

-- The identifiers that the database gives to the rows that a statement inserts.
abbrev pub Fresh : Type 0
Fresh = ℕ → Ident

pub record EditTeamDto : Type 0 where
  pub name : Option Text
  pub master_manager_id : Option Ident

pub record SetReportingDto : Type 0 where
  pub staff_id : Ident
  pub manager_ids : List Ident
