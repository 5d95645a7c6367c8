-- ===== src/Hours.antt =====
-- The working hours of an organisation and of a member of its staff, which
-- src/organization/organization.service.ts and src/staff/staff.service.ts store in the same way:
-- one row for each day of the week.
pub mod Exact
pub mod Tests
use vms_backend_testing.Base.{
  ℕ, suc, Bool, true, false, not, ◌&&◌, ◌||◌, Option, none, some, List, [], ◌∷◌, ◌==◌, ltb,
  if◌then◌else◌, Ident, is_ident,
}
use vms_backend_testing.Base.Text.{Text}
use vms_backend_testing.Base.Table.{length, any, create, update}

pub data Weekday : Type 0 where
  monday tuesday wednesday thursday friday saturday sunday : Weekday

unfoldable pub day_code : Weekday → ℕ
day_code monday = 1
day_code tuesday = 2
day_code wednesday = 3
day_code thursday = 4
day_code friday = 5
day_code saturday = 6
day_code sunday = 7

unfoldable pub same_day : Weekday → Weekday → Bool
unfolding day_code
same_day d e = day_code d == day_code e

-- `ALL_DAYS`
abbrev pub all_days : List Weekday
all_days = monday ∷ tuesday ∷ wednesday ∷ thursday ∷ friday ∷ saturday ∷ sunday ∷ []

-- A row belongs to an organisation or to a member of the staff.
pub record WorkingHours : Type 0 where
  pub id : Ident
  pub day_of_week : Weekday
  pub starts_at : Text
  pub ends_at : Text
  pub is_closed : Bool
  pub org_id : Option Ident
  pub staff_id : Option Ident

pub data Owner : Type 0 where
  of_org of_staff : Ident → Owner

pub record WorkingHoursDto : Type 0 where
  pub starts_at : Text
  pub ends_at : Text
  pub days : List Weekday

abbrev pub owns : Owner → WorkingHours → Bool
owns (of_org i) r = is_ident r.org_id i
owns (of_staff i) r = is_ident r.staff_id i

abbrev org_of : Owner → Option Ident
org_of (of_org i) = some i
org_of (of_staff i) = none

abbrev staff_of : Owner → Option Ident
staff_of (of_org i) = none
staff_of (of_staff i) = some i

-- `startsAt >= endsAt`: strings are ordered by their code units.
unfoldable pub text_lt : Text → Text → Bool
text_lt s [] = false
text_lt [] (b ∷ t) = true
text_lt (a ∷ s) (b ∷ t) = let rest = text_lt s t in if a == b then rest else ltb a b

abbrev pub opens : WorkingHoursDto → Weekday → Bool
opens dto d = any (same_day d) dto.days

abbrev pub is_row_of : Owner → Weekday → WorkingHours → Bool
is_row_of o d r = owns o r && same_day r.day_of_week d

abbrev pub changed : WorkingHoursDto → Weekday → WorkingHours → WorkingHours
changed dto d r = record r {
  is_closed = not (opens dto d);
  starts_at = if opens dto d then dto.starts_at else r.starts_at;
  ends_at = if opens dto d then dto.ends_at else r.ends_at;
}

abbrev pub nine : Text
nine = b'0' ∷ b'9' ∷ b':' ∷ b'0' ∷ b'0' ∷ []

abbrev pub six : Text
six = b'1' ∷ b'8' ∷ b':' ∷ b'0' ∷ b'0' ∷ []

abbrev pub new_row : Ident → Owner → WorkingHoursDto → Weekday → WorkingHours
new_row id o dto d = record {
  id = id;
  day_of_week = d;
  starts_at = if opens dto d then dto.starts_at else nine;
  ends_at = if opens dto d then dto.ends_at else six;
  is_closed = not (opens dto d);
  org_id = org_of o;
  staff_id = staff_of o;
}

-- `workingHours.upsert(…)` by the day and the owner
unfoldable pub upsert_day :
    Ident → Owner → WorkingHoursDto → Weekday → List WorkingHours → List WorkingHours
upsert_day id o dto d rows =
    if any (is_row_of o d) rows
    then update (is_row_of o d) (changed dto d) rows
    else create (new_row id o dto d) rows

unfoldable pub store_days :
    (ℕ → Ident) → Owner → WorkingHoursDto → List Weekday → List WorkingHours → List WorkingHours
store_days fresh o dto [] rows = rows
store_days fresh o dto (d ∷ ds) rows =
    store_days (λ k. fresh (suc k)) o dto ds (upsert_day (fresh 0) o dto d rows)

-- `for (const day of ALL_DAYS)`
unfoldable pub store_hours :
    (ℕ → Ident) → Owner → WorkingHoursDto → List WorkingHours → List WorkingHours
store_hours fresh o dto rows = store_days fresh o dto all_days rows

-- The two tests before the loop, on hours that are given.
abbrev pub no_start_before_end : WorkingHoursDto → Bool
no_start_before_end dto = not (text_lt dto.starts_at dto.ends_at)

abbrev pub no_day : WorkingHoursDto → Bool
no_day dto = length dto.days == 0
