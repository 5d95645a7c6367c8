-- ===== src/Hours/Tests.antt =====
-- Hours of an organisation on a small table.
use vms_backend_testing.Base.{ℕ, ◌+◌, true, false, none, some, List, [], ◌∷◌, Ident, ◌≡◌}
use vms_backend_testing.Base.Text.{Text}
use vms_backend_testing.Hours.{
  monday, tuesday, saturday, WorkingHours, WorkingHoursDto, of_org, same_day, day_code, store_hours,
}
use vms_backend_testing.Hours.Exact.{hours_on, store_hours-hours}

abbrev eight : Text
eight = b'0' ∷ b'8' ∷ []

abbrev five : Text
five = b'1' ∷ b'7' ∷ []

abbrev week : WorkingHoursDto
week = record { starts_at = eight; ends_at = five; days = monday ∷ tuesday ∷ [] }

-- The organisation 1 has had its hours on Saturdays only.
abbrev old_rows : List WorkingHours
old_rows =
    record {
      id = 2;
      day_of_week = saturday;
      starts_at = five;
      ends_at = eight;
      is_closed = false;
      org_id = some 1;
      staff_id = none;
    }
    ∷ []

abbrev ids : ℕ → Ident
ids i = 10 + i

store_hours-hours_example :
    hours_on (of_org 1) saturday (store_hours ids (of_org 1) week old_rows)
    ≡ some (true, five, eight)
unfolding same_day day_code
store_hours-hours_example = store_hours-hours ids (of_org 1) week saturday old_rows
