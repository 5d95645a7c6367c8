-- ===== src/Attendance/Totals.antt =====
-- `floorToSecond` and `recalcTotals`, and the copy of the latter inside the Excel export.
pub mod Sorting
pub mod Bounds
pub mod Agreement
pub mod Exact
use vms_backend_testing.Base.{
  ℕ, ◌+◌, ◌-◌, ◌*◌, ◌/◌, Bool, Option, none, some, List, [], ◌∷◌, map, leb, if◌then◌else◌,
}
use vms_backend_testing.Attendance.Model.{
  EventType, punch_in, punch_out, break_start, break_end, late_punch_out, Event,
}

-- `new Date(Math.floor(date.getTime() / 1000) * 1000)`
unfoldable pub floor_to_second : ℕ → ℕ
floor_to_second t = t / 1000 * 1000

-- What the loop reads of an event.
pub record Stamp : Type 0 where
  pub event_type : EventType
  pub timestamp : ℕ

pub stamp_of : Event → Stamp
unfolding floor_to_second
stamp_of e = record { event_type = e.event_type; timestamp = floor_to_second e.timestamp }

-- `sort((a, b) => a - b)` is stable: an event goes behind the earlier ones of its time.
insert : Stamp → List Stamp → List Stamp
insert x [] = x ∷ []
insert x (y ∷ ys) = if leb x.timestamp y.timestamp then x ∷ y ∷ ys else y ∷ insert x ys

pub sort_by_time : List Stamp → List Stamp
unfolding insert
sort_by_time [] = []
sort_by_time (x ∷ xs) = insert x (sort_by_time xs)

-- The variables of the loop.
pub record Totals : Type 0 where
  pub work : ℕ
  pub rest : ℕ
  pub work_start : Option ℕ
  pub break_start : Option ℕ

abbrev pub zero_totals : Totals
zero_totals = record { work = 0; rest = 0; work_start = none; break_start = none }

-- `(e.timestamp.getTime() - start.getTime()) / 1000` where a start is set
abbrev pub seconds_since : Option ℕ → ℕ → ℕ
seconds_since none t = 0
seconds_since (some s) t = (t - s) / 1000

close_break : Totals → ℕ → Totals
close_break v t = record v { rest = v.rest + seconds_since v.break_start t; break_start = none }

close_work : Totals → ℕ → Totals
close_work v t = record v { work = v.work + seconds_since v.work_start t; work_start = none }

-- `if (currentBreakStart) … else if (currentWorkStart) …`
end_day : Option ℕ → Totals → ℕ → Totals
unfolding close_break close_work
end_day none v t = close_work v t
end_day (some s) v t = close_break v t

-- The `switch` of `recalcTotals`.
count_event : EventType → ℕ → Totals → Totals
unfolding close_break close_work end_day
count_event punch_in t v = record (close_break v t) { work_start = some t }
count_event break_end t v = record (close_break v t) { work_start = some t }
count_event break_start t v = record (close_work v t) { break_start = some t }
count_event punch_out t v = end_day v.break_start v t
count_event late_punch_out t v = end_day v.break_start v t

pub count_all : List Stamp → Totals → Totals
unfolding count_event
count_all [] v = v
count_all (e ∷ es) v = count_all es (count_event e.event_type e.timestamp v)

abbrev totals_of : Totals → ℕ × ℕ
totals_of v = (v.work, v.rest)

-- The pair (totalWorkSeconds, totalBreakSeconds).
unfoldable pub recalc_totals : List Event → ℕ × ℕ
unfolding stamp_of sort_by_time count_all
recalc_totals [] = (0, 0)
recalc_totals (e ∷ es) = totals_of (count_all (sort_by_time (map stamp_of (e ∷ es))) zero_totals)

-- `recalcTotalsLocal` of `exportAttendanceRangeExcel`: no test for an empty list, and each reset
-- stands under the test of its start.
reset_break : Option ℕ → ℕ → Totals → Totals
reset_break none t v = v
reset_break (some s) t v = record v { rest = v.rest + (t - s) / 1000; break_start = none }

reset_work : Option ℕ → ℕ → Totals → Totals
reset_work none t v = v
reset_work (some s) t v = record v { work = v.work + (t - s) / 1000; work_start = none }

end_day_local : Option ℕ → Totals → ℕ → Totals
unfolding reset_break reset_work
end_day_local none v t = reset_work v.work_start t v
end_day_local (some s) v t = reset_break (some s) t v

count_event_local : EventType → ℕ → Totals → Totals
unfolding reset_break reset_work end_day_local
count_event_local punch_in t v = record (reset_break v.break_start t v) { work_start = some t }
count_event_local break_end t v = record (reset_break v.break_start t v) { work_start = some t }
count_event_local break_start t v = record (reset_work v.work_start t v) { break_start = some t }
count_event_local punch_out t v = end_day_local v.break_start v t
count_event_local late_punch_out t v = end_day_local v.break_start v t

count_all_local : List Stamp → Totals → Totals
unfolding count_event_local
count_all_local [] v = v
count_all_local (e ∷ es) v = count_all_local es (count_event_local e.event_type e.timestamp v)

unfoldable pub recalc_totals_local : List Event → ℕ × ℕ
unfolding stamp_of sort_by_time count_all_local
recalc_totals_local es = totals_of (count_all_local (sort_by_time (map stamp_of es)) zero_totals)
