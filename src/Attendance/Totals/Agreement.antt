-- ===== src/Attendance/Totals/Agreement.antt =====
-- The two copies of the computation of a day's totals agree.
use vms_backend_testing.Base.{ℕ, ◌≡◌, refl, ap, List, [], ◌∷◌, arith, map}
use vms_backend_testing.Attendance.Model.{
  EventType, punch_in, punch_out, break_start, break_end, late_punch_out, Event,
}
use vms_backend_testing.Attendance.Totals.{
  Stamp, Totals, zero_totals, totals_of, count_event, count_event_local, count_all, count_all_local,
  sort_by_time, stamp_of, recalc_totals, recalc_totals_local,
}

count_event-agree :
    (k : EventType) (t : ℕ) (v : Totals) → count_event_local k t v ≡ count_event k t v
unfolding count_event count_event_local
count_event-agree punch_in t v = ground arith
count_event-agree punch_out t v = ground arith
count_event-agree break_start t v = ground arith
count_event-agree break_end t v = ground arith
count_event-agree late_punch_out t v = ground arith

count_all-agree : (es : List Stamp) (v : Totals) → count_all_local es v ≡ count_all es v
unfolding count_all count_all_local
count_all-agree [] v = refl
count_all-agree (e ∷ es) v =
    rw count_event-agree (count_all-agree es (count_event e.event_type e.timestamp v))

pub recalc_totals-agree : (es : List Event) → recalc_totals_local es ≡ recalc_totals es
unfolding recalc_totals recalc_totals_local
recalc_totals-agree [] = refl
recalc_totals-agree (e ∷ es) =
    ap totals_of (count_all-agree (sort_by_time (map stamp_of (e ∷ es))) zero_totals)
