-- ===== src/Attendance/Totals/Bounds.antt =====
-- Work and breaks fit between the first and the last event.
use vms_backend_testing.Base.{
  ℕ, ◌+◌, ◌-◌, ◌*◌, ◌/◌, ◌≤◌, Option, none, some, List, [], ◌∷◌, arith, map,
}
use vms_backend_testing.Base.Table.{All}
use vms_backend_testing.Attendance.Model.{
  EventType, punch_in, punch_out, break_start, break_end, late_punch_out, Event,
}
use vms_backend_testing.Attendance.Totals.{
  Stamp, Totals, zero_totals, count_event, count_all, sort_by_time, stamp_of, recalc_totals,
}
use vms_backend_testing.Attendance.Totals.Sorting.{
  IsSortedFrom, sort_by_time-IsSortedFrom, sort_by_time-All,
}

-- By the time `c` the `n` seconds counted so far lie behind `lo` and before the start that is
-- open, if any; a work start and a break start are never open together.
abbrev Counted : Option ℕ → Option ℕ → ℕ → ℕ → ℕ → Type 0
Counted none none n lo c = n * 1000 + lo ≤ c
Counted (some s) none n lo c = (n * 1000 + lo ≤ s) × (s ≤ c)
Counted none (some s) n lo c = (n * 1000 + lo ≤ s) × (s ≤ c)
Counted (some s) (some r) n lo c = ⊥

abbrev IsWithin : ℕ → ℕ → Totals → Type 0
IsWithin lo c v = Counted v.work_start v.break_start (v.work + v.rest) lo c

count_event-IsWithin :
    (lo c t : ℕ) (k : EventType) (v : Totals)
    → c ≤ t
    → IsWithin lo c v
    → IsWithin lo t (count_event k t v)
unfolding count_event
count_event-IsWithin lo c t punch_in v h w = ground arith
count_event-IsWithin lo c t punch_out v h w = ground arith
count_event-IsWithin lo c t break_start v h w = ground arith
count_event-IsWithin lo c t break_end v h w = ground arith
count_event-IsWithin lo c t late_punch_out v h w = ground arith

IsWithin-le : (lo c : ℕ) (v : Totals) → IsWithin lo c v → (v.work + v.rest) * 1000 + lo ≤ c
IsWithin-le lo c v w = ground arith

count_all-le :
    (lo c hi : ℕ) (es : List Stamp) (v : Totals)
    → c ≤ hi
    → IsSortedFrom c es
    → All (λ e. e.timestamp ≤ hi) es
    → IsWithin lo c v
    → ((count_all es v).work + (count_all es v).rest) * 1000 + lo ≤ hi
unfolding count_all
count_all-le lo c hi [] v h s a w = omega (arith, IsWithin-le lo c v w)
count_all-le lo c hi (e ∷ es) v h s a w =
    count_all-le lo e.timestamp hi es (count_event e.event_type e.timestamp v) a.0 s.1 a.1
      (count_event-IsWithin lo c e.timestamp e.event_type v s.0 w)

stamps-from :
    (lo hi : ℕ) (es : List Event)
    → All (λ e. (lo ≤ e.timestamp) × (e.timestamp ≤ hi)) es
    → All (λ e. lo / 1000 * 1000 ≤ e.timestamp) (map stamp_of es)
unfolding stamp_of
stamps-from lo hi [] h = tt
stamps-from lo hi (e ∷ es) h = (omega arith, stamps-from lo hi es h.1)

stamps-to :
    (lo hi : ℕ) (es : List Event)
    → All (λ e. (lo ≤ e.timestamp) × (e.timestamp ≤ hi)) es
    → All (λ e. e.timestamp ≤ hi / 1000 * 1000) (map stamp_of es)
unfolding stamp_of
stamps-to lo hi [] h = tt
stamps-to lo hi (e ∷ es) h = (omega arith, stamps-to lo hi es h.1)

-- However the events are ordered and whatever they are, if all lie between two times then work and
-- breaks together take no longer than from the one to the other, in whole seconds.
pub recalc_totals_bounds :
    (lo hi : ℕ) (es : List Event)
    → lo ≤ hi
    → All (λ e. (lo ≤ e.timestamp) × (e.timestamp ≤ hi)) es
    → (recalc_totals es).0 + (recalc_totals es).1 ≤ hi / 1000 - lo / 1000
unfolding recalc_totals
recalc_totals_bounds lo hi [] l h = omega arith
recalc_totals_bounds lo hi (e ∷ es) l h =
    let from : ℕ = lo / 1000 * 1000 in
    let stamps : List Stamp = map stamp_of (e ∷ es) in
    omega (
      arith,
      count_all-le from from (hi / 1000 * 1000) (sort_by_time stamps) zero_totals (omega arith)
          (sort_by_time-IsSortedFrom from stamps (stamps-from lo hi (e ∷ es) h))
          (sort_by_time-All (hi / 1000 * 1000) stamps (stamps-to lo hi (e ∷ es) h)) (omega arith),
    )
