-- ===== src/Attendance/Totals/Exact.antt =====
-- The totals of a shift whose events alternate in time order, against a description by intervals.
use vms_backend_testing.Base.{
  ℕ, ◌+◌, ◌-◌, ◌*◌, ◌/◌, ◌≤◌, ◌≡◌, Bool, true, false, Option, none, some, List, [], ◌∷◌, arith, map,
  if◌then◌else◌, ap, ◌∙◌, refl, sym,
}
use mathlib.Core.Path.{subst}
use vms_backend_testing.Attendance.Model.{
  EventType, punch_in, punch_out, break_start, break_end, late_punch_out, Event,
}
use vms_backend_testing.Attendance.Totals.{
  Totals, zero_totals, totals_of, count_event, count_all, stamp_of, recalc_totals,
}
use vms_backend_testing.Attendance.Totals.Sorting.{IsSortedFrom, sort_by_time-eq_self}

-- Between such an event and the next one the person works, or rests.
abbrev pub works_after : EventType → Bool
works_after punch_in = true
works_after break_end = true
works_after _ = false

abbrev pub rests_after : EventType → Bool
rests_after break_start = true
rests_after _ = false

-- What may come next in a shift: a break while working, its end while resting, and a punch-out of
-- either kind from both.
abbrev pub Follows : EventType → EventType → Type 0
Follows punch_in break_start = Unit
Follows punch_in punch_out = Unit
Follows punch_in late_punch_out = Unit
Follows break_end break_start = Unit
Follows break_end punch_out = Unit
Follows break_end late_punch_out = Unit
Follows break_start break_end = Unit
Follows break_start punch_out = Unit
Follows break_start late_punch_out = Unit
Follows _ _ = ⊥

abbrev Ends : EventType → Type 0
Ends punch_out = Unit
Ends late_punch_out = Unit
Ends _ = ⊥

-- The events after `p` go on in time order and in turn, and end by a punch-out.
abbrev pub IsShift : Event → List Event → Type 0
IsShift p [] = Ends p.event_type
IsShift p (e ∷ es) = (p.timestamp ≤ e.timestamp) × Follows p.event_type e.event_type × IsShift e es

abbrev pub seconds_between : Event → Event → ℕ
seconds_between p e = e.timestamp / 1000 - p.timestamp / 1000

-- The seconds of the intervals in which the person works, and of those of rest.
abbrev pub worked : Event → List Event → ℕ
worked p [] = 0
worked p (e ∷ es) = (if works_after p.event_type then seconds_between p e else 0) + worked e es

abbrev pub rested : Event → List Event → ℕ
rested p [] = 0
rested p (e ∷ es) = (if rests_after p.event_type then seconds_between p e else 0) + rested e es

abbrev pub last_of : Event → List Event → Event
last_of p [] = p
last_of p (e ∷ es) = last_of e es

-- The open start after an event of a shift at the time `t`.
abbrev Sits : EventType → ℕ → Option ℕ → Option ℕ → Type 0
Sits punch_in t w b = (w ≡ some t) × (b ≡ none)
Sits break_end t w b = (w ≡ some t) × (b ≡ none)
Sits break_start t w b = (w ≡ none) × (b ≡ some t)
Sits _ t w b = (w ≡ none) × (b ≡ none)

abbrev work_of : EventType → ℕ → ℕ
work_of k d = if works_after k then d else 0

abbrev rest_of : EventType → ℕ → ℕ
rest_of k d = if rests_after k then d else 0

-- One event of a shift adds the seconds since the one before to the right total.
count_event-Sits :
    (j k : EventType) (s t : ℕ) (v : Totals)
    → Follows j k
    → Sits j (s / 1000 * 1000) v.work_start v.break_start
    → let u = count_event k (t / 1000 * 1000) v in
      Sits k (t / 1000 * 1000) u.work_start u.break_start
      × (u.work ≡ v.work + work_of j (t / 1000 - s / 1000))
      × (u.rest ≡ v.rest + rest_of j (t / 1000 - s / 1000))
unfolding count_event
count_event-Sits punch_in break_start s t v f h = ground arith
count_event-Sits punch_in punch_out s t v f h = ground arith
count_event-Sits punch_in late_punch_out s t v f h = ground arith
count_event-Sits break_end break_start s t v f h = ground arith
count_event-Sits break_end punch_out s t v f h = ground arith
count_event-Sits break_end late_punch_out s t v f h = ground arith
count_event-Sits break_start break_end s t v f h = ground arith
count_event-Sits break_start punch_out s t v f h = ground arith
count_event-Sits break_start late_punch_out s t v f h = ground arith
count_event-Sits j k s t v f h = absurd f

count_all-Sits :
    (p : Event) (es : List Event) (v : Totals)
    → IsShift p es
    → Sits p.event_type (p.timestamp / 1000 * 1000) v.work_start v.break_start
    → let u = count_all (map stamp_of es) v in
      (u.work ≡ v.work + worked p es) × (u.rest ≡ v.rest + rested p es)
unfolding count_all stamp_of
count_all-Sits p [] v s h = (omega arith, omega arith)
count_all-Sits p (e ∷ es) v s h =
    let step = count_event-Sits p.event_type e.event_type p.timestamp e.timestamp v s.1 h in
    let rest =
      count_all-Sits e es (count_event e.event_type (e.timestamp / 1000 * 1000) v) s.2 step.0 in
    (omega (arith, step.1, rest.0), omega (arith, step.2, rest.1))

IsShift-IsSortedFrom :
    (p : Event) (es : List Event)
    → IsShift p es
    → IsSortedFrom (p.timestamp / 1000 * 1000) (map stamp_of es)
unfolding stamp_of
IsShift-IsSortedFrom p [] s = tt
IsShift-IsSortedFrom p (e ∷ es) s = (omega arith, IsShift-IsSortedFrom e es s.2)

IsShift-seconds :
    (p : Event) (es : List Event)
    → IsShift p es
    → (worked p es + rested p es ≡ seconds_between p (last_of p es))
      × (p.timestamp ≤ (last_of p es).timestamp)
IsShift-seconds p [] s = (omega arith, omega arith)
IsShift-seconds p (e ∷ es) s =
    let ih = IsShift-seconds e es s.2 in
    (
      seconds_step p.event_type e.event_type (seconds_between p e) (worked e es) (rested e es)
          (seconds_between p (last_of e es)) s.1 (omega (arith, ih.0, ih.1)),
      omega (arith, ih.1),
    )
  where
    seconds_step :
        (j k : EventType) (d w r n : ℕ)
        → Follows j k
        → d + (w + r) ≡ n
        → work_of j d + w + (rest_of j d + r) ≡ n
    seconds_step punch_in k d w r n f h = ground arith
    seconds_step break_start k d w r n f h = ground arith
    seconds_step break_end k d w r n f h = ground arith
    seconds_step punch_out k d w r n f h = absurd f
    seconds_step late_punch_out k d w r n f h = absurd f

count_all-first :
    (first : Event) (es : List Event)
    → first.event_type ≡ punch_in
    → IsShift first es
    → totals_of (count_all (map stamp_of (first ∷ es)) zero_totals)
      ≡ (worked first es, rested first es)
unfolding count_all stamp_of count_event
count_all-first first es k s =
    let start : ℕ = first.timestamp / 1000 * 1000 in
    let v : Totals = record { work = 0; rest = 0; work_start = some start; break_start = none } in
    let sits =
      count_all-Sits first es v s
        (subst (λ j. Sits j start (some start) none) (sym k) (refl, refl)) in
    ap (λ j. totals_of (count_all (map stamp_of es) (count_event j start zero_totals))) k
    ∙ ground (arith, sits.0, sits.1)

-- A shift begins with a punch-in; its events follow one another in time order and in turn, and end
-- by a punch-out. Then the totals are the seconds of the intervals of work and of rest, and
-- together they make the time from the punch-in to the punch-out.
pub recalc_totals_exact :
    (first : Event) (es : List Event)
    → first.event_type ≡ punch_in
    → IsShift first es
    → (recalc_totals (first ∷ es) ≡ (worked first es, rested first es))
      × (worked first es + rested first es ≡ seconds_between first (last_of first es))
unfolding recalc_totals
recalc_totals_exact first es k s = (
  ap (λ l. totals_of (count_all l zero_totals))
        (sort_by_time-eq_self 0 (map stamp_of (first ∷ es))
          (unfold stamp_of in (omega arith, IsShift-IsSortedFrom first es s)))
      ∙ count_all-first first es k s,
  (IsShift-seconds first es s).0,
)
