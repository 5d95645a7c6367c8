-- ===== src/Hours/Exact.antt =====
-- After the loop each day of the week has its row.
use vms_backend_testing.Base.{
  ℕ, suc, Bool, true, false, ◌&&◌, Option, none, some, List, [], ◌∷◌, ◌==◌, if◌then◌else◌, Ident,
  ◌≡◌, refl, sym, ap, ◌∙◌, inl, inr, Bool-cases, ==→eq, ==-refl, arith,
}
use vms_backend_testing.Base.Text.{Text}
use vms_backend_testing.Base.Table.{any, find_first, update}
use vms_backend_testing.Base.Table.Rows.{
  find_first-create_ne, find_first-create_new, find_first-none_of_any, find_first-update_self,
  find_first-update_ne,
}
use vms_backend_testing.Base.Table.Counts.{find_first-holds}
use vms_backend_testing.Base.Table.Any.{any-create, any-update_same, any_of_find_first-none}
use vms_backend_testing.Base.{Option-cases}
use mathlib.Core.Path.{subst}
use vms_backend_testing.Hours.{
  Weekday, monday, tuesday, wednesday, thursday, friday, saturday, sunday, day_code, same_day,
  all_days, WorkingHours, WorkingHoursDto, Owner, of_org, of_staff, owns, opens, is_row_of, changed,
  nine, six, new_row, upsert_day, store_days, store_hours,
}

-- What a row says of its day: whether it is closed, and from when to when it is open.
abbrev pub Hours : Type 0
Hours = Bool × Text × Text

abbrev hours : WorkingHours → Hours
hours r = (r.is_closed, r.starts_at, r.ends_at)

abbrev hours_of_row : Option WorkingHours → Option Hours
hours_of_row none = none
hours_of_row (some r) = some (hours r)

abbrev pub hours_on : Owner → Weekday → List WorkingHours → Option Hours
hours_on o d rows = hours_of_row (find_first (is_row_of o d) rows)

abbrev pub same_owner : Owner → Owner → Bool
same_owner (of_org i) (of_org j) = i == j
same_owner (of_staff i) (of_staff j) = i == j
same_owner (of_org i) (of_staff j) = false
same_owner (of_staff i) (of_org j) = false

-- A day that is not selected is closed and keeps its times, 9 to 18 if it had none.
abbrev pub closed : Option Hours → Hours
closed none = (true, nine, six)
closed (some (c, s, e)) = (true, s, e)

abbrev pub after : WorkingHoursDto → Weekday → Option Hours → Hours
after dto d old = if opens dto d then (false, dto.starts_at, dto.ends_at) else closed old

-- No row belongs to both.
abbrev pub Apart : Owner → Owner → List WorkingHours → Type 0
Apart o p rows = any (λ r. owns o r && owns p r) rows ≡ false

abbrev day_at : ℕ → Weekday
day_at n =
    if n == 1
    then monday
    else if n == 2
    then tuesday
    else if n == 3
    then wednesday
    else if n == 4
    then thursday
    else if n == 5
    then friday
    else if n == 6
    then saturday
    else sunday

day_at-day_code : (d : Weekday) → day_at (day_code d) ≡ d
unfolding day_code
day_at-day_code monday = refl
day_at-day_code tuesday = refl
day_at-day_code wednesday = refl
day_at-day_code thursday = refl
day_at-day_code friday = refl
day_at-day_code saturday = refl
day_at-day_code sunday = refl

pub same_day→eq : (d e : Weekday) → same_day d e ≡ true → d ≡ e
unfolding same_day
same_day→eq d e h =
    sym (day_at-day_code d) ∙ ap day_at (==→eq (day_code d) (day_code e) h) ∙ day_at-day_code e

same_day_refl : (d : Weekday) → same_day d d ≡ true
unfolding same_day
same_day_refl d = ==-refl (day_code d)

owns-new_row :
    (id : Ident) (o p : Owner) (dto : WorkingHoursDto) (d : Weekday)
    → owns p (new_row id o dto d) ≡ same_owner o p
owns-new_row id (of_org i) (of_org j) dto d = refl
owns-new_row id (of_org i) (of_staff j) dto d = refl
owns-new_row id (of_staff i) (of_org j) dto d = refl
owns-new_row id (of_staff i) (of_staff j) dto d = refl

owns-changed :
    (p : Owner) (dto : WorkingHoursDto) (d : Weekday) (r : WorkingHours)
    → owns p (changed dto d r) ≡ owns p r
owns-changed (of_org i) dto d r = refl
owns-changed (of_staff i) dto d r = refl

same_owner_refl : (o : Owner) → same_owner o o ≡ true
same_owner_refl (of_org i) = ==-refl i
same_owner_refl (of_staff i) = ==-refl i

day-new_row :
    (id : Ident) (o : Owner) (dto : WorkingHoursDto) (d e : Weekday)
    → same_day e d ≡ false
    → is_row_of o d (new_row id o dto e) ≡ false
day-new_row id o dto d e h = ground arith

other_day :
    (o : Owner) (d e : Weekday) (r : WorkingHours)
    → same_day e d ≡ false
    → is_row_of o e r ≡ true
    → is_row_of o d r ≡ false
other_day o d e r h k =
    let day : r.day_of_week ≡ e = same_day→eq r.day_of_week e (ground arith) in
    ground (arith, ap (λ x. same_day x d) day)

row-changed :
    (o : Owner) (dto : WorkingHoursDto) (d e : Weekday) (r : WorkingHours)
    → is_row_of o d (changed dto e r) ≡ is_row_of o d r
row-changed o dto d e r = ap (λ b. b && same_day r.day_of_week d) (owns-changed o dto e r)

row-new_row :
    (id : Ident) (o : Owner) (dto : WorkingHoursDto) (d : Weekday)
    → is_row_of o d (new_row id o dto d) ≡ true
row-new_row id o dto d =
    ground (arith, owns-new_row id o o dto d, same_owner_refl o, same_day_refl d)

hours-changed :
    (dto : WorkingHoursDto) (d : Weekday) (r : WorkingHours)
    → hours (changed dto d r) ≡ after dto d (some (hours r))
hours-changed dto d r = ground arith

hours-new_row :
    (id : Ident) (o : Owner) (dto : WorkingHoursDto) (d : Weekday)
    → hours (new_row id o dto d) ≡ after dto d none
hours-new_row id o dto d = ground arith

-- The row of a day is written or made,
upsert_day_self :
    (id : Ident) (o : Owner) (dto : WorkingHoursDto) (d : Weekday) (rows : List WorkingHours)
    → hours_on o d (upsert_day id o dto d rows) ≡ some (after dto d (hours_on o d rows))
unfolding upsert_day
upsert_day_self id o dto d rows = elim (Bool-cases (any (is_row_of o d) rows)) [
  | inl t ↦ elim (Option-cases (find_first (is_row_of o d) rows)) [
    | inl n ↦ absurd (ground (arith, any_of_find_first-none (is_row_of o d) rows n))
    | inr (r, e) ↦
        rw
          (
            t,
            find_first-update_self (is_row_of o d) (changed dto d) r rows e
                (row-changed o dto d d r ∙ find_first-holds (is_row_of o d) rows e),
            e,
          )
          (ap some (hours-changed dto d r))
  ]
  | inr f ↦
      rw
        (
          f,
          find_first-create_new (is_row_of o d) (new_row id o dto d) rows f
              (row-new_row id o dto d),
          find_first-none_of_any (is_row_of o d) rows f,
        )
        (ap some (hours-new_row id o dto d))
]

-- and no other day's.
upsert_day-other :
    (id : Ident) (o : Owner) (dto : WorkingHoursDto) (d e : Weekday) (rows : List WorkingHours)
    → same_day e d ≡ false
    → hours_on o d (upsert_day id o dto e rows) ≡ hours_on o d rows
unfolding upsert_day
upsert_day-other id o dto d e rows h = elim (Bool-cases (any (is_row_of o e) rows)) [
  | inl t ↦ rw t (
      ap hours_of_row (
        find_first-update_ne (is_row_of o d) (is_row_of o e) (changed dto e) rows
          (λ r. other_day o d e r h) (λ r k. row-changed o dto d e r ∙ other_day o d e r h k)))
  | inr f ↦ rw f (
      ap hours_of_row (
        find_first-create_ne (is_row_of o d) (new_row id o dto e) rows
          (day-new_row id o dto d e h)))
]

closed_twice : (old : Option Hours) → closed (some (closed old)) ≡ closed old
closed_twice none = refl
closed_twice (some (c, s, e)) = refl

after_twice :
    (dto : WorkingHoursDto) (d : Weekday) (old : Option Hours)
    → after dto d (some (after dto d old)) ≡ after dto d old
after_twice dto d old = elim (Bool-cases (opens dto d)) [
  | inl t ↦ rw t refl
  | inr f ↦ rw f (closed_twice old)
]

store_days-hours :
    (fresh : ℕ → Ident) (o : Owner) (dto : WorkingHoursDto) (d : Weekday) (ds : List Weekday)
    (rows : List WorkingHours)
    → hours_on o d (store_days fresh o dto ds rows) ≡ (
        if any (λ e. same_day e d) ds
        then some (after dto d (hours_on o d rows))
        else hours_on o d rows)
unfolding store_days
store_days-hours fresh o dto d [] rows = refl
store_days-hours fresh o dto d (e ∷ ds) rows = elim (Bool-cases (same_day e d)) [
  | inl t ↦
      rw (store_days-hours (λ k. fresh (suc k)) o dto d ds (upsert_day (fresh 0) o dto e rows), t)
        (twice (any (λ x. same_day x d) ds) (
          subst
            (λ x.
              hours_on o d (upsert_day (fresh 0) o dto x rows)
              ≡ some (after dto d (hours_on o d rows)))
            (sym (same_day→eq e d t)) (upsert_day_self (fresh 0) o dto d rows)))
  | inr f ↦
      rw
        (
          store_days-hours (λ k. fresh (suc k)) o dto d ds (upsert_day (fresh 0) o dto e rows),
          f,
          upsert_day-other (fresh 0) o dto d e rows f,
        )
        refl
]
  where
    twice :
        (b : Bool)
        → hours_on o d (upsert_day (fresh 0) o dto e rows) ≡ some (after dto d (hours_on o d rows))
        → (if b
            then some (after dto d (hours_on o d (upsert_day (fresh 0) o dto e rows)))
            else hours_on o d (upsert_day (fresh 0) o dto e rows))
          ≡ some (after dto d (hours_on o d rows))
    twice true h = rw h (ap some (after_twice dto d (hours_on o d rows)))
    twice false h = h

every_day : (d : Weekday) → any (λ e. same_day e d) all_days ≡ true
unfolding same_day day_code
every_day monday = refl
every_day tuesday = refl
every_day wednesday = refl
every_day thursday = refl
every_day friday = refl
every_day saturday = refl
every_day sunday = refl

-- When the hours of an owner have been stored, each of the seven days has its row: a selected day
-- is open for the given times; any other is closed and keeps the times that it had, 9 to 18 if it
-- had no row.
pub store_hours-hours :
    (fresh : ℕ → Ident) (o : Owner) (dto : WorkingHoursDto) (d : Weekday) (rows : List WorkingHours)
    → hours_on o d (store_hours fresh o dto rows) ≡ some (after dto d (hours_on o d rows))
unfolding store_hours
store_hours-hours fresh o dto d rows =
    rw (store_days-hours fresh o dto d all_days rows, every_day d) refl

both-changed :
    (o p : Owner) (dto : WorkingHoursDto) (d : Weekday) (r : WorkingHours)
    → (owns o (changed dto d r) && owns p (changed dto d r)) ≡ (owns o r && owns p r)
both-changed o p dto d r = ground (arith, owns-changed o dto d r, owns-changed p dto d r)

row-new_row_ne :
    (id : Ident) (o p : Owner) (dto : WorkingHoursDto) (d e : Weekday)
    → same_owner o p ≡ false
    → is_row_of p d (new_row id o dto e) ≡ false
row-new_row_ne id o p dto d e h = ground (arith, owns-new_row id o p dto e)

find_first-update-Apart :
    (o p : Owner) (dto : WorkingHoursDto) (d e : Weekday) (rows : List WorkingHours)
    → Apart o p rows
    → find_first (is_row_of p d) (update (is_row_of o e) (changed dto e) rows)
      ≡ find_first (is_row_of p d) rows
find_first-update-Apart o p dto d e [] h = refl
find_first-update-Apart o p dto d e (r ∷ rows) h =
    ground (arith, row-changed p dto d e r, find_first-update-Apart o p dto d e rows)

upsert_day-Apart :
    (id : Ident) (o p : Owner) (dto : WorkingHoursDto) (d : Weekday) (rows : List WorkingHours)
    → same_owner o p ≡ false
    → Apart o p rows
    → Apart o p (upsert_day id o dto d rows)
unfolding upsert_day
upsert_day-Apart id o p dto d rows h a = ground (
  arith,
  any-create (λ r. owns o r && owns p r) (new_row id o dto d) rows,
  owns-new_row id o p dto d,
  any-update_same (λ r. owns o r && owns p r) (is_row_of o d) (changed dto d) rows
      (both-changed o p dto d),
)

store_days-others :
    (fresh : ℕ → Ident) (o p : Owner) (dto : WorkingHoursDto) (d : Weekday) (ds : List Weekday)
    (rows : List WorkingHours)
    → same_owner o p ≡ false
    → Apart o p rows
    → hours_on p d (store_days fresh o dto ds rows) ≡ hours_on p d rows
unfolding store_days upsert_day
store_days-others fresh o p dto d [] rows h a = refl
store_days-others fresh o p dto d (e ∷ ds) rows h a =
    store_days-others (λ k. fresh (suc k)) o p dto d ds (upsert_day (fresh 0) o dto e rows) h
      (upsert_day-Apart (fresh 0) o p dto e rows h a)
    ∙ elim (Bool-cases (any (is_row_of o e) rows)) [
      | inl t ↦ rw t (ap hours_of_row (find_first-update-Apart o p dto d e rows a))
      | inr f ↦ rw f (
          ap hours_of_row (
            find_first-create_ne (is_row_of p d) (new_row (fresh 0) o dto e) rows
              (row-new_row_ne (fresh 0) o p dto d e h)))
    ]

-- The hours of everyone else stay as they are, if no row belongs to two owners.
pub store_hours-others :
    (fresh : ℕ → Ident) (o p : Owner) (dto : WorkingHoursDto) (d : Weekday)
    (rows : List WorkingHours)
    → same_owner o p ≡ false
    → Apart o p rows
    → hours_on p d (store_hours fresh o dto rows) ≡ hours_on p d rows
unfolding store_hours
store_hours-others fresh o p dto d rows h a = store_days-others fresh o p dto d all_days rows h a
