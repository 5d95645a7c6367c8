-- ===== src/Attendance/Totals/Sorting.antt =====
-- The sort of `recalcTotals` orders its events and keeps their times.
use vms_backend_testing.Base.{ℕ, ◌≤◌, ◌≡◌, refl, List, [], ◌∷◌, arith}
use vms_backend_testing.Base.Table.{All}
use vms_backend_testing.Attendance.Totals.{Stamp, insert, sort_by_time}

-- Times do not fall, and none is before `lo`.
abbrev pub IsSortedFrom : ℕ → List Stamp → Type 0
IsSortedFrom lo [] = Unit
IsSortedFrom lo (x ∷ xs) = (lo ≤ x.timestamp) × IsSortedFrom x.timestamp xs

insert-IsSortedFrom :
    (lo : ℕ) (x : Stamp) (xs : List Stamp)
    → lo ≤ x.timestamp
    → IsSortedFrom lo xs
    → IsSortedFrom lo (insert x xs)
unfolding insert
insert-IsSortedFrom lo x [] h s = (h, tt)
insert-IsSortedFrom lo x (y ∷ ys) h s = ground (arith, insert-IsSortedFrom y.timestamp x ys)

pub sort_by_time-IsSortedFrom :
    (lo : ℕ) (xs : List Stamp) → All (λ x. lo ≤ x.timestamp) xs → IsSortedFrom lo (sort_by_time xs)
unfolding sort_by_time
sort_by_time-IsSortedFrom lo [] h = tt
sort_by_time-IsSortedFrom lo (x ∷ xs) h =
    insert-IsSortedFrom lo x (sort_by_time xs) h.0 (sort_by_time-IsSortedFrom lo xs h.1)

insert-All :
    (hi : ℕ) (x : Stamp) (xs : List Stamp)
    → x.timestamp ≤ hi
    → All (λ y. y.timestamp ≤ hi) xs
    → All (λ y. y.timestamp ≤ hi) (insert x xs)
unfolding insert
insert-All hi x [] h s = (h, tt)
insert-All hi x (y ∷ ys) h s = ground (arith, insert-All hi x ys h s.1)

pub sort_by_time-All :
    (hi : ℕ) (xs : List Stamp)
    → All (λ x. x.timestamp ≤ hi) xs
    → All (λ x. x.timestamp ≤ hi) (sort_by_time xs)
unfolding sort_by_time
sort_by_time-All hi [] h = tt
sort_by_time-All hi (x ∷ xs) h = insert-All hi x (sort_by_time xs) h.0 (sort_by_time-All hi xs h.1)

-- A list that is in order is left as it is.
pub sort_by_time-eq_self : (lo : ℕ) (xs : List Stamp) → IsSortedFrom lo xs → sort_by_time xs ≡ xs
unfolding sort_by_time
sort_by_time-eq_self lo [] h = refl
sort_by_time-eq_self lo (x ∷ []) h = refl
sort_by_time-eq_self lo (x ∷ y ∷ ys) h =
    rw (sort_by_time-eq_self x.timestamp (y ∷ ys) h.1) (ground arith)
