-- ===== src/Catalog/Counting.antt =====
-- How many members of the staff a department has, as the list of departments says it.
use vms_backend_testing.Base.{
  ℕ, ◌+◌, Option, none, some, List, [], ◌∷◌, map, Ident, is_ident, ◌≡◌, refl, ◌∙◌, arith,
}
use vms_backend_testing.Base.Table.{count}
use vms_backend_testing.Base.Table.Counts.{one_if}
use vms_backend_testing.Catalog.{Entry}
use vms_backend_testing.Catalog.Department.{bump, group_by, lookup, with_counts}

lookup-bump :
    (id : Ident) (d : Option Ident) (groups : List (Option Ident × ℕ))
    → lookup id (bump d groups) ≡ lookup id groups + one_if (is_ident d id)
lookup-bump id none [] = refl
lookup-bump id (some i) [] = ground arith
lookup-bump id none ((none, n) ∷ groups) = ground arith
lookup-bump id none ((some j, n) ∷ groups) = ground (arith, lookup-bump id none groups)
lookup-bump id (some i) ((none, n) ∷ groups) = ground (arith, lookup-bump id (some i) groups)
lookup-bump id (some i) ((some j, n) ∷ groups) = ground (arith, lookup-bump id (some i) groups)

lookup-group_by :
    (id : Ident) (staff : List (Option Ident))
    → lookup id (group_by staff) ≡ count (λ d. is_ident d id) staff
lookup-group_by id [] = refl
lookup-group_by id (d ∷ staff) =
    lookup-bump id d (group_by staff) ∙ ground (arith, lookup-group_by id staff)

-- The number that the list of departments gives beside a department, by grouping all staff and
-- looking its group up, is the number of those of the staff who are in it.
pub with_counts-count :
    (staff : List (Option Ident)) (departments : List Entry)
    → with_counts staff departments ≡ map (λ d. (d, count (λ s. is_ident s d.id) staff)) departments
with_counts-count staff [] = refl
with_counts-count staff (d ∷ departments) =
    rw (lookup-group_by d.id staff, with_counts-count staff departments) refl
