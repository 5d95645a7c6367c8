-- ===== src/Base/Table.antt =====
-- A table as the list of its rows, and the queries of the Prisma client that the services make:
-- `findFirst` and `findUnique`, `findMany`, `create`, `update`, `updateMany`, `delete`,
-- `deleteMany`.
-- A `where` is a test on rows. Where no order is asked for, it is that of the list.
pub mod Any
pub mod Counts
pub mod Rows
use Prim.Native.Nat.{ℕ, suc, ◌+◌}
use mathlib.Core.Bool.{Bool, true, false, not}
use mathlib.Core.Option.{Option, none, some}
use mathlib.Core.List.{List, [], ◌∷◌, ◌++◌}
use vms_backend_testing.Base.Test.{leb, if◌then◌else◌}

module _ {ℓ} {A : Type ℓ} where
  abbrev pub length : List A → ℕ
  length [] = 0
  length (x ∷ xs) = suc (length xs)

  -- the number of rows that a `where` fits
  abbrev pub count : (A → Bool) → List A → ℕ
  count p [] = 0
  count p (x ∷ xs) = (if p x then 1 else 0) + count p xs

  abbrev pub find_first : (A → Bool) → List A → Option A
  find_first p [] = none
  find_first p (x ∷ xs) = if p x then some x else find_first p xs

  abbrev pub find_many : (A → Bool) → List A → List A
  find_many p [] = []
  find_many p (x ∷ xs) = let rest = find_many p xs in if p x then x ∷ rest else rest

  -- `update` by a unique key
  abbrev pub update : (A → Bool) → (A → A) → List A → List A
  update p f [] = []
  update p f (x ∷ xs) = if p x then f x ∷ xs else x ∷ update p f xs

  -- `delete` by a unique key
  abbrev pub delete : (A → Bool) → List A → List A
  delete p [] = []
  delete p (x ∷ xs) = if p x then xs else x ∷ delete p xs

  abbrev pub update_many : (A → Bool) → (A → A) → List A → List A
  update_many p f [] = []
  update_many p f (x ∷ xs) = (if p x then f x else x) ∷ update_many p f xs

  abbrev pub delete_many : (A → Bool) → List A → List A
  delete_many p xs = find_many (λ x. not (p x)) xs

  -- the new row comes last
  abbrev pub create : A → List A → List A
  create x xs = xs ++ x ∷ []

  abbrev pub any : (A → Bool) → List A → Bool
  any p [] = false
  any p (x ∷ xs) = if p x then true else any p xs

  abbrev pub All {κ} : (A → Type κ) → List A → Type κ
  All P [] = Unit
  All P (x ∷ xs) = P x × All P xs

  -- the first row of the largest key: `orderBy: { key: 'desc' }, take: 1`
  abbrev later : (A → ℕ) → A → Option A → A
  later key x none = x
  later key x (some y) = if leb (key y) (key x) then x else y

  abbrev pub find_latest : (A → ℕ) → (A → Bool) → List A → Option A
  find_latest key p [] = none
  find_latest key p (x ∷ xs) =
      let rest = find_latest key p xs in if p x then some (later key x rest) else rest

  -- `orderBy: { key: 'asc' }`
  abbrev pub insert_by : (A → ℕ) → A → List A → List A
  insert_by key x [] = x ∷ []
  insert_by key x (y ∷ ys) = if leb (key x) (key y) then x ∷ y ∷ ys else y ∷ insert_by key x ys

  abbrev pub order_by : (A → ℕ) → List A → List A
  order_by key [] = []
  order_by key (x ∷ xs) = insert_by key x (order_by key xs)
