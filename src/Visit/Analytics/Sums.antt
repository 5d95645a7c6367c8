-- ===== src/Visit/Analytics/Sums.antt =====
-- Sorting, reordering and cutting the entries of an object leaves every sum over them.
use vms_backend_testing.Base.{
  ℕ, zero, suc, ◌+◌, Bool, not, List, [], ◌∷◌, ◌++◌, ◌≡◌, refl, ◌∙◌, arith,
}
use vms_backend_testing.Base.Text.{Text}
use vms_backend_testing.Base.Table.{find_many, insert_by, order_by}
use vms_backend_testing.Visit.Analytics.{Score, insert, sort, slice, is_index, index, entries}

module _ {A : Type 0} where
  abbrev pub sum_of : (A → ℕ) → List A → ℕ
  sum_of f [] = 0
  sum_of f (x ∷ xs) = f x + sum_of f xs

  -- What `slice(0, n)` leaves out
  abbrev pub after : ℕ → List A → List A
  after zero xs = xs
  after (suc n) [] = []
  after (suc n) (x ∷ xs) = after n xs

  pub sum_of-append : (f : A → ℕ) (xs ys : List A) → sum_of f (xs ++ ys) ≡ sum_of f xs + sum_of f ys
  sum_of-append f [] ys = omega arith
  sum_of-append f (x ∷ xs) ys = ground (arith, sum_of-append f xs ys)

  pub sum_of-slice :
      (f : A → ℕ) (n : ℕ) (xs : List A)
      → sum_of f (slice n xs) + sum_of f (after n xs) ≡ sum_of f xs
  sum_of-slice f zero xs = omega arith
  sum_of-slice f (suc n) [] = refl
  sum_of-slice f (suc n) (x ∷ xs) = ground (arith, sum_of-slice f n xs)

  sum_of-insert_by :
      (f key : A → ℕ) (x : A) (xs : List A) → sum_of f (insert_by key x xs) ≡ f x + sum_of f xs
  sum_of-insert_by f key x [] = refl
  sum_of-insert_by f key x (y ∷ xs) = ground (arith, sum_of-insert_by f key x xs)

  sum_of-order_by : (f key : A → ℕ) (xs : List A) → sum_of f (order_by key xs) ≡ sum_of f xs
  sum_of-order_by f key [] = refl
  sum_of-order_by f key (x ∷ xs) =
      sum_of-insert_by f key x (order_by key xs) ∙ ground (arith, sum_of-order_by f key xs)

  sum_of-split :
      (f : A → ℕ) (p : A → Bool) (xs : List A)
      → sum_of f (find_many p xs) + sum_of f (find_many (λ x. not (p x)) xs) ≡ sum_of f xs
  sum_of-split f p [] = refl
  sum_of-split f p (x ∷ xs) = ground (arith, sum_of-split f p xs)

module _ {K L : Type 0} (f : Score K L → ℕ) where
  sum_of-insert :
      (x : Score K L) (xs : List (Score K L)) → sum_of f (insert x xs) ≡ f x + sum_of f xs
  sum_of-insert x [] = refl
  sum_of-insert x (y ∷ xs) = ground (arith, sum_of-insert x xs)

  pub sum_of-sort : (xs : List (Score K L)) → sum_of f (sort xs) ≡ sum_of f xs
  sum_of-sort [] = refl
  sum_of-sort (x ∷ xs) = sum_of-insert x (sort xs) ∙ ground (arith, sum_of-sort xs)

pub sum_of-entries :
    {L : Type 0} (f : Score Text L → ℕ) (es : List (Score Text L))
    → sum_of f (entries es) ≡ sum_of f es
sum_of-entries f es =
    sum_of-append f (order_by index (find_many is_index es)) (find_many (λ e. not (is_index e)) es)
    ∙ ground (arith, sum_of-order_by f index (find_many is_index es), sum_of-split f is_index es)
