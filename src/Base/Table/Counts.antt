-- ===== src/Base/Table/Counts.antt =====
-- How many rows fit a test, after each query that writes.
use Prim.Native.Nat.{ℕ, ◌+◌, ◌≤◌}
use mathlib.Core.Path.{◌≡◌, refl}
use mathlib.Core.Bool.{Bool, true, false}
use mathlib.Core.Option.{none, some}
use mathlib.Core.List.{List, [], ◌∷◌}
use native.Mathlib.Omega.{arith}
use vms_backend_testing.Base.Test.{if◌then◌else◌}
use vms_backend_testing.Base.Table.{
  count, find_first, update, update_many, delete, delete_many, create, any, All,
}

abbrev pub one_if : Bool → ℕ
one_if b = if b then 1 else 0

module _ {ℓ} {A : Type ℓ} where
  pub count-create :
      (p : A → Bool) (x : A) (xs : List A) → count p (create x xs) ≡ count p xs + one_if (p x)
  count-create p x [] = omega arith
  count-create p x (y ∷ xs) = omega (arith, count-create p x xs)

  -- An update of the row that a `where` finds moves that row's share of the count.
  pub count-update :
      (p q : A → Bool) (f : A → A) (s : A) (xs : List A)
      → find_first q xs ≡ some s
      → count p (update q f xs) + one_if (p s) ≡ count p xs + one_if (p (f s))
  count-update p q f s [] h = cc
  count-update p q f s (x ∷ xs) h = ground (arith, count-update p q f s xs)

  pub count-update_same :
      (p q : A → Bool) (f : A → A) (xs : List A)
      → ((x : A) → p (f x) ≡ p x)
      → count p (update q f xs) ≡ count p xs
  count-update_same p q f [] h = refl
  count-update_same p q f (x ∷ xs) h = ground (arith, h x, count-update_same p q f xs h)

  pub count-eq-zero_of_any : (p : A → Bool) (xs : List A) → any p xs ≡ false → count p xs ≡ 0
  count-eq-zero_of_any p [] h = refl
  count-eq-zero_of_any p (x ∷ xs) h = ground (arith, count-eq-zero_of_any p xs)

  pub count-eq-zero_of_find_first :
      (p : A → Bool) (xs : List A) → find_first p xs ≡ none → count p xs ≡ 0
  count-eq-zero_of_find_first p [] h = refl
  count-eq-zero_of_find_first p (x ∷ xs) h = ground (arith, count-eq-zero_of_find_first p xs)

  -- A test that implies another one fits no more rows.
  pub count_mono :
      (p q : A → Bool) (xs : List A) → ((x : A) → p x ≡ true → q x ≡ true) → count p xs ≤ count q xs
  count_mono p q [] h = omega arith
  count_mono p q (x ∷ xs) h = ground (arith, h x, count_mono p q xs h)

  pub count-eq-zero_of_All :
      (p : A → Bool) (xs : List A) → All (λ x. p x ≡ false) xs → count p xs ≡ 0
  count-eq-zero_of_All p [] h = refl
  count-eq-zero_of_All p (x ∷ xs) h = ground (arith, count-eq-zero_of_All p xs h.1)

  pub find_first-holds :
      (p : A → Bool) (xs : List A) {s : A} → find_first p xs ≡ some s → p s ≡ true
  find_first-holds p [] h = cc
  find_first-holds p (x ∷ xs) {s} h = ground (arith, find_first-holds p xs {s = s})

  -- A write that makes no row fit which did not fit before raises no count.
  pub count-update-le :
      (p q : A → Bool) (f : A → A) (xs : List A)
      → ((x : A) → p (f x) ≡ true → p x ≡ true)
      → count p (update q f xs) ≤ count p xs
  count-update-le p q f [] h = omega arith
  count-update-le p q f (x ∷ xs) h = ground (arith, h x, count-update-le p q f xs h)

  pub count-update_many-le :
      (p q : A → Bool) (f : A → A) (xs : List A)
      → ((x : A) → q x ≡ true → p (f x) ≡ true → p x ≡ true)
      → count p (update_many q f xs) ≤ count p xs
  count-update_many-le p q f [] h = omega arith
  count-update_many-le p q f (x ∷ xs) h = ground (arith, h x, count-update_many-le p q f xs h)

  -- A write to all rows of a test, after which none of them fits it.
  pub count-update_many_cleared :
      (p : A → Bool) (f : A → A) (xs : List A)
      → ((x : A) → p x ≡ true → p (f x) ≡ false)
      → count p (update_many p f xs) ≡ 0
  count-update_many_cleared p f [] h = refl
  count-update_many_cleared p f (x ∷ xs) h = ground (arith, h x, count-update_many_cleared p f xs h)

  pub count_pos_of_find_first :
      (p : A → Bool) (s : A) (xs : List A) → find_first p xs ≡ some s → 1 ≤ count p xs
  count_pos_of_find_first p s [] h = cc
  count_pos_of_find_first p s (x ∷ xs) h = ground (arith, count_pos_of_find_first p s xs)

  -- The row that a deletion finds is no longer counted.
  pub count-delete :
      (p q : A → Bool) (s : A) (xs : List A)
      → find_first q xs ≡ some s
      → p s ≡ true
      → count p (delete q xs) + 1 ≡ count p xs
  count-delete p q s [] h e = cc
  count-delete p q s (x ∷ xs) h e = ground (arith, count-delete p q s xs)

  pub find_first_of_count_zero :
      (p : A → Bool) (xs : List A) → count p xs ≡ 0 → find_first p xs ≡ none
  find_first_of_count_zero p [] h = refl
  find_first_of_count_zero p (x ∷ xs) h = ground (arith, find_first_of_count_zero p xs)

  pub count_pos_of_find_fits :
      (p q : A → Bool) (s : A) (xs : List A)
      → find_first p xs ≡ some s
      → q s ≡ true
      → 1 ≤ count q xs
  count_pos_of_find_fits p q s [] h e = cc
  count_pos_of_find_fits p q s (x ∷ xs) h e = ground (arith, count_pos_of_find_fits p q s xs)

  -- A key that at most one row has finds that row.
  pub find_first_of_unique :
      (p q : A → Bool) (s : A) (xs : List A)
      → count q xs ≤ 1
      → find_first p xs ≡ some s
      → q s ≡ true
      → find_first q xs ≡ some s
  find_first_of_unique p q s [] u h e = cc
  find_first_of_unique p q s (x ∷ xs) u h e = ground (
    arith,
    find_first_of_unique p q s xs,
    count_pos_of_find_first p s xs,
    count_pos_of_find_fits p q s xs,
  )

  pub count-delete-le : (p q : A → Bool) (xs : List A) → count p (delete q xs) ≤ count p xs
  count-delete-le p q [] = omega arith
  count-delete-le p q (x ∷ xs) = ground (arith, count-delete-le p q xs)

  pub count-delete_many-le :
      (p q : A → Bool) (xs : List A) → count p (delete_many q xs) ≤ count p xs
  count-delete_many-le p q [] = omega arith
  count-delete_many-le p q (x ∷ xs) = ground (arith, count-delete_many-le p q xs)

  -- A write to one row makes one row fit at most.
  pub count-update-suc :
      (p q : A → Bool) (f : A → A) (xs : List A) → count p (update q f xs) ≤ count p xs + 1
  count-update-suc p q f [] = omega arith
  count-update-suc p q f (x ∷ xs) = ground (arith, count-update-suc p q f xs)
