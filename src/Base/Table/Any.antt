-- ===== src/Base/Table/Any.antt =====
-- Whether some row fits a test, after each query that writes.
use mathlib.Core.Path.{◌≡◌, refl}
use mathlib.Core.Bool.{Bool, true, false, ◌||◌, ◌&&◌}
use mathlib.Core.Option.{none, some}
use mathlib.Core.List.{List, [], ◌∷◌, ◌++◌}
use native.Mathlib.Omega.{arith}
use vms_backend_testing.Base.Table.{
  find_first, update, update_many, delete, delete_many, create, any,
}

module _ {ℓ} {A : Type ℓ} where
  pub any-append : (p : A → Bool) (xs ys : List A) → any p (xs ++ ys) ≡ (any p xs || any p ys)
  any-append p [] ys = refl
  any-append p (x ∷ xs) ys = ground (arith, any-append p xs ys)

  pub any-create : (p : A → Bool) (x : A) (xs : List A) → any p (create x xs) ≡ (any p xs || p x)
  any-create p x [] = ground arith
  any-create p x (y ∷ xs) = ground (arith, any-create p x xs)

  pub any-or : (p q : A → Bool) (xs : List A) → any (λ x. p x || q x) xs ≡ (any p xs || any q xs)
  any-or p q [] = refl
  any-or p q (x ∷ xs) = ground (arith, any-or p q xs)

  pub any-and : (p q : A → Bool) (xs : List A) → any p xs ≡ false → any (λ x. p x && q x) xs ≡ false
  any-and p q [] h = refl
  any-and p q (x ∷ xs) h = ground (arith, any-and p q xs)

  pub any-update_same :
      (p q : A → Bool) (f : A → A) (xs : List A)
      → ((x : A) → p (f x) ≡ p x)
      → any p (update q f xs) ≡ any p xs
  any-update_same p q f [] h = refl
  any-update_same p q f (x ∷ xs) h = ground (arith, h x, any-update_same p q f xs h)

  pub any-update_on :
      (p q : A → Bool) (f : A → A) (xs : List A)
      → ((x : A) → q x ≡ true → p (f x) ≡ p x)
      → any p (update q f xs) ≡ any p xs
  any-update_on p q f [] h = refl
  any-update_on p q f (x ∷ xs) h = ground (arith, h x, any-update_on p q f xs h)

  pub any-update_many_on :
      (p q : A → Bool) (f : A → A) (xs : List A)
      → ((x : A) → q x ≡ true → p (f x) ≡ p x)
      → any p (update_many q f xs) ≡ any p xs
  any-update_many_on p q f [] h = refl
  any-update_many_on p q f (x ∷ xs) h = ground (arith, h x, any-update_many_on p q f xs h)

  pub any-delete_le :
      (p q : A → Bool) (xs : List A) → any p xs ≡ false → any p (delete q xs) ≡ false
  any-delete_le p q [] h = refl
  any-delete_le p q (x ∷ xs) h = ground (arith, any-delete_le p q xs)

  -- What no row fits, no row that is found fits.
  pub find_first-fails :
      (p q : A → Bool) (s : A) (xs : List A)
      → find_first q xs ≡ some s
      → any p xs ≡ false
      → p s ≡ false
  find_first-fails p q s [] e h = cc
  find_first-fails p q s (x ∷ xs) e h = ground (arith, find_first-fails p q s xs)

  -- A deletion adds no row,
  pub any-delete_many :
      (p q : A → Bool) (xs : List A) → any p (delete_many q xs) ≡ true → any p xs ≡ true
  any-delete_many p q [] h = h
  any-delete_many p q (x ∷ xs) h = ground (arith, any-delete_many p q xs)

  -- leaves none that it reaches,
  pub any-delete_many_hit :
      (p q : A → Bool) (xs : List A)
      → ((x : A) → p x ≡ true → q x ≡ true)
      → any p (delete_many q xs) ≡ false
  any-delete_many_hit p q [] h = refl
  any-delete_many_hit p q (x ∷ xs) h = ground (arith, h x, any-delete_many_hit p q xs h)

  -- and all that it does not reach.
  pub any-delete_many_miss :
      (p q : A → Bool) (xs : List A)
      → ((x : A) → p x ≡ true → q x ≡ false)
      → any p (delete_many q xs) ≡ any p xs
  any-delete_many_miss p q [] h = refl
  any-delete_many_miss p q (x ∷ xs) h = ground (arith, h x, any-delete_many_miss p q xs h)

  pub any-delete :
      (p q : A → Bool) (s : A) (xs : List A)
      → find_first q xs ≡ some s
      → p s ≡ false
      → any p (delete q xs) ≡ any p xs
  any-delete p q s [] e h = refl
  any-delete p q s (x ∷ xs) e h = ground (arith, any-delete p q s xs)

  pub any-delete_miss :
      (p q : A → Bool) (xs : List A)
      → ((x : A) → p x ≡ true → q x ≡ false)
      → any p (delete q xs) ≡ any p xs
  any-delete_miss p q [] h = refl
  any-delete_miss p q (x ∷ xs) h = ground (arith, h x, any-delete_miss p q xs h)

  pub any_mono :
      (p q : A → Bool) (xs : List A)
      → ((x : A) → p x ≡ true → q x ≡ true)
      → any q xs ≡ false
      → any p xs ≡ false
  any_mono p q [] h k = refl
  any_mono p q (x ∷ xs) h k = ground (arith, h x, any_mono p q xs h)

  pub any_of_find_first :
      (p : A → Bool) (s : A) (xs : List A) → find_first p xs ≡ some s → any p xs ≡ true
  any_of_find_first p s [] h = cc
  any_of_find_first p s (x ∷ xs) h = ground (arith, any_of_find_first p s xs)

  pub any_of_find_first-none :
      (p : A → Bool) (xs : List A) → find_first p xs ≡ none → any p xs ≡ false
  any_of_find_first-none p [] h = refl
  any_of_find_first-none p (x ∷ xs) h = ground (arith, any_of_find_first-none p xs)

  pub find_first-create :
      (p : A → Bool) (x : A) (xs : List A)
      → any p xs ≡ true
      → find_first p (create x xs) ≡ find_first p xs
  find_first-create p x [] h = cc
  find_first-create p x (y ∷ xs) h = ground (arith, find_first-create p x xs)

  -- The row that a deletion of other rows leaves in front.
  pub find_first-delete_miss :
      (p q : A → Bool) (xs : List A)
      → ((x : A) → p x ≡ true → q x ≡ false)
      → find_first p (delete q xs) ≡ find_first p xs
  find_first-delete_miss p q [] h = refl
  find_first-delete_miss p q (x ∷ xs) h = ground (arith, h x, find_first-delete_miss p q xs h)
