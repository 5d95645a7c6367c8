-- ===== src/Base/Table/Rows.antt =====
-- Which rows a query leaves alone, and properties of all rows.
use mathlib.Core.Path.{◌≡◌, refl, subst}
use mathlib.Core.Logic.{inl, inr, ◌≢◌}
use mathlib.Core.Bool.{Bool, true, false}
use mathlib.Core.Option.{none, some, some-injective}
use mathlib.Core.List.{List, [], ◌∷◌}
use native.Mathlib.Omega.{arith}
use vms_backend_testing.Base.Test.{Bool-cases}
use vms_backend_testing.Base.Table.Counts.{find_first-holds}
use vms_backend_testing.Base.Table.{find_first, find_many, update, update_many, create, any, All}

module _ {ℓ} {A : Type ℓ} where
  pub find_many-create_ne :
      (p : A → Bool) (x : A) (xs : List A)
      → p x ≡ false
      → find_many p (create x xs) ≡ find_many p xs
  find_many-create_ne p x [] h = ground arith
  find_many-create_ne p x (y ∷ xs) h = ground (arith, find_many-create_ne p x xs h)

  -- The rows of `p` are not among those that the update finds.
  pub find_many-update_ne :
      (p q : A → Bool) (f : A → A) (s : A) (xs : List A)
      → find_first q xs ≡ some s
      → p s ≡ false
      → p (f s) ≡ false
      → find_many p (update q f xs) ≡ find_many p xs
  find_many-update_ne p q f s [] h e g = refl
  find_many-update_ne p q f s (x ∷ xs) h e g = ground (arith, find_many-update_ne p q f s xs)

  pub All-create {κ} : (P : A → Type κ) (x : A) (xs : List A) → All P xs → P x → All P (create x xs)
  All-create P x [] h k = (k, tt)
  All-create P x (y ∷ xs) h k = (h.0, All-create P x xs h.1 k)

  pub All-update {κ} :
      (P : A → Type κ) (q : A → Bool) (f : A → A) (s : A) (xs : List A)
      → find_first q xs ≡ some s
      → All P xs
      → P (f s)
      → All P (update q f xs)
  All-update P q f s [] e h k = tt
  All-update P q f s (x ∷ xs) e h k = ground (arith, All-update P q f s xs)

  pub find_first-All {κ} :
      (P : A → Type κ) (p : A → Bool) (s : A) (xs : List A)
      → find_first p xs ≡ some s
      → All P xs
      → P s
  find_first-All P p s [] e h = cc
  find_first-All P p s (x ∷ xs) e h = elim (Bool-cases (p x)) [
    | inl fits ↦ subst P (some-injective x s (rw fits at e)) h.0
    | inr misses ↦ find_first-All P p s xs (rw misses at e) h.1
  ]

  -- A row that one test finds and another fits is found by the other, after a write that keeps it.
  pub find_first-update_many :
      (p q r : A → Bool) (f : A → A) (s : A) (xs : List A)
      → find_first p xs ≡ some s
      → q s ≡ true
      → ((x : A) → q (f x) ≡ q x)
      → find_first q (update_many r f xs) ≢ none
  find_first-update_many p q r f s [] e h k = cc
  find_first-update_many p q r f s (x ∷ xs) e h k =
      ground (arith, k x, find_first-update_many p q r f s xs)

  -- A write to the row in front, by a key of it, that keeps what it is looked up by.
  pub find_first-update :
      (p q : A → Bool) (f : A → A) (s : A) (xs : List A)
      → find_first p xs ≡ some s
      → find_first q xs ≡ some s
      → ((x : A) → p (f x) ≡ p x)
      → find_first p (update q f xs) ≡ some (f s)
  find_first-update p q f s [] h k keep = cc
  find_first-update p q f s (x ∷ xs) h k keep = ground (
    arith,
    keep x,
    keep s,
    find_first-update p q f s xs,
    find_first-holds p (x ∷ xs) {s = s},
    find_first-holds q (x ∷ xs) {s = s},
  )

  -- A write that makes the row the only one which fits.
  pub find_first-update_new :
      (p q : A → Bool) (f : A → A) (s : A) (xs : List A)
      → find_first q xs ≡ some s
      → any p xs ≡ false
      → p (f s) ≡ true
      → find_first p (update q f xs) ≡ some (f s)
  find_first-update_new p q f s [] h k e = cc
  find_first-update_new p q f s (x ∷ xs) h k e = ground (arith, find_first-update_new p q f s xs)

  pub find_first-create_ne :
      (p : A → Bool) (x : A) (xs : List A)
      → p x ≡ false
      → find_first p (create x xs) ≡ find_first p xs
  find_first-create_ne p x [] h = ground arith
  find_first-create_ne p x (y ∷ xs) h = ground (arith, find_first-create_ne p x xs h)

  pub find_first-create_new :
      (p : A → Bool) (x : A) (xs : List A)
      → any p xs ≡ false
      → p x ≡ true
      → find_first p (create x xs) ≡ some x
  find_first-create_new p x [] h k = ground arith
  find_first-create_new p x (y ∷ xs) h k = ground (arith, find_first-create_new p x xs)

  pub find_first-none_of_any :
      (p : A → Bool) (xs : List A) → any p xs ≡ false → find_first p xs ≡ none
  find_first-none_of_any p [] h = refl
  find_first-none_of_any p (x ∷ xs) h = ground (arith, find_first-none_of_any p xs)

  -- A write to the first row of a test, which goes on fitting it,
  pub find_first-update_self :
      (p : A → Bool) (f : A → A) (s : A) (xs : List A)
      → find_first p xs ≡ some s
      → p (f s) ≡ true
      → find_first p (update p f xs) ≡ some (f s)
  find_first-update_self p f s [] h k = cc
  find_first-update_self p f s (x ∷ xs) h k = ground (arith, find_first-update_self p f s xs)

  -- and one to a row that does not fit it, before or after.
  pub find_first-update_ne :
      (p q : A → Bool) (f : A → A) (xs : List A)
      → ((x : A) → q x ≡ true → p x ≡ false)
      → ((x : A) → q x ≡ true → p (f x) ≡ false)
      → find_first p (update q f xs) ≡ find_first p xs
  find_first-update_ne p q f [] h k = refl
  find_first-update_ne p q f (x ∷ xs) h k =
      ground (arith, h x, k x, find_first-update_ne p q f xs h k)
