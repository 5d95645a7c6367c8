-- ===== src/Visit/Analytics/Order.antt =====
-- The order of the answers of the analytics, and what `slice` leaves out.
use vms_backend_testing.Base.{ℕ, zero, suc, ◌≤◌, List, [], ◌∷◌, ◌≡◌, refl, ap, ◌⊎◌, inl, inr, arith}
use vms_backend_testing.Base.Table.{All, length}
use vms_backend_testing.Visit.Analytics.{Score, insert, sort, slice}
use vms_backend_testing.Visit.Analytics.Sums.{after}

module _ {K L : Type 0} where
  -- No entry has a higher count than one before it.
  abbrev pub Descending : List (Score K L) → Type 0
  Descending [] = Unit
  Descending (e ∷ es) = All (λ f. f.count ≤ e.count) es × Descending es

  All-insert :
      (m : ℕ) (x : Score K L) (xs : List (Score K L))
      → x.count ≤ m
      → All (λ f. f.count ≤ m) xs
      → All (λ f. f.count ≤ m) (insert x xs)
  All-insert m x [] h a = (h, tt)
  All-insert m x (y ∷ xs) h a = ground (arith, All-insert m x xs h a.1)

  pub All-le :
      (m n : ℕ) (xs : List (Score K L))
      → m ≤ n
      → All (λ f. f.count ≤ m) xs
      → All (λ f. f.count ≤ n) xs
  All-le m n [] h a = tt
  All-le m n (x ∷ xs) h a = (omega arith, All-le m n xs h a.1)

  Descending-insert :
      (x : Score K L) (xs : List (Score K L)) → Descending xs → Descending (insert x xs)
  Descending-insert x [] d = (tt, tt)
  Descending-insert x (y ∷ xs) d =
      ground (arith, All-le y.count x.count xs, All-insert y.count x xs, Descending-insert x xs d.1)

  pub Descending-sort : (xs : List (Score K L)) → Descending (sort xs)
  Descending-sort [] = tt
  Descending-sort (x ∷ xs) = Descending-insert x (sort xs) (Descending-sort xs)

  All-slice :
      (m n : ℕ) (xs : List (Score K L))
      → All (λ f. f.count ≤ m) xs
      → All (λ f. f.count ≤ m) (slice n xs)
  All-slice m zero xs a = tt
  All-slice m (suc n) [] a = tt
  All-slice m (suc n) (x ∷ xs) a = (a.0, All-slice m n xs a.1)

  pub Descending-slice : (n : ℕ) (xs : List (Score K L)) → Descending xs → Descending (slice n xs)
  Descending-slice zero xs d = tt
  Descending-slice (suc n) [] d = tt
  Descending-slice (suc n) (x ∷ xs) d = (All-slice x.count n xs d.0, Descending-slice n xs d.1)

  pub length-slice : (n : ℕ) (xs : List (Score K L)) → (length (slice n xs) ≡ n) ⊎ (after n xs ≡ [])
  length-slice zero xs = inl refl
  length-slice (suc n) [] = inr refl
  length-slice (suc n) (x ∷ xs) = elim (length-slice n xs) [
    | inl e ↦ inl (ap suc e)
    | inr e ↦ inr e
  ]

  pub All-after :
      (m n : ℕ) (xs : List (Score K L))
      → All (λ f. f.count ≤ m) xs
      → All (λ f. f.count ≤ m) (after n xs)
  All-after m zero xs a = a
  All-after m (suc n) [] a = tt
  All-after m (suc n) (x ∷ xs) a = All-after m n xs a.1
