-- ===== src/Visit/Analytics/Top.antt =====
-- What the answers of the analytics are: the ten keys of the highest counts, with the counts.
use vms_backend_testing.Base.{
  ℕ, zero, suc, ◌≤◌, Bool, List, [], ◌∷◌, ◌≡◌, sym, ap, ◌∙◌, ◌==◌, Bool-cases, ◌⊎◌, inl, inr, arith,
}
use mathlib.Core.Path.{subst}
use vms_backend_testing.Base.Table.{All, length}
use vms_backend_testing.Visit.Analytics.{Score, sort, slice, top_ten}
use vms_backend_testing.Visit.Analytics.Sums.{after, sum_of-slice, sum_of-sort}
use vms_backend_testing.Visit.Analytics.Order.{
  Descending, Descending-sort, Descending-slice, length-slice, All-after,
}
use vms_backend_testing.Visit.Analytics.Keys.{hit, weight, listed, score, score-zero, score-le}

module _ {K L : Type 0} (same : K → K → Bool) (k : K) where
  -- The answer has the key with the number of its rows, or there is no row of it, or ten others come
  -- before it.
  abbrev IsPlaced : ℕ → List (Score K L) → Type 0
  IsPlaced n answer =
      ((listed same k answer ≡ 1) × (score same k answer ≡ n))
      ⊎ (((listed same k answer ≡ 0) × (n ≡ 0))
          ⊎ ((listed same k answer ≡ 0) × ((length answer ≡ 10) × All (λ e. n ≤ e.count) answer)))

  -- The answer descends, and the key is where it belongs.
  abbrev pub IsTop : ℕ → List (Score K L) → Type 0
  IsTop n answer = Descending answer × IsPlaced n answer

  below :
      (n : ℕ) (xs : List (Score K L))
      → Descending xs
      → listed same k xs ≤ 1
      → All (λ e. score same k (after n xs) ≤ e.count) (slice n xs)
  below zero xs d h = tt
  below (suc n) [] d h = tt
  below (suc n) (x ∷ xs) d h = (
    score-le same k x.count (after n xs) (ground (arith, sum_of-slice (hit same k) n xs))
        (All-after x.count n xs d.0),
    below n xs d.1 (ground arith),
  )

  IsPlaced-slice :
      (n : ℕ) (xs : List (Score K L))
      → Descending xs
      → listed same k xs ≤ 1
      → score same k xs ≡ n
      → IsPlaced n (slice 10 xs)
  IsPlaced-slice n xs d h e =
      let whole = sum_of-slice (weight same k) 10 xs in
      let there = sum_of-slice (hit same k) 10 xs in
      elim (Bool-cases (listed same k (slice 10 xs) == 0)) [
        | inl t ↦
            let none_before = score-zero same k (slice 10 xs) (ground arith) in
            let rest : score same k (after 10 xs) ≡ n = ground (arith, whole) in
            elim (length-slice 10 xs) [
              | inl full ↦ inr (
                  inr (
                    ground arith,
                    (
                      full,
                      subst (λ m. All (λ f. m ≤ f.count) (slice 10 xs)) rest (below 10 xs d h),
                    ),
                  ))
              | inr empty ↦ inr (inl (ground arith, sym rest ∙ ap (score same k) empty))
            ]
        | inr f ↦
            inl
              (ground (arith, there), ground (arith, whole, there, score-zero same k (after 10 xs)))
      ]

  pub IsTop-top_ten :
      (n : ℕ) (es : List (Score K L))
      → listed same k es ≤ 1
      → score same k es ≡ n
      → IsTop n (top_ten es)
  IsTop-top_ten n es h e = (
    Descending-slice 10 (sort es) (Descending-sort es),
    IsPlaced-slice n (sort es) (Descending-sort es) (ground (arith, sum_of-sort (hit same k) es))
        (sum_of-sort (weight same k) es ∙ e),
  )
