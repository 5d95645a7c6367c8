-- ===== src/Visit/Analytics/Keys.antt =====
-- What the loops of the analytics count.
use vms_backend_testing.Base.{
  ℕ, ◌+◌, ◌≤◌, Bool, true, false, List, [], ◌∷◌, if◌then◌else◌, ◌≡◌, refl, sym, ap, ◌∙◌, Bool-cases,
  inl, inr, arith,
}
use mathlib.Core.Path.{subst}
use vms_backend_testing.Base.Table.{All, count}
use vms_backend_testing.Base.Table.Counts.{one_if}
use vms_backend_testing.Visit.Analytics.{Score, put, count_rows}
use vms_backend_testing.Visit.Analytics.Sums.{sum_of}

module _ {K L : Type 0} (same : K → K → Bool) (k : K) where
  abbrev pub hit : Score K L → ℕ
  hit e = one_if (same e.key k)

  abbrev pub weight : Score K L → ℕ
  weight e = if same e.key k then e.count else 0

  -- How many entries a key has, and their counts taken together.
  abbrev pub listed : List (Score K L) → ℕ
  listed = sum_of hit

  abbrev pub score : List (Score K L) → ℕ
  score = sum_of weight

  -- How many rows have a key.
  abbrev pub rows_of : List (K × L) → ℕ
  rows_of = count (λ r. same r.0 k)

  pub score-zero : (es : List (Score K L)) → listed es ≡ 0 → score es ≡ 0
  score-zero [] h = refl
  score-zero (e ∷ es) h = ground (arith, score-zero es)

  pub score-le :
      (m : ℕ) (es : List (Score K L)) → listed es ≤ 1 → All (λ f. f.count ≤ m) es → score es ≤ m
  score-le m [] h a = omega arith
  score-le m (e ∷ es) h a = ground (arith, score-le m es, score-zero es)

  module _ (sound : (a b : K) → same a b ≡ true → a ≡ b) where
    score-put :
        (j : K) (l : L) (es : List (Score K L))
        → score (put same j l es) ≡ one_if (same j k) + score es
    score-put j l [] = ground arith
    score-put j l (e ∷ es) = elim (Bool-cases (same e.key j)) [
      | inl t ↦ ground (arith, ap (λ x. same x k) (sound e.key j t))
      | inr f ↦ ground (arith, score-put j l es)
    ]

    listed-put_other :
        (j : K) (l : L) (es : List (Score K L))
        → same j k ≡ false
        → listed (put same j l es) ≡ listed es
    listed-put_other j l [] h = ground arith
    listed-put_other j l (e ∷ es) h = ground (arith, listed-put_other j l es)

    listed-put_self : (l : L) (es : List (Score K L)) → listed es ≤ 1 → listed (put same k l es) ≤ 1
    listed-put_self l [] h = ground arith
    listed-put_self l (e ∷ es) h = ground (arith, listed-put_self l es)

    listed-put :
        (j : K) (l : L) (es : List (Score K L)) → listed es ≤ 1 → listed (put same j l es) ≤ 1
    listed-put j l es h = elim (Bool-cases (same j k)) [
      | inl t ↦
          subst (λ x. listed (put same x l es) ≤ 1) (sym (sound j k t)) (listed-put_self l es h)
      | inr f ↦ ground (arith, listed-put_other j l es f)
    ]

    pub listed-count_rows :
        (rows : List (K × L)) (es : List (Score K L))
        → listed es ≤ 1
        → listed (count_rows same rows es) ≤ 1
    listed-count_rows [] es h = h
    listed-count_rows ((j, l) ∷ rows) es h =
        listed-count_rows rows (put same j l es) (listed-put j l es h)

    pub score-count_rows :
        (rows : List (K × L)) (es : List (Score K L))
        → score (count_rows same rows es) ≡ rows_of rows + score es
    score-count_rows [] es = omega arith
    score-count_rows ((j, l) ∷ rows) es =
        score-count_rows rows (put same j l es) ∙ ground (arith, score-put j l es)
