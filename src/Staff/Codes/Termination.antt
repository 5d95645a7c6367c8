-- ===== src/Staff/Codes/Termination.antt =====
-- The loop that looks for an employee code ends.
use vms_backend_testing.Base.{
  ℕ, suc, ◌+◌, ◌≤◌, ◌<◌, Bool, true, false, ◌&&◌, none, some, List, [], ◌∷◌, ◌++◌, ◌==◌,
  if◌then◌else◌, Ident, ◌≡◌, refl, sym, ==→eq, ==-refl, ltb, ◌∙◌, Option-cases, Bool-cases, inl,
  inr, arith,
}
use mathlib.Core.Path.{subst}
use vms_backend_testing.Base.Text.{Text, text_eq, text_eq_sound}
use vms_backend_testing.Base.Table.{any, count, find_first}
use vms_backend_testing.Base.Table.Counts.{one_if}
use vms_backend_testing.Base.Table.Any.{any_of_find_first-none}
use vms_backend_testing.Staff.Model.{Staff, Organization}
use vms_backend_testing.Staff.Codes.{
  four_digits, code_of, has_code, is_taken, first_free, prefix_of, generate_unique_employee_code,
}

-- How many different numbers there are.
abbrev pub different : List ℕ → ℕ
different [] = 0
different (d ∷ ds) = if any (λ e. e == d) ds then different ds else suc (different ds)

abbrev pub all_below : ℕ → List ℕ → Bool
all_below n [] = true
all_below n (d ∷ ds) = ltb d n && all_below n ds

four_digits-injective :
    (m n : ℕ)
    → m < 9000
    → n < 9000
    → text_eq (four_digits (1000 + m)) (four_digits (1000 + n)) ≡ true
    → m ≡ n
unfolding text_eq
four_digits-injective m n p q h = ground arith

text_eq-append : (p s t : Text) → text_eq (p ++ s) (p ++ t) ≡ text_eq s t
unfolding text_eq
text_eq-append [] s t = refl
text_eq-append (c ∷ p) s t = ground (arith, text_eq-append p s t, ==-refl c)

code_of-injective :
    (prefix : Text) (m n : ℕ)
    → m < 9000
    → n < 9000
    → text_eq (code_of prefix m) (code_of prefix n) ≡ true
    → m ≡ n
code_of-injective prefix m n p q h =
    four_digits-injective m n p q
      (sym (text_eq-append prefix (four_digits (1000 + m)) (four_digits (1000 + n))) ∙ h)

abbrev remove : ℕ → List ℕ → List ℕ
remove v [] = []
remove v (d ∷ ds) = let rest = remove v ds in if d == v then rest else d ∷ rest

any-remove :
    (v d : ℕ) (ds : List ℕ)
    → (d == v) ≡ false
    → any (λ e. e == d) (remove v ds) ≡ any (λ e. e == d) ds
any-remove v d [] h = refl
any-remove v d (e ∷ ds) h = ground (arith, any-remove v d ds h)

different-remove :
    (v : ℕ) (ds : List ℕ) → different ds ≤ one_if (any (λ e. e == v) ds) + different (remove v ds)
different-remove v [] = omega arith
different-remove v (d ∷ ds) = elim (Bool-cases (d == v)) [
  | inl t ↦ ground (arith, different-remove v ds, ==→eq d v t)
  | inr f ↦ ground (arith, different-remove v ds, any-remove v d ds f)
]

below-remove : (n v : ℕ) (ds : List ℕ) → all_below n ds ≡ true → all_below n (remove v ds) ≡ true
below-remove n v [] h = refl
below-remove n v (d ∷ ds) h = ground (arith, below-remove n v ds)

module _ (org_id : Ident) (prefix : Text) where
  abbrev all_taken : List ℕ → List Staff → Bool
  all_taken [] staff = true
  all_taken (d ∷ ds) staff = is_taken org_id (code_of prefix d) staff && all_taken ds staff

  abbrev holds : Staff → ℕ → Bool
  holds s d = s.org_id == org_id && has_code (code_of prefix d) s.employee_code

  none-taken : (ds : List ℕ) → all_taken ds [] ≡ true → different ds ≡ 0
  none-taken [] h = refl
  none-taken (d ∷ ds) h = cc

  -- A member who holds none of the codes is not needed,
  taken_by_rest :
      (s : Staff) (ds : List ℕ) (staff : List Staff)
      → any (holds s) ds ≡ false
      → all_taken ds (s ∷ staff) ≡ true
      → all_taken ds staff ≡ true
  taken_by_rest s [] staff h k = refl
  taken_by_rest s (d ∷ ds) staff h k = ground (arith, taken_by_rest s ds staff)

  holds-one :
      (s : Staff) (v d : ℕ) → v < 9000 → d < 9000 → holds s v ≡ true → holds s d ≡ true → d ≡ v
  holds-one s v d p q h k = elim (Option-cases s.employee_code) [
    | inl n ↦ absurd (ground arith)
    | inr (c, e) ↦
        let same : c ≡ code_of prefix v = text_eq_sound c (code_of prefix v) (ground arith) in
        let other : text_eq c (code_of prefix d) ≡ true = ground arith in
        sym (
          code_of-injective prefix v d p q
            (subst (λ x. text_eq x (code_of prefix d) ≡ true) same other))
  ]

  -- and one who holds the code of a number is not needed for the others.
  taken_without :
      (s : Staff) (v : ℕ) (ds : List ℕ) (staff : List Staff)
      → v < 9000
      → holds s v ≡ true
      → all_below 9000 ds ≡ true
      → all_taken ds (s ∷ staff) ≡ true
      → all_taken (remove v ds) staff ≡ true
  taken_without s v [] staff p h b k = refl
  taken_without s v (d ∷ ds) staff p h b k =
      ground (arith, taken_without s v ds staff p h, holds-one s v d p)

  find_below :
      (s : Staff) (v : ℕ) (ds : List ℕ)
      → find_first (holds s) ds ≡ some v
      → all_below 9000 ds ≡ true
      → (v < 9000) × (holds s v ≡ true)
  find_below s v [] h b = cc
  find_below s v (d ∷ ds) h b = ground (arith, find_below s v ds)

  -- There are no more different numbers whose codes are taken than members of the organisation.
  pigeonhole :
      (ds : List ℕ) (staff : List Staff)
      → all_below 9000 ds ≡ true
      → all_taken ds staff ≡ true
      → different ds ≤ count (λ s. s.org_id == org_id) staff
  pigeonhole ds [] b h = ground (arith, none-taken ds h)
  pigeonhole ds (s ∷ staff) b h = elim (Option-cases (find_first (holds s) ds)) [
    | inl n ↦ ground (
      arith,
      pigeonhole ds staff b (taken_by_rest s ds staff (any_of_find_first-none (holds s) ds n) h),
    )
    | inr (v, e) ↦
        let k = find_below s v ds e b in
        ground (
          arith,
          k,
          pigeonhole (remove v ds) staff (below-remove 9000 v ds b)
              (taken_without s v ds staff k.0 k.1 b h),
          different-remove v ds,
        )
  ]

  first_free-none :
      (ds : List ℕ) (staff : List Staff)
      → first_free org_id prefix ds staff ≡ none
      → all_taken ds staff ≡ true
  unfolding first_free
  first_free-none [] staff h = refl
  first_free-none (d ∷ ds) staff h = ground (arith, first_free-none ds staff)

  first_free-is_free :
      (ds : List ℕ) (staff : List Staff) (code : Text)
      → first_free org_id prefix ds staff ≡ some code
      → is_taken org_id code staff ≡ false
  unfolding first_free
  first_free-is_free [] staff code h = cc
  first_free-is_free (d ∷ ds) staff code h = ground (arith, first_free-is_free ds staff code)

-- The loop that draws employee codes ends as soon as it has drawn more different numbers than the
-- organisation has members of its staff, and the code with which it ends is none of theirs.
pub generate_unique_employee_code-ends :
    (org : Organization) (draws : List ℕ) (staff : List Staff)
    → all_below 9000 draws ≡ true
    → count (λ s. s.org_id == org.id) staff < different draws
    → (code : Text) × (generate_unique_employee_code org draws staff ≡ some code)
      × (is_taken org.id code staff ≡ false)
unfolding generate_unique_employee_code
generate_unique_employee_code-ends org draws staff b h =
    elim (Option-cases (first_free org.id (prefix_of org.name) draws staff)) [
      | inl n ↦ absurd (
          ground (
            arith,
            pigeonhole org.id (prefix_of org.name) draws staff b
                (first_free-none org.id (prefix_of org.name) draws staff n),
          ))
      | inr (code, e) ↦ (code, e, first_free-is_free org.id (prefix_of org.name) draws staff code e)
    ]
