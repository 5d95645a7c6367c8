-- ===== src/Team/Reporting/Counting.antt =====
-- How many of a list of managers are members of the team: the comparison of the two lengths in
-- `setReporting` finds out whether all are.
use vms_backend_testing.Base.{
  ◌≤◌, ◌<◌, ◌+◌, Bool, true, false, ◌&&◌, List, [], ◌∷◌, map, ◌==◌, Ident, ◌≡◌, refl, Bool-cases,
  inl, inr, ==→eq, arith,
}
use vms_backend_testing.Base.Table.{length, count, any, find_many}
use vms_backend_testing.Team.Model.{TeamMember, TeamReporting}
use vms_backend_testing.Team.Access.{contains, is_member, is_report, except_ids}
use vms_backend_testing.Base.Table.Counts.{count-eq-zero_of_any}

abbrev pub in_team : Ident → List Ident → TeamMember → Bool
in_team t ids m = m.team_id == t && contains ids m.staff_id

in_team-union :
    (t i : Ident) (is : List Ident) (ms : List TeamMember)
    → length (find_many (in_team t (i ∷ is)) ms)
      ≤ length (find_many (in_team t is) ms) + count (is_member t i) ms
in_team-union t i is [] = omega arith
in_team-union t i is (m ∷ ms) = ground (arith, in_team-union t i is ms)

pub in_team-repeat :
    (t i : Ident) (is : List Ident) (ms : List TeamMember)
    → contains is i ≡ true
    → length (find_many (in_team t (i ∷ is)) ms) ≡ length (find_many (in_team t is) ms)
in_team-repeat t i is [] h = refl
in_team-repeat t i is (m ∷ ms) h = ground (arith, in_team-repeat t i is ms, ==→eq i m.staff_id)

length-in_team-nil : (t : Ident) (ms : List TeamMember) → length (find_many (in_team t []) ms) ≡ 0
length-in_team-nil t [] = refl
length-in_team-nil t (m ∷ ms) = ground (arith, length-in_team-nil t ms)

module _ (t : Ident) (ms : List TeamMember)
    (once : (a : Ident) → count (is_member t a) ms ≤ 1) where
  -- The members among `ids` are no more than `ids`,
  pub length-in_team-le : (ids : List Ident) → length (find_many (in_team t ids) ms) ≤ length ids
  length-in_team-le [] = ground (arith, length-in_team-nil t ms)
  length-in_team-le (i ∷ is) = ground (arith, in_team-union t i is ms, once i, length-in_team-le is)

  -- and fewer if somebody among `ids` is no member.
  pub length-in_team-lt :
      (ids : List Ident) (b : Ident)
      → contains ids b ≡ true
      → count (is_member t b) ms ≡ 0
      → length (find_many (in_team t ids) ms) < length ids
  length-in_team-lt [] b h z = cc
  length-in_team-lt (i ∷ is) b h z = elim (Bool-cases (i == b)) [
    | inl same ↦ ground (arith, in_team-union t i is ms, length-in_team-le is, ==→eq i b)
    | inr other ↦ ground (arith, in_team-union t i is ms, once i, length-in_team-lt is b)
  ]

  pub all_members :
      (ids : List Ident) (b : Ident)
      → length (find_many (in_team t ids) ms) ≡ length ids
      → contains ids b ≡ true
      → any (is_member t b) ms ≡ true
  all_members ids b e h = elim (Bool-cases (any (is_member t b) ms)) [
    | inl found ↦ found
    | inr missing ↦
        absurd (ground (arith, length-in_team-lt ids b, count-eq-zero_of_any (is_member t b) ms))
  ]

pub contains-in_team :
    (t : Ident) (ids : List Ident) (b : Ident) (ms : List TeamMember)
    → contains ids b ≡ true
    → any (is_member t b) ms ≡ true
    → contains (map (λ m. m.staff_id) (find_many (in_team t ids) ms)) b ≡ true
contains-in_team t ids b [] h k = cc
contains-in_team t ids b (m ∷ ms) h k =
    ground (arith, contains-in_team t ids b ms, ==→eq m.staff_id b)

pub length-map : {A B : Type 0} (f : A → B) (xs : List A) → length (map f xs) ≡ length xs
length-map f [] = refl
length-map f (x ∷ xs) = ground (arith, length-map f xs)

pub contains-except_ids_of :
    (out ids : List Ident) (b : Ident)
    → contains ids b ≡ true
    → contains out b ≡ false
    → contains (except_ids out ids) b ≡ true
contains-except_ids_of out [] b h k = cc
contains-except_ids_of out (i ∷ is) b h k =
    ground (arith, contains-except_ids_of out is b, ==→eq i b)

pub contains-managers :
    (t a : Ident) (ids : List Ident) (b : Ident) (rs : List TeamReporting)
    → contains
        (map
          (λ r. r.manager_id)
          (find_many (λ r. r.team_id == t && (r.staff_id == a && contains ids r.manager_id)) rs))
        b
      ≡ true
    → any (is_report t a b) rs ≡ true
contains-managers t a ids b [] h = cc
contains-managers t a ids b (r ∷ rs) h = ground (arith, contains-managers t a ids b rs)
