-- ===== src/Visit/Listings/Privacy.antt =====
-- Whose visits the listings show.
use vms_backend_testing.Base.{
  ℕ, ◌≤◌, Bool, true, false, ◌&&◌, Option, none, some, List, [], ◌∷◌, map, ◌==◌, if◌then◌else◌,
  Ident, is_ident, ◌≡◌, ==→eq, ==-refl, Option-cases, Bool-cases, inl, inr, arith,
}
use mathlib.Core.List.{reverse_aux, reverse}
use vms_backend_testing.Base.Request.{Action, Result, ok, err}
use vms_backend_testing.Base.Role.{Role}
use vms_backend_testing.Base.Table.{All, count, find_first, find_many, insert_by, order_by}
use vms_backend_testing.Base.Table.Counts.{
  find_first_of_unique, find_first-holds, count_pos_of_find_fits,
}
use vms_backend_testing.Staff.Model.{Staff}
use vms_backend_testing.Visit.Model.{Visit}
use vms_backend_testing.Visit.Listings.{
  Db, VisitDetails, host_of, with_details, list_visits, is_of_user, Answer, no_visits, visits,
  answer_of, ongoing_in, completed_in, ongoing_with, completed_with, self_with, rejected_with,
  pending_with, started_at, VisitType, Scope, org, self, staff_in_scope, all_on_going_visits,
  all_on_going_visits_staff, all_completed_visits, all_completed_visits_staff, get_self_visit,
  get_rejected_visits, get_pending_visits,
}

-- The requests that list visits
pub data Listing : Type 0 where
  on_going completed : Listing
  on_going_staff completed_staff : Ident → Listing
  self_visit : VisitType → Listing
  rejected pending : Scope → Listing

unfoldable pub read : Listing → Ident → Ident → Role → Action Db Answer
read on_going user_id org_id role = all_on_going_visits org_id role
read completed user_id org_id role = all_completed_visits org_id role
read (on_going_staff staff_id) user_id org_id role = all_on_going_visits_staff org_id role staff_id
read (completed_staff staff_id) user_id org_id role =
    all_completed_visits_staff org_id role staff_id
read (self_visit type) user_id org_id role = get_self_visit user_id org_id role type
read (rejected scope) user_id org_id role = get_rejected_visits user_id org_id role scope
read (pending scope) user_id org_id role = get_pending_visits user_id org_id role scope

-- The listings whose path names the host
abbrev pub names_host : Listing → Bool
names_host (on_going_staff staff_id) = true
names_host (completed_staff staff_id) = true
names_host q = false

abbrev pub find_user : Ident → Db → Option Staff
find_user user_id db = find_first (λ s. is_ident s.user_id user_id) db.staff

abbrev pub in_answer : Answer → List VisitDetails
in_answer no_visits = []
in_answer (visits ds) = ds

abbrev pub shown : Result Answer → List VisitDetails
shown (ok a) = in_answer a
shown (err e) = []

module _ {A : Type 0} (P : A → Type 0) where
  All-insert_by : (key : A → ℕ) (x : A) (xs : List A) → P x → All P xs → All P (insert_by key x xs)
  All-insert_by key x [] p a = (p, tt)
  All-insert_by key x (y ∷ xs) p a = ground (arith, All-insert_by key x xs p a.1)

  All-order_by : (key : A → ℕ) (xs : List A) → All P xs → All P (order_by key xs)
  All-order_by key [] a = tt
  All-order_by key (x ∷ xs) a = All-insert_by key x (order_by key xs) a.0 (All-order_by key xs a.1)

  All-reverse_aux : (xs ys : List A) → All P xs → All P ys → All P (reverse_aux xs ys)
  All-reverse_aux [] ys a b = b
  All-reverse_aux (x ∷ xs) ys a b = All-reverse_aux xs (x ∷ ys) a.1 (a.0, b)

  All-find_many :
      (p : A → Bool) (xs : List A) → ((x : A) → p x ≡ true → P x) → All P (find_many p xs)
  All-find_many p [] h = tt
  All-find_many p (x ∷ xs) h = ground (arith, h x, All-find_many p xs h)

All-map :
    {A B : Type 0} (P : B → Type 0) (f : A → B) (xs : List A)
    → All (λ x. P (f x)) xs
    → All P (map f xs)
All-map P f [] a = tt
All-map P f (x ∷ xs) a = (a.0, All-map P f xs a.1)

All-list_visits :
    (P : VisitDetails → Type 0) (key : Visit → ℕ) (p : Visit → Bool) (db : Db)
    → ((v : Visit) → p v ≡ true → P (with_details db v))
    → All P (list_visits key p db)
All-list_visits P key p db h =
    All-map P (with_details db) (reverse (order_by key (find_many p db.visits))) (
      All-reverse_aux (λ v. P (with_details db v)) (order_by key (find_many p db.visits)) []
        (All-order_by (λ v. P (with_details db v)) key (find_many p db.visits)
          (All-find_many (λ v. P (with_details db v)) p db.visits h))
        tt)

All-answer_of :
    (P : VisitDetails → Type 0) (ds : List VisitDetails)
    → All P ds
    → All P (in_answer (answer_of ds))
All-answer_of P [] a = tt
All-answer_of P (d ∷ ds) a = a

-- What a listing shows, if every visit that its `where` fits is good.
module _ (good : Visit → Bool) (db : Db) where
  abbrev AllGood : List VisitDetails → Type 0
  AllGood ds = All (λ d. good d.visit ≡ true) ds

  good-listed :
      (key : Visit → ℕ) (p : Visit → Bool)
      → ((v : Visit) → p v ≡ true → good v ≡ true)
      → AllGood (list_visits key p db)
  good-listed key p h = All-list_visits (λ d. good d.visit ≡ true) key p db h

  good-answer :
      (key : Visit → ℕ) (p : Visit → Bool)
      → ((v : Visit) → p v ≡ true → good v ≡ true)
      → AllGood (in_answer (answer_of (list_visits key p db)))
  good-answer key p h =
      All-answer_of (λ d. good d.visit ≡ true) (list_visits key p db) (good-listed key p h)

read-org :
    (q : Listing) (user_id org_id : Ident) (role : Role) (db : Db)
    → AllGood (λ v. v.org_id == org_id) db (shown (read q user_id org_id role db).0)
unfolding read all_on_going_visits all_on_going_visits_staff all_completed_visits
    all_completed_visits_staff get_self_visit get_rejected_visits get_pending_visits staff_in_scope
read-org on_going user_id org_id role db = ground (
  arith,
  good-answer (λ v. v.org_id == org_id) db (λ v. v.created_at) (ongoing_in org_id)
      (λ v h. ground arith),
)
read-org completed user_id org_id role db = ground (
  arith,
  good-answer (λ v. v.org_id == org_id) db (λ v. v.created_at) (completed_in org_id)
      (λ v h. ground arith),
)
read-org (on_going_staff staff_id) user_id org_id role db = ground (
  arith,
  good-answer (λ v. v.org_id == org_id) db (λ v. v.created_at) (ongoing_with org_id staff_id db)
      (λ v h. ground arith),
)
read-org (completed_staff staff_id) user_id org_id role db = ground (
  arith,
  good-answer (λ v. v.org_id == org_id) db (λ v. v.created_at) (completed_with org_id staff_id db)
      (λ v h. ground arith),
)
read-org (self_visit type) user_id org_id role db =
    elim (Option-cases
      (find_first (λ s. is_ident s.user_id user_id && s.org_id == org_id) db.staff)) [
        | inl n ↦ ground arith
        | inr (s, e) ↦ ground (
          arith,
          good-listed (λ v. v.org_id == org_id) db (λ v. started_at v.start_time)
              (self_with s.id org_id type) (λ v h. ground arith),
        )
      ]
read-org (rejected org) user_id org_id role db = ground (
  arith,
  good-listed (λ v. v.org_id == org_id) db (λ v. v.updated_at) (rejected_with org_id none)
      (λ v h. ground arith),
)
read-org (rejected self) user_id org_id role db = elim (Option-cases (find_user user_id db)) [
  | inl n ↦ ground arith
  | inr (s, e) ↦ ground (
    arith,
    good-listed (λ v. v.org_id == org_id) db (λ v. v.updated_at) (rejected_with org_id (some s.id))
        (λ v h. ground arith),
  )
]
read-org (pending org) user_id org_id role db = ground (
  arith,
  good-listed (λ v. v.org_id == org_id) db (λ v. v.updated_at) (pending_with org_id none)
      (λ v h. ground arith),
)
read-org (pending self) user_id org_id role db = elim (Option-cases (find_user user_id db)) [
  | inl n ↦ ground arith
  | inr (s, e) ↦ ground (
    arith,
    good-listed (λ v. v.org_id == org_id) db (λ v. v.updated_at) (pending_with org_id (some s.id))
        (λ v h. ground arith),
  )
]

-- Identifiers of the staff are unique, and not empty.
abbrev pub StaffIds : Db → Type 0
StaffIds db = (i : Ident) → count (λ s. s.id == i) db.staff ≤ (if i == 0 then 0 else 1)

module _ (user_id org_id : Ident) (db : Db) (ids : StaffIds db) where
  abbrev own : Visit → Bool
  own v = is_of_user user_id (host_of db v)

  own-found :
      (p : Staff → Bool) (s : Staff) (v : Visit)
      → find_first p db.staff ≡ some s
      → is_ident s.user_id user_id ≡ true
      → (v.staff_id == s.id) ≡ true
      → own v ≡ true
  own-found p s v f u h = ground (
    arith,
    ids v.staff_id,
    find_first_of_unique p (λ x. x.id == v.staff_id) s db.staff,
    ==→eq v.staff_id s.id h,
    ==-refl s.id,
  )

  not_empty : (p : Staff → Bool) (s : Staff) → find_first p db.staff ≡ some s → (s.id == 0) ≡ false
  not_empty p s f = elim (Bool-cases (s.id == 0)) [
    | inl t ↦
        absurd (ground (arith, ids 0, count_pos_of_find_fits p (λ x. x.id == 0) s db.staff f t))
    | inr k ↦ k
  ]

  hosted :
      (s : Staff) (v : Visit)
      → find_user user_id db ≡ some s
      → (v.staff_id == s.id) ≡ true
      → own v ≡ true
  hosted s v e h =
      own-found (λ s. is_ident s.user_id user_id) s v e
        (find_first-holds (λ s. is_ident s.user_id user_id) db.staff e) h

  read_self :
      (q : Listing)
      → names_host q ≡ false
      → AllGood own db (shown (read q user_id org_id Role.staff db).0)
  unfolding read all_on_going_visits all_completed_visits get_self_visit get_rejected_visits
      get_pending_visits staff_in_scope
  read_self on_going h = tt
  read_self completed h = tt
  read_self (on_going_staff staff_id) h = absurd (ground arith)
  read_self (completed_staff staff_id) h = absurd (ground arith)
  read_self (self_visit type) h =
      elim (Option-cases
        (find_first (λ s. is_ident s.user_id user_id && s.org_id == org_id) db.staff)) [
          | inl n ↦ ground arith
          | inr (s, e) ↦ ground (
            arith,
            good-listed own db (λ v. started_at v.start_time) (self_with s.id org_id type)
                (λ v k.
                  own-found (λ s. is_ident s.user_id user_id && s.org_id == org_id) s v e
                    (ground (
                      arith,
                      find_first-holds (λ s. is_ident s.user_id user_id && s.org_id == org_id)
                          db.staff e,
                    ))
                    (ground arith)),
          )
        ]
  read_self (rejected org) h = tt
  read_self (pending org) h = tt
  read_self (rejected self) h = elim (Option-cases (find_user user_id db)) [
    | inl n ↦ ground arith
    | inr (s, e) ↦ ground (
      arith,
      good-listed own db (λ v. v.updated_at) (rejected_with org_id (some s.id))
          (λ v k. hosted s v e (ground (arith, not_empty (λ s. is_ident s.user_id user_id) s e))),
    )
  ]
  read_self (pending self) h = elim (Option-cases (find_user user_id db)) [
    | inl n ↦ ground arith
    | inr (s, e) ↦ ground (
      arith,
      good-listed own db (λ v. v.updated_at) (pending_with org_id (some s.id))
          (λ v k. hosted s v e (ground (arith, not_empty (λ s. is_ident s.user_id user_id) s e))),
    )
  ]

-- Except for the two listings whose path names the host: whatever is listed belongs to the organisation
-- of the caller, and a member of the staff is only shown visits to himself or herself. It is supposed
-- that the identifiers of the staff are unique and not empty.
pub read-private :
    (q : Listing) (user_id org_id : Ident) (role : Role) (db : Db)
    → StaffIds db
    → names_host q ≡ false
    → All (λ d. (d.visit.org_id == org_id) ≡ true) (shown (read q user_id org_id role db).0)
      × All
          (λ d. is_of_user user_id (host_of db d.visit) ≡ true)
          (shown (read q user_id org_id Role.staff db).0)
read-private q user_id org_id role db ids h =
    (read-org q user_id org_id role db, read_self user_id org_id db ids q h)
