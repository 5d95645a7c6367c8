-- ===== src/Notification/Deletion.antt =====
-- Which notifications can be deleted.
use vms_backend_testing.Base.{
  ◌≤◌, Bool, false, not, ◌&&◌, Option, none, some, List, [], ◌∷◌, ◌==◌, if◌then◌else◌, Ident,
  is_ident, ◌≡◌, refl, Option-cases, inl, inr, arith,
}
use vms_backend_testing.Base.Request.{is_ok, ok, err, not_found}
use vms_backend_testing.Base.Role.{Role, includes}
use vms_backend_testing.Base.Table.{count, find_first, delete}
use vms_backend_testing.Staff.Model.{Staff}
use vms_backend_testing.Visit.Model.{Notification}
use vms_backend_testing.Visit.Listings.{Db}
use vms_backend_testing.Notification.{readers, is_pending, delete_transaction, delete_notification}

abbrev pub keep_if : {A : Type 0} → (A → Bool) → Option A → Option A
keep_if q none = none
keep_if q (some x) = if q x then some x else none

find_first-and_none :
    {A : Type 0} (p q : A → Bool) (xs : List A)
    → count p xs ≡ 0
    → find_first (λ x. p x && q x) xs ≡ none
find_first-and_none p q [] h = refl
find_first-and_none p q (x ∷ xs) h = ground (arith, find_first-and_none p q xs)

-- A key that one row has at most, and a condition on that row.
find_first-and :
    {A : Type 0} (p q : A → Bool) (xs : List A)
    → count p xs ≤ 1
    → find_first (λ x. p x && q x) xs ≡ keep_if q (find_first p xs)
find_first-and p q [] h = refl
find_first-and p q (x ∷ xs) h = ground (arith, find_first-and p q xs, find_first-and_none p q xs)

-- Its owner's, of the organisation, read, and with a decision
abbrev pub is_finished : Ident → Ident → Notification → Bool
is_finished staff_id org_id n =
    n.staff_id == staff_id && n.org_id == org_id && n.is_read && not (is_pending n.action)

abbrev pub finished : Ident → Ident → Option Notification → Bool
finished staff_id org_id none = false
finished staff_id org_id (some n) = is_finished staff_id org_id n

abbrev pub may_delete : Option Staff → Ident → Option Notification → Bool
may_delete none org_id n = false
may_delete (some s) org_id n = finished s.id org_id n

delete_transaction_lem :
    (staff_id org_id id : Ident) (db : Db)
    → count (λ n. n.id == id) db.notifications ≤ 1
    → delete_transaction staff_id org_id id db ≡ (
        if finished staff_id org_id (find_first (λ n. n.id == id) db.notifications)
        then (ok tt, record db { notifications = delete (λ n. n.id == id) db.notifications })
        else (err (not_found "Notification not found."), db))
unfolding delete_transaction
delete_transaction_lem staff_id org_id id db u =
    let found =
      find_first-and (λ n. n.id == id)
        (λ n. n.staff_id == staff_id && n.org_id == org_id && n.is_read) db.notifications u in
    elim (Option-cases (find_first (λ n. n.id == id) db.notifications)) [
      | inl n ↦ ground (arith, found)
      | inr (n, e) ↦ ground (arith, found)
    ]

-- A notification is deleted exactly if the caller has one of the three roles and belongs to the staff of
-- the organisation, and it is there, is the caller's own and of the organisation, has been read, and
-- its visit has been decided; then it is gone and all else stays, and otherwise nothing changes. The
-- identifier stands in one row only.
pub delete_notification_iff :
    (user_id org_id : Ident) (role : Role) (id : Ident) (db : Db)
    → count (λ n. n.id == id) db.notifications ≤ 1
    → let allowed =
        includes readers role
        && may_delete
            (find_first (λ s. is_ident s.user_id user_id && s.org_id == org_id) db.staff)
            org_id
            (find_first (λ n. n.id == id) db.notifications) in
      (is_ok (delete_notification user_id org_id role id db).0 ≡ allowed)
      × ((delete_notification user_id org_id role id db).1 ≡ (
          if allowed
          then record db { notifications = delete (λ n. n.id == id) db.notifications }
          else db))
unfolding delete_notification
delete_notification_iff user_id org_id role id db u =
    elim (Option-cases
      (find_first (λ s. is_ident s.user_id user_id && s.org_id == org_id) db.staff)) [
        | inl n ↦ ground arith
        | inr (s, e) ↦ ground (arith, delete_transaction_lem s.id org_id id db u)
      ]
