-- ===== src/Notification.antt =====
-- src/notifications/notifications.service.ts: the notifications of a member of the staff. Here and in
-- Visit they have the same rows, and the queries include the visits as its listings do.
pub mod Deletion
pub mod Tests
use vms_backend_testing.Base.{
  ℕ, Bool, true, false, not, ◌&&◌, Option, none, some, List, [], ◌∷◌, map, ◌==◌, if◌then◌else◌,
  Ident, is_ident,
}
use mathlib.Core.List.{reverse}
use vms_backend_testing.Base.Request.{
  Action, unauthorized, not_found, ◌>>=◌, ◌>>◌, gets, or_throw, throw_if, modify, transaction,
}
use vms_backend_testing.Base.Role.{Role, super_admin, admin, includes}
use vms_backend_testing.Base.Table.{any, find_first, find_many, delete, order_by, length}
use vms_backend_testing.Visit.Model.{
  Visit, Notification, NotificationAction, pending, accepted, rejected,
}
use vms_backend_testing.Visit.Listings.{Db, VisitDetails, with_details}
use vms_backend_testing.Staff.Model.{Staff}

abbrev pub readers : List Role
readers = super_admin ∷ admin ∷ Role.staff ∷ []

-- A notification with its visit
abbrev pub Shown : Type 0
Shown = Notification × Option VisitDetails

abbrev details_of : Db → Option Visit → Option VisitDetails
details_of db none = none
details_of db (some v) = some (with_details db v)

abbrev pub with_visit : Db → Notification → Shown
with_visit db n = (n, details_of db (find_first (λ v. v.id == n.visit_id) db.visits))

abbrev pub list_notifications : (Notification → Bool) → Db → List Shown
list_notifications p db =
    map (with_visit db) (reverse (order_by (λ n. n.created_at) (find_many p db.notifications)))

-- The checks of `getStaffNotifications` and of `getUnreadNotifications`
unfoldable pub check_reader : Ident → Ident → Role → Action Db Staff
check_reader org_id user_id role = do
  throw_if (not (includes readers role)) (unauthorized "User not authorised.")
  exists ← gets (λ db. any (λ o. o == org_id) db.organizations)
  throw_if (not exists) (not_found "Organization doesn't exists.")
  found ← gets (λ db. find_first (λ s. is_ident s.user_id user_id) db.staff)
  or_throw found (not_found "Staff doesn't exists.")

unfoldable pub get_staff_notifications : Ident → Ident → Role → Action Db (List Shown)
get_staff_notifications org_id user_id role = do
  s ← check_reader org_id user_id role
  gets (list_notifications (λ n. n.staff_id == s.id))

-- The notifications, and how many they are
unfoldable pub get_unread_notifications : Ident → Ident → Role → Action Db (List Shown × ℕ)
get_unread_notifications org_id user_id role = do
  s ← check_reader org_id user_id role
  unread ← gets (list_notifications (λ n. n.staff_id == s.id && not n.is_read))
  gets (λ db. (unread, length unread))

abbrev pub is_pending : NotificationAction → Bool
is_pending pending = true
is_pending accepted = false
is_pending rejected = false

abbrev pub decided : Option Notification → Option Notification
decided none = none
decided (some n) = if is_pending n.action then none else some n

unfoldable pub delete_transaction : Ident → Ident → Ident → Action Db Unit
delete_transaction staff_id org_id notification_id = do
  found ← gets (λ db.
      find_first
        (λ n.
          n.id == notification_id && (n.staff_id == staff_id && n.org_id == org_id && n.is_read))
        db.notifications)
  or_throw (decided found) (not_found "Notification not found.")
  modify
      (λ db. record db { notifications = delete (λ n. n.id == notification_id) db.notifications })

unfoldable pub delete_notification : Ident → Ident → Role → Ident → Action Db Unit
delete_notification user_id org_id role notification_id = do
  throw_if (not (includes readers role)) (unauthorized "Invalid role.")
  found ← gets (λ db. find_first (λ s. is_ident s.user_id user_id && s.org_id == org_id) db.staff)
  s ← or_throw found (not_found "Staff memeber do not exists.")
  transaction (delete_transaction s.id org_id notification_id)
