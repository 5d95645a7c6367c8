-- ===== src/Notification/Tests.antt =====
-- A deletion of a notification.
use vms_backend_testing.Base.{true, [], ◌≡◌, arith}
use vms_backend_testing.Base.Request.{is_ok}
use vms_backend_testing.Base.Role.{admin}
use vms_backend_testing.Visit.Analytics.Tests.{small}
use vms_backend_testing.Notification.{delete_notification}
use vms_backend_testing.Notification.Deletion.{delete_notification_iff}

delete_notification_iff_example :
    (is_ok (delete_notification 15 1 admin 70 small).0 ≡ true)
    × ((delete_notification 15 1 admin 70 small).1 ≡ record small { notifications = [] })
delete_notification_iff_example = delete_notification_iff 15 1 admin 70 small (omega arith)
