-- ===== src/Visit/Model.antt =====
-- The tables of prisma/schema.prisma that the visit service reads and writes, with the columns that
-- it uses, and the messages that leave it: mails and pushes to the browsers of the staff.
use vms_backend_testing.Base.{ℕ, String, Bool, Option, List, Ident}
use vms_backend_testing.Base.Text.{Text}

pub data MeetingStatus : Type 0 where
  ongoing completed pending rejected accepted : MeetingStatus

pub record Visit : Type 0 where
  pub id : Ident
  pub org_id : Ident
  pub full_name : Text
  pub visitor_organization : Text
  pub email : Text
  pub reason_id : Option Ident
  pub staff_id : Ident
  pub start_time : Option ℕ
  pub end_time : Option ℕ
  pub status : MeetingStatus
  pub check_in_picture : Option Text
  pub remarks : Option Text
  pub created_at : ℕ
  pub updated_at : ℕ

pub data NotificationType : Type 0 where
  visit_request system reminder : NotificationType

pub data NotificationAction : Type 0 where
  pending accepted rejected : NotificationAction

-- The message is a name followed by a fixed text.
pub record Notification : Type 0 where
  pub id : Ident
  pub org_id : Ident
  pub staff_id : Ident
  pub visit_id : Ident
  pub type : NotificationType
  pub title : String
  pub message : Text × String
  pub is_read : Bool
  pub action : NotificationAction
  pub created_at : ℕ

pub record Staff : Type 0 where
  pub id : Ident
  pub org_id : Ident
  pub user_id : Option Ident

pub record SystemCredential : Type 0 where
  pub id : Ident
  pub org_id : Ident

-- A mail about the visit of an identifier; those of a start say whether they carry a QR code.
pub data Mail : Type 0 where
  visit_request_to_host visit_request_to_visitor visit_end_to_visitor visit_end_to_host
        visit_reject_to_visitor :
      Ident → Mail
  visit_start_to_visitor visit_start_to_host : Ident → Bool → Mail

pub record Db : Type 0 where
  pub organizations : List Ident
  pub systems : List SystemCredential
  pub staff : List Staff
  pub reasons : List Ident
  pub visits : List Visit
  pub notifications : List Notification
  pub mails : List Mail
  pub pushes : List (Ident × Ident)

-- A request's own inputs: the clock, the identifiers that the database generates, whether the mail
-- server takes a mail, the URL of an uploaded picture (none where the upload throws), and whether
-- the QR code can be drawn.
pub record Env : Type 0 where
  pub now : ℕ
  pub uuid : ℕ → Ident
  pub mail_works : Mail → Bool
  pub upload : Ident → Option Text
  pub qr_works : Bool

pub record StartVisitDto : Type 0 where
  pub full_name : Text
  pub email : Text
  pub visitor_organization : Text
  pub reason_id : Ident
  pub staff_id : Ident
