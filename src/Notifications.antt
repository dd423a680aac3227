-- ===== src/Notifications.antt =====
-- notification-service/apps/notifications/models.py, and the state that its consumer of Kafka and
-- its Celery task work on: the two tables, the tasks that were sent to Celery, the mails, the
-- commits and the labels of the counter of mails. The operations and proofs are in the modules below.
pub mod Consumer
pub mod Task
pub mod Queries
pub mod Views
pub mod Retries
pub mod Delivery
pub mod Race
pub mod Workers
pub mod Ledger
pub mod Accounts
pub mod SingleEvent
pub mod OneMail
pub mod Ends
pub mod Pairs
mod Tests
mod OfficeTests
use risk_core.Prelude.{ℕ, Bool, true, false, Option, List, Text}
use risk_core.Json.{Fields}

pub data Status : Type 0 where
  pending sent failed : Status

pub record Notification : Type 0 where
  pub id : ℕ
  pub event_id : Text
  pub event_type : Text
  pub recipient_email : Text
  pub subject : Text
  pub context : Fields
  pub status : Status
  pub created_at : ℕ
  pub sent_at : Option ℕ

pub data LogStatus : Type 0 where
  success failure : LogStatus

pub record NotificationLog : Type 0 where
  pub id : ℕ
  pub notification_id : ℕ
  pub attempt : ℕ
  pub status : LogStatus
  pub error_message : Text
  pub attempted_at : ℕ

pub record Mail : Type 0 where
  pub subject : Text
  pub recipient : Text

pub record World : Type 0 where
  pub notifications : List Notification
  pub logs : List NotificationLog
  pub tasks : List ℕ
  pub mails : List Mail
  pub commits : List (ℕ × ℕ)
  pub notifications_sent_total : List (Text × LogStatus)

abbrev pub row_id : Notification → ℕ
row_id n = n.id

abbrev pub same_status : Status → Status → Bool
same_status Status.pending Status.pending = true
same_status Status.sent Status.sent = true
same_status Status.failed Status.failed = true
same_status _ _ = false
