-- ===== src/Audit.antt =====
-- audit-service/apps/audit/models.py, and the state of its consumer of Kafka: the table, the events
-- that were sent to the web sockets, the commits, and the labels of the counter of messages. The
-- operations and proofs are in the modules below.
pub mod Service
pub mod Consumer
pub mod Redelivery
pub mod Unique
pub mod Once
pub mod Senders
pub mod Queries
pub mod Views
pub mod Seed
pub mod Sockets
pub mod Authorized
mod Tests
use risk_core.Prelude.{ℕ, Bool, Option, List, Text}
use risk_core.Json.{Json}

pub record AuditEvent : Type 0 where
  pub id : ℕ
  pub event_id : Text
  pub event_type : Text
  pub kafka_topic : Text
  pub entity_type : Text
  pub entity_id : ℕ
  pub service : Text
  pub occurred_at : ℕ
  pub received_at : ℕ
  pub payload : Json

-- The labels of kafka_messages_processed_total.
pub data Outcome : Type 0 where
  processed duplicate failed : Outcome

pub record World : Type 0 where
  pub events : List AuditEvent
  pub broadcasts : List AuditEvent
  pub commits : List (ℕ × ℕ)
  pub messages_processed_total : List (Text × Outcome)

-- `unexpected` is any exception of Python, Django or channels but IntegrityError.
pub data Error : Type 0 where
  integrity_error unexpected : Error
