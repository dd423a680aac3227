-- ===== src/Outbox.antt =====
-- policy-service/apps/outbox and claims-service/apps/outbox, which are the same code: the table of
-- events that wait for Kafka (models.py). The relay and its proofs are in the modules below.
pub mod Relay
pub mod Rows
pub mod Loop
pub mod Accounting
pub mod Progress
pub mod Delivery
pub mod Handover
pub mod Relays
pub mod Alone
pub mod Held
pub mod InFlight
pub mod Handed
mod Tests
use risk_core.Prelude.{ℕ, Bool, true, false, Option, none, [], Text, List}
use risk_core.Json.{Json}

pub data Status : Type 0 where
  pending published failed : Status

pub record OutboxEvent : Type 0 where
  pub id : ℕ
  pub aggregate_type : Text
  pub aggregate_id : ℕ
  pub event_type : Text
  pub topic : Text
  pub key : Text
  pub payload : Json
  pub status : Status
  pub attempts : ℕ
  pub last_error : Text
  pub created_at : ℕ
  pub published_at : Option ℕ

-- The columns that an insert leaves to their defaults are the last five.
abbrev pub new_event : ℕ → Text → ℕ → Text → Text → Text → Json → ℕ → OutboxEvent
new_event id aggregate_type aggregate_id event_type topic key payload now = record {
  id = id;
  aggregate_type = aggregate_type;
  aggregate_id = aggregate_id;
  event_type = event_type;
  topic = topic;
  key = key;
  payload = payload;
  status = Status.pending;
  attempts = 0;
  last_error = [];
  created_at = now;
  published_at = none;
}

abbrev pub is_pending : OutboxEvent → Bool
is_pending e = elim e.status [ Status.pending ↦ true | _ ↦ false ]

abbrev pub is_published : OutboxEvent → Bool
is_published e = elim e.status [ Status.published ↦ true | _ ↦ false ]
