-- ===== src/Outbox/Relay.antt =====
-- run_outbox_relay.py of both services: one batch, and the loop of `handle`.
use risk_core.Prelude.{
  ℕ, zero, suc, ◌+◌, Bool, not, ◌&&◌, Option, none, some, List, [], ◌∷◌, ◌++◌, Text, or_text, leb,
  take, select, count, update_row, if◌then◌else◌,
}
use risk_core.Prelude.Int.{ℤ, sub_ℕ}
use risk_core.Json.{Json}
use risk_core.Outbox.{OutboxEvent, Status, is_pending}

abbrev pub batch_size : ℕ
batch_size = 100

abbrev pub max_attempts : ℕ
max_attempts = 10

-- The arguments of `producer.produce`; the value is the payload after `json.dumps` and `encode`.
pub record Message (B : Type 0) : Type 0 where
  pub topic : Text
  pub value : B
  pub key : Text

-- The table, the producer, and the Prometheus metrics of the relay: the labels of each increment,
-- the observed lags in microseconds, and the gauge of pending events.
pub record RelayState (P : Type 0) : Type 0 where
  pub rows : List OutboxEvent
  pub producer : P
  pub published_total : List Text
  pub failed_total : List Text
  pub lag_seconds : List ℤ
  pub pending_gauge : ℕ

-- `event.save(update_fields=["status", "published_at", "attempts", "last_error"])`
abbrev pub save_columns : OutboxEvent → OutboxEvent → OutboxEvent
save_columns event row = record row {
  status = event.status;
  published_at = event.published_at;
  attempts = event.attempts;
  last_error = event.last_error;
}

abbrev pub row_id : OutboxEvent → ℕ
row_id e = e.id

-- What the relay takes from its environment: Kafka's producer, which accepts a message or raises
-- an exception with a text; `json.dumps(…).encode`; `str` of a UUID; the database's
-- `order_by("created_at")`; and the time at which an event is handled.
pub record Environment (P B : Type 0) : Type 0 where
  pub produce : P → Message B → P × Option Text
  pub dumps : Json → B
  pub uuid_str : ℕ → Text
  pub order_by : List OutboxEvent → List OutboxEvent
  pub now : OutboxEvent → ℕ

module _ {P B : Type 0} (env : Environment P B) where
  open env use {produce, dumps, uuid_str, order_by, now}

  abbrev pub message_of : OutboxEvent → Message B
  message_of event = record {
    topic = event.topic;
    value = dumps event.payload;
    key = or_text event.key (uuid_str event.aggregate_id);
  }

  -- The event object after the `try` statement, by what `produce` did.
  unfoldable pub after_produce : OutboxEvent → Option Text → OutboxEvent
  after_produce event none = record event {
    status = Status.published;
    published_at = some (now event);
  }
  after_produce event (some error) =
      let attempts = event.attempts + 1 in
      record event {
        attempts = attempts;
        last_error = take 1000 error;
        status = if leb max_attempts attempts then Status.failed else event.status;
      }

  -- The metrics after the `try` statement.
  unfoldable pub observe : OutboxEvent → Option Text → RelayState P → RelayState P
  observe event none s = record s {
    published_total = s.published_total ++ event.topic ∷ [];
    lag_seconds = s.lag_seconds ++ sub_ℕ (now event) event.created_at ∷ [];
  }
  observe event (some error) s =
      if leb max_attempts (event.attempts + 1)
      then record s { failed_total = s.failed_total ++ event.topic ∷ [] }
      else s

  -- The body of the loop: the new state, and what is added to `published_count`.
  unfoldable pub publish_one : OutboxEvent → RelayState P → RelayState P × ℕ
  publish_one event s =
      let (producer, error) = produce s.producer (message_of event) in
      let t = observe event error s in
      (
        record t {
          producer = producer;
          rows = update_row row_id event.id (save_columns (after_produce event error)) s.rows;
        },
        elim error [ none ↦ 1 | some _ ↦ 0 ],
      )

  unfoldable pub publish_all : List OutboxEvent → RelayState P → RelayState P × ℕ
  publish_all [] s = (s, 0)
  publish_all (event ∷ events) s =
      let (t, k) = publish_one event s in let (u, n) = publish_all events t in (u, k + n)

  -- The rows that the query takes: not locked by another relay, pending, oldest first.
  unfoldable pub select_batch : (OutboxEvent → Bool) → List OutboxEvent → List OutboxEvent
  select_batch locked rows =
      take batch_size (order_by (select (λ e. not (locked e) && is_pending e) rows))

  abbrev pub update_pending_metric : RelayState P → RelayState P
  update_pending_metric s = record s { pending_gauge = count is_pending s.rows }

  unfoldable pub finish_batch : List OutboxEvent → RelayState P → RelayState P × ℕ
  finish_batch [] s = (s, 0)
  finish_batch (event ∷ events) s =
      let (t, n) = publish_all (event ∷ events) s in (update_pending_metric t, n)

  -- `_process_batch`, with the rows that another relay holds locked.
  unfoldable pub process_batch : (OutboxEvent → Bool) → RelayState P → RelayState P × ℕ
  unfolding finish_batch
  process_batch locked s = finish_batch (select_batch locked s.rows) s

  -- `handle`: batch after batch until the process is stopped.
  unfoldable pub run_batches : ℕ → (OutboxEvent → Bool) → RelayState P → RelayState P
  run_batches zero locked s = s
  run_batches (suc k) locked s = run_batches k locked (process_batch locked s).0
