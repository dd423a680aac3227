-- ===== src/Integration/Pipeline.antt =====
-- The way of an event: the outbox of the policy or the claims service, the relay, Kafka, and the
-- consumer of the audit service.
use mathlib.Core.List.{Memᴰ, Permᴰ}
use risk_core.Prelude.{
  ℕ, ◌≤◌, ◌≡◌, ◌∙◌, ap, true, false, Option, some, List, text_eq, count, All, find_row,
}
use risk_core.Json.{Json, Fields}
use risk_core.Runtime.{Runtime, Draw}
use risk_core.Action.{ok}
use risk_core.Outbox.{OutboxEvent, is_pending, is_published}
use risk_core.Outbox.Relay.{Environment, RelayState, Message, row_id, message_of, run_batches}
use risk_core.Outbox.Rows.{Distinct}
use risk_core.Outbox.Accounting.{IsSound}
use risk_core.Outbox.Progress.{budget}
use risk_core.Outbox.Delivery.{Accepts}
use risk_core.Outbox.Handover.{run_batches-IsDone}
use risk_core.Audit.{AuditEvent, World}
use risk_core.Audit.Service.{Library, Layer, process_event}
use risk_core.Audit.Consumer.{run}
use risk_core.Audit.Consumer as Consumer
use risk_core.Audit.Unique.{IsUnique}
use risk_core.Audit.Once.{is_readable, run_once}

-- What Kafka promises: every message of the log comes to the consumer, at least once.
abbrev pub Delivers :
    {B : Type 0}
    → (B → Option Json)
    → List (Message B)
    → List (Draw × Layer × Consumer.Message)
    → Type 0
Delivers {B} loads log delivered =
    (m : Message B)
    → Memᴰ m log
    → (draw : Draw) × (layer : Layer) × (d : Consumer.Message) × Memᴰ (draw, layer, d) delivered
      × (d.topic ≡ m.topic)
      × (d.value ≡ loads m.value)

-- Every event of the outbox gets to the audit trail, once. The relay starts on sound rows with
-- distinct keys, no other relay holds a row, and the producer accepts every message; the consumer
-- of the audit service starts on a table without repetition, and runs on messages among which Kafka
-- delivers each of the log at least once, in any order, and none of which ends the run. Then for
-- every event that is PENDING at the start and that the audit service would process on some table:
-- after as many batches as there are tries left, its row of the outbox is PUBLISHED, and the audit
-- table holds exactly one row of it. `json.loads` is taken to undo `json.dumps`, and `order_by` to
-- rearrange rows only.
pub run_batches_once :
    {B : Type 0} (env : Environment (List (Message B)) B)
    → Accepts env
    → ((xs : List OutboxEvent) → Permᴰ xs (env.order_by xs))
    → (loads : B → Option Json) → ((j : Json) → loads (env.dumps j) ≡ some j)
    → (k : ℕ) (s : RelayState (List (Message B))) → Distinct s.rows
    → All IsSound s.rows
    → budget s.rows ≤ k
    → (rt : Runtime) (lib : Library) (delivered : List (Draw × Layer × Consumer.Message))
    → Delivers loads (run_batches env k (λ _. false) s).producer delivered
    → All (λ d. is_readable d.2 ≡ true) delivered
    → (w : World) → IsUnique w.events
    → (e : OutboxEvent) → find_row row_id e.id s.rows ≡ some e
    → is_pending e ≡ true
    → (payload : Fields) → e.payload ≡ Json.obj payload
    → (draw : Draw) (layer : Layer) (w₀ : World) (a : AuditEvent)
    → (process_event rt lib draw layer payload e.topic w₀).0 ≡ ok a
    → ((row : OutboxEvent) × (find_row row_id e.id (run_batches env k (λ _. false) s).rows
          ≡ some row)
        × (is_published row ≡ true))
      × (count (λ r. text_eq r.event_id a.event_id) (run rt lib delivered w).1.events ≡ 1)
run_batches_once env accepts perm loads back k s distinct sound enough rt lib delivered delivers
      readable w unique e waits pending payload content draw layer w₀ a h =
    let (logged, row) =
      run_batches-IsDone env accepts perm k s distinct sound enough e waits pending in
    let (draw', layer', d, sent, topic, value) = delivers (message_of env e) logged in
    (
      row,
      run_once rt lib delivered w unique readable draw' layer' d sent payload
          (value ∙ back e.payload ∙ ap some content) draw layer w₀ a
          (ap (λ t. (process_event rt lib draw layer payload t w₀).0) topic ∙ h),
    )
