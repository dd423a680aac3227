-- ===== src/Audit/Consumer.antt =====
-- audit-service/apps/audit/kafka_consumer.py: one message, and the messages of one run.
use risk_core.Prelude.{ℕ, Option, none, some, List, [], ◌∷◌, ◌++◌, Text}
use risk_core.Json.{Json}
use risk_core.Runtime.{Runtime, Draw}
use risk_core.Action.{Action, Result, ok, err, ◌>>=◌}
use risk_core.Audit.{
  AuditEvent, Outcome, processed, duplicate, failed, World, Error, integrity_error, unexpected,
}
use risk_core.Audit.Service.{Library, Layer, process_event}

-- A message whose value is `none` is not UTF-8 or no JSON.
pub record Message : Type 0 where
  pub topic : Text
  pub partition : ℕ
  pub offset : ℕ
  pub value : Option Json

abbrev pub commit : Message → World → World
commit m w = record w { commits = w.commits ++ (m.partition, m.offset) ∷ [] }

abbrev pub note : Message → Outcome → World → World
note m outcome w = record w {
  messages_processed_total = w.messages_processed_total ++ (m.topic, outcome) ∷ [];
}

-- The clauses of the `try` statement around `process_event`.
abbrev pub after_process : Message → Result Error AuditEvent × World → World
after_process m (ok e, w) = note m processed (commit m w)
after_process m (err integrity_error, w) = note m duplicate (commit m w)
after_process m (err unexpected, w) = note m failed w

-- `_handle`: a value that is JSON but no object has no `get`, and the exception leaves the loop.
unfoldable pub handle : Runtime → Library → Draw → Layer → Message → Action World Error (Unit {0})
unfolding process_event
handle rt lib draw layer m w = elim m.value [
  | none ↦ (ok tt, w)
  | some (Json.obj payload) ↦
      (ok tt, after_process m (process_event rt lib draw layer payload m.topic w))
  | some _ ↦ (err unexpected, w)
]

-- `run`, over the messages that `poll` returns: it ends with the first exception.
unfoldable pub run :
    Runtime → Library → List (Draw × Layer × Message) → Action World Error (Unit {0})
unfolding handle
run rt lib [] w = (ok tt, w)
run rt lib ((draw, layer, m) ∷ rest) w = (handle rt lib draw layer m >>= λ _. run rt lib rest) w
