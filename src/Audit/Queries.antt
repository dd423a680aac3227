-- ===== src/Audit/Queries.antt =====
-- audit-service/apps/audit/views.py: the filters of the list of events.
use risk_core.Prelude.{Option, some, List, Text, text_eq, leb, ◌==◌}
use risk_core.Runtime.{Runtime, date_of}
use risk_core.Policy.Queries.{filter_by, ◌>>=◌}
use risk_core.Audit.{AuditEvent}

-- The query parameters; `none` is one that is not there.
pub record Filters : Type 0 where
  pub event_type : Option Text
  pub entity_type : Option Text
  pub entity_id : Option Text
  pub kafka_topic : Option Text
  pub from_date : Option Text
  pub to_date : Option Text

-- `none` is the ValidationError of a value that a filter cannot read.
unfoldable pub get_queryset : Runtime → Filters → List AuditEvent → Option (List AuditEvent)
unfolding filter_by
get_queryset rt filters all = do
  a ← filter_by some (λ s e. text_eq s e.event_type) filters.event_type all
  b ← filter_by some (λ s e. text_eq s e.entity_type) filters.entity_type a
  c ← filter_by rt.parse_uuid (λ u e. e.entity_id == u) filters.entity_id b
  d ← filter_by some (λ s e. text_eq s e.kafka_topic) filters.kafka_topic c
  f ← filter_by rt.parse_date (λ t e. leb t (date_of e.occurred_at)) filters.from_date d
  filter_by rt.parse_date (λ t e. leb (date_of e.occurred_at) t) filters.to_date f
