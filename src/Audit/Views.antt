-- ===== src/Audit/Views.antt =====
-- audit-service/apps/audit/serializers.py, the rest of views.py, and core/exceptions.py: how an
-- event is shown.
use Prim.Native.String.{String}
use risk_core.Prelude.{ℕ, none, some, List, Text, codes, find_row}
use risk_core.Json.{Json, Fields}
use risk_core.Runtime.{Runtime}
use risk_core.Policy.Errors.{ApiException, custom_exception_handler}
use risk_core.Http.{Response, handled, error_json}
use risk_core.Audit.{AuditEvent}

-- `AuditEventListSerializer(event).data`
unfoldable pub event_list_data : Runtime → AuditEvent → Json
event_list_data rt e = Json.obj (
    Fields.field "id" (Json.str (rt.uuid_str e.id)) (
      Fields.field "event_id" (Json.str e.event_id) (
        Fields.field "event_type" (Json.str e.event_type) (
          Fields.field "entity_type" (Json.str e.entity_type) (
            Fields.field "entity_id" (Json.str (rt.uuid_str e.entity_id)) (
              Fields.field "service" (Json.str e.service) (
                Fields.field "occurred_at" (Json.str (rt.datetime_iso e.occurred_at))
                  Fields.end)))))))

-- `AuditEventSerializer(event).data`, which also goes to the web sockets.
unfoldable pub event_data : Runtime → AuditEvent → Json
event_data rt e = Json.obj (
    Fields.field "id" (Json.str (rt.uuid_str e.id)) (
      Fields.field "event_id" (Json.str e.event_id) (
        Fields.field "event_type" (Json.str e.event_type) (
          Fields.field "kafka_topic" (Json.str e.kafka_topic) (
            Fields.field "entity_type" (Json.str e.entity_type) (
              Fields.field "entity_id" (Json.str (rt.uuid_str e.entity_id)) (
                Fields.field "service" (Json.str e.service) (
                  Fields.field "occurred_at" (Json.str (rt.datetime_iso e.occurred_at)) (
                    Fields.field "received_at" (Json.str (rt.datetime_iso e.received_at))
                      (Fields.field "payload" e.payload Fields.end))))))))))

-- AuditEventNotFoundError: its status, and what the handler sees of it.
unfoldable pub event_not_found : Text → ℕ × ApiException
event_not_found event_id = (
  404,
  record {
    validation = none;
    code = some (codes "AUDIT_EVENT_NOT_FOUND");
    details = some (Fields.field "event_id" (Json.str event_id) Fields.end);
    message = codes "El evento de auditoría solicitado no existe.";
  },
)

abbrev pub event_key : AuditEvent → ℕ
event_key e = e.id

-- `retrieve` by `get_object`, with the key as the URL has it; what is no UUID is not found either.
unfoldable pub retrieve_view : Runtime → (Text → String) → Text → Text → List AuditEvent → Response
unfolding event_data event_not_found custom_exception_handler error_json
retrieve_view rt key request_id pk rows =
    let missing =
      let (status, exc) = event_not_found pk in
      handled key (custom_exception_handler (λ _. some status) exc (some request_id)) in
    elim (rt.parse_uuid pk) [
      | none ↦ missing
      | some id ↦ elim (find_row event_key id rows) [
        | none ↦ missing
        | some e ↦ record { status = 200; body = some (event_data rt e) }
      ]
    ]
