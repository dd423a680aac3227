-- ===== src/Notifications/Views.antt =====
-- notification-service/apps/notifications/serializers.py, the rest of views.py, and
-- core/exceptions.py: how a notification is shown.
use Prim.Native.String.{String}
use risk_core.Prelude.{ℕ, Option, none, some, List, [], ◌∷◌, select, Text, codes, find_row, ◌==◌}
use risk_core.Json.{Json, Items, Fields}
use risk_core.Runtime.{Runtime}
use risk_core.Policy.Errors.{ApiException, custom_exception_handler}
use risk_core.Http.{Response, server_error, handled, error_json}
use risk_core.Notifications.{Notification, NotificationLog, LogStatus, row_id}
use risk_core.Notifications.Queries.{status_text}

abbrev pub log_status_text : LogStatus → Text
log_status_text LogStatus.success = codes "SUCCESS"
log_status_text LogStatus.failure = codes "FAILURE"

-- `NotificationLogSerializer`
unfoldable pub log_data : Runtime → NotificationLog → Json
log_data rt l = Json.obj (
    Fields.field "id" (Json.str (rt.uuid_str l.id)) (
      Fields.field "attempt" (Json.num l.attempt) (
        Fields.field "status" (Json.str (log_status_text l.status)) (
          Fields.field "error_message" (Json.str l.error_message)
            (Fields.field "attempted_at" (Json.str (rt.datetime_iso l.attempted_at)) Fields.end)))))

abbrev pub log_items : Runtime → List NotificationLog → Items
log_items rt [] = Items.nil
log_items rt (l ∷ rest) = Items.cons (log_data rt l) (log_items rt rest)

abbrev pub time_or_null : Runtime → Option ℕ → Json
time_or_null rt none = Json.null
time_or_null rt (some t) = Json.str (rt.datetime_iso t)

-- `NotificationSerializer(notification).data`, over the table of logs.
unfoldable pub notification_data : Runtime → List NotificationLog → Notification → Json
unfolding log_data
notification_data rt logs n = Json.obj (
    Fields.field "id" (Json.str (rt.uuid_str n.id)) (
      Fields.field "event_type" (Json.str n.event_type) (
        Fields.field "recipient_email" (Json.str n.recipient_email) (
          Fields.field "subject" (Json.str n.subject) (
            Fields.field "context" (Json.obj n.context) (
              Fields.field "status" (Json.str (status_text n.status)) (
                Fields.field "created_at" (Json.str (rt.datetime_iso n.created_at)) (
                  Fields.field "sent_at" (time_or_null rt n.sent_at) (
                    Fields.field "logs"
                      (Json.arr (log_items rt (select (λ l. l.notification_id == n.id) logs)))
                      Fields.end)))))))))

-- `NotificationListSerializer(notification).data`
unfoldable pub notification_list_data : Runtime → Notification → Json
notification_list_data rt n = Json.obj (
    Fields.field "id" (Json.str (rt.uuid_str n.id)) (
      Fields.field "event_type" (Json.str n.event_type) (
        Fields.field "recipient_email" (Json.str n.recipient_email) (
          Fields.field "status" (Json.str (status_text n.status))
            (Fields.field "created_at" (Json.str (rt.datetime_iso n.created_at)) Fields.end)))))

-- NotificationNotFoundError: its status, and what the handler sees of it.
unfoldable pub notification_not_found : Text → ℕ × ApiException
notification_not_found notification_id = (
  404,
  record {
    validation = none;
    code = some (codes "NOTIFICATION_NOT_FOUND");
    details = some (Fields.field "notification_id" (Json.str notification_id) Fields.end);
    message = codes "La notificación solicitada no existe.";
  },
)

-- `retrieve` by `get_object`, of the rows that the filters of the query leave, with the key as the
-- URL has it. A key that is no UUID raises Django's ValidationError, which is no ValueError and is
-- not caught.
unfoldable pub retrieve_view :
    Runtime → (Text → String) → Text → Text → List NotificationLog → List Notification → Response
unfolding notification_data notification_not_found custom_exception_handler error_json
retrieve_view rt key request_id pk logs rows = elim (rt.parse_uuid pk) [
  | none ↦ server_error
  | some id ↦ elim (find_row row_id id rows) [
    | none ↦
        let (status, exc) = notification_not_found pk in
        handled key (custom_exception_handler (λ _. some status) exc (some request_id))
    | some n ↦ record { status = 200; body = some (notification_data rt logs n) }
  ]
]
