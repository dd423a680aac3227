-- ===== src/Notifications/Consumer.antt =====
-- notification-service/apps/notifications/kafka_consumer.py: from an event to a notification and a
-- task.
use Prim.Native.String.{String}
use risk_core.Prelude.{
  ℕ, Bool, true, not, ◌&&◌, Option, none, some, List, [], ◌∷◌, ◌++◌, Text, codes, text_eq,
  starts_with, any, length, leb, if◌then◌else◌,
}
use risk_core.Json.{Json, Fields, get_or}
use risk_core.Runtime.{Draw}
use risk_core.Action.{Action, Result, ok, err, gets, or_raise, guard, modify, atomic, ◌>>=◌, ◌>>◌}
use risk_core.Claims.Client.{truthy}
use risk_core.Notifications.{Notification, Status, World}

-- `unexpected` is any exception but IntegrityError.
pub data Error : Type 0 where
  integrity_error unexpected : Error

-- settings.DEFAULT_FROM_EMAIL, and `str(value)` of a value that is no text.
pub record Library : Type 0 where
  pub default_from_email : Text
  pub str_of : Json → Text

abbrev pub py_str : Library → Json → Text
py_str lib (Json.str t) = t
py_str lib Json.null = lib.str_of Json.null
py_str lib (Json.bool b) = lib.str_of (Json.bool b)
py_str lib (Json.num n) = lib.str_of (Json.num n)
py_str lib (Json.arr items) = lib.str_of (Json.arr items)
py_str lib (Json.obj fields) = lib.str_of (Json.obj fields)

unfoldable pub build_subject : Text → Text
build_subject event_type =
    if text_eq event_type (codes "policy.created")
    then codes "Póliza creada"
    else if text_eq event_type (codes "policy.cancelled")
    then codes "Póliza cancelada"
    else if text_eq event_type (codes "claim.filed")
    then codes "Siniestro registrado"
    else if text_eq event_type (codes "claim.status_changed")
    then codes "Siniestro actualizado"
    else if text_eq event_type (codes "claim.resolved")
    then codes "Siniestro resuelto"
    else codes "Notificación RiskCore"

abbrev one_field : String → Fields → String → Fields → Fields
one_field key rest source fields = Fields.field key (get_or source (Json.str []) fields) rest

unfoldable pub build_context : Text → Fields → Fields
build_context event_type fields =
    if starts_with event_type (codes "policy.")
    then one_field "policy_number" Fields.end "policy_number" fields
    else if starts_with event_type (codes "claim.")
    then one_field "claim_number"
        (if text_eq event_type (codes "claim.status_changed")
          then one_field "new_status" Fields.end "to_status" fields
          else if text_eq event_type (codes "claim.resolved")
          then one_field "approved_amount" Fields.end "approved_amount" fields
          else Fields.end)
        "claim_number" fields
    else Fields.end

-- `value or settings.DEFAULT_FROM_EMAIL`, as the column keeps it.
abbrev pub email_or_default : Library → Json → Text
email_or_default lib v = if truthy v then py_str lib v else lib.default_from_email

unfoldable pub extract_recipient : Library → Fields → Text → Text
extract_recipient lib fields event_type =
    if starts_with event_type (codes "claim.")
    then email_or_default lib (get_or "claimant_email" Json.null fields)
    else email_or_default lib (get_or "customer_email" Json.null fields)

-- A message whose value is `none` is not UTF-8 or no JSON.
pub record Message : Type 0 where
  pub topic : Text
  pub partition : ℕ
  pub offset : ℕ
  pub value : Option Json

abbrev pub commit : Message → World → World
commit m w = record w { commits = w.commits ++ (m.partition, m.offset) ∷ [] }

abbrev pub has_notification : Text → World → Bool
has_notification id w = any (λ n. text_eq n.event_id id) w.notifications

abbrev pub column : Library → Json → Option Text
column lib Json.null = none
column lib j = some (py_str lib j)

abbrev pub fits : ℕ → Option Text → Bool
fits n none = true
fits n (some t) = leb (length t) n

-- The row that `Notification.objects.create(…)` inserts.
abbrev pub new_notification : Library → Draw → Text → Text → Fields → Notification
new_notification lib draw event_id event_type fields = record {
  id = draw.uuid 0;
  event_id = event_id;
  event_type = event_type;
  recipient_email = extract_recipient lib fields event_type;
  subject = build_subject event_type;
  context = build_context event_type fields;
  status = Status.pending;
  created_at = draw.now;
  sent_at = none;
}

-- The insert and the `delay` of one transaction; sending the task to Celery may raise.
unfoldable pub create_notification :
    Library → Draw → Bool → Json → Text → Fields → Action World Error (Unit {0})
unfolding build_subject build_context extract_recipient
create_notification lib draw broker event_id event_type fields = do
  guard
      (fits 100 (column lib event_id)
        && (leb (length event_type) 100
            && leb (length (extract_recipient lib fields event_type)) 254))
      unexpected
  id ← or_raise (column lib event_id) integrity_error
  known ← gets (has_notification id)
  guard (not known) integrity_error
  let n = new_notification lib draw id event_type fields
  modify (λ w. record w { notifications = w.notifications ++ n ∷ [] })
  guard broker unexpected
  modify (λ w. record w { tasks = w.tasks ++ n.id ∷ [] })

-- The clauses of the `try` statement.
abbrev pub after_create : Message → Result Error (Unit {0}) × World → World
after_create m (ok _, w) = commit m w
after_create m (err integrity_error, w) = commit m w
after_create m (err unexpected, w) = w

-- The lines of `_handle_message` after the payload is known to be a dict: what is no text has no
-- `startswith`, and what is no dict has no `get`; these exceptions leave the loop.
unfoldable pub handle_payload :
    Library → Draw → Bool → Message → Json → Json → Json → Action World Error (Unit {0})
unfolding create_notification
handle_payload lib draw broker m event_id (Json.str event_type) (Json.obj fields) w = (
  ok tt,
  after_create m (atomic (create_notification lib draw broker event_id event_type fields) w),
)
handle_payload lib draw broker m event_id _ _ w = (err unexpected, w)

unfoldable pub handle_message : Library → Draw → Bool → Message → Action World Error (Unit {0})
unfolding handle_payload
handle_message lib draw broker m w = elim m.value [
  | none ↦ (ok tt, w)
  | some (Json.obj payload) ↦
      handle_payload lib draw broker m (get_or "event_id" (Json.str []) payload)
        (get_or "event_type" (Json.str []) payload) (get_or "data" (Json.obj Fields.end) payload) w
  | some _ ↦ (err unexpected, w)
]

-- `run`, over the messages that `poll` returns, each with what it draws and whether Celery takes
-- its task: it ends with the first exception.
unfoldable pub run : Library → List (Draw × Bool × Message) → Action World Error (Unit {0})
unfolding handle_message
run lib [] w = (ok tt, w)
run lib ((draw, broker, m) ∷ rest) w = (handle_message lib draw broker m >>= λ _. run lib rest) w
