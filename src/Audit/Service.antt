-- ===== src/Audit/Service.antt =====
-- audit-service/apps/audit/services.py: from a payload to a row of the audit table.
use Prim.Native.String.{String}
use risk_core.Prelude.{
  ℕ, Bool, true, not, ◌&&◌, ◌||◌, Option, none, some, List, [], ◌∷◌, ◌++◌, Text, codes, text_eq,
  starts_with, or_text, any, length, leb, if◌then◌else◌,
}
use risk_core.Json.{Json, Fields, get, get_or, mem_item}
use risk_core.Runtime.{Runtime, Draw}
use risk_core.Action.{
  Action, Result, ok, err, pure, raise, gets, or_raise, guard, modify, ◌>>=◌, ◌>>◌,
}
use risk_core.Audit.{AuditEvent, World, Error, integrity_error, unexpected}

-- What Python and Django add here: `str(value)` of a value that is no text, and parse_datetime,
-- which gives None for a text of another shape and raises for a date that does not exist.
pub record Library : Type 0 where
  pub str_of : Json → Text
  pub parse_datetime : Text → Result Error (Option ℕ)

abbrev pub py_str : Library → Json → Text
py_str lib (Json.str t) = t
py_str lib (Json.null) = lib.str_of Json.null
py_str lib (Json.bool b) = lib.str_of (Json.bool b)
py_str lib (Json.num n) = lib.str_of (Json.num n)
py_str lib (Json.arr items) = lib.str_of (Json.arr items)
py_str lib (Json.obj fields) = lib.str_of (Json.obj fields)

-- `needle in text`
abbrev contains : Text → Text → Bool
contains needle [] = text_eq needle []
contains needle (c ∷ text) = starts_with (c ∷ text) needle || contains needle text

-- `data[key]` where `key in data`, and `none` where it is not in it; only a dict has items under
-- a text, and a number, a Boolean and None have no `in`.
abbrev pub item : String → Json → Result Error (Option Json)
item key (Json.obj fields) = ok (get key fields)
item key (Json.arr items) = if mem_item (codes key) items then err unexpected else ok none
item key (Json.str text) = if contains (codes key) text then err unexpected else ok none
item key _ = err unexpected

-- The last lines, on `event_type`.
abbrev pub by_event_type : Json → Result Error (Text × Text)
by_event_type (Json.str t) =
    if starts_with t (codes "claim") then ok (codes "claim", []) else ok (codes "policy", [])
by_event_type _ = err unexpected

abbrev pub policy_or : Library → Fields → Result Error (Option Json) → Result Error (Text × Text)
policy_or lib payload (ok (some v)) = ok (codes "policy", py_str lib v)
policy_or lib payload (ok none) = by_event_type (get_or "event_type" (Json.str []) payload)
policy_or lib payload (err e) = err e

abbrev pub claim_or :
    Library → Fields → Json → Result Error (Option Json) → Result Error (Text × Text)
claim_or lib payload d (ok (some v)) = ok (codes "claim", py_str lib v)
claim_or lib payload d (ok none) = policy_or lib payload (item "policy_id" d)
claim_or lib payload d (err e) = err e

unfoldable pub extract_entity : Library → Fields → Result Error (Text × Text)
extract_entity lib payload =
    let d = get_or "data" (Json.obj Fields.end) payload in
    claim_or lib payload d (item "claim_id" d)

-- A column of texts: None is NULL, any other value goes in by its text.
abbrev pub column : Library → Json → Option Text
column lib Json.null = none
column lib j = some (py_str lib j)

abbrev pub fits : ℕ → Option Text → Bool
fits n none = true
fits n (some t) = leb (length t) n

-- parse_datetime(payload.get("occurred_at", "")) or timezone.now()
abbrev pub or_now : ℕ → Result Error (Option ℕ) → Result Error ℕ
or_now now (ok none) = ok now
or_now now (ok (some t)) = ok t
or_now now (err e) = err e

abbrev pub occurred_at : Library → ℕ → Json → Result Error ℕ
occurred_at lib now (Json.str t) = or_now now (lib.parse_datetime t)
occurred_at lib now _ = err unexpected

abbrev pub lift : {A : Type 0} → Result Error A → Action World Error A
lift r w = (r, w)

abbrev pub zero_uuid : Text
zero_uuid = codes "00000000-0000-0000-0000-000000000000"

abbrev pub has_event : Text → List AuditEvent → Bool
has_event id rows = any (λ e. text_eq e.event_id id) rows

-- `_broadcast_to_websocket`: there may be no channel layer, and sending may raise.
pub data Layer : Type 0 where
  no_layer working broken : Layer

unfoldable pub broadcast_to_websocket : Layer → AuditEvent → Action World Error (Unit {0})
broadcast_to_websocket no_layer e = pure tt
broadcast_to_websocket working e = modify (λ w. record w { broadcasts = w.broadcasts ++ e ∷ [] })
broadcast_to_websocket broken e = raise unexpected

-- `AuditEvent.objects.create(…)`: the UUID is read first, then the database checks the lengths,
-- the columns that may not be NULL, and the unique event_id.
unfoldable pub insert_event :
    Runtime
    → Draw
    → Text
    → Text × Text
    → ℕ
    → Json
    → Option Text
    → Option Text
    → Option Text
    → Action World Error AuditEvent
insert_event rt draw topic (entity_type, entity_id) occurred payload event_id event_type service =
    do
      entity ← or_raise (rt.parse_uuid (or_text entity_id zero_uuid)) unexpected
      guard
          (fits 100 event_id
            && (fits 100 event_type && (fits 50 service && leb (length topic) 100)))
          unexpected
      id ← or_raise event_id integrity_error
      type ← or_raise event_type integrity_error
      sender ← or_raise service integrity_error
      known ← gets (λ w. has_event id w.events)
      guard (not known) integrity_error
      let e : AuditEvent = record {
        id = draw.uuid 0;
        event_id = id;
        event_type = type;
        kafka_topic = topic;
        entity_type = entity_type;
        entity_id = entity;
        service = sender;
        occurred_at = occurred;
        received_at = draw.now;
        payload = payload;
      }
      modify (λ w. record w { events = w.events ++ e ∷ [] })
      pure e

unfoldable pub process_event :
    Runtime → Library → Draw → Layer → Fields → Text → Action World Error AuditEvent
unfolding extract_entity insert_event broadcast_to_websocket
process_event rt lib draw layer payload topic = do
  entity ← lift (extract_entity lib payload)
  occurred ← lift (occurred_at lib draw.now (get_or "occurred_at" (Json.str []) payload))
  event_id ← or_raise (get "event_id" payload) unexpected
  e ←
      insert_event rt draw topic entity occurred (Json.obj payload) (column lib event_id)
        (column lib (get_or "event_type" (Json.str []) payload))
        (column lib (get_or "service" (Json.str []) payload))
  broadcast_to_websocket layer e
  pure e
