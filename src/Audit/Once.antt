-- ===== src/Audit/Once.antt =====
-- Delivery at least once by Kafka, and one row in the audit table.
use mathlib.Core.List.{Memᴰ}
use mathlib.Core.List.Memᴰ.{head, tail}
use risk_core.Prelude.{
  ℕ, ◌≡◌, refl, ◌∙◌, sym, ap, true, false, Bool, Option, none, some, List, [], ◌∷◌, ◌++◌, arith,
  Text, text_eq, text_eq-eq, text_eq_refl, any-append, count, count-none, All, Bool-cases, inl, inr,
}
use risk_core.Json.{Json, Fields}
use risk_core.Runtime.{Runtime, Draw}
use risk_core.Action.{Result, ok, err, ◌>>=◌}
use risk_core.Audit.{AuditEvent, World, Error}
use risk_core.Audit.Service.{Library, Layer, insert_event, process_event, has_event}
use risk_core.Audit.Redelivery.{
  payload_data, occurred_again, process_again, process_inserted, process_shape,
}
use risk_core.Audit.Unique.{
  IsUnique, Grows, broadcast_events, after_events, handle-Grows, run-IsUnique,
}
use risk_core.Audit.Consumer.{Message, handle, run}

-- A message on which the consumer does not die: its value is a JSON object, or no JSON at all.
abbrev pub is_readable : Message → Bool
is_readable m = elim m.value [ none ↦ true | some (Json.obj _) ↦ true | some _ ↦ false ]

Grows-has_event :
    (id : Text) (rows rows' : List AuditEvent)
    → Grows rows rows'
    → has_event id rows ≡ true
    → has_event id rows' ≡ true
Grows-has_event id rows rows' (inl same) h = rw same h
Grows-has_event id rows rows' (inr (e, added, new)) h =
    rw added (any-append _ rows (e ∷ []) ∙ (simp h))

has_event-new :
    (id : Text) (rows : List AuditEvent) (e : AuditEvent)
    → text_eq e.event_id id ≡ true
    → has_event id (rows ++ e ∷ []) ≡ true
has_event-new id [] e h = simp h
has_event-new id (x ∷ rows) e h = ground (arith, has_event-new id rows e h)

module _ (rt : Runtime) (lib : Library) where
  insert_recorded :
      (draw draw' : Draw) (topic : Text) (entity : Text × Text) (t t' : ℕ) (payload : Json)
      (event_id event_type service : Option Text) (w w' : World) (e : AuditEvent)
      → (insert_event rt draw topic entity t payload event_id event_type service w).0 ≡ ok e
      → has_event e.event_id w'.events ≡ false
      → (e' : AuditEvent) × ((insert_event rt draw' topic entity t' payload event_id event_type
            service w').1.events
          ≡ w'.events ++ e' ∷ [])
        × (e'.event_id ≡ e.event_id)
  unfolding insert_event
  insert_recorded draw draw' topic (ty, id) t t' payload event_id event_type service w w' e h new =
      (
        record e { id = draw'.uuid 0; occurred_at = t'; received_at = draw'.now },
        ground arith,
        refl,
      )

  module _ (payload : Fields) (topic : Text) where
    -- A payload that is processed on one table has its event in every table after it is processed.
    process_recorded :
        (draw draw' : Draw) (layer layer' : Layer) (w w' : World) (e : AuditEvent)
        → (process_event rt lib draw layer payload topic w).0 ≡ ok e
        → has_event e.event_id (process_event rt lib draw' layer' payload topic w').1.events ≡ true
    process_recorded draw draw' layer layer' w w' e h =
        elim (Bool-cases (has_event e.event_id w'.events)) [
          | inl known ↦
              ap (λ r. has_event e.event_id r.1.events)
                (process_again rt lib payload topic draw draw' layer layer' w w' e h known)
              ∙ known
          | inr new ↦
              let (entity, t, event_id, a, b, c, d) =
                process_inserted rt lib payload topic draw layer w e h in
              let (t', b') =
                occurred_again rt lib draw.now draw'.now (payload_data rt lib payload) t b in
              let (e', added, same) =
                insert_recorded draw draw' topic entity t t' (Json.obj payload) _ _ _ w w' e d
                  new in
              ap (λ r. has_event e.event_id r.1.events)
                (process_shape rt lib payload topic draw' layer' w' entity t' event_id a b' c)
              ∙ ap (has_event e.event_id) (broadcast_events rt lib layer' w' _ ∙ added)
              ∙ has_event-new e.event_id w'.events e'
                  (ap (λ i. text_eq i e.event_id) same ∙ text_eq_refl e.event_id)
        ]

  -- The same for the message that has it.
  handle_recorded :
      (draw draw' : Draw) (layer layer' : Layer) (m : Message) (payload : Fields) (w w' : World)
      (e : AuditEvent)
      → m.value ≡ some (Json.obj payload)
      → (process_event rt lib draw layer payload m.topic w).0 ≡ ok e
      → has_event e.event_id (handle rt lib draw' layer' m w').1.events ≡ true
  unfolding handle
  handle_recorded draw draw' layer layer' m payload w w' e value h = rw value (
      ap (has_event e.event_id) (after_events rt lib m _)
      ∙ process_recorded payload m.topic draw draw' layer layer' w w' e h)

  handle_readable :
      (draw : Draw) (layer : Layer) (m : Message) (w : World)
      → is_readable m ≡ true
      → (handle rt lib draw layer m w).0 ≡ ok tt
  unfolding handle
  handle_readable draw layer m w h = by_value m.value h
    where
      by_value :
          (value : Option Json)
          → is_readable (record m { value = value }) ≡ true
          → (handle rt lib draw layer (record m { value = value }) w).0 ≡ ok tt
      by_value none h = refl
      by_value (some (Json.obj payload)) h = refl
      by_value (some Json.null) h = absurd (cc)
      by_value (some (Json.bool _)) h = absurd (cc)
      by_value (some (Json.num _)) h = absurd (cc)
      by_value (some (Json.str _)) h = absurd (cc)
      by_value (some (Json.arr _)) h = absurd (cc)

  -- A readable message first, the rest after it.
  run_first :
      (draw : Draw) (layer : Layer) (m : Message) (rest : List (Draw × Layer × Message)) (w : World)
      → is_readable m ≡ true
      → run rt lib ((draw, layer, m) ∷ rest) w ≡ run rt lib rest (handle rt lib draw layer m w).1
  unfolding run
  run_first draw layer m rest w h =
      onward (handle rt lib draw layer m w) (handle_readable draw layer m w h)
    where
      onward :
          (r : Result Error (Unit {0}) × World)
          → r.0 ≡ ok tt
          → ((λ (_ : World). r) >>= λ _. run rt lib rest) w ≡ run rt lib rest r.1
      onward (ok _, w') e = refl
      onward (err x, w') e = absurd (cc)

  -- What is in the table stays in it.
  run_keeps :
      (id : Text) (messages : List (Draw × Layer × Message)) (w : World)
      → All (λ d. is_readable d.2 ≡ true) messages
      → has_event id w.events ≡ true
      → has_event id (run rt lib messages w).1.events ≡ true
  unfolding run
  run_keeps id [] w readable h = h
  run_keeps id ((draw, layer, m) ∷ rest) w (readable, more) h =
      ap (λ r. has_event id r.1.events) (run_first draw layer m rest w readable)
      ∙ run_keeps id rest _ more
          (Grows-has_event id w.events _ (handle-Grows rt lib draw layer m w) h)

  run_recorded :
      (m : Message) (payload : Fields) (draw₀ : Draw) (layer₀ : Layer) (w₀ : World) (e : AuditEvent)
      → m.value ≡ some (Json.obj payload)
      → (process_event rt lib draw₀ layer₀ payload m.topic w₀).0 ≡ ok e
      → (draw : Draw) (layer : Layer) (messages : List (Draw × Layer × Message)) (w : World)
      → All (λ d. is_readable d.2 ≡ true) messages
      → Memᴰ (draw, layer, m) messages
      → has_event e.event_id (run rt lib messages w).1.events ≡ true
  run_recorded m payload draw₀ layer₀ w₀ e value h draw layer [] w readable sent = elim sent [ ]
  run_recorded m payload draw₀ layer₀ w₀ e value h draw layer ((draw', layer', m') ∷ rest) w
        (readable, more) (head same) =
      ap (λ r. has_event e.event_id r.1.events) (run_first draw' layer' m' rest w readable)
      ∙ run_keeps e.event_id rest _ more (
          ap (λ d. has_event e.event_id (handle rt lib d.0 d.1 d.2 w).1.events) (sym same)
          ∙ handle_recorded draw₀ draw layer₀ layer m payload w₀ w e value h)
  run_recorded m payload draw₀ layer₀ w₀ e value h draw layer ((draw', layer', m') ∷ rest) w
        (readable, more) (tail later) =
      ap (λ r. has_event e.event_id r.1.events) (run_first draw' layer' m' rest w readable)
      ∙ run_recorded m payload draw₀ layer₀ w₀ e value h draw layer rest _ more later

-- In a table without repetition an event that is there is there once.
IsUnique-count :
    (id : Text) (rows : List AuditEvent)
    → IsUnique rows
    → has_event id rows ≡ true
    → count (λ e. text_eq e.event_id id) rows ≡ 1
IsUnique-count id [] h there = absurd (cc)
IsUnique-count id (x ∷ rows) (new, h) there = elim (Bool-cases (text_eq x.event_id id)) [
  | inl here ↦
      let gone =
        count-none (λ e. text_eq e.event_id id) rows
          (ap (λ i. has_event i rows) (sym (text_eq-eq x.event_id id here)) ∙ new) in
      ground (arith, gone, here)
  | inr other ↦ ground (arith, IsUnique-count id rows h, other)
]

-- Kafka delivers at least once, and the audit table keeps once: whatever messages a run of the
-- consumer takes, in whatever order and however often each, if none of them ends the run and one of
-- them carries an event that the service would process on some table, then the table holds exactly
-- one row of that event afterwards. It needs a table without repetition to start with, and it holds
-- whether or not the web sockets work.
pub run_once :
    (rt : Runtime) (lib : Library) (messages : List (Draw × Layer × Message)) (w : World)
    → IsUnique w.events
    → All (λ d. is_readable d.2 ≡ true) messages
    → (draw : Draw) (layer : Layer) (m : Message) → Memᴰ (draw, layer, m) messages
    → (payload : Fields) → m.value ≡ some (Json.obj payload)
    → (draw₀ : Draw) (layer₀ : Layer) (w₀ : World) (e : AuditEvent)
    → (process_event rt lib draw₀ layer₀ payload m.topic w₀).0 ≡ ok e
    → count (λ r. text_eq r.event_id e.event_id) (run rt lib messages w).1.events ≡ 1
run_once rt lib messages w unique readable draw layer m sent payload value draw₀ layer₀ w₀ e h =
    IsUnique-count e.event_id _ (run-IsUnique rt lib messages w unique)
      (run_recorded rt lib m payload draw₀ layer₀ w₀ e value h draw layer messages w readable sent)
