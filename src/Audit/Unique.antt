-- ===== src/Audit/Unique.antt =====
-- The audit table keeps one row for each event, along every run of the consumer.
use mathlib.Core.Path.{subst}
use risk_core.Prelude.{
  ℕ, ◌≡◌, refl, ◌∙◌, sym, ap, true, false, ◌&&◌, Option, none, some, List, [], ◌∷◌, ◌++◌, arith,
  Text, text_eq, text_eq_comm, or_text, any-append, length, leb, Bool-cases, Option-cases, inl, inr,
  ◌⊎◌,
}
use risk_core.Json.{Json, Fields, get, get_or}
use risk_core.Runtime.{Runtime, Draw}
use risk_core.Action.{Result, Result-cases, ok, err, pure, ◌>>=◌, ◌>>◌}
use risk_core.Audit.{AuditEvent, World, Error, integrity_error, unexpected}
use risk_core.Audit.Service.{
  Library, Layer, extract_entity, insert_event, broadcast_to_websocket, process_event, occurred_at,
  column, fits, has_event, zero_uuid,
}
use risk_core.Audit.Redelivery.{payload_data, process_shape}
use risk_core.Audit.Consumer.{Message, handle, after_process, run}

-- No event before another of the same event_id.
abbrev pub IsUnique : List AuditEvent → Type 0
IsUnique [] = Unit
IsUnique (e ∷ rows) = (has_event e.event_id rows ≡ false) × IsUnique rows

-- The table of one state against that of another: the same, or with one new event at the end.
abbrev pub Grows : List AuditEvent → List AuditEvent → Type 0
Grows rows rows' =
    (rows' ≡ rows)
    ⊎ ((e : AuditEvent) × (rows' ≡ rows ++ e ∷ []) × (has_event e.event_id rows ≡ false))

module _ (rt : Runtime) (lib : Library) where
  insert-Grows :
      (draw : Draw) (topic : Text) (entity : Text × Text) (t : ℕ) (payload : Json)
      (event_id event_type service : Option Text) (w : World)
      → Grows w.events
          (insert_event rt draw topic entity t payload event_id event_type service w).1.events
  unfolding insert_event
  insert-Grows draw topic (type, id) t payload event_id event_type service w =
      elim (Option-cases (rt.parse_uuid (or_text id zero_uuid))) [
        | inl bad ↦ inl (simp bad)
        | inr (u, read) ↦
            elim (Bool-cases (
              fits 100 event_id
              && (fits 100 event_type && (fits 50 service && leb (length topic) 100)))) [
                | inr long ↦ inl (simp (read, long))
                | inl short ↦ columns u event_id event_type service read short
              ]
      ]
    where
      columns :
          (u : ℕ) (event_id event_type service : Option Text)
          → rt.parse_uuid (or_text id zero_uuid) ≡ some u
          → (fits 100 event_id
              && (fits 100 event_type && (fits 50 service && leb (length topic) 100)))
            ≡ true
          → Grows w.events
              (insert_event rt draw topic
                (type, id)
                t
                payload
                event_id
                event_type
                service
                w).1.events
      columns u none event_type service read short = inl (simp (read, short))
      columns u (some i) none service read short = inl (simp (read, short))
      columns u (some i) (some ty) none read short = inl (simp (read, short))
      columns u (some i) (some ty) (some s) read short = elim (Bool-cases (has_event i w.events)) [
        | inl known ↦ inl (simp (read, short, known))
        | inr new ↦ inr (
          record {
            id = draw.uuid 0;
            event_id = i;
            event_type = ty;
            kafka_topic = topic;
            entity_type = type;
            entity_id = u;
            service = s;
            occurred_at = t;
            received_at = draw.now;
            payload = payload;
          },
          simp (read, short, new),
          new,
        )
      ]

  -- Sending to the web sockets leaves the table alone.
  pub broadcast_events :
      (layer : Layer) (w : World) (r : Result Error AuditEvent × World)
      → (((λ (_ : World). r) >>= λ x. broadcast_to_websocket layer x >> pure x) w).1.events
        ≡ r.1.events
  unfolding broadcast_to_websocket
  broadcast_events layer w (err x, w') = refl
  broadcast_events Layer.no_layer w (ok x, w') = refl
  broadcast_events Layer.working w (ok x, w') = refl
  broadcast_events Layer.broken w (ok x, w') = refl

  process-Grows :
      (draw : Draw) (layer : Layer) (payload : Fields) (topic : Text) (w : World)
      → Grows w.events (process_event rt lib draw layer payload topic w).1.events
  process-Grows draw layer payload topic w = elim (Result-cases (extract_entity lib payload)) [
    | inr (x, bad) ↦ inl (unfold process_event in simp bad)
    | inl (entity, a) ↦
        elim (Result-cases (occurred_at lib draw.now (payload_data rt lib payload))) [
          | inr (x, bad) ↦ inl (unfold process_event in simp (a, bad))
          | inl (t, b) ↦ elim (Option-cases (get "event_id" payload)) [
            | inl bad ↦ inl (unfold process_event in simp (a, b, bad))
            | inr (event_id, c) ↦
                subst (Grows w.events)
                  (sym (
                    ap (λ r. r.1.events)
                      (process_shape rt lib payload topic draw layer w entity t event_id a b c)
                    ∙ broadcast_events layer w _))
                  (insert-Grows draw topic entity t (Json.obj payload) (column lib event_id)
                    (column lib (get_or "event_type" (Json.str []) payload))
                    (column lib (get_or "service" (Json.str []) payload)) w)
          ]
        ]
  ]

  pub after_events :
      (m : Message) (r : Result Error AuditEvent × World) → (after_process m r).events ≡ r.1.events
  after_events m (ok e, w) = refl
  after_events m (err integrity_error, w) = refl
  after_events m (err unexpected, w) = refl

has_event-append :
    (id : Text) (rows : List AuditEvent) (e : AuditEvent)
    → has_event id rows ≡ false
    → text_eq e.event_id id ≡ false
    → has_event id (rows ++ e ∷ []) ≡ false
has_event-append id rows e a b = any-append _ rows (e ∷ []) ∙ simp (a, b)

IsUnique-append :
    (rows : List AuditEvent) (e : AuditEvent)
    → IsUnique rows
    → has_event e.event_id rows ≡ false
    → IsUnique (rows ++ e ∷ [])
IsUnique-append [] e h new = (refl, tt)
IsUnique-append (x ∷ rows) e (h, rest) new =
    let other : text_eq x.event_id e.event_id ≡ false = ground arith in
    let new' : has_event e.event_id rows ≡ false = ground arith in
    (
      has_event-append x.event_id rows e h (text_eq_comm e.event_id x.event_id ∙ other),
      IsUnique-append rows e rest new',
    )

Grows-IsUnique : (rows rows' : List AuditEvent) → Grows rows rows' → IsUnique rows → IsUnique rows'
Grows-IsUnique rows rows' (inl same) h = rw same h
Grows-IsUnique rows rows' (inr (e, added, new)) h = rw added (IsUnique-append rows e h new)

module _ (rt : Runtime) (lib : Library) where
  pub handle-Grows :
      (draw : Draw) (layer : Layer) (m : Message) (w : World)
      → Grows w.events (handle rt lib draw layer m w).1.events
  unfolding handle
  handle-Grows draw layer m w = by_value m.value
    where
      by_value :
          (value : Option Json)
          → Grows w.events (handle rt lib draw layer (record m { value = value }) w).1.events
      by_value none = inl refl
      by_value (some Json.null) = inl refl
      by_value (some (Json.bool _)) = inl refl
      by_value (some (Json.num _)) = inl refl
      by_value (some (Json.str _)) = inl refl
      by_value (some (Json.arr _)) = inl refl
      by_value (some (Json.obj payload)) =
          subst (Grows w.events) (sym (after_events rt lib m _))
            (process-Grows rt lib draw layer payload m.topic w)

-- Along every run of the consumer, whatever the messages are (redelivered, malformed, or with one
-- that ends the run), and whether or not the web sockets work, the table never holds two events of
-- the same event_id.
pub run-IsUnique :
    (rt : Runtime) (lib : Library) (messages : List (Draw × Layer × Message)) (w : World)
    → IsUnique w.events
    → IsUnique (run rt lib messages w).1.events
unfolding run
run-IsUnique rt lib [] w h = h
run-IsUnique rt lib ((draw, layer, m) ∷ rest) w h =
    let h' =
      Grows-IsUnique w.events (handle rt lib draw layer m w).1.events
        (handle-Grows rt lib draw layer m w) h in
    next (λ w' hw. run-IsUnique rt lib rest w' hw) (handle rt lib draw layer m w) h'
  where
    next :
        ((w' : World) → IsUnique w'.events → IsUnique (run rt lib rest w').1.events)
        → (r : Result Error (Unit {0}) × World) → IsUnique r.1.events
        → IsUnique (((λ (_ : World). r) >>= λ _. run rt lib rest) w).1.events
    next onward (err e, w') h = h
    next onward (ok _, w') h = onward w' h
