-- ===== src/Audit/Redelivery.antt =====
-- What one message does to the audit table, and a second delivery of it.
use risk_core.Prelude.{
  ℕ, ◌≡◌, refl, ◌∙◌, sym, ap, true, Option, some, [], arith, Text, Option-cases, inl, inr,
}
use risk_core.Json.{Json, Fields, get, get_or}
use risk_core.Runtime.{Runtime, Draw}
use risk_core.Action.{Result, Result-cases, ok, err, pure, ◌>>=◌, ◌>>◌}
use risk_core.Audit.{AuditEvent, duplicate, World, Error, integrity_error}
use risk_core.Audit.Service.{
  Library, Layer, extract_entity, insert_event, process_event, broadcast_to_websocket, occurred_at,
  column, has_event,
}
use risk_core.Audit.Consumer.{Message, handle, commit, note}

module _ (rt : Runtime) (lib : Library) where
  insert_again :
      (draw draw' : Draw) (topic : Text) (entity : Text × Text) (t t' : ℕ) (payload : Json)
      (event_id event_type service : Option Text) (w w' : World) (e : AuditEvent)
      → (insert_event rt draw topic entity t payload event_id event_type service w).0 ≡ ok e
      → has_event e.event_id w'.events ≡ true
      → insert_event rt draw' topic entity t' payload event_id event_type service w'
        ≡ (err integrity_error, w')
  unfolding insert_event
  insert_again draw draw' topic (ty, id) t t' payload event_id event_type service w w' e h known =
      ground arith

  -- The values that a payload gives, where it gives them.
  abbrev pub payload_data : Fields → Json
  payload_data payload = get_or "occurred_at" (Json.str []) payload

  pub occurred_again :
      (now now' : ℕ) (j : Json) (t : ℕ)
      → occurred_at lib now j ≡ ok t
      → (t' : ℕ) × (occurred_at lib now' j ≡ ok t')
  occurred_again now now' (Json.str s) t h = elim (Result-cases (lib.parse_datetime s)) [
    | inr (e, bad) ↦ absurd (ground arith)
    | inl (o, parsed) ↦ elim (Option-cases o) [
      | inl nothing ↦ (now', rw (parsed, nothing) refl)
      | inr (u, some_) ↦ (u, rw (parsed, some_) refl)
    ]
  ]
  occurred_again now now' Json.null t h = absurd (cc)
  occurred_again now now' (Json.bool _) t h = absurd (cc)
  occurred_again now now' (Json.num _) t h = absurd (cc)
  occurred_again now now' (Json.arr _) t h = absurd (cc)
  occurred_again now now' (Json.obj _) t h = absurd (cc)

  module _ (payload : Fields) (topic : Text) where
    -- The insert that `process_event` comes to.
    abbrev pub inserted : Draw → Text × Text → ℕ → Json → World → Result Error AuditEvent × World
    inserted draw entity t event_id w =
        insert_event rt draw topic entity t (Json.obj payload) (column lib event_id)
          (column lib (get_or "event_type" (Json.str []) payload))
          (column lib (get_or "service" (Json.str []) payload)) w

    process_refused :
        (draw : Draw) (layer : Layer) (w : World) (entity : Text × Text) (t : ℕ) (event_id : Json)
        (e : Error)
        → extract_entity lib payload ≡ ok entity
        → occurred_at lib draw.now (payload_data payload) ≡ ok t
        → get "event_id" payload ≡ some event_id
        → inserted draw entity t event_id w ≡ (err e, w)
        → process_event rt lib draw layer payload topic w ≡ (err e, w)
    unfolding process_event
    process_refused draw layer w entity t event_id e a b c d = rw (a, b, c, d) refl

    -- What follows the insert returns the row or raises.
    after_insert :
        (layer : Layer) (w : World) (r : Result Error AuditEvent × World) (e : AuditEvent)
        → (((λ (_ : World). r) >>= λ x. broadcast_to_websocket layer x >> pure x) w).0 ≡ ok e
        → r.0 ≡ ok e
    unfolding broadcast_to_websocket
    after_insert layer w (err x, w') e h = h
    after_insert Layer.no_layer w (ok x, w') e h = h
    after_insert Layer.working w (ok x, w') e h = h
    after_insert Layer.broken w (ok x, w') e h = absurd (cc)

    pub process_shape :
        (draw : Draw) (layer : Layer) (w : World) (entity : Text × Text) (t : ℕ) (event_id : Json)
        → extract_entity lib payload ≡ ok entity
        → occurred_at lib draw.now (payload_data payload) ≡ ok t
        → get "event_id" payload ≡ some event_id
        → process_event rt lib draw layer payload topic w
          ≡ ((λ (_ : World). inserted draw entity t event_id w) >>= λ x.
                broadcast_to_websocket layer x >> pure x)
              w
    unfolding process_event
    process_shape draw layer w entity t event_id a b c = rw (a, b, c) refl

    pub process_inserted :
        (draw : Draw) (layer : Layer) (w : World) (e : AuditEvent)
        → (process_event rt lib draw layer payload topic w).0 ≡ ok e
        → (entity : Text × Text) × (t : ℕ) × (event_id : Json) × (extract_entity lib payload
            ≡ ok entity)
          × (occurred_at lib draw.now (payload_data payload) ≡ ok t)
          × (get "event_id" payload ≡ some event_id)
          × ((inserted draw entity t event_id w).0 ≡ ok e)
    process_inserted draw layer w e h = elim (Result-cases (extract_entity lib payload)) [
      | inr (x, bad) ↦ absurd (unfold process_event in ground arith)
      | inl (entity, a) ↦ elim (Result-cases (occurred_at lib draw.now (payload_data payload))) [
        | inr (x, bad) ↦ absurd (unfold process_event in ground arith)
        | inl (t, b) ↦ elim (Option-cases (get "event_id" payload)) [
          | inl bad ↦ absurd (unfold process_event in ground arith)
          | inr (event_id, c) ↦ (
            entity,
            t,
            event_id,
            a,
            b,
            c,
            after_insert layer w _ e
                (sym (ap (λ r. r.0) (process_shape draw layer w entity t event_id a b c)) ∙ h),
          )
        ]
      ]
    ]

    pub process_again :
        (draw draw' : Draw) (layer layer' : Layer) (w w' : World) (e : AuditEvent)
        → (process_event rt lib draw layer payload topic w).0 ≡ ok e
        → has_event e.event_id w'.events ≡ true
        → process_event rt lib draw' layer' payload topic w' ≡ (err integrity_error, w')
    process_again draw draw' layer layer' w w' e h known =
        let (entity, t, event_id, a, b, c, d) = process_inserted draw layer w e h in
        let (t', b') = occurred_again draw.now draw'.now (payload_data payload) t b in
        process_refused draw' layer' w' entity t' event_id integrity_error a b' c
          (insert_again draw draw' topic entity t t' (Json.obj payload) _ _ _ w w' e d known)

  -- A message that was processed and is delivered again while its event is in the table changes
  -- neither the table nor the web sockets: it is committed and counted as a duplicate, whatever
  -- identifiers and clock the second delivery draws, and whether or not the sockets work by then.
  pub handle_again :
      (draw draw' : Draw) (layer layer' : Layer) (m : Message) (payload : Fields) (w w' : World)
      (e : AuditEvent)
      → m.value ≡ some (Json.obj payload)
      → (process_event rt lib draw layer payload m.topic w).0 ≡ ok e
      → has_event e.event_id w'.events ≡ true
      → handle rt lib draw' layer' m w' ≡ (ok tt, note m duplicate (commit m w'))
  unfolding handle
  handle_again draw draw' layer layer' m payload w w' e value h known =
      rw (value, process_again payload m.topic draw draw' layer layer' w w' e h known) refl
