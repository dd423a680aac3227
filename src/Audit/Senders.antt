-- ===== src/Audit/Senders.antt =====
-- The events that the policy service and the claims service send, as the audit service keeps them.
use risk_core.Prelude.{
  ℕ, ◌≡◌, refl, true, false, Option, none, some, [], ◌∷◌, ◌++◌, Text, codes, is_nonempty, or_text,
  length, leb,
}
use risk_core.Prelude.Int.{ℤ}
use risk_core.Json.{Json, Fields, put}
use risk_core.Runtime.{Runtime, Draw, IsFaithful}
use risk_core.Action.{ok}
use risk_core.Policy.{Policy}
use risk_core.Policy.Events as PolicyEvents
use risk_core.Claims.{Claim, Status, status_text}
use risk_core.Claims.Events as ClaimEvents
use risk_core.Audit.{AuditEvent, processed, World}
use risk_core.Audit.Service.{
  Library, working, extract_entity, insert_event, process_event, broadcast_to_websocket, has_event,
}
use risk_core.Audit.Consumer.{Message, handle, commit, note}

-- The dict that both services send.
abbrev event : Runtime → Text → ℕ → ℕ → Text → Fields → Fields
event rt event_type event_id t service d =
    Fields.field "event_id" (Json.str (rt.uuid_str event_id)) (
      Fields.field "event_type" (Json.str event_type) (
        Fields.field "occurred_at" (Json.str (rt.datetime_iso t)) (
          Fields.field "service" (Json.str service) (Fields.field "data" (Json.obj d) Fields.end))))

-- A message is kept as an event about one entity: a row is added and sent to the web sockets, and
-- the message is committed.
abbrev pub KeptAs : Runtime → Library → Draw → Message → World → Text → ℕ → Text → ℕ → Type 0
KeptAs rt lib draw m w entity_type entity_id service t =
    (e : AuditEvent) × (handle rt lib draw working m w ≡ (
      ok tt,
      note m processed (
          commit m (record w { events = w.events ++ e ∷ []; broadcasts = w.broadcasts ++ e ∷ [] })),
    ))
    × (e.entity_type ≡ entity_type)
    × (e.entity_id ≡ entity_id)
    × (e.service ≡ service)
    × (e.occurred_at ≡ t)

or_text-kept : (s d : Text) → is_nonempty s ≡ true → or_text s d ≡ s
or_text-kept [] d h = absurd (cc)
or_text-kept (c ∷ s) d h = refl

-- The data of an event of a claim that moves.
abbrev status_data : Runtime → Option ℤ → Claim → Status → Status → Fields
status_data rt amount c from_status to_status = ClaimEvents.put_amount rt amount (
    put "to_status" (Json.str (status_text to_status))
      (put "from_status" (Json.str (status_text from_status)) (ClaimEvents.base_data rt c)))

status_entity :
    (rt : Runtime) (lib : Library) (event_id t : ℕ) (amount : Option ℤ) (c : Claim)
    (from_status to_status : Status)
    → extract_entity lib (
        event rt
          (codes "claim.status_changed")
          event_id
          t
          (codes "claims-service")
          (status_data rt amount c from_status to_status))
      ≡ ok (codes "claim", rt.uuid_str c.id)
unfolding ClaimEvents.put_amount ClaimEvents.base_data extract_entity
status_entity rt lib event_id t none c from_status to_status = refl
status_entity rt lib event_id t (some a) c from_status to_status = refl

module _ (rt : Runtime) (faithful : IsFaithful rt) (lib : Library) (draw : Draw) (m : Message)
    (w : World) (event_id t : ℕ) (parsed : lib.parse_datetime (rt.datetime_iso t) ≡ ok (some t))
    (new : has_event (rt.uuid_str event_id) w.events ≡ false)
    (short : leb (length (rt.uuid_str event_id)) 100 ≡ true)
    (short_topic : leb (length m.topic) 100 ≡ true) where
  abbrev kept : Text → ℕ → Text → Text → Json → AuditEvent
  kept entity_type entity_id event_type service payload = record {
    id = draw.uuid 0;
    event_id = rt.uuid_str event_id;
    event_type = event_type;
    kafka_topic = m.topic;
    entity_type = entity_type;
    entity_id = entity_id;
    service = service;
    occurred_at = t;
    received_at = draw.now;
    payload = payload;
  }

  kept_as :
      (entity_type event_type service : Text) (entity_id : ℕ) (d : Fields)
      → m.value ≡ some (Json.obj (event rt event_type event_id t service d))
      → extract_entity lib (event rt event_type event_id t service d)
        ≡ ok (entity_type, rt.uuid_str entity_id)
      → leb (length event_type) 100 ≡ true
      → leb (length service) 50 ≡ true
      → KeptAs rt lib draw m w entity_type entity_id service t
  unfolding handle process_event insert_event broadcast_to_websocket
  kept_as entity_type event_type service entity_id d value entity fits_type fits_service = (
    kept entity_type entity_id event_type service
        (Json.obj (event rt event_type event_id t service d)),
    rw (value, entity)
        (simp (
          parsed,
          or_text-kept (rt.uuid_str entity_id) _ (faithful.uuid_nonempty entity_id),
          faithful.uuid_back entity_id,
          short,
          fits_type,
          fits_service,
          short_topic,
          new,
        )),
    refl,
    refl,
    refl,
    refl,
  )

  -- The event of a created policy, once delivered to the audit service, is kept there as an event
  -- of the policy service about the entity "policy" with the policy's identifier, at the time at
  -- which it occurred; the message is committed. The hypotheses: identifiers and times can be read
  -- back, the event is new, and its identifier and topic fit their columns.
  pub build_created_kept :
      (p : Policy)
      → m.value ≡ some (PolicyEvents.build_created rt event_id t p)
      → KeptAs rt lib draw m w (codes "policy") p.id (codes "policy-service") t
  unfolding PolicyEvents.build_created extract_entity
  build_created_kept p value =
      kept_as (codes "policy") (codes "policy.created") (codes "policy-service") p.id _ value refl
        refl refl

  -- The event of a claim that moves is kept as an event of the claims service about the entity
  -- "claim" with the claim's identifier, although its data also names a policy, for every claim and
  -- every two statuses, under the same hypotheses.
  pub build_status_changed_kept :
      (c : Claim) (from_status to_status : Status)
      → m.value ≡ some (ClaimEvents.build_status_changed rt event_id t c from_status to_status)
      → KeptAs rt lib draw m w (codes "claim") c.id (codes "claims-service") t
  unfolding ClaimEvents.build_status_changed extract_entity
  build_status_changed_kept c from_status to_status value =
      kept_as (codes "claim") (codes "claim.status_changed") (codes "claims-service") c.id _ value
        (status_entity rt lib event_id t c.approved_amount c from_status to_status) refl refl
