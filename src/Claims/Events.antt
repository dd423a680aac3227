-- ===== src/Claims/Events.antt =====
-- claims-service/apps/claims/events.py: the payloads of claim events, and their outbox rows.
use risk_core.Prelude.{Bool, ℕ, Option, none, some, [], ◌∷◌, ◌++◌, Text, codes}
use risk_core.Prelude.Int.{ℤ}
use risk_core.Json.{Json, Fields, put}
use risk_core.Runtime.{Runtime}
use risk_core.Action.{Action, guard, modify, ◌>>◌}
use risk_core.Outbox.{new_event}
use risk_core.Claims.{Claim, Status, World, incident_type_text, status_text}
use risk_core.Claims.Errors.{Error, unexpected}

-- The fields of `_base_data`.
unfoldable pub base_data : Runtime → Claim → Fields
base_data rt c = Fields.field "claim_id" (Json.str (rt.uuid_str c.id)) (
    Fields.field "claim_number" (Json.str c.claim_number) (
      Fields.field "policy_id" (Json.str (rt.uuid_str c.policy_id)) (
        Fields.field "status" (Json.str (status_text c.status)) (
          Fields.field "incident_type" (Json.str (incident_type_text c.incident_type))
            (Fields.field "claimant_email" (Json.str c.claimant_email) Fields.end)))))

-- The dict that the three builders return, with the identifier and the time that they draw.
unfoldable pub envelope : Runtime → Text → ℕ → ℕ → Fields → Json
envelope rt event_type event_id now fields = Json.obj (
    Fields.field "event_id" (Json.str (rt.uuid_str event_id)) (
      Fields.field "event_type" (Json.str event_type) (
        Fields.field "occurred_at" (Json.str (rt.datetime_iso now)) (
          Fields.field "service" (Json.str (codes "claims-service"))
            (Fields.field "data" (Json.obj fields) Fields.end)))))

-- if claim.approved_amount is not None: data["approved_amount"] = …
unfoldable pub put_amount : Runtime → Option ℤ → Fields → Fields
put_amount rt none fields = fields
put_amount rt (some amount) fields = put "approved_amount" (Json.str (rt.decimal_str amount)) fields

unfoldable pub build_filed : Runtime → ℕ → ℕ → Claim → Json
unfolding base_data envelope
build_filed rt event_id now c =
    envelope rt (codes "claim.filed") event_id now
      (put "estimated_damage" (Json.str (rt.decimal_str c.estimated_damage)) (base_data rt c))

unfoldable pub build_status_changed : Runtime → ℕ → ℕ → Claim → Status → Status → Json
unfolding base_data envelope put_amount
build_status_changed rt event_id now c from_status to_status =
    envelope rt (codes "claim.status_changed") event_id now (
      put_amount rt c.approved_amount (
        put "to_status" (Json.str (status_text to_status))
          (put "from_status" (Json.str (status_text from_status)) (base_data rt c))))

unfoldable pub build_resolved : Runtime → ℕ → ℕ → Claim → Json
unfolding base_data envelope put_amount
build_resolved rt event_id now c =
    envelope rt (codes "claim.resolved") event_id now
      (put_amount rt c.approved_amount (base_data rt c))

-- `emit_claim_event`, with the primary key that the row draws; the insert may raise.
unfoldable pub emit_claim_event :
    Runtime → Bool → ℕ → ℕ → Claim → Text → Json → Action World Error (Unit {0})
emit_claim_event rt stored row now c event_type payload = do
  guard stored unexpected
  modify (λ w. record w {
    outbox =
        w.outbox
        ++ new_event row (codes "claim") c.id event_type event_type (rt.uuid_str c.id) payload now
          ∷ [];
  })
