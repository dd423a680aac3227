-- ===== src/Policy/Events.antt =====
-- policy-service/apps/policies/events.py: the payloads of policy events, and their outbox rows.
use Prim.Native.String.{String}
use risk_core.Prelude.{Bool, ℕ, [], ◌∷◌, ◌++◌, Text, codes}
use risk_core.Json.{Json, Fields, put}
use risk_core.Runtime.{Runtime}
use risk_core.Action.{Action, guard, modify, ◌>>◌}
use risk_core.Outbox.{new_event}
use risk_core.Policy.{Policy, World, policy_type_text, status_text}
use risk_core.Policy.Errors.{Error, database_error}

-- What `_date_to_str` is given: None, an object with `isoformat`, or anything else by its text.
pub data DateValue : Type 0 where
  missing : DateValue
  date : ℕ → DateValue
  other : Text → DateValue

unfoldable pub date_to_str : Runtime → DateValue → Json
date_to_str rt missing = Json.null
date_to_str rt (date d) = Json.str (rt.date_iso d)
date_to_str rt (other s) = Json.str s

infixr 6 ◌▸◌
abbrev ◌▸◌ : String × Json → Fields → Fields
(k, v) ▸ rest = Fields.field k v rest

-- The fields of `payload["data"]`.
unfoldable pub base_data : Runtime → Policy → Fields
unfolding date_to_str
base_data rt p =
    ("policy_id", Json.str (rt.uuid_str p.id))
    ▸ ("policy_number", Json.str p.policy_number)
    ▸ ("customer_id", Json.str (rt.uuid_str p.customer_id))
    ▸ ("policy_type", Json.str (policy_type_text p.policy_type))
    ▸ ("status", Json.str (status_text p.status))
    ▸ ("premium_amount", Json.str (rt.decimal_str p.premium_amount))
    ▸ ("start_date", date_to_str rt (date p.start_date))
    ▸ ("end_date", date_to_str rt (date p.end_date))
    ▸ Fields.end

-- `_base`, with the identifier and the time that it draws, around the given data.
unfoldable pub envelope : Runtime → Text → ℕ → ℕ → Fields → Json
envelope rt event_type event_id now fields = Json.obj (
    ("event_id", Json.str (rt.uuid_str event_id))
    ▸ ("event_type", Json.str event_type)
    ▸ ("occurred_at", Json.str (rt.datetime_iso now))
    ▸ ("service", Json.str (codes "policy-service"))
    ▸ ("data", Json.obj fields)
    ▸ Fields.end)

unfoldable pub build_created : Runtime → ℕ → ℕ → Policy → Json
unfolding envelope base_data
build_created rt event_id now p = envelope rt (codes "policy.created") event_id now (base_data rt p)

unfoldable pub build_updated : Runtime → ℕ → ℕ → Policy → Json
unfolding envelope base_data
build_updated rt event_id now p = envelope rt (codes "policy.updated") event_id now (base_data rt p)

unfoldable pub build_cancelled : Runtime → ℕ → ℕ → Policy → Json
unfolding envelope base_data
build_cancelled rt event_id now p =
    envelope rt (codes "policy.cancelled") event_id now
      (put "cancellation_reason" (Json.str p.cancellation_reason) (base_data rt p))

-- `emit_policy_event`, with the primary key that the row draws; the insert may raise.
unfoldable pub emit_policy_event :
    Runtime → Bool → ℕ → ℕ → Policy → Text → Json → Action World Error (Unit {0})
emit_policy_event rt stored row_id now p event_type payload = do
  guard stored database_error
  modify (λ w. record w {
    outbox =
        w.outbox
        ++ new_event row_id (codes "policy") p.id event_type event_type (rt.uuid_str p.id) payload
            now
          ∷ [];
  })
