-- ===== src/Policy/Told.antt =====
-- What the payload of a policy event tells a reader, by the keys of its dicts.
use risk_core.Prelude.{ℕ, ◌≡◌, refl, Text, codes}
use risk_core.Json.{Json, Fields, get_or}
use risk_core.Runtime.{Runtime}
use risk_core.Policy.{Policy, policy_type_text, status_text}
use risk_core.Policy.Events.{build_created, build_updated}

-- An event of the given type and time about p, with all of its data.
abbrev pub Tells : Runtime → Text → ℕ → Policy → Json → Type 0
Tells rt event_type now p payload =
    (fields : Fields) × (fields_of_data : Fields) × (payload ≡ Json.obj fields)
    × (get_or "event_type" Json.null fields ≡ Json.str event_type)
    × (get_or "occurred_at" Json.null fields ≡ Json.str (rt.datetime_iso now))
    × (get_or "service" Json.null fields ≡ Json.str (codes "policy-service"))
    × (get_or "data" Json.null fields ≡ Json.obj fields_of_data)
    × (get_or "policy_id" Json.null fields_of_data ≡ Json.str (rt.uuid_str p.id))
    × (get_or "policy_number" Json.null fields_of_data ≡ Json.str p.policy_number)
    × (get_or "customer_id" Json.null fields_of_data ≡ Json.str (rt.uuid_str p.customer_id))
    × (get_or "policy_type" Json.null fields_of_data ≡ Json.str (policy_type_text p.policy_type))
    × (get_or "status" Json.null fields_of_data ≡ Json.str (status_text p.status))
    × (get_or "premium_amount" Json.null fields_of_data
        ≡ Json.str (rt.decimal_str p.premium_amount))
    × (get_or "start_date" Json.null fields_of_data ≡ Json.str (rt.date_iso p.start_date))
    × (get_or "end_date" Json.null fields_of_data ≡ Json.str (rt.date_iso p.end_date))

module _ (rt : Runtime) (event_id now : ℕ) (p : Policy) where
  pub build_created-Tells :
      Tells rt (codes "policy.created") now p (build_created rt event_id now p)
  unfolding build_created
  build_created-Tells =
      (_, _, refl, refl, refl, refl, refl, refl, refl, refl, refl, refl, refl, refl, refl)

  pub build_updated-Tells :
      Tells rt (codes "policy.updated") now p (build_updated rt event_id now p)
  unfolding build_updated
  build_updated-Tells =
      (_, _, refl, refl, refl, refl, refl, refl, refl, refl, refl, refl, refl, refl, refl)
