-- ===== src/Audit/Tests.antt =====
-- The audit service on the events of one policy and one claim, and a table filled by three events.
use risk_core.Prelude.{
  if◌then◌else◌, text_eq, none, some, ℕ, ◌≡◌, ◌≤◌, refl, true, List, [], ◌∷◌, arith, Text, codes,
  length, any, All,
}
use risk_core.Json.{Json, Fields}
use risk_core.Action.{ok}
use risk_core.Samples.{rt, draw, policy, claim}
use risk_core.Policy.Events as PolicyEvents
use risk_core.Claims.{Status}
use risk_core.Claims.Events as ClaimEvents
use risk_core.Audit.{AuditEvent, World}
use risk_core.Audit.Service.{Library, Layer}
use risk_core.Audit.Consumer.{Message, run}
use risk_core.Audit.Unique.{IsUnique, run-IsUnique}
use risk_core.Audit.Sockets.{Tokens, Sockets, Happening, react_all}
use risk_core.Audit.Authorized.{admits, react_all_lem}
use risk_core.Audit.Seed.{SeedDraw, seed, seed_count, batch_size}

abbrev lib : Library
lib = record { str_of = λ _. codes "None"; parse_datetime = λ t. ok (rt.parse_datetime t) }

abbrev empty : World
empty = record { events = []; broadcasts = []; commits = []; messages_processed_total = [] }

abbrev message : Text → Json → Message
message topic payload = record { topic = topic; partition = 0; offset = 5; value = some payload }

abbrev created : Message
created = message (codes "policy.created") (PolicyEvents.build_created rt 11 8 policy)

abbrev moved : Message
moved =
    message (codes "claim.status_changed")
      (ClaimEvents.build_status_changed rt 12 8 claim Status.under_review Status.rejected)

abbrev small : Fields
small =
    Fields.field "event_id" (Json.str (codes "x"))
      (Fields.field "occurred_at" (Json.str (8 ∷ [])) Fields.end)

abbrev small_event : AuditEvent
small_event = record {
  id = 50;
  event_id = codes "x";
  event_type = [];
  kafka_topic = codes "policy.created";
  entity_type = codes "policy";
  entity_id = 48;
  service = [];
  occurred_at = 8;
  received_at = 9;
  payload = Json.obj small;
}

abbrev seed_draw : ℕ → SeedDraw
seed_draw k = record {
  id = k;
  event_id = k;
  topic = codes "claim.filed";
  entity_id = k;
  service = codes "claims-service";
  hours = 1;
  seconds = 2;
  payload_id = k;
  now = 9;
}

seed_count_example :
    (length (seed rt true 9 3 seed_draw (record { events = small_event ∷ []; batches = [] })).events
      ≡ 3)
    × All
        (λ n. n ≤ batch_size)
        (seed rt true 9 3 seed_draw (record { events = small_event ∷ []; batches = [] })).batches
seed_count_example =
    seed_count rt 9 3 seed_draw (record { events = small_event ∷ []; batches = [] }) (omega arith)
      tt

run-IsUnique_example :
    IsUnique
      (run rt lib
        ((draw, Layer.broken, created)
          ∷ (draw, Layer.working, created)
          ∷ (draw, Layer.working, moved)
          ∷ [])
        empty).1.events
run-IsUnique_example =
    run-IsUnique rt lib
      ((draw, Layer.broken, created)
        ∷ (draw, Layer.working, created)
        ∷ (draw, Layer.working, moved)
        ∷ [])
      empty tt

-- The library accepts one token, of user 1.
abbrev tokens : Tokens
tokens = record {
  str_of = λ v. codes "1";
  access_token = λ t.
      if text_eq t (codes "x") then some (Fields.field "user_id" (Json.num 1) Fields.end) else none;
}

abbrev closed_sockets : Sockets
closed_sockets = record { group = []; accepted = []; closed = []; sent = [] }

abbrev happenings : List Happening
happenings =
    Happening.opening 1 none
    ∷ Happening.opening 3 (some (codes "expired" ∷ []))
    ∷ Happening.opening 2 (some (codes "x" ∷ []))
    ∷ Happening.saving small_event
    ∷ Happening.closing 2
    ∷ []

sends_to_user : (react_all tokens happenings closed_sockets).sent ≡ (2, small_event) ∷ []
unfolding react_all
sends_to_user = refl

react_all_lem_example :
    All
      (λ c. any (admits tokens c) happenings ≡ true)
      (react_all tokens happenings closed_sockets).group
    × All {A = ℕ × AuditEvent}
        (λ m. any (admits tokens m.0) happenings ≡ true)
        (react_all tokens happenings closed_sockets).sent
react_all_lem_example = react_all_lem tokens happenings closed_sockets refl refl
