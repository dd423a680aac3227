-- ===== src/Integration/Tests.antt =====
-- The claims service and the policy service together, on one policy.
use Prim.Native.String.{String}
use mathlib.Core.List.Permᴰ
use mathlib.Core.List.Memᴰ.{head, tail}
use risk_core.Prelude.{
  ℕ, ◌+◌, ◌≡◌, refl, arith, sym, ap, Bool, true, false, none, some, List, [], ◌∷◌, ◌++◌, Text,
  text_eq, codes, count, find_row,
}
use risk_core.Prelude.Int.{pos}
use risk_core.Action.{ok}
use risk_core.Json.{Json}
use risk_core.Runtime.{Draw}
use risk_core.Outbox.{OutboxEvent, new_event, is_published}
use risk_core.Outbox.Relay.{
  Environment, RelayState, Message, row_id, select_batch, publish_one, publish_all, after_produce,
  observe, process_batch, run_batches,
}
use risk_core.Policy.Events.{build_created}
use risk_core.Audit.{World as AuditWorld}
use risk_core.Audit.Service.{
  Library, Layer, process_event, extract_entity, insert_event, broadcast_to_websocket,
}
use risk_core.Audit.Consumer.{run}
use risk_core.Audit.Consumer as Consumer
use risk_core.Integration.Pipeline.{Delivers, run_batches_once}
use risk_core.Samples.{rt, faithful, draw, policy}
use risk_core.Numbering.{generate_claim_number}
use risk_core.Policy.{Policy, World, Status, policy_id}
use risk_core.Policy.Views.{verify_view}
use risk_core.Claims.{IncidentType, World as ClaimsWorld}
use risk_core.Claims.Service.{ClaimData, new_claim}
use risk_core.Claims.Client.{HttpResult}
use risk_core.Claims.Requests.{create}
use risk_core.Integration.Verification.{create_active}

abbrev key : Text → String
key t = "reason"

abbrev tables : World
tables = record {
  customers = [];
  policies = policy ∷ [];
  coverages = [];
  outbox = [];
  sequence = 1;
  policies_created_total = [];
  policies_cancelled_total = 0;
}

abbrev empty : ClaimsWorld
empty = record {
  claims = [];
  history = [];
  outbox = [];
  claims_filed_total = [];
  claims_status_changed_total = [];
}

abbrev call : ℕ → HttpResult → ℕ × Bool
call n r = (n + 1, false)

abbrev request : ClaimData
request = record {
  policy_id = 3;
  claimant_name = codes "Ann";
  claimant_email = codes "ann@x.es";
  incident_date = 0;
  incident_type = IncidentType.robo;
  description = [];
  estimated_damage = pos 500;
  location = none;
}

create_active_example :
    (p : Policy) × (find_row policy_id 3 tables.policies ≡ some p) × (p.status ≡ Status.active)
unfolding create generate_claim_number verify_view
create_active_example =
    create_active rt faithful key (codes "r") 2026 draw call request 0 tables empty
      (new_claim draw request (codes "CLM-2026-000001")) refl

-- A relay whose producer is a list, and one event in the outbox.
abbrev listed : Environment (List (Message Json)) Json
listed = record {
  produce = λ log m. (log ++ m ∷ [], none);
  dumps = λ j. j;
  uuid_str = λ u. u ∷ [];
  order_by = λ rows. rows;
  now = λ e. 9;
}

abbrev outbox_event : OutboxEvent
outbox_event =
    new_event 1 (codes "policy") 3 (codes "policy.created") (codes "policy.created") []
      (build_created rt 11 8 policy) 8

abbrev nothing : OutboxEvent → Bool
nothing _ = false

abbrev relay : RelayState (List (Message Json))
relay = record {
  rows = outbox_event ∷ [];
  producer = [];
  published_total = [];
  failed_total = [];
  lag_seconds = [];
  pending_gauge = 1;
}

abbrev lib : Library
lib = record { str_of = λ _. codes "None"; parse_datetime = λ t. ok (rt.parse_datetime t) }

abbrev audit : AuditWorld
audit = record { events = []; broadcasts = []; commits = []; messages_processed_total = [] }

abbrev received : Consumer.Message
received = record {
  topic = codes "policy.created";
  partition = 0;
  offset = 5;
  value = some (build_created rt 11 8 policy);
}

-- Kafka delivers the event twice.
abbrev twice : List (Draw × Layer × Consumer.Message)
twice = (draw, Layer.broken, received) ∷ (draw, Layer.working, received) ∷ []

twice-Delivers : Delivers some (run_batches listed 10 nothing relay).producer twice
unfolding run_batches process_batch select_batch publish_all publish_one after_produce observe
twice-Delivers m (head same) = (
  draw,
  Layer.broken,
  received,
  head refl,
  sym (ap (λ r. r.topic) same),
  ap some (sym (ap (λ r. r.value) same)),
)
twice-Delivers m (tail h) = elim h [ ]

run_batches_once_example :
    ((row : OutboxEvent) × (find_row row_id 1 (run_batches listed 10 nothing relay).rows ≡ some row)
      × (is_published row ≡ true))
    × (count (λ r. text_eq r.event_id (11 ∷ [])) (run rt lib twice audit).1.events ≡ 1)
unfolding build_created process_event extract_entity insert_event broadcast_to_websocket
run_batches_once_example =
    run_batches_once listed (λ log m. refl) Permᴰ.refl some (λ j. refl) 10 relay (refl, tt)
      (ground arith) (omega arith) rt lib twice twice-Delivers (refl, (refl, tt)) audit tt
      outbox_event refl refl _ refl draw Layer.no_layer audit _ refl
