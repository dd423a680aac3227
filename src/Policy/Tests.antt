-- ===== src/Policy/Tests.antt =====
-- The policy service on two policies, one active and one cancelled.
use risk_core.Prelude.{
  arith, ℕ, suc, ◌+◌, ◌≡◌, ◌≢◌, refl, true, ◌&&◌, none, some, List, [], ◌∷◌, ◌++◌, codes, count,
  find_row,
}
use risk_core.Prelude.Int.{pos}
use risk_core.Runtime.{Runtime, Draw}
use risk_core.Action.{ok}
use risk_core.Numbering.{Vendor, generate_policy_number, prefix, pad6, to_int, last_part}
use risk_core.Outbox.{OutboxEvent, Status as OutboxStatus}
use risk_core.Policy.{Customer, Policy, PolicyType, Status, World, policy_id, is_active}
use risk_core.Policy.Events.{build_cancelled}
use risk_core.Policy.Service.{
  CoverageData, PolicyData, PolicyChanges, cancel_policy, update_policy, is_open, set_fields, touch,
  refused,
}
use risk_core.Policy.Create.{create_policy}
use risk_core.Policy.Told.{Tells}
use risk_core.Policy.Issue.{IsAhead, issue_returns}
use risk_core.Policy.Requests.{Request, perform, serve}
use risk_core.Policy.Changes.{SameTables, perform_error}
use risk_core.Policy.Customers.{CustomerData, create_all}
use risk_core.Policy.Lifecycle.{
  SameIdentity, cancel_effect, update_keeps, update_after_close, closed_stays,
}
use risk_core.Policy.Queries.{get_count, get_metrics, of_type}
use risk_core.Policy.Reports.{get_metrics_by_type}

abbrev rt : Runtime
rt = record {
  uuid_str = λ u. suc u ∷ [];
  parse_uuid = λ t. elim t [ [] ↦ none | c ∷ _ ↦ some c ];
  decimal_str = λ _. codes "0.00";
  datetime_iso = λ t. t ∷ [];
  date_iso = λ d. d ∷ [];
  parse_date = λ t. elim t [ [] ↦ none | c ∷ _ ↦ some c ];
  parse_datetime = λ t. elim t [ [] ↦ none | c ∷ _ ↦ some c ];
}

abbrev draw : Draw
draw = record { uuid = λ k. 100 + k; now = 9; stored = λ _. true }

abbrev policy : ℕ → Status → Policy
policy id status = record {
  id = id;
  policy_number = codes "POL-2026-00000" ++ (48 + id) ∷ [];
  customer_id = 7;
  policy_type = PolicyType.auto;
  status = status;
  premium_amount = pos 500;
  start_date = 20;
  end_date = 30;
  description = [];
  cancellation_reason = [];
  created_at = 1;
  updated_at = 1;
}

abbrev ann : Customer
ann = record {
  id = 7;
  full_name = codes "Ann";
  email = codes "ann@x.es";
  dni = codes "1A";
  phone = [];
  address = [];
  created_at = 0;
  updated_at = 0;
}

abbrev world : World
world = record {
  customers = ann ∷ [];
  policies = policy 1 Status.active ∷ policy 2 Status.cancelled ∷ [];
  coverages = [];
  outbox = [];
  sequence = 2;
  policies_created_total = [];
  policies_cancelled_total = 0;
}

abbrev changes : PolicyChanges
changes = record {
  premium_amount = some (pos 900);
  start_date = none;
  end_date = none;
  description = none;
  policy_type = none;
}

abbrev request : PolicyData
request = record {
  customer_id = some 7;
  policy_type = PolicyType.home;
  premium_amount = pos 100;
  start_date = 40;
  end_date = 50;
  description = none;
}

creates_third :
    let (r, w) = create_policy rt Vendor.postgresql 2026 draw request none world in
    (find_row policy_id 100 w.policies
      ≡ some (record (policy 3 Status.active) {
        id = 100;
        policy_type = PolicyType.home;
        premium_amount = pos 100;
        start_date = 40;
        end_date = 50;
        created_at = 9;
        updated_at = 9;
      }))
    × (w.sequence ≡ 3)
unfolding create_policy generate_policy_number
creates_third = (refl, refl)

abbrev glass : List CoverageData
glass =
    (record { coverage_type = codes "glass"; coverage_amount = pos 70; description = none }) ∷ []

abbrev third : Policy
third = record (policy 3 Status.active) {
  id = 100;
  policy_type = PolicyType.home;
  premium_amount = pos 100;
  start_date = 40;
  end_date = 50;
  created_at = 9;
  updated_at = 9;
}

world-IsAhead : IsAhead world
unfolding to_int last_part
world-IsAhead = ((1, refl, omega arith), ((2, refl, omega arith), tt))

issue_returns_example :
    let (r, w') = create_policy rt Vendor.postgresql 2026 draw request (some glass) world in
    (p : Policy) × (r ≡ ok p)
    × (p.policy_number ≡ prefix (codes "POL") 2026 ++ pad6 3)
    × (w'.sequence ≡ 3)
    × IsAhead w'
issue_returns_example =
    issue_returns rt draw 2026 request (some glass) world 7 refl refl world-IsAhead (λ k. refl)

perform_error_example :
    SameTables world (perform rt draw (Request.cancel (policy 2 Status.cancelled) []) world).1
unfolding perform
perform_error_example =
    perform_error rt draw (Request.cancel (policy 2 Status.cancelled) []) world
      {e = refused (policy 2 Status.cancelled)} refl

abbrev cancelled : Policy
cancelled = record (policy 1 Status.cancelled) {
  cancellation_reason = codes "moved";
  updated_at = 9;
}

cancel_effect_example :
    let w' = (cancel_policy rt draw (policy 1 Status.active) (codes "moved") world).1 in
    (cancelled.status ≡ Status.cancelled)
    × (cancelled.cancellation_reason ≡ codes "moved")
    × (find_row policy_id 1 w'.policies ≡ some cancelled)
    × ((j : ℕ) → j ≢ 1 → find_row policy_id j w'.policies ≡ find_row policy_id j world.policies)
    × ((row : Policy) × (find_row policy_id 1 world.policies ≡ some row)
        × (is_open row.status ≡ true))
    × ((e : OutboxEvent) × (w'.outbox ≡ world.outbox ++ e ∷ [])
        × (e.topic ≡ codes "policy.cancelled")
        × (e.aggregate_id ≡ 1)
        × (e.status ≡ OutboxStatus.pending)
        × (e.payload ≡ build_cancelled rt 100 9 cancelled))
unfolding cancel_policy
cancel_effect_example =
    cancel_effect rt draw (policy 1 Status.active) cancelled (codes "moved") world refl

update_keeps_example :
    (r' : Policy) × (find_row policy_id 1
        (update_policy rt draw (policy 1 Status.active) changes world).1.policies
      ≡ some r')
    × SameIdentity (policy 1 Status.active) r'
update_keeps_example =
    update_keeps rt draw (policy 1 Status.active) (policy 1 Status.active) changes world 1 refl

update_after_close_example :
    let q = touch 9 (set_fields changes (policy 2 Status.active)) in
    ((update_policy rt draw (policy 2 Status.active) changes world).0 ≡ ok q)
    × (find_row policy_id 2
          (update_policy rt draw (policy 2 Status.active) changes world).1.policies
        ≡ some (touch 9 (set_fields changes (policy 2 Status.cancelled))))
    × (q.status ≡ Status.active)
    × (q.status ≢ Status.cancelled)
    × ((e : OutboxEvent) × ((update_policy rt draw (policy 2 Status.active) changes world).1.outbox
          ≡ world.outbox ++ e ∷ [])
        × (e.topic ≡ codes "policy.updated")
        × (e.aggregate_id ≡ 2)
        × Tells rt (codes "policy.updated") 9 q e.payload)
update_after_close_example =
    update_after_close rt draw (policy 2 Status.active) (policy 2 Status.cancelled) changes world
      refl refl refl refl (λ k. refl)

closed_stays_example :
    (r' : Policy) × (find_row policy_id 2
        (serve rt
          ((draw, Request.partial_update (policy 2 Status.active) changes) ∷ [])
          world).policies
      ≡ some r')
    × (r'.status ≡ Status.cancelled)
closed_stays_example =
    closed_stays rt ((draw, Request.partial_update (policy 2 Status.active) changes) ∷ []) world 2
      (policy 2 Status.cancelled) refl refl

get_metrics_by_type_example :
    let m = get_metrics rt 5 world.policies in
    ((t : PolicyType)
      → get_count t m.policies_by_type
        ≡ some (count (λ p. is_active p && of_type t p) world.policies))
    × (count (λ p. is_active p && of_type PolicyType.life p) world.policies
          + count (λ p. is_active p && of_type PolicyType.health p) world.policies
          + count (λ p. is_active p && of_type PolicyType.auto p) world.policies
          + count (λ p. is_active p && of_type PolicyType.home p) world.policies
          + count (λ p. is_active p && of_type PolicyType.business p) world.policies
        ≡ m.active_policies)
get_metrics_by_type_example = get_metrics_by_type rt 5 world.policies

abbrev joining : CustomerData
joining = record {
  full_name = codes "Bo";
  email = codes "bo@x.es";
  dni = codes "2B";
  phone = [];
  address = [];
}

-- The second creation has validators that saw the table before the first.
abbrev joined : List Customer
joined =
    create_all ((draw, joining, world.customers) ∷ (draw, joining, world.customers) ∷ [])
      world.customers
