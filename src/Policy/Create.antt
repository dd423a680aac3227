-- ===== src/Policy/Create.antt =====
-- policy-service/apps/policies/services.py, create_policy, with Policy.save of models.py.
use risk_core.Prelude.{
  Bool, true, false, ◌||◌, ℕ, ◌+◌, Option, none, some, List, [], ◌∷◌, ◌++◌, map, Text, codes,
  text_eq, any, length, ◌==◌, find_row, if◌then◌else◌,
}
use risk_core.Runtime.{Runtime, Draw}
use risk_core.Action.{guard, ◌>>◌, Action, ok, err, pure, gets, or_raise, modify, ◌>>=◌}
use risk_core.Numbering.{Vendor, generate_policy_number}
use risk_core.Policy.{Policy, Status, Coverage, World, customer_id}
use risk_core.Policy.Errors.{
  database_error, Error, customer_not_found, integrity_error, value_error,
}
use risk_core.Policy.Events.{build_created, emit_policy_event}
use risk_core.Policy.Service.{PolicyData, CoverageData, transaction}

abbrev pub or_empty : Option Text → Text
or_empty none = []
or_empty (some t) = t

abbrev pub find_customer : Option ℕ → World → Option ℕ
find_customer none w = none
find_customer (some id) w = elim (find_row customer_id id w.customers) [
  | none ↦ none
  | some c ↦ some c.id
]

-- Two rows that the database does not hold at once: a primary key and a unique column.
abbrev pub clashes : Policy → Policy → Bool
clashes p q = q.id == p.id || text_eq p.policy_number q.policy_number

-- `Policy.objects.create(…)` with `Policy.save`: the number is generated, and the unique columns
-- are checked by the database; every value is taken to fit its column. A call of `nextval` stays
-- when the insert fails.
unfoldable pub insert_numbered : Draw → ℕ → PolicyData → Option Text × ℕ → Action World Error Policy
insert_numbered draw customer request (none, sequence) w =
    (err value_error, record w { sequence = sequence })
insert_numbered draw customer request (some policy_number, sequence) w =
    let p : Policy = record {
      id = draw.uuid 0;
      policy_number = policy_number;
      customer_id = customer;
      policy_type = request.policy_type;
      status = Status.active;
      premium_amount = request.premium_amount;
      start_date = request.start_date;
      end_date = request.end_date;
      description = or_empty request.description;
      cancellation_reason = [];
      created_at = draw.now;
      updated_at = draw.now;
    } in
    if any (clashes p) w.policies
    then (err integrity_error, record w { sequence = sequence })
    else (ok p, record w { policies = w.policies ++ p ∷ []; sequence = sequence })

unfoldable pub insert_policy : Vendor → ℕ → Draw → ℕ → PolicyData → Action World Error Policy
unfolding insert_numbered
insert_policy vendor year draw customer request w =
    insert_numbered draw customer request
      (generate_policy_number vendor year w.sequence (map (λ p. p.policy_number) w.policies)) w

-- `Coverage(…) for c in coverages_data`; the k-th draws the identifier `uuid k`.
abbrev pub new_coverages : (ℕ → ℕ) → ℕ → ℕ → List CoverageData → List Coverage
new_coverages uuid k policy [] = []
new_coverages uuid k policy (c ∷ rest) =
    record {
      id = uuid k;
      policy_id = policy;
      coverage_type = c.coverage_type;
      coverage_amount = c.coverage_amount;
      description = or_empty c.description;
    }
    ∷ new_coverages uuid (k + 1) policy rest

-- `coverages_data` is None or a list; an empty list creates nothing, as None does.
abbrev pub coverage_list : Option (List CoverageData) → List CoverageData
coverage_list none = []
coverage_list (some cs) = cs

abbrev pub has_none : List CoverageData → Bool
has_none [] = true
has_none (_ ∷ _) = false

unfoldable pub create_policy :
    Runtime
    → Vendor
    → ℕ
    → Draw
    → PolicyData
    → Option (List CoverageData)
    → Action World Error Policy
unfolding insert_policy build_created emit_policy_event
create_policy rt vendor year draw request coverages_data = do
  customer ←
      or_raise (← gets (find_customer request.customer_id)) (customer_not_found request.customer_id)
  let cs = coverage_list coverages_data
  policy ← transaction (do
    p ← insert_policy vendor year draw customer request
    guard (has_none cs || draw.stored 0) database_error
    modify (λ w. record w { coverages = w.coverages ++ new_coverages draw.uuid 1 p.id cs })
    emit_policy_event rt (draw.stored 1) (draw.uuid (2 + length cs)) draw.now p
        (codes "policy.created") (build_created rt (draw.uuid (1 + length cs)) draw.now p)
    pure p)
  modify (λ w. record w {
    policies_created_total = w.policies_created_total ++ policy.policy_type ∷ [];
  })
  pure policy
