-- ===== src/Samples.antt =====
-- The data of the examples that several services share.
use risk_core.Prelude.{true, ◌+◌, refl, none, some, [], ◌∷◌, codes}
use risk_core.Prelude.Int.{pos}
use risk_core.Runtime.{Runtime, Draw, IsFaithful}
use risk_core.Policy.{Policy, PolicyType, Status as PolicyStatus}
use risk_core.Claims.{Claim, Status, IncidentType}

-- A runtime that prints a number as the text of one code point.
abbrev pub rt : Runtime
rt = record {
  uuid_str = λ u. u ∷ [];
  parse_uuid = λ t. elim t [ [] ↦ none | c ∷ _ ↦ some c ];
  decimal_str = λ _. codes "0.00";
  datetime_iso = λ t. t ∷ [];
  date_iso = λ d. d ∷ [];
  parse_date = λ t. elim t [ [] ↦ none | c ∷ _ ↦ some c ];
  parse_datetime = λ t. elim t [ [] ↦ none | c ∷ _ ↦ some c ];
}

pub faithful : IsFaithful rt
faithful = record { uuid_back = λ u. refl; uuid_nonempty = λ u. refl; datetime_back = λ t. refl }

abbrev pub draw : Draw
draw = record { uuid = λ k. 50 + k; now = 9; stored = λ _. true }

abbrev pub policy : Policy
policy = record {
  id = 3;
  policy_number = codes "POL-2026-000001";
  customer_id = 7;
  policy_type = PolicyType.auto;
  status = PolicyStatus.active;
  premium_amount = pos 500;
  start_date = 20;
  end_date = 30;
  description = [];
  cancellation_reason = [];
  created_at = 1;
  updated_at = 1;
}

abbrev pub claim : Claim
claim = record {
  id = 4;
  claim_number = codes "CLM-2026-000001";
  policy_id = 3;
  claimant_name = codes "Ann";
  claimant_email = codes "ann@x.es";
  incident_date = 0;
  incident_type = IncidentType.robo;
  description = [];
  estimated_damage = pos 500;
  approved_amount = none;
  location = [];
  status = Status.filed;
  filed_at = 1;
  updated_at = 1;
}
