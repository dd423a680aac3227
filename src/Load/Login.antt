-- ===== src/Load/Login.antt =====
-- infra/load-testing/auth_helper.py and scenario_3_audit_read.py: the token that all users share, and
-- the requests of a user who reads the audit trail.
use risk_core.Prelude.{ℕ, Option, none, some, Text, codes, ◌++◌, ◌==◌, if◌then◌else◌}

-- How the login at the start ends: it leaves the token, or the test run ends by SystemExit, or an
-- answer of status 200 has no "access".
pub data Login : Type 0 where
  logged_in : Text → Login
  system_exit : ℕ → Login
  key_error : Login

-- `_fetch_token`, on the status of the response and the "access" of its body.
unfoldable pub fetch_token : ℕ → Option Text → Login
fetch_token status access =
    if status == 200
    then (elim access [ none ↦ key_error | some token ↦ logged_in token ])
    else system_exit status

-- The module's `_token` afterwards.
abbrev pub token_after : Option Text → Login → Option Text
token_after old (logged_in token) = some token
token_after old (system_exit _) = old
token_after old key_error = old

-- `shared_token`; `none` is RuntimeError.
abbrev pub shared_token : Option Text → Option Text
shared_token token = token

-- The header "Authorization" that `on_start` sets.
unfoldable pub authorization : Option Text → Option Text
authorization token = elim (shared_token token) [
  | none ↦ none
  | some t ↦ some (codes "Bearer " ++ t)
]

pub data AuditTask : Type 0 where
  list_audit filter_by_entity_type filter_by_kafka_topic filter_by_date filter_combined : AuditTask

abbrev pub weight : AuditTask → ℕ
weight list_audit = 4
weight filter_by_entity_type = 2
weight filter_by_kafka_topic = 2
weight filter_by_date = 1
weight filter_combined = 1

unfoldable pub query : AuditTask → Text
query list_audit = codes "page_size=50"
query filter_by_entity_type = codes "entity_type=policy"
query filter_by_kafka_topic = codes "kafka_topic=policy.created"
query filter_by_date = codes "from_date=2026-01-01&to_date=2026-12-31"
query filter_combined = codes "entity_type=claim&kafka_topic=claim.filed&page_size=100"

unfoldable pub path : AuditTask → Text
unfolding query
path t = codes "/api/audit/events/?" ++ query t
