-- ===== src/Claims/Client.antt =====
-- claims-service/apps/claims/clients.py: the call of the policy service behind a circuit breaker.
-- `httpx` and `pybreaker` are libraries: what a request comes to is an argument, and the breaker
-- is a state with a function that says whether it raises CircuitBreakerError in place of the
-- outcome of the call.
use risk_core.Prelude.{
  ℕ, Bool, true, false, not, ◌&&◌, Option, none, some, List, [], ◌∷◌, ◌++◌, codes, is_nonempty, leb,
  ltb, ◌==◌, if◌then◌else◌,
}
use risk_core.Json.{Json, Items, Fields, get_or}
use risk_core.Action.{Result, ok, err}
use risk_core.Claims.Errors.{Error, policy_service_unavailable, policy_inactive, unexpected}

-- A response has a status and a body; the body is `none` where it is no JSON.
pub data HttpOutcome : Type 0 where
  response : ℕ → Option Json → HttpOutcome
  request_error : HttpOutcome

-- What `_http_verify` returns or raises.
pub data HttpResult : Type 0 where
  data_of : Json → HttpResult
  business_error : ℕ → Json → HttpResult
  infra_error decode_error : HttpResult

-- `raise_for_status` raises for every status outside 200 to 299.
unfoldable pub http_verify : HttpOutcome → HttpResult
http_verify request_error = infra_error
http_verify (response status body) =
    if leb 200 status && ltb status 300
    then (elim body [ none ↦ decode_error | some j ↦ data_of j ])
    else if leb 400 status && ltb status 500
    then (elim body [ none ↦ decode_error | some j ↦ business_error status j ])
    else infra_error

-- `bool(value)`
abbrev pub truthy : Json → Bool
truthy Json.null = false
truthy (Json.bool b) = b
truthy (Json.num n) = not (n == 0)
truthy (Json.str s) = is_nonempty s
truthy (Json.arr Items.nil) = false
truthy (Json.arr (Items.cons _ _)) = true
truthy (Json.obj Fields.end) = false
truthy (Json.obj (Fields.field _ _ _)) = true

-- The lines after the `try` statement; only a dict has `get`.
unfoldable pub check_data : ℕ → Json → Result Error Json
check_data policy_id (Json.obj fields) =
    if truthy (get_or "is_valid" Json.null fields)
    then ok (Json.obj fields)
    else err (policy_inactive (some policy_id) (get_or "status" Json.null fields))
check_data policy_id _ = err unexpected

-- The `except` clauses, and what follows a call that returns.
unfoldable pub after_call : ℕ → Bool → HttpResult → Result Error Json
unfolding check_data
after_call policy_id true _ = err (policy_service_unavailable (some policy_id))
after_call policy_id false (data_of j) = check_data policy_id j
after_call policy_id false (business_error status j) =
    if status == 404
    then err (policy_inactive (some policy_id) (Json.str (codes "NOT_FOUND")))
    else err (policy_service_unavailable (some policy_id))
after_call policy_id false infra_error = err (policy_service_unavailable (some policy_id))
after_call policy_id false decode_error = err unexpected

-- `verify_policy`: the result, and the breaker afterwards.
unfoldable pub verify_policy :
    {Br : Type 0} → (Br → HttpResult → Br × Bool) → Br → ℕ → HttpOutcome → Result Error Json × Br
unfolding http_verify after_call
verify_policy call breaker policy_id outcome =
    let (breaker', refused) = call breaker (http_verify outcome) in
    (after_call policy_id refused (http_verify outcome), breaker')

-- The names of pybreaker's states.
pub data BreakerState : Type 0 where
  closed open_ half_open : BreakerState

pub record BreakerMetrics : Type 0 where
  pub state : ℕ
  pub changes : List (BreakerState × BreakerState)

-- `_BreakerMetrics.state_change`
unfoldable pub state_change : BreakerState → BreakerState → BreakerMetrics → BreakerMetrics
state_change old_state new_state m = record {
  state = elim new_state [ closed ↦ 0 | open_ ↦ 1 | half_open ↦ 2 ];
  changes = m.changes ++ (old_state, new_state) ∷ [];
}
