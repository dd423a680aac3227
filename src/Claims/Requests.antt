-- ===== src/Claims/Requests.antt =====
-- claims-service/apps/claims/views.py, the actions of ClaimViewSet that write: create and
-- transition, with `get_object`.
use risk_core.Prelude.{ℕ, Bool, some, List, [], ◌∷◌, find_row, if◌then◌else◌}
use risk_core.Json.{Json}
use risk_core.Runtime.{Runtime, Draw, date_of}
use risk_core.Action.{Action, Result, err, guard, or_raise, ◌>>=◌, ◌>>◌}
use risk_core.Claims.{Claim, World, row_id}
use risk_core.Claims.Errors.{Error, claim_not_found, invalid_data}
use risk_core.Claims.Client.{HttpOutcome, HttpResult, verify_policy}
use risk_core.Claims.Service.{
  ClaimData, TransitionData, file_claim, transition_status, validate_incident_date,
  validate_transition,
}

-- `create`: what the breaker and the tables are afterwards, and the claim or the error.
unfoldable pub create :
    {Br : Type 0}
    → Runtime
    → ℕ
    → Draw
    → (Br → HttpResult → Br × Bool)
    → ClaimData
    → HttpOutcome
    → Br × World
    → Result Error Claim × (Br × World)
unfolding file_claim verify_policy
create rt year draw call request outcome (breaker, w) =
    if validate_incident_date (date_of draw.now) request.incident_date
    then (let (verified, breaker') = verify_policy call breaker request.policy_id outcome in
        let (r, w') = file_claim rt year draw verified request w in (r, (breaker', w')))
    else (err invalid_data, (breaker, w))

-- `transition`, of the claim with this primary key. `get_object` has loaded it from the tables as
-- they were at that time, `seen`; other requests may have written since, up to the lock.
unfoldable pub transition : Runtime → Draw → World → ℕ → TransitionData → Action World Error Claim
unfolding transition_status
transition rt draw seen pk d = do
  claim ← or_raise (find_row row_id pk seen.claims) (claim_not_found (some pk))
  guard (validate_transition d) invalid_data
  transition_status rt draw claim d.new_status d.notes d.approved_amount

-- A request as it reaches the tables: a filing with what its verification came to, or a
-- transition.
pub data Request : Type 0 where
  filing : ℕ → Result Error Json → ClaimData → Request
  moving : ℕ → TransitionData → Request

-- One request with no other at the same time: a transition writes the tables that it has seen.
unfoldable pub perform : Runtime → Draw → Request → Action World Error Claim
unfolding file_claim transition
perform rt draw (filing year verified request) w = file_claim rt year draw verified request w
perform rt draw (moving pk d) w = transition rt draw w pk d w

-- Requests one after the other, each with what it draws: each ends before the next one starts.
unfoldable pub serve : Runtime → List (Draw × Request) → World → World
unfolding perform
serve rt [] w = w
serve rt ((draw, request) ∷ rest) w = serve rt rest (perform rt draw request w).1
