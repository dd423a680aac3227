-- ===== src/Claims/Tests.antt =====
-- The claims service on two claims, one under review and one approved, and on an empty database.
use risk_core.Prelude.{
  All, any, text_eq, arith, ℕ, suc, ◌+◌, ◌≡◌, ◌≢◌, ◌≤◌, refl, Bool, true, false, none, some, List,
  [], ◌∷◌, ◌++◌, codes, find_row,
}
use risk_core.Prelude.Int.{pos}
use risk_core.Json.{Json, Fields, get_or}
use risk_core.Runtime.{Runtime, Draw, date_of}
use risk_core.Action.{ok, err}
use risk_core.Numbering.{generate_claim_number, prefix, pad6}
use risk_core.Numbering.Fresh.{IsIssued, Below}
use risk_core.Outbox.{OutboxEvent, Status as OutboxStatus}
use risk_core.Claims.{Claim, ClaimStatusHistory, IncidentType, Status, World, row_id}
use risk_core.Claims.Errors.{Error}
use risk_core.Claims.Client.{HttpOutcome, HttpResult, http_verify, truthy}
use risk_core.Claims.Events.{build_filed}
use risk_core.Claims.Service.{
  ClaimData, file_claim, file_with, insert_claim, insert_seeing, new_claim, allowed, lacks_amount,
  moved, new_history, clashes, transition_status,
}
use risk_core.Claims.Requests.{Request, create, serve}
use risk_core.Claims.Transitions.{events_of, move_error, move_effect, move_stale}
use risk_core.Claims.Trail.{IsTrailed}
use risk_core.Claims.Register.{Reach, register, serve-Reach}
use risk_core.Claims.Replay.{replay, serve-IsTold}
use risk_core.Samples.{faithful, rt as faithful_rt}
use risk_core.Claims.Filing.{file_seeing, create_effect}
use risk_core.Claims.Accepted.{filing_stuck, lost_filing, filing_returns}
use risk_core.Claims.Served.{serve-IsTrailed}

abbrev rt : Runtime
rt = record {
  uuid_str = λ u. suc u ∷ [];
  parse_uuid = λ t. elim t [ [] ↦ none | c ∷ _ ↦ some c ];
  decimal_str = λ _. codes "0.00";
  datetime_iso = λ t. t ∷ [];
  date_iso = λ d. d ∷ [];
  parse_date = λ t. elim t [ [] ↦ none | c ∷ _ ↦ some c ];
  parse_datetime = λ t. elim t [ [] ↦ none | c ∷ _ ↦ some c ];
}

abbrev draw : Draw
draw = record { uuid = λ k. 100 + k; now = 86_400_000_009; stored = λ _. true }

abbrev claim : ℕ → Status → Claim
claim id status = record {
  id = id;
  claim_number = codes "CLM-2026-00000" ++ (48 + id) ∷ [];
  policy_id = 7;
  claimant_name = codes "Ann";
  claimant_email = codes "ann@x.es";
  incident_date = 0;
  incident_type = IncidentType.robo;
  description = [];
  estimated_damage = pos 500;
  approved_amount = none;
  location = [];
  status = status;
  filed_at = 1;
  updated_at = 1;
}

abbrev world : World
world = record {
  claims = claim 1 Status.under_review ∷ claim 2 Status.approved ∷ [];
  history = [];
  outbox = [];
  claims_filed_total = [];
  claims_status_changed_total = [];
}

abbrev empty : World
empty = record world { claims = [] }

abbrev request : ClaimData
request = record {
  policy_id = 7;
  claimant_name = codes "Ann";
  claimant_email = codes "ann@x.es";
  incident_date = 1;
  incident_type = IncidentType.robo;
  description = [];
  estimated_damage = pos 500;
  location = none;
}

abbrev valid : Fields
valid = Fields.field "is_valid" (Json.bool true) Fields.end

abbrev answer : HttpOutcome
answer = HttpOutcome.response 200 (some (Json.obj valid))

-- A breaker that counts the calls and refuses none.
abbrev call : ℕ → HttpResult → ℕ × Bool
call n r = (n + 1, false)

abbrev moved_claim : Claim
moved_claim = moved Status.resolved none draw.now (claim 2 Status.approved)

abbrev first : Claim
first = record (claim 1 Status.filed) {
  id = 100;
  incident_date = 1;
  filed_at = draw.now;
  updated_at = draw.now;
}

abbrev requests : List (Draw × Request)
requests =
    (draw, Request.filing 2026 (ok (Json.obj valid)) request)
    ∷ (
      draw,
      Request.moving 100
          (record { new_status = Status.under_review; notes = []; approved_amount = none }),
    )
    ∷ []

move_error_example :
    (transition_status rt draw (claim 1 Status.under_review) Status.resolved [] none world).1
    ≡ world
unfolding transition_status
move_error_example =
    move_error rt draw (claim 1 Status.under_review) Status.resolved [] none world
      {e = Error.invalid_claim_status (some 1) Status.under_review
        (Status.approved ∷ Status.rejected ∷ [])}
      refl

move_effect_example :
    let w' =
      (transition_status rt draw (claim 2 Status.approved) Status.resolved [] none world).1 in
    (allowed Status.approved Status.resolved ≡ true)
    × (lacks_amount Status.resolved none ≡ false)
    × (moved_claim.status ≡ Status.resolved)
    × (find_row row_id 2 w'.claims ≡ some moved_claim)
    × ((j : ℕ) → j ≢ 2 → find_row row_id j w'.claims ≡ find_row row_id j world.claims)
    × (w'.history ≡ new_history 100 draw.now 2 (some Status.approved) Status.resolved [] ∷ [])
    × (w'.outbox ≡ events_of rt draw Status.approved Status.resolved moved_claim)
unfolding transition_status
move_effect_example =
    move_effect rt draw (claim 2 Status.approved) moved_claim Status.resolved [] none world refl

move_stale_example :
    let (r, w') =
      transition_status rt draw (claim 2 Status.under_review) Status.rejected [] none world in
    (r ≡ ok (moved Status.rejected none draw.now (claim 2 Status.approved)))
    × (find_row row_id 2 w'.claims
        ≡ some (moved Status.rejected none draw.now (claim 2 Status.approved)))
    × ((h : ClaimStatusHistory) × (w'.history ≡ h ∷ [])
        × (h.to_status ≡ Status.rejected)
        × (h.from_status ≡ some Status.under_review))
move_stale_example =
    move_stale rt draw (claim 2 Status.under_review) (claim 2 Status.approved) Status.rejected []
      none world refl refl refl refl

serve-IsTrailed_example : IsTrailed (serve rt requests empty)
serve-IsTrailed_example = serve-IsTrailed rt requests empty (λ id. refl)

create_effect_example :
    let w' = (create rt 2026 draw call request answer (0, empty)).1.1 in
    (status : ℕ) × (fields : Fields) × (answer
      ≡ HttpOutcome.response status (some (Json.obj fields)))
    × (truthy (get_or "is_valid" Json.null fields) ≡ true)
    × ((call 0 (http_verify answer)).1 ≡ false)
    × (first.policy_id ≡ 7)
    × (first.incident_date ≡ 1)
    × (first.incident_date ≤ date_of draw.now)
    × (first.status ≡ Status.filed)
    × (clashes first empty.claims ≡ false)
    × (w'.claims ≡ first ∷ [])
    × ((h : ClaimStatusHistory) × (w'.history ≡ h ∷ [])
        × (h.claim_id ≡ 100)
        × (h.from_status ≡ none)
        × (h.to_status ≡ Status.filed))
    × ((e : OutboxEvent) × (w'.outbox ≡ e ∷ [])
        × (e.topic ≡ codes "claim.filed")
        × (e.aggregate_id ≡ 100)
        × (e.status ≡ OutboxStatus.pending)
        × (e.payload ≡ build_filed rt 102 draw.now first))
unfolding create generate_claim_number
create_effect_example = create_effect rt 2026 draw call request answer 0 empty first refl

serve-Reach_example : Reach (register []) (register (serve rt requests empty).claims)
serve-Reach_example = serve-Reach rt requests empty

serve-IsTold_example :
    replay faithful_rt (serve faithful_rt requests empty).outbox (λ _. none)
    ≡ register (serve faithful_rt requests empty).claims
serve-IsTold_example = serve-IsTold faithful_rt faithful requests empty refl

-- Two filings whose queries see the same table.
lost_filing_example :
    let w = (file_claim rt 2026 draw (ok Json.null) request world).1 in
    file_seeing rt
      (record draw { uuid = λ k. 200 + k })
      2026
      (codes "CLM-2026-000001" ∷ codes "CLM-2026-000002" ∷ [])
      Json.null
      request
      w
    ≡ (err Error.integrity_error, w)
unfolding file_claim file_with insert_claim insert_seeing generate_claim_number
lost_filing_example =
    lost_filing rt 2026 draw (record draw { uuid = λ k. 200 + k }) Json.null Json.null request
      request world (new_claim draw request (codes "CLM-2026-000003")) refl

issued :
    All
      (IsIssued 999_999 (prefix (codes "CLM") 2026))
      (codes "CLM-2026-000001" ∷ codes "CLM-2026-000002" ∷ [])
unfolding prefix pad6
issued = ((λ _. (1, omega arith, refl)), ((λ _. (2, omega arith, refl)), tt))

filing_returns_example :
    let numbers = codes "CLM-2026-000001" ∷ codes "CLM-2026-000002" ∷ [] in
    let (r, (_, w')) = create rt 2026 draw call request answer (0, world) in
    (c : Claim) × (n : ℕ) × (r ≡ ok c)
    × (c.claim_number ≡ prefix (codes "CLM") 2026 ++ pad6 n)
    × (n ≤ 1_000_000)
    × Below n (prefix (codes "CLM") 2026) numbers
    × (any (text_eq c.claim_number) numbers ≡ false)
    × (w'.claims ≡ world.claims ++ c ∷ [])
filing_returns_example =
    filing_returns rt 2026 draw call request 200 valid 0 world refl refl refl (omega arith) refl
      (λ k. refl) issued

abbrev full : World
full = record world {
  claims =
      record (claim 1 Status.filed) { claim_number = codes "CLM-2026-999999" }
      ∷ record (claim 2 Status.filed) { claim_number = codes "CLM-2026-1000000" }
      ∷ [];
}

filing_stuck_example :
    (generate_claim_number 2026 (codes "CLM-2026-999999" ∷ codes "CLM-2026-1000000" ∷ [])
      ≡ some (prefix (codes "CLM") 2026 ++ pad6 1_000_000))
    × ((d : Draw) (j : Json) (r : ClaimData)
        → file_claim rt 2026 d (ok j) r full ≡ (err Error.integrity_error, full))
unfolding prefix pad6
filing_stuck_example =
    filing_stuck rt 2026 full
      ((λ _. (999_999, omega arith, refl)), ((λ _. (1_000_000, omega arith, refl)), tt)) refl refl
