-- ===== src/Claims/Service.antt =====
-- claims-service/apps/claims/services.py, the operations that write: file_claim and
-- transition_status; and the validation and the views in front of them (serializers.py, views.py).
use risk_core.Prelude.{
  ℕ, Bool, true, false, not, ◌||◌, Option, none, some, List, [], ◌∷◌, ◌++◌, map, Text, codes,
  text_eq, any, ◌==◌, leb, find_row, update_row,
}
use risk_core.Prelude.Int.{ℤ, is_nonzero}
use risk_core.Json.{Json}
use risk_core.Runtime.{Runtime, Draw}
use risk_core.Action.{Action, Result, pure, gets, or_raise, guard, modify, atomic, ◌>>=◌, ◌>>◌}
use risk_core.Numbering.{generate_claim_number}
use risk_core.Claims.{Claim, ClaimStatusHistory, IncidentType, Status, World, row_id, same_status}
use risk_core.Claims.Errors.{
  Error, invalid_claim_status, amount_required, does_not_exist, integrity_error, value_error,
  unexpected,
}
use risk_core.Claims.Events.{build_filed, build_status_changed, build_resolved, emit_claim_event}

-- The validated data of a request; `none` is a key that is not there.
pub record ClaimData : Type 0 where
  pub policy_id : ℕ
  pub claimant_name : Text
  pub claimant_email : Text
  pub incident_date : ℕ
  pub incident_type : IncidentType
  pub description : Text
  pub estimated_damage : ℤ
  pub location : Option Text

pub record TransitionData : Type 0 where
  pub new_status : Status
  pub notes : Text
  pub approved_amount : Option ℤ

-- VALID_TRANSITIONS
abbrev pub valid_transitions : Status → List Status
valid_transitions Status.filed = Status.under_review ∷ []
valid_transitions Status.under_review = Status.approved ∷ Status.rejected ∷ []
valid_transitions Status.approved = Status.resolved ∷ []
valid_transitions Status.rejected = Status.resolved ∷ []
valid_transitions Status.resolved = []

-- `new_status in allowed`
abbrev pub allowed : Status → Status → Bool
allowed current new = any (same_status new) (valid_transitions current)

abbrev or_empty : Option Text → Text
or_empty none = []
or_empty (some t) = t

-- The row that `Claim.objects.create(…)` inserts, under its number.
abbrev pub new_claim : Draw → ClaimData → Text → Claim
new_claim draw request claim_number = record {
  id = draw.uuid 0;
  claim_number = claim_number;
  policy_id = request.policy_id;
  claimant_name = request.claimant_name;
  claimant_email = request.claimant_email;
  incident_date = request.incident_date;
  incident_type = request.incident_type;
  description = request.description;
  estimated_damage = request.estimated_damage;
  approved_amount = none;
  location = or_empty request.location;
  status = Status.filed;
  filed_at = draw.now;
  updated_at = draw.now;
}

-- The database checks the primary key and the unique column.
abbrev pub clashes : Claim → List Claim → Bool
clashes c rows = any (λ d. d.id == c.id || text_eq c.claim_number d.claim_number) rows

-- `Claim.objects.create(…)` with `Claim.save`, where the query of the generator sees the numbers
-- `seen`.
unfoldable pub insert_seeing : ℕ → List Text → Draw → ClaimData → Action World Error Claim
insert_seeing year seen draw request = do
  claim_number ← or_raise (generate_claim_number year seen) value_error
  let c = new_claim draw request claim_number
  clash ← gets (λ w. clashes c w.claims)
  guard (not clash) integrity_error
  modify (λ w. record w { claims = w.claims ++ c ∷ [] })
  pure c

-- The same with no other transaction in between: it sees the numbers of the table.
unfoldable pub insert_claim : ℕ → Draw → ClaimData → Action World Error Claim
unfolding insert_seeing
insert_claim year draw request w =
    insert_seeing year (map (λ c. c.claim_number) w.claims) draw request w

-- `ClaimStatusHistory.objects.create(…)`
abbrev pub new_history : ℕ → ℕ → ℕ → Option Status → Status → Text → ClaimStatusHistory
new_history id now claim_id from_status to_status notes = record {
  id = id;
  claim_id = claim_id;
  from_status = from_status;
  to_status = to_status;
  changed_at = now;
  notes = notes;
}

abbrev pub add_history : ClaimStatusHistory → World → World
add_history h w = record w { history = w.history ++ h ∷ [] }

abbrev lift : {A : Type 0} → Result Error A → Action World Error A
lift r w = (r, w)

-- `file_claim`, with what the call of the policy service comes to, and the insert of the claim.
unfoldable pub file_with :
    Runtime → Draw → Result Error Json → Action World Error Claim → Action World Error Claim
unfolding build_filed emit_claim_event
file_with rt draw verified insert = do
  _verification ← lift verified
  claim ← atomic (do
    c ← insert
    guard (draw.stored 0) unexpected
    modify (
        add_history
          (new_history (draw.uuid 1) draw.now c.id none Status.filed (codes "Siniestro reportado")))
    emit_claim_event rt (draw.stored 1) (draw.uuid 3) draw.now c (codes "claim.filed")
        (build_filed rt (draw.uuid 2) draw.now c)
    pure c)
  modify (λ w. record w { claims_filed_total = w.claims_filed_total ++ claim.incident_type ∷ [] })
  pure claim

unfoldable pub file_claim :
    Runtime → ℕ → Draw → Result Error Json → ClaimData → Action World Error Claim
unfolding file_with insert_claim
file_claim rt year draw verified request =
    file_with rt draw verified (insert_claim year draw request)

-- new_status == Claim.Status.APPROVED and approved_amount is None
abbrev pub lacks_amount : Status → Option ℤ → Bool
lacks_amount Status.approved none = true
lacks_amount _ _ = false

-- The amount is written for APPROVED alone.
abbrev pub amount_after : Status → Option ℤ → Option ℤ → Option ℤ
amount_after Status.approved (some amount) old = some amount
amount_after _ _ old = old

-- The claim that is saved, and the columns that `save(update_fields=…)` writes in its row.
abbrev pub moved : Status → Option ℤ → ℕ → Claim → Claim
moved new_status approved_amount now c = record c {
  status = new_status;
  approved_amount = amount_after new_status approved_amount c.approved_amount;
  updated_at = now;
}

abbrev pub emit_resolved : Runtime → Draw → Status → Claim → Action World Error (Unit {0})
emit_resolved rt draw Status.resolved c =
    emit_claim_event rt (draw.stored 3) (draw.uuid 4) draw.now c (codes "claim.resolved")
      (build_resolved rt (draw.uuid 3) draw.now c)
emit_resolved rt draw _ c = pure tt

abbrev pub save_claim : ℕ → (Claim → Claim) → World → World
save_claim id change w = record w { claims = update_row row_id id change w.claims }

-- The instance that the view has loaded comes in; the row is read again under a lock, and its
-- status is not looked at.
unfoldable pub transition_status :
    Runtime → Draw → Claim → Status → Text → Option ℤ → Action World Error Claim
unfolding build_status_changed build_resolved emit_claim_event
transition_status rt draw instance_ new_status notes approved_amount = do
  let current_status = instance_.status
  guard (allowed current_status new_status)
      (invalid_claim_status (some instance_.id) current_status (valid_transitions current_status))
  guard (not (lacks_amount new_status approved_amount)) amount_required
  claim ← atomic (do
    row ← or_raise (← gets (λ w. find_row row_id instance_.id w.claims)) does_not_exist
    let c = moved new_status approved_amount draw.now row
    guard (draw.stored 0) unexpected
    modify (save_claim c.id (moved new_status approved_amount draw.now))
    guard (draw.stored 1) unexpected
    modify (
        add_history
          (new_history (draw.uuid 0) draw.now c.id (some current_status) new_status notes))
    emit_claim_event rt (draw.stored 2) (draw.uuid 2) draw.now c (codes "claim.status_changed")
        (build_status_changed rt (draw.uuid 1) draw.now c current_status new_status)
    emit_resolved rt draw new_status c
    pure c)
  modify (λ w. record w {
    claims_status_changed_total =
        w.claims_status_changed_total ++ (current_status, new_status) ∷ [];
  })
  pure claim

-- `ClaimSerializer.validate_incident_date`, on the day `today`.
abbrev pub validate_incident_date : ℕ → ℕ → Bool
validate_incident_date today value = leb value today

-- `ClaimTransitionSerializer.validate`: `not amount` is true of None and of zero.
abbrev pub validate_transition : TransitionData → Bool
validate_transition d = elim d.new_status [
  | Status.approved ↦ (elim d.approved_amount [ none ↦ false | some a ↦ is_nonzero a ])
  | _ ↦ true
]
