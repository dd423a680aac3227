-- ===== src/Load/Claims.antt =====
-- infra/load-testing/scenario_2_claims_filing.py: the tasks of a user who files claims and moves
-- them on.
use risk_core.Prelude.{
  ℕ, ◌+◌, ◌-◌, ◌||◌, Option, none, some, List, [], ◌∷◌, ◌++◌, Text, codes, length, ltb, ◌==◌,
  if◌then◌else◌,
}
use risk_core.Json.{Json, Fields}
use risk_core.Runtime.{Runtime}

-- A response, by its status and the "id" of its body, which a body of status 201 has.
pub record Answer : Type 0 where
  pub status : ℕ
  pub id : Option Text

-- A user: the policy that it has picked, and the claims that it has filed and not moved yet.
pub record User : Type 0 where
  pub policy_id : Text
  pub filed_claim_ids : List Text
  pub failures : ℕ

abbrev pub fail : User → User
fail u = record u { failures = u.failures + 1 }

-- `list.pop(0)`, where the list has a first element.
abbrev pub drop_first : List Text → List Text
drop_first [] = []
drop_first (_ ∷ ids) = ids

abbrev pub keep_last : List Text → List Text
keep_last ids = if ltb 20 (length ids) then drop_first ids else ids

-- What the task draws: the day, the days back (1 to 30), the names and the amount.
pub record ClaimDraw : Type 0 where
  pub today : ℕ
  pub days : ℕ
  pub name : Text
  pub email : Text
  pub incident_type : Text
  pub damage : Text

-- The payload of `file_claim`.
unfoldable pub claim_payload : Runtime → ClaimDraw → User → Fields
claim_payload rt d u = Fields.field "policy_id" (Json.str u.policy_id) (
    Fields.field "claimant_name" (Json.str (codes "Claimant " ++ d.name)) (
      Fields.field "claimant_email"
        (Json.str (codes "claim_" ++ d.email ++ codes "@loadtest.example"))
        (Fields.field "incident_date" (Json.str (rt.date_iso (d.today - d.days))) (
          Fields.field "incident_type" (Json.str d.incident_type) (
            Fields.field "description" (Json.str (codes "Load test incident description")) (
              Fields.field "estimated_damage" (Json.str d.damage)
                (Fields.field "location" (Json.str (codes "Madrid, España")) Fields.end)))))))

-- `file_claim`, after the response. An empty "id" counts as none.
unfoldable pub file_claim : Answer → User → User
file_claim a u =
    if a.status == 201
    then elim a.id [
      | none ↦ u
      | some [] ↦ u
      | some (c ∷ id) ↦ record u {
        filed_claim_ids = keep_last (u.filed_claim_ids ++ (c ∷ id) ∷ []);
      }
    ]
    else fail u

-- The payload of `transition_claim`.
abbrev pub transition_payload : Fields
transition_payload = Fields.field "status" (Json.str (codes "UNDER_REVIEW")) Fields.end

-- `transition_claim`: the claim that is asked about, and the user after the response.
unfoldable pub transition_claim : (Text → Answer) → User → User
transition_claim post u = elim u.filed_claim_ids [
  | [] ↦ u
  | id ∷ ids ↦
      let v = record u { filed_claim_ids = ids } in
      if (post id).status == 200 || (post id).status == 400 then v else fail v
]

-- `list_claims`
abbrev pub list_claims : ℕ → User → User
list_claims status u = if status == 200 then u else fail u

-- `on_start`, with the policy that `random.choice` picks.
abbrev pub on_start : Text → User
on_start policy_id = record { policy_id = policy_id; filed_claim_ids = []; failures = 0 }
