-- ===== src/Claims.antt =====
-- claims-service/apps/claims/models.py: the rows of the claims database, the texts of the choices,
-- and the state that the service works on. Its operations and proofs are in the modules below.
pub mod Errors
pub mod Client
pub mod Events
pub mod Service
pub mod Verified
pub mod Requests
pub mod Views
pub mod Transitions
pub mod Trail
pub mod Filing
pub mod Accepted
pub mod Served
pub mod Register
pub mod Replay
pub mod Queries
pub mod Reports
mod Tests
use risk_core.Prelude.{ℕ, Bool, true, false, Option, List, [], ◌∷◌, Text, codes}
use risk_core.Prelude.Int.{ℤ}
use risk_core.Outbox.{OutboxEvent}

pub data IncidentType : Type 0 where
  accidente robo incendio inundacion otro : IncidentType

pub data Status : Type 0 where
  filed under_review approved rejected resolved : Status

pub record Claim : Type 0 where
  pub id : ℕ
  pub claim_number : Text
  pub policy_id : ℕ
  pub claimant_name : Text
  pub claimant_email : Text
  pub incident_date : ℕ
  pub incident_type : IncidentType
  pub description : Text
  pub estimated_damage : ℤ
  pub approved_amount : Option ℤ
  pub location : Text
  pub status : Status
  pub filed_at : ℕ
  pub updated_at : ℕ

-- `none` as `from_status` is the empty text, which only the first row of a claim has.
pub record ClaimStatusHistory : Type 0 where
  pub id : ℕ
  pub claim_id : ℕ
  pub from_status : Option Status
  pub to_status : Status
  pub changed_at : ℕ
  pub notes : Text

-- The stored text of a choice.
abbrev pub incident_type_text : IncidentType → Text
incident_type_text IncidentType.accidente = codes "ACCIDENTE"
incident_type_text IncidentType.robo = codes "ROBO"
incident_type_text IncidentType.incendio = codes "INCENDIO"
incident_type_text IncidentType.inundacion = codes "INUNDACION"
incident_type_text IncidentType.otro = codes "OTRO"

abbrev pub status_text : Status → Text
status_text Status.filed = codes "FILED"
status_text Status.under_review = codes "UNDER_REVIEW"
status_text Status.approved = codes "APPROVED"
status_text Status.rejected = codes "REJECTED"
status_text Status.resolved = codes "RESOLVED"

abbrev pub same_status : Status → Status → Bool
same_status Status.filed Status.filed = true
same_status Status.under_review Status.under_review = true
same_status Status.approved Status.approved = true
same_status Status.rejected Status.rejected = true
same_status Status.resolved Status.resolved = true
same_status _ _ = false

-- The tables, and the labels of each increment of the two business counters.
pub record World : Type 0 where
  pub claims : List Claim
  pub history : List ClaimStatusHistory
  pub outbox : List OutboxEvent
  pub claims_filed_total : List IncidentType
  pub claims_status_changed_total : List (Status × Status)

abbrev pub row_id : Claim → ℕ
row_id c = c.id
