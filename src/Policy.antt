-- ===== src/Policy.antt =====
-- policy-service/apps/policies/models.py: the rows of the policy database, the texts of the
-- choices, and the state that the service works on. Its operations and proofs are in the modules
-- below.
pub mod Errors
pub mod Events
pub mod Service
pub mod Create
pub mod Serializers
pub mod Queries
pub mod Reports
pub mod Requests
pub mod Views
pub mod Customers
pub mod Register
pub mod Changes
pub mod Creation
pub mod Told
pub mod Issue
pub mod Lifecycle
mod Tests
use risk_core.Prelude.{ℕ, Bool, true, false, List, [], ◌∷◌, Text, codes}
use risk_core.Prelude.Int.{ℤ}
use risk_core.Outbox.{OutboxEvent}

pub record Customer : Type 0 where
  pub id : ℕ
  pub full_name : Text
  pub email : Text
  pub dni : Text
  pub phone : Text
  pub address : Text
  pub created_at : ℕ
  pub updated_at : ℕ

pub data PolicyType : Type 0 where
  life health auto home business : PolicyType

pub data Status : Type 0 where
  active suspended cancelled expired : Status

pub record Policy : Type 0 where
  pub id : ℕ
  pub policy_number : Text
  pub customer_id : ℕ
  pub policy_type : PolicyType
  pub status : Status
  pub premium_amount : ℤ
  pub start_date : ℕ
  pub end_date : ℕ
  pub description : Text
  pub cancellation_reason : Text
  pub created_at : ℕ
  pub updated_at : ℕ

pub record Coverage : Type 0 where
  pub id : ℕ
  pub policy_id : ℕ
  pub coverage_type : Text
  pub coverage_amount : ℤ
  pub description : Text

-- The stored text of a choice.
abbrev pub policy_type_text : PolicyType → Text
policy_type_text PolicyType.life = codes "LIFE"
policy_type_text PolicyType.health = codes "HEALTH"
policy_type_text PolicyType.auto = codes "AUTO"
policy_type_text PolicyType.home = codes "HOME"
policy_type_text PolicyType.business = codes "BUSINESS"

abbrev pub status_text : Status → Text
status_text Status.active = codes "ACTIVE"
status_text Status.suspended = codes "SUSPENDED"
status_text Status.cancelled = codes "CANCELLED"
status_text Status.expired = codes "EXPIRED"

-- `Policy.PolicyType.values`
abbrev pub policy_types : List PolicyType
policy_types =
    PolicyType.life ∷ PolicyType.health ∷ PolicyType.auto ∷ PolicyType.home ∷ PolicyType.business
    ∷ []

-- `a == b` on the two kinds of choices.
abbrev pub same_type : PolicyType → PolicyType → Bool
same_type PolicyType.life PolicyType.life = true
same_type PolicyType.health PolicyType.health = true
same_type PolicyType.auto PolicyType.auto = true
same_type PolicyType.home PolicyType.home = true
same_type PolicyType.business PolicyType.business = true
same_type _ _ = false

abbrev pub is_active : Policy → Bool
is_active p = elim p.status [ Status.active ↦ true | _ ↦ false ]

-- The tables that the service reads and writes, the value of `policy_number_seq`, and the two
-- business counters: the labels of each increment, and a number.
pub record World : Type 0 where
  pub customers : List Customer
  pub policies : List Policy
  pub coverages : List Coverage
  pub outbox : List OutboxEvent
  pub sequence : ℕ
  pub policies_created_total : List PolicyType
  pub policies_cancelled_total : ℕ

abbrev pub policy_id : Policy → ℕ
policy_id p = p.id

abbrev pub customer_id : Customer → ℕ
customer_id c = c.id
