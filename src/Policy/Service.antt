-- ===== src/Policy/Service.antt =====
-- policy-service/apps/policies/services.py, the operations that write: cancel_policy and
-- update_policy (create_policy is in Policy/Create); and verify_policy.
use risk_core.Prelude.{
  ℕ, ◌+◌, Bool, true, false, ◌||◌, Option, none, some, List, [], ◌∷◌, Text, codes, find_row,
  update_row, if◌then◌else◌,
}
use risk_core.Prelude.Int.{ℤ}
use risk_core.Runtime.{Runtime, Draw}
use risk_core.Action.{Action, Result, ok, err, pure, gets, or_raise, guard, modify, ◌>>=◌, ◌>>◌}
use risk_core.Policy.{Policy, PolicyType, Status, World, policy_id, policy_type_text, status_text}
use risk_core.Policy.Errors.{
  Error, policy_not_found, invalid_policy_status, does_not_exist, database_error,
}
use risk_core.Policy.Events.{build_cancelled, build_updated, emit_policy_event}

-- The validated data of a request; `none` is a key that is not there.
pub record PolicyData : Type 0 where
  pub customer_id : Option ℕ
  pub policy_type : PolicyType
  pub premium_amount : ℤ
  pub start_date : ℕ
  pub end_date : ℕ
  pub description : Option Text

pub record CoverageData : Type 0 where
  pub coverage_type : Text
  pub coverage_amount : ℤ
  pub description : Option Text

pub record PolicyChanges : Type 0 where
  pub premium_amount : Option ℤ
  pub start_date : Option ℕ
  pub end_date : Option ℕ
  pub description : Option Text
  pub policy_type : Option PolicyType

pub record Verification : Type 0 where
  pub policy_id : Text
  pub status : Text
  pub is_valid : Bool
  pub customer_id : Text
  pub policy_type : Text

-- CANCELABLE_STATUSES and UPDATABLE_STATUSES are the same set, here in one of its orders.
abbrev pub open_statuses : List Status
open_statuses = Status.active ∷ Status.suspended ∷ []

abbrev pub is_open : Status → Bool
is_open Status.active = true
is_open Status.suspended = true
is_open _ = false

-- The policy that `cancel_policy` saves.
abbrev pub cancelled_policy : Text → ℕ → Policy → Policy
cancelled_policy reason now p = record p {
  status = Status.cancelled;
  cancellation_reason = reason;
  updated_at = now;
}

-- `save(update_fields=["status", "cancellation_reason", "updated_at"])`
abbrev pub save_cancelled : Policy → Policy → Policy
save_cancelled p row = record row {
  status = p.status;
  cancellation_reason = p.cancellation_reason;
  updated_at = p.updated_at;
}

abbrev pub save_policy : ℕ → (Policy → Policy) → World → World
save_policy id change w = record w { policies = update_row policy_id id change w.policies }

abbrev pub refused : Policy → Error
refused p = invalid_policy_status (some p.id) p.status open_statuses

abbrev undo : World → Result Error Policy × World → Result Error Policy × World
undo w (ok p, w') = (ok p, w')
undo w (err e, w') = (err e, record w { sequence = w'.sequence })

-- `with transaction.atomic():` an exception undoes what the block has written to the tables; the
-- sequence of the database is not rolled back.
abbrev pub transaction : Action World Error Policy → Action World Error Policy
transaction m w = undo w (m w)

-- The instance that the view has loaded comes in; the row is read again under a lock.
unfoldable pub cancel_policy : Runtime → Draw → Policy → Text → Action World Error Policy
unfolding build_cancelled emit_policy_event
cancel_policy rt draw instance_ reason = do
  guard (is_open instance_.status) (refused instance_)
  policy ← transaction (do
    row ← or_raise (← gets (λ w. find_row policy_id instance_.id w.policies)) does_not_exist
    guard (is_open row.status) (refused row)
    let p = cancelled_policy reason draw.now row
    guard (draw.stored 0) database_error
    modify (save_policy p.id (save_cancelled p))
    emit_policy_event rt (draw.stored 1) (draw.uuid 1) draw.now p (codes "policy.cancelled")
        (build_cancelled rt (draw.uuid 0) draw.now p)
    pure p)
  modify (λ w. record w { policies_cancelled_total = w.policies_cancelled_total + 1 })
  pure policy

abbrev pub set_if : {A : Type 0} → Option A → A → A
set_if none old = old
set_if (some new) old = new

-- The loop over UPDATABLE_FIELDS, on the instance; the same columns are those that `save` writes.
abbrev pub set_fields : PolicyChanges → Policy → Policy
set_fields changes p = record p {
  premium_amount = set_if changes.premium_amount p.premium_amount;
  start_date = set_if changes.start_date p.start_date;
  end_date = set_if changes.end_date p.end_date;
  description = set_if changes.description p.description;
  policy_type = set_if changes.policy_type p.policy_type;
}

abbrev given : {A : Type 0} → Option A → Bool
given none = false
given (some _) = true

-- `bool(changed_fields)`
abbrev pub has_changes : PolicyChanges → Bool
has_changes changes =
    given changes.premium_amount
    || given changes.start_date
    || given changes.end_date
    || given changes.description
    || given changes.policy_type

abbrev pub touch : ℕ → Policy → Policy
touch now p = record p { updated_at = now }

-- The instance comes in as the view has loaded it, and is not read again. `save` with
-- `update_fields` raises DatabaseError where there is no row to update.
unfoldable pub update_policy : Runtime → Draw → Policy → PolicyChanges → Action World Error Policy
unfolding build_updated emit_policy_event
update_policy rt draw instance_ changes = do
  guard (is_open instance_.status) (refused instance_)
  let p = set_fields changes instance_
  if has_changes changes
      then transaction (do
        let q = touch draw.now p
        _row ← or_raise (← gets (λ w. find_row policy_id q.id w.policies)) database_error
        guard (draw.stored 0) database_error
        modify (save_policy q.id (λ row. touch draw.now (set_fields changes row)))
        emit_policy_event rt (draw.stored 1) (draw.uuid 1) draw.now q (codes "policy.updated")
            (build_updated rt (draw.uuid 0) draw.now q)
        pure q)
      else pure p

unfoldable pub verify_policy : Runtime → ℕ → Action World Error Verification
verify_policy rt id = do
  policy ← or_raise (← gets (λ w. find_row policy_id id w.policies)) (policy_not_found (some id))
  pure (record {
    policy_id = rt.uuid_str policy.id;
    status = status_text policy.status;
    is_valid = elim policy.status [ Status.active ↦ true | _ ↦ false ];
    customer_id = rt.uuid_str policy.customer_id;
    policy_type = policy_type_text policy.policy_type;
  })
