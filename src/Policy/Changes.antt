-- ===== src/Policy/Changes.antt =====
-- What a request changes: nothing when it fails, and a policy only together with its event.
use risk_core.Prelude.{
  ℕ, ◌+◌, ◌≡◌, refl, ap, true, Option, some, List, [], ◌∷◌, ◌++◌, arith, Text, codes, find_row,
  update_row, Bool-cases, Option-cases, inl, inr, ◌⊎◌,
}
use risk_core.Runtime.{Runtime, Draw}
use risk_core.Action.{ok, err}
use risk_core.Outbox.{new_event}
use risk_core.Numbering.{Vendor}
use risk_core.Policy.{Policy, World, policy_id}
use risk_core.Policy.Errors.{Error}
use risk_core.Policy.Events.{build_cancelled, build_updated}
use risk_core.Policy.Service.{
  PolicyData, PolicyChanges, CoverageData, cancel_policy, update_policy, is_open, cancelled_policy,
  save_cancelled, set_fields, touch, has_changes,
}
use risk_core.Policy.Create.{create_policy, insert_policy}
use risk_core.Policy.Requests.{Request, create, partial_update, cancel, perform}

-- All that the service keeps, but for the value of the database's sequence.
abbrev pub SameTables : World → World → Type 0
SameTables w w' =
    (w'.customers ≡ w.customers)
    × (w'.policies ≡ w.policies)
    × (w'.coverages ≡ w.coverages)
    × (w'.outbox ≡ w.outbox)
    × (w'.policies_created_total ≡ w.policies_created_total)
    × (w'.policies_cancelled_total ≡ w.policies_cancelled_total)

module _ (rt : Runtime) (draw : Draw) where
  cancel_error :
      (p : Policy) (reason : Text) (w : World) {e : Error}
      → (cancel_policy rt draw p reason w).0 ≡ err e
      → (cancel_policy rt draw p reason w).1 ≡ w
  unfolding cancel_policy
  cancel_error p reason w h = ground arith

  update_error :
      (p : Policy) (changes : PolicyChanges) (w : World) {e : Error}
      → (update_policy rt draw p changes w).0 ≡ err e
      → (update_policy rt draw p changes w).1 ≡ w
  unfolding update_policy
  update_error p changes w h = ground arith

  insert_error :
      (vendor : Vendor) (year : ℕ) (customer : ℕ) (request : PolicyData) (w : World) {e : Error}
      → (insert_policy vendor year draw customer request w).0 ≡ err e
      → SameTables w (insert_policy vendor year draw customer request w).1
  unfolding insert_policy
  insert_error vendor year customer request w h = ground arith

  create_error :
      (vendor : Vendor) (year : ℕ) (request : PolicyData) (coverages : Option (List CoverageData))
      (w : World) {e : Error}
      → (create_policy rt vendor year draw request coverages w).0 ≡ err e
      → SameTables w (create_policy rt vendor year draw request coverages w).1
  unfolding create_policy
  create_error vendor year request coverages w h = ground arith

  -- A request that raises, be it that the database refuses a statement after the policy, a coverage
  -- or an event is written, leaves every table and counter of the service as it was: no policy
  -- without its event, no event without its policy. (PostgreSQL's sequence alone may move.)
  pub perform_error :
      (request : Request) (w : World) {e : Error}
      → (perform rt draw request w).0 ≡ err e
      → SameTables w (perform rt draw request w).1
  unfolding perform
  perform_error (create vendor year request coverages) w h =
      create_error vendor year request coverages w h
  perform_error (partial_update p changes) w h =
      rw (update_error p changes w h) (refl, refl, refl, refl, refl, refl)
  perform_error (cancel p reason) w h =
      rw (cancel_error p reason w h) (refl, refl, refl, refl, refl, refl)

  -- The world after the row is cancelled.
  abbrev pub after_cancel : Text → Policy → World → World
  after_cancel reason row w =
      let p = cancelled_policy reason draw.now row in
      record w {
        policies = update_row policy_id row.id (save_cancelled p) w.policies;
        outbox =
            w.outbox
            ++ new_event (draw.uuid 1) (codes "policy") row.id (codes "policy.cancelled")
                (codes "policy.cancelled") (rt.uuid_str row.id)
                (build_cancelled rt (draw.uuid 0) draw.now p) draw.now
              ∷ [];
        policies_cancelled_total = w.policies_cancelled_total + 1;
      }

  pub cancel_run :
      (instance_ row : Policy) (reason : Text) (w : World)
      → is_open instance_.status ≡ true
      → find_row policy_id instance_.id w.policies ≡ some row
      → is_open row.status ≡ true
      → draw.stored 0 ≡ true
      → draw.stored 1 ≡ true
      → cancel_policy rt draw instance_ reason w
        ≡ (ok (cancelled_policy reason draw.now row), after_cancel reason row w)
  unfolding cancel_policy
  cancel_run instance_ row reason w may found still s0 s1 = simp (may, found, still, s0, s1)

  -- What was there for a cancellation that returns.
  pub cancel_ok :
      (instance_ p : Policy) (reason : Text) (w : World)
      → (cancel_policy rt draw instance_ reason w).0 ≡ ok p
      → (row : Policy) × (is_open instance_.status ≡ true)
        × (find_row policy_id instance_.id w.policies ≡ some row)
        × (is_open row.status ≡ true)
        × (draw.stored 0 ≡ true)
        × (draw.stored 1 ≡ true)
  unfolding cancel_policy
  cancel_ok instance_ p reason w h =
      elim (Option-cases (find_row policy_id instance_.id w.policies)) [
        | inl missing ↦ absurd (ground arith)
        | inr (row, found) ↦ (row, ground arith, found, ground arith, ground arith, ground arith)
      ]

  -- The world after an update that changes something.
  abbrev pub after_update : Policy → PolicyChanges → World → World
  after_update instance_ changes w =
      let q = touch draw.now (set_fields changes instance_) in
      record w {
        policies =
            update_row policy_id instance_.id (λ row. touch draw.now (set_fields changes row))
              w.policies;
        outbox =
            w.outbox
            ++ new_event (draw.uuid 1) (codes "policy") instance_.id (codes "policy.updated")
                (codes "policy.updated") (rt.uuid_str instance_.id)
                (build_updated rt (draw.uuid 0) draw.now q) draw.now
              ∷ [];
      }

  pub update_run :
      (instance_ row : Policy) (changes : PolicyChanges) (w : World)
      → is_open instance_.status ≡ true
      → has_changes changes ≡ true
      → find_row policy_id instance_.id w.policies ≡ some row
      → draw.stored 0 ≡ true
      → draw.stored 1 ≡ true
      → update_policy rt draw instance_ changes w
        ≡ (ok (touch draw.now (set_fields changes instance_)), after_update instance_ changes w)
  unfolding update_policy
  update_run instance_ row changes w may some_change found s0 s1 =
      simp (may, some_change, found, s0, s1)

  -- An update either leaves the world alone or is the run above.
  pub update_cases :
      (instance_ : Policy) (changes : PolicyChanges) (w : World)
      → ((update_policy rt draw instance_ changes w).1 ≡ w)
        ⊎ ((update_policy rt draw instance_ changes w).1 ≡ after_update instance_ changes w)
  update_cases instance_ changes w = elim (Bool-cases (is_open instance_.status)) [
    | inr closed ↦ inl (unfold update_policy in simp closed)
    | inl may ↦ elim (Bool-cases (has_changes changes)) [
      | inr none_given ↦ inl (unfold update_policy in simp (may, none_given))
      | inl some_change ↦ elim (Option-cases (find_row policy_id instance_.id w.policies)) [
        | inl missing ↦ inl (unfold update_policy in simp (may, some_change, missing))
        | inr (row, found) ↦ elim (Bool-cases (draw.stored 0)) [
          | inr f0 ↦ inl (unfold update_policy in simp (may, some_change, found, f0))
          | inl s0 ↦ elim (Bool-cases (draw.stored 1)) [
            | inr f1 ↦ inl (unfold update_policy in simp (may, some_change, found, s0, f1))
            | inl s1 ↦
                inr (ap (λ r. r.1) (update_run instance_ row changes w may some_change found s0 s1))
          ]
        ]
      ]
    ]
  ]

  pub cancel_cases :
      (instance_ : Policy) (reason : Text) (w : World)
      → ((cancel_policy rt draw instance_ reason w).1 ≡ w)
        ⊎ ((row : Policy) × (find_row policy_id instance_.id w.policies ≡ some row)
            × (is_open row.status ≡ true)
            × ((cancel_policy rt draw instance_ reason w).1 ≡ after_cancel reason row w))
  cancel_cases instance_ reason w = elim (Bool-cases (is_open instance_.status)) [
    | inr closed ↦ inl (unfold cancel_policy in simp closed)
    | inl may ↦ elim (Option-cases (find_row policy_id instance_.id w.policies)) [
      | inl missing ↦ inl (unfold cancel_policy in simp (may, missing))
      | inr (row, found) ↦ elim (Bool-cases (is_open row.status)) [
        | inr closed ↦ inl (unfold cancel_policy in simp (may, found, closed))
        | inl still ↦ elim (Bool-cases (draw.stored 0)) [
          | inr f0 ↦ inl (unfold cancel_policy in simp (may, found, still, f0))
          | inl s0 ↦ elim (Bool-cases (draw.stored 1)) [
            | inr f1 ↦ inl (unfold cancel_policy in simp (may, found, still, s0, f1))
            | inl s1 ↦ inr (
              row,
              found,
              still,
              ap (λ r. r.1) (cancel_run instance_ row reason w may found still s0 s1),
            )
          ]
        ]
      ]
    ]
  ]
