-- ===== src/Policy/Lifecycle.antt =====
-- The life of a policy row: what a cancellation and an update do to it, and that a closed policy
-- stays closed.
use risk_core.Prelude.{
  ℕ, ◌≡◌, ◌≢◌, refl, ◌∙◌, sym, ap, true, false, some, List, [], ◌∷◌, ◌++◌, arith, Text, codes, ◌==◌,
  Bool-cases, inl, inr, find_row, find_row-key, find_row-append, find_row-update_self,
  find_row-update_ne,
}
use risk_core.Runtime.{TakesAll, Runtime, Draw}
use risk_core.Action.{ok}
use risk_core.Outbox.{OutboxEvent, Status as OutboxStatus}
use risk_core.Policy.Told.{Tells, build_updated-Tells}
use risk_core.Policy.{Policy, Status, World, policy_id}
use risk_core.Policy.Events.{build_cancelled}
use risk_core.Policy.Service.{
  PolicyChanges, cancel_policy, update_policy, is_open, has_changes, set_fields, touch,
  cancelled_policy,
}
use risk_core.Policy.Requests.{Request, create, partial_update, cancel, perform, serve}
use risk_core.Policy.Creation.{create_cases}
use risk_core.Policy.Changes.{cancel_run, cancel_ok, cancel_cases, update_run, update_cases}

-- What no update may change in a row.
abbrev pub SameIdentity : Policy → Policy → Type 0
SameIdentity r r' =
    (r'.id ≡ r.id)
    × (r'.policy_number ≡ r.policy_number)
    × (r'.customer_id ≡ r.customer_id)
    × (r'.status ≡ r.status)
    × (r'.cancellation_reason ≡ r.cancellation_reason)
    × (r'.created_at ≡ r.created_at)

module _ (rt : Runtime) (draw : Draw) where
  -- A cancellation that returns a policy was of an open row; the row is now CANCELLED with the
  -- given reason and is what is returned, every other row is as it was, and the outbox has one
  -- event more, a pending one on topic policy.cancelled about this policy.
  pub cancel_effect :
      (instance_ p : Policy) (reason : Text) (w : World)
      → (cancel_policy rt draw instance_ reason w).0 ≡ ok p
      → let w' = (cancel_policy rt draw instance_ reason w).1 in
        (p.status ≡ Status.cancelled)
        × (p.cancellation_reason ≡ reason)
        × (find_row policy_id instance_.id w'.policies ≡ some p)
        × ((j : ℕ)
            → j ≢ instance_.id
            → find_row policy_id j w'.policies ≡ find_row policy_id j w.policies)
        × ((row : Policy) × (find_row policy_id instance_.id w.policies ≡ some row)
            × (is_open row.status ≡ true))
        × ((e : OutboxEvent) × (w'.outbox ≡ w.outbox ++ e ∷ [])
            × (e.topic ≡ codes "policy.cancelled")
            × (e.aggregate_id ≡ instance_.id)
            × (e.status ≡ OutboxStatus.pending)
            × (e.payload ≡ build_cancelled rt (draw.uuid 0) draw.now p))
  cancel_effect instance_ p reason w h =
      let (row, may, found, still, s0, s1) = cancel_ok rt draw instance_ p reason w h in
      let run = cancel_run rt draw instance_ row reason w may found still s0 s1 in
      let key : row.id ≡ instance_.id = find_row-key policy_id instance_.id w.policies found in
      let result : p ≡ cancelled_policy reason draw.now row = ground (arith, h, run) in
      rw run (
        ap (λ q. q.status) result,
        ap (λ q. q.cancellation_reason) result,
        rw (key, result) (find_row-update_self policy_id instance_.id _ w.policies found key),
        (λ j ne. rw key (find_row-update_ne policy_id instance_.id j _ w.policies (λ r. refl) ne)),
        (row, found, still),
        (_, refl, refl, key, refl, ap (build_cancelled rt (draw.uuid 0) draw.now) (sym result)),
      )

  -- An update, even on an instance loaded before other requests, never touches the number, the
  -- customer, the status, the cancellation reason or the creation time of any row, and loses none.
  pub update_keeps :
      (instance_ r : Policy) (changes : PolicyChanges) (w : World) (id : ℕ)
      → find_row policy_id id w.policies ≡ some r
      → (r' : Policy) × (find_row policy_id id
            (update_policy rt draw instance_ changes w).1.policies
          ≡ some r')
        × SameIdentity r r'
  update_keeps instance_ r changes w id found = elim (update_cases rt draw instance_ changes w) [
    | inl same ↦ (r, rw same found, (refl, refl, refl, refl, refl, refl))
    | inr after ↦ elim (Bool-cases (id == instance_.id)) [
      | inl here ↦
          let e : id ≡ instance_.id = ground arith in
          let found' : find_row policy_id instance_.id w.policies ≡ some r = rw e at found in
          (
            touch draw.now (set_fields changes r),
            rw (after, e)
                (find_row-update_self policy_id instance_.id _ w.policies found'
                  (find_row-key policy_id instance_.id w.policies found')),
            (refl, refl, refl, refl, refl, refl),
          )
      | inr other ↦
          let ne : id ≢ instance_.id = ground arith in
          (
            r,
            rw after
                (find_row-update_ne policy_id instance_.id id _ w.policies (λ r. refl) ne ∙ found),
            (refl, refl, refl, refl, refl, refl),
          )
    ]
  ]

  -- `update_policy` trusts the instance: with one loaded while the policy was open, an update goes
  -- through although the row has been closed since, writes the row, and emits a policy.updated
  -- event whose data has the instance's old status. The database takes every row.
  pub update_after_close :
      (instance_ row : Policy) (changes : PolicyChanges) (w : World)
      → is_open instance_.status ≡ true
      → has_changes changes ≡ true
      → find_row policy_id instance_.id w.policies ≡ some row
      → is_open row.status ≡ false
      → TakesAll draw
      → let q = touch draw.now (set_fields changes instance_) in
        ((update_policy rt draw instance_ changes w).0 ≡ ok q)
        × (find_row policy_id instance_.id (update_policy rt draw instance_ changes w).1.policies
            ≡ some (touch draw.now (set_fields changes row)))
        × (q.status ≡ instance_.status)
        × (q.status ≢ row.status)
        × ((e : OutboxEvent) × ((update_policy rt draw instance_ changes w).1.outbox
              ≡ w.outbox ++ e ∷ [])
            × (e.topic ≡ codes "policy.updated")
            × (e.aggregate_id ≡ instance_.id)
            × Tells rt (codes "policy.updated") draw.now q e.payload)
  update_after_close instance_ row changes w may some_change found closed takes =
      let run =
        update_run rt draw instance_ row changes w may some_change found (takes 0) (takes 1) in
      rw run (
        refl,
        find_row-update_self policy_id instance_.id _ w.policies found
            (find_row-key policy_id instance_.id w.policies found),
        refl,
        (λ same. cc (may, closed, ap is_open same)),
        (_, refl, refl, refl, build_updated-Tells rt _ draw.now _),
      )

  closed_step :
      (request : Request) (w : World) (id : ℕ) (r : Policy)
      → find_row policy_id id w.policies ≡ some r
      → is_open r.status ≡ false
      → (r' : Policy) × (find_row policy_id id (perform rt draw request w).1.policies ≡ some r')
        × (r'.status ≡ r.status)
  unfolding perform
  closed_step (create vendor year request coverages) w id r found closed =
      elim (create_cases rt draw vendor year request coverages w) [
        | inl same ↦ (r, rw same found, refl)
        | inr (p, more) ↦
            (r, rw more (find_row-append policy_id id w.policies (p ∷ []) found), refl)
      ]
  closed_step (partial_update instance_ changes) w id r found closed =
      let (r', found', same) = update_keeps instance_ r changes w id found in (r', found', same.3)
  closed_step (cancel instance_ reason) w id r found closed =
      elim (cancel_cases rt draw instance_ reason w) [
        | inl same ↦ (r, rw same found, refl)
        | inr (row, there, still, after) ↦
            let key : row.id ≡ instance_.id =
              find_row-key policy_id instance_.id w.policies there in
            let ne : id ≢ instance_.id = λ e. cc (rw e at found, there, still, closed) in
            (
              r,
              rw (after, key)
                  (find_row-update_ne policy_id instance_.id id _ w.policies (λ r. refl) ne
                    ∙ found),
              refl,
            )
      ]

-- A policy that is CANCELLED or EXPIRED keeps that status under every sequence of create, update
-- and cancel requests, also those that come with an instance loaded before it was closed.
pub closed_stays :
    (rt : Runtime) (requests : List (Draw × Request)) (w : World) (id : ℕ) (r : Policy)
    → find_row policy_id id w.policies ≡ some r
    → is_open r.status ≡ false
    → (r' : Policy) × (find_row policy_id id (serve rt requests w).policies ≡ some r')
      × (r'.status ≡ r.status)
unfolding serve
closed_stays rt [] w id r found closed = (r, found, refl)
closed_stays rt ((draw, request) ∷ rest) w id r found closed =
    let (r', found', same) = closed_step rt draw request w id r found closed in
    let (r'', found'', same') =
      closed_stays rt rest (perform rt draw request w).1 id r' found' (rw same closed) in
    (r'', found'', same' ∙ same)
