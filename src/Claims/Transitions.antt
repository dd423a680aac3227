-- ===== src/Claims/Transitions.antt =====
-- What a transition does to the tables of the claims service, on every branch.
use mathlib.Core.Path.{subst}
use mathlib.Core.List.{append_assoc}
use risk_core.Prelude.{
  ◌&&◌, ℕ, ◌≡◌, ◌≢◌, refl, sym, ap, Bool, true, false, Option, some, List, [], ◌∷◌, ◌++◌, arith,
  Text, codes, find_row, find_row-key, find_row-update_self, find_row-update_ne, update_row,
  Bool-cases, Option-cases, inl, inr, ◌⊎◌,
}
use risk_core.Prelude.Int.{ℤ}
use risk_core.Runtime.{Runtime, Draw}
use risk_core.Action.{ok, err}
use risk_core.Outbox.{OutboxEvent, new_event}
use risk_core.Claims.{Claim, ClaimStatusHistory, Status, World, row_id}
use risk_core.Claims.Errors.{Error}
use risk_core.Claims.Events.{build_status_changed, build_resolved}
use risk_core.Claims.Service.{
  valid_transitions, allowed, lacks_amount, moved, new_history, transition_status,
}

module _ (rt : Runtime) (draw : Draw) where
  -- The events of a transition: claim.resolved comes after claim.status_changed.
  abbrev pub events_of : Status → Status → Claim → List OutboxEvent
  events_of from_status new_status c =
      new_event (draw.uuid 2) (codes "claim") c.id (codes "claim.status_changed")
        (codes "claim.status_changed") (rt.uuid_str c.id)
        (build_status_changed rt (draw.uuid 1) draw.now c from_status new_status) draw.now
      ∷ elim new_status [
        | Status.resolved ↦
            new_event (draw.uuid 4) (codes "claim") c.id (codes "claim.resolved")
              (codes "claim.resolved") (rt.uuid_str c.id)
              (build_resolved rt (draw.uuid 3) draw.now c) draw.now
            ∷ []
        | _ ↦ []
      ]

  -- The world after the row has moved.
  abbrev pub after_move : Status → Status → Text → Option ℤ → Claim → World → World
  after_move from_status new_status notes amount row w =
      let c = moved new_status amount draw.now row in
      record w {
        claims = update_row row_id row.id (moved new_status amount draw.now) w.claims;
        history =
            w.history
            ++ new_history (draw.uuid 0) draw.now row.id (some from_status) new_status notes ∷ [];
        outbox = w.outbox ++ events_of from_status new_status c;
        claims_status_changed_total =
            w.claims_status_changed_total ++ (from_status, new_status) ∷ [];
      }

  -- Whether the database takes all that a transition writes.
  abbrev pub takes_move : Status → Bool
  takes_move Status.resolved = draw.stored 0 && (draw.stored 1 && (draw.stored 2 && draw.stored 3))
  takes_move _ = draw.stored 0 && (draw.stored 1 && draw.stored 2)

  three :
      (draw.stored 0 && (draw.stored 1 && draw.stored 2)) ≡ true
      → (draw.stored 0 ≡ true) × (draw.stored 1 ≡ true) × (draw.stored 2 ≡ true)
  three h = (ground arith, ground arith, ground arith)

  four :
      (draw.stored 0 && (draw.stored 1 && (draw.stored 2 && draw.stored 3))) ≡ true
      → (draw.stored 0 ≡ true)
        × (draw.stored 1 ≡ true)
        × (draw.stored 2 ≡ true)
        × (draw.stored 3 ≡ true)
  four h = (ground arith, ground arith, ground arith, ground arith)

  pub move_run :
      (instance_ row : Claim) (new_status : Status) (notes : Text) (amount : Option ℤ) (w : World)
      → allowed instance_.status new_status ≡ true
      → lacks_amount new_status amount ≡ false
      → find_row row_id instance_.id w.claims ≡ some row
      → takes_move new_status ≡ true
      → transition_status rt draw instance_ new_status notes amount w ≡ (
        ok (moved new_status amount draw.now row),
        after_move instance_.status new_status notes amount row w,
      )
  unfolding transition_status
  move_run instance_ row Status.resolved notes amount w may has found takes =
      let (s0, s1, s2, s3) = four takes in simp (may, has, found, s0, s1, s2, s3, append_assoc)
  move_run instance_ row Status.filed notes amount w may has found takes =
      let (s0, s1, s2) = three takes in simp (may, has, found, s0, s1, s2)
  move_run instance_ row Status.under_review notes amount w may has found takes =
      let (s0, s1, s2) = three takes in simp (may, has, found, s0, s1, s2)
  move_run instance_ row Status.approved notes amount w may has found takes =
      let (s0, s1, s2) = three takes in simp (may, has, found, s0, s1, s2)
  move_run instance_ row Status.rejected notes amount w may has found takes =
      let (s0, s1, s2) = three takes in simp (may, has, found, s0, s1, s2)

  last_undone :
      (instance_ row : Claim) (new_status : Status) (notes : Text) (amount : Option ℤ) (w : World)
      → allowed instance_.status new_status ≡ true
      → lacks_amount new_status amount ≡ false
      → find_row row_id instance_.id w.claims ≡ some row
      → draw.stored 0 ≡ true
      → draw.stored 1 ≡ true
      → draw.stored 2 ≡ true
      → takes_move new_status ≡ false
      → transition_status rt draw instance_ new_status notes amount w ≡ (err Error.unexpected, w)
  unfolding transition_status
  last_undone instance_ row Status.resolved notes amount w may has found s0 s1 s2 fails =
      let f3 : draw.stored 3 ≡ false = ground (arith, s0, s1, s2, fails) in
      simp (may, has, found, s0, s1, s2, f3)
  last_undone instance_ row Status.filed notes amount w may has found s0 s1 s2 fails =
      absurd (ground (arith, s0, s1, s2, fails))
  last_undone instance_ row Status.under_review notes amount w may has found s0 s1 s2 fails =
      absurd (ground (arith, s0, s1, s2, fails))
  last_undone instance_ row Status.approved notes amount w may has found s0 s1 s2 fails =
      absurd (ground (arith, s0, s1, s2, fails))
  last_undone instance_ row Status.rejected notes amount w may has found s0 s1 s2 fails =
      absurd (ground (arith, s0, s1, s2, fails))

  -- A statement that fails undoes those before it.
  move_undone :
      (instance_ row : Claim) (new_status : Status) (notes : Text) (amount : Option ℤ) (w : World)
      → allowed instance_.status new_status ≡ true
      → lacks_amount new_status amount ≡ false
      → find_row row_id instance_.id w.claims ≡ some row
      → takes_move new_status ≡ false
      → transition_status rt draw instance_ new_status notes amount w ≡ (err Error.unexpected, w)
  unfolding transition_status
  move_undone instance_ row new_status notes amount w may has found fails =
      elim (Bool-cases (draw.stored 0)) [
        | inr f0 ↦ simp (may, has, found, f0)
        | inl s0 ↦ elim (Bool-cases (draw.stored 1)) [
          | inr f1 ↦ simp (may, has, found, s0, f1)
          | inl s1 ↦ elim (Bool-cases (draw.stored 2)) [
            | inr f2 ↦ simp (may, has, found, s0, s1, f2)
            | inl s2 ↦
                last_undone instance_ row new_status notes amount w may has found s0 s1 s2 fails
          ]
        ]
      ]

  -- A transition fails and changes nothing, or all its conditions hold.
  pub move_cases :
      (instance_ : Claim) (new_status : Status) (notes : Text) (amount : Option ℤ) (w : World)
      → ((e : Error) × (transition_status rt draw instance_ new_status notes amount w ≡ (err e, w)))
        ⊎ ((row : Claim) × (allowed instance_.status new_status ≡ true)
            × (lacks_amount new_status amount ≡ false)
            × (find_row row_id instance_.id w.claims ≡ some row)
            × (takes_move new_status ≡ true))
  move_cases instance_ new_status notes amount w =
      elim (Bool-cases (allowed instance_.status new_status)) [
        | inr refused ↦ inl (
          Error.invalid_claim_status (some instance_.id) instance_.status
              (valid_transitions instance_.status),
          unfold transition_status in simp refused,
        )
        | inl may ↦ elim (Bool-cases (lacks_amount new_status amount)) [
          | inl lacks ↦ inl (Error.amount_required, unfold transition_status in simp (may, lacks))
          | inr has ↦ elim (Option-cases (find_row row_id instance_.id w.claims)) [
            | inl missing ↦
                inl (Error.does_not_exist, unfold transition_status in simp (may, has, missing))
            | inr (row, found) ↦ elim (Bool-cases (takes_move new_status)) [
              | inl takes ↦ inr (row, may, has, found, takes)
              | inr fails ↦ inl (
                Error.unexpected,
                move_undone instance_ row new_status notes amount w may has found fails,
              )
            ]
          ]
        ]
      ]

  -- A transition that raises, be it that the database refuses a statement after the row, the history
  -- row or an event is written, leaves every table and counter as it was: no move without its
  -- history row and its events.
  pub move_error :
      (instance_ : Claim) (new_status : Status) (notes : Text) (amount : Option ℤ) (w : World)
      {e : Error}
      → (transition_status rt draw instance_ new_status notes amount w).0 ≡ err e
      → (transition_status rt draw instance_ new_status notes amount w).1 ≡ w
  move_error instance_ new_status notes amount w h =
      elim (move_cases instance_ new_status notes amount w) [
        | inl (e, failed) ↦ ap (λ r. r.1) failed
        | inr (row, may, has, found, takes) ↦
            let run = move_run instance_ row new_status notes amount w may has found takes in
            absurd (cc)
      ]

  -- A transition that returns a claim was along VALID_TRANSITIONS from the instance's status; the
  -- row of that claim now has the new status and is what is returned, every other row is as it
  -- was, one history row is added, and the outbox has claim.status_changed and, exactly when the
  -- new status is RESOLVED, claim.resolved after it.
  pub move_effect :
      (instance_ c : Claim) (new_status : Status) (notes : Text) (amount : Option ℤ) (w : World)
      → (transition_status rt draw instance_ new_status notes amount w).0 ≡ ok c
      → let w' = (transition_status rt draw instance_ new_status notes amount w).1 in
        (allowed instance_.status new_status ≡ true)
        × (lacks_amount new_status amount ≡ false)
        × (c.status ≡ new_status)
        × (find_row row_id instance_.id w'.claims ≡ some c)
        × ((j : ℕ) → j ≢ instance_.id → find_row row_id j w'.claims ≡ find_row row_id j w.claims)
        × (w'.history
            ≡ w.history
              ++ new_history
                  (draw.uuid 0)
                  draw.now
                  instance_.id
                  (some instance_.status)
                  new_status
                  notes
                ∷ [])
        × (w'.outbox ≡ w.outbox ++ events_of instance_.status new_status c)
  move_effect instance_ c new_status notes amount w h =
      elim (move_cases instance_ new_status notes amount w) [
        | inl (e, failed) ↦ absurd (cc)
        | inr (row, may, has, found, takes) ↦
            let run = move_run instance_ row new_status notes amount w may has found takes in
            let key : row.id ≡ instance_.id = find_row-key row_id instance_.id w.claims found in
            let result : c ≡ moved new_status amount draw.now row = ground (arith, h, run) in
            rw run (
              may,
              has,
              ap (λ d. d.status) result,
              rw (key, result) (find_row-update_self row_id instance_.id _ w.claims found key),
              (λ j ne. rw key (find_row-update_ne row_id instance_.id j _ w.claims (λ r. refl) ne)),
              rw key refl,
              ap (λ d. w.outbox ++ events_of instance_.status new_status d) (sym result),
            )
      ]

  -- `transition_status` checks the instance and not the locked row: where another request has
  -- moved the row since the instance was loaded, a transition along VALID_TRANSITIONS from the
  -- instance's status still goes through, whatever the status of the row, and records the
  -- instance's status as the one it came from. The database takes every statement.
  pub move_stale :
      (instance_ row : Claim) (new_status : Status) (notes : Text) (amount : Option ℤ) (w : World)
      → allowed instance_.status new_status ≡ true
      → lacks_amount new_status amount ≡ false
      → find_row row_id instance_.id w.claims ≡ some row
      → takes_move new_status ≡ true
      → let (r, w') = transition_status rt draw instance_ new_status notes amount w in
        (r ≡ ok (moved new_status amount draw.now row))
        × (find_row row_id instance_.id w'.claims ≡ some (moved new_status amount draw.now row))
        × ((h : ClaimStatusHistory) × (w'.history ≡ w.history ++ h ∷ [])
            × (h.to_status ≡ new_status)
            × (h.from_status ≡ some instance_.status))
  move_stale instance_ row new_status notes amount w may has found takes =
      let run = move_run instance_ row new_status notes amount w may has found takes in
      let key : row.id ≡ instance_.id = find_row-key row_id instance_.id w.claims found in
      rw run (
        refl,
        subst
            (λ k.
              find_row row_id instance_.id
                (update_row row_id k (moved new_status amount draw.now) w.claims)
              ≡ some (moved new_status amount draw.now row))
            (sym key) (find_row-update_self row_id instance_.id _ w.claims found key),
        (_, refl, refl, refl),
      )
