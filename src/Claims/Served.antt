-- ===== src/Claims/Served.antt =====
-- Requests one after the other, and the history table that they leave.
use mathlib.Core.Path.{subst}
use risk_core.Prelude.{
  ℕ, ◌≡◌, refl, sym, false, none, some, List, [], ◌∷◌, arith, codes, length, find_row, find_row-key,
  Bool-cases, Option-cases, inl, inr, ◌⊎◌,
}
use risk_core.Runtime.{Runtime, Draw}
use risk_core.Action.{err}
use risk_core.Claims.{Claim, World, row_id}
use risk_core.Claims.Errors.{Error}
use risk_core.Claims.Service.{
  TransitionData, clashes, new_claim, transition_status, validate_transition,
}
use risk_core.Claims.Requests.{Request, filing, moving, transition, perform, serve}
use risk_core.Claims.Transitions.{move_cases, move_run}
use risk_core.Claims.Filing.{file_cases}
use risk_core.Claims.Trail.{
  IsTrailed, HasTrail, Leads-length, rank, history_of, moving_trail, filing_trail,
}

pub clashes-missing :
    (c : Claim) (rows : List Claim) → clashes c rows ≡ false → find_row row_id c.id rows ≡ none
clashes-missing c [] h = refl
clashes-missing c (x ∷ rows) h = ground (arith, clashes-missing c rows)

module _ (rt : Runtime) (draw : Draw) where
  pub transition_cases :
      (pk : ℕ) (d : TransitionData) (w : World)
      → ((e : Error) × (transition rt draw w pk d w ≡ (err e, w)))
        ⊎ ((c : Claim) × (find_row row_id pk w.claims ≡ some c)
            × (transition rt draw w pk d w
                ≡ transition_status rt draw c d.new_status d.notes d.approved_amount w))
  transition_cases pk d w = elim (Option-cases (find_row row_id pk w.claims)) [
    | inl missing ↦ inl (Error.claim_not_found (some pk), unfold transition in simp missing)
    | inr (c, found) ↦ elim (Bool-cases (validate_transition d)) [
      | inr bad ↦ inl (Error.invalid_data, unfold transition in simp (found, bad))
      | inl good ↦ inr (c, found, unfold transition in simp (found, good))
    ]
  ]

  perform-IsTrailed :
      (request : Request) (w : World) → IsTrailed w → IsTrailed (perform rt draw request w).1
  unfolding perform
  perform-IsTrailed (filing year verified request) w trailed =
      elim (file_cases rt draw year verified request w) [
        | inl (e, failed) ↦ rw failed trailed
        | inr (number, free, (_, claims, rows, _)) ↦ λ id.
            rw (claims, rows)
              (filing_trail draw (new_claim draw request number) w (draw.uuid 1)
                (codes "Siniestro reportado") refl
                (clashes-missing (new_claim draw request number) w.claims free) trailed id)
      ]
  perform-IsTrailed (moving pk d) w trailed = elim (transition_cases pk d w) [
    | inl (e, failed) ↦ rw failed trailed
    | inr (c, found, same) ↦
        rw same (elim (move_cases rt draw c d.new_status d.notes d.approved_amount w) [
          | inl (e, failed) ↦ rw failed trailed
          | inr (row, may, has, there, takes) ↦
              let key : c.id ≡ pk = find_row-key row_id pk w.claims found in
              let own : find_row row_id c.id w.claims ≡ some c =
                subst (λ k. find_row row_id k w.claims ≡ some c) (sym key) found in
              rw (move_run rt draw c c d.new_status d.notes d.approved_amount w may has own takes)
                (moving_trail draw c w d.new_status d.notes d.approved_amount own may trailed)
        ])
  ]

-- Along every sequence of filings and transitions that come one at a time, so that nothing is written
-- between a transition's load of the claim and its lock, from a state where it holds (the empty
-- database is one), the history rows of each claim lead from its filing to its status by allowed steps
-- only, and no row belongs to a claim that is not there.
pub serve-IsTrailed :
    (rt : Runtime) (requests : List (Draw × Request)) (w : World)
    → IsTrailed w
    → IsTrailed (serve rt requests w)
unfolding serve
serve-IsTrailed rt [] w trailed = trailed
serve-IsTrailed rt ((draw, request) ∷ rest) w trailed =
    serve-IsTrailed rt rest (perform rt draw request w).1
      (perform-IsTrailed rt draw request w trailed)

-- After any sequence of filings and transitions that come one at a time, the number of history rows
-- of a claim is given by
-- its status: one when FILED, two under review, three when APPROVED or REJECTED, four when
-- RESOLVED.
pub serve_history :
    (rt : Runtime) (requests : List (Draw × Request)) (w : World) (id : ℕ) (c : Claim)
    → IsTrailed w
    → find_row row_id id (serve rt requests w).claims ≡ some c
    → length (history_of id (serve rt requests w).history) ≡ rank c.status
serve_history rt requests w id c trailed found =
    let w' = serve rt requests w in
    let path =
      subst (λ o. HasTrail o (history_of id w'.history)) found
        (serve-IsTrailed rt requests w trailed id) in
    omega (arith, Leads-length none (history_of id w'.history) c.status path)
