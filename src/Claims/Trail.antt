-- ===== src/Claims/Trail.antt =====
-- The history table against the claims: each claim's rows form a path along VALID_TRANSITIONS from
-- FILED to the claim's status. Here a transition takes the claim as it is in the table.
use mathlib.Core.Path.{subst}
use mathlib.Core.List.{append-nil}
use risk_core.Prelude.{
  ℕ, ◌+◌, ◌≡◌, ◌≢◌, refl, ◌∙◌, sym, ap, Bool, true, false, Option, none, some, List, [], ◌∷◌, ◌++◌,
  arith, Text, length, select, ◌==◌, find_row, find_row-append, find_row-append_new,
  find_row-update_self, find_row-update_ne, update_row, Bool-cases, Option-cases, inl, inr,
}
use risk_core.Prelude.Int.{ℤ}
use risk_core.Runtime.{Draw}
use risk_core.Claims.{Claim, ClaimStatusHistory, Status, World, row_id, same_status}
use risk_core.Claims.Service.{allowed, moved, new_history}

-- The rows of one claim, in the order in which they were written.
abbrev pub history_of : ℕ → List ClaimStatusHistory → List ClaimStatusHistory
history_of id rows = select (λ h. h.claim_id == id) rows

-- A step of a claim's life; `none` is before it was filed.
abbrev pub step_allowed : Option Status → Status → Bool
step_allowed none t = same_status t Status.filed
step_allowed (some s) t = allowed s t

-- The rows lead from one status to another, each by an allowed step.
abbrev pub Leads : Option Status → List ClaimStatusHistory → Status → Type 0
Leads from [] s = from ≡ some s
Leads from (h ∷ rows) s =
    (h.from_status ≡ from)
    × (step_allowed from h.to_status ≡ true)
    × Leads (some h.to_status) rows s

-- A row that is not there has no history; one that is there has a path to its status.
abbrev pub HasTrail : Option Claim → List ClaimStatusHistory → Type 0
HasTrail none rows = rows ≡ []
HasTrail (some c) rows = Leads none rows c.status

abbrev pub IsTrailed : World → Type 0
IsTrailed w = (id : ℕ) → HasTrail (find_row row_id id w.claims) (history_of id w.history)

-- How many steps lead to a status.
abbrev pub rank : Status → ℕ
rank Status.filed = 1
rank Status.under_review = 2
rank Status.approved = 3
rank Status.rejected = 3
rank Status.resolved = 4

abbrev rank_from : Option Status → ℕ
rank_from none = 0
rank_from (some s) = rank s

rank_step :
    (from : Option Status) (t : Status) → step_allowed from t ≡ true → rank t ≡ rank_from from + 1
rank_step none t h = ground arith
rank_step (some Status.filed) t h = ground arith
rank_step (some Status.under_review) t h = ground arith
rank_step (some Status.approved) t h = ground arith
rank_step (some Status.rejected) t h = ground arith
rank_step (some Status.resolved) t h = absurd (cc)

pub Leads-length :
    (from : Option Status) (rows : List ClaimStatusHistory) (s : Status)
    → Leads from rows s
    → length rows + rank_from from ≡ rank s
Leads-length from [] s h = rw h (omega arith)
Leads-length from (x ∷ rows) s (e, may, rest) =
    omega (arith, rank_step from x.to_status may, Leads-length (some x.to_status) rows s rest)

Leads-snoc :
    (from : Option Status) (rows : List ClaimStatusHistory) (s : Status) (h : ClaimStatusHistory)
    → Leads from rows s
    → h.from_status ≡ some s
    → allowed s h.to_status ≡ true
    → Leads from (rows ++ h ∷ []) h.to_status
Leads-snoc from [] s h path e may = rw path (e, may, refl)
Leads-snoc from (x ∷ rows) s h (at_, ok_, rest) e may =
    (at_, ok_, Leads-snoc (some x.to_status) rows s h rest e may)

history_of-append :
    (id : ℕ) (rows more : List ClaimStatusHistory)
    → history_of id (rows ++ more) ≡ history_of id rows ++ history_of id more
history_of-append id [] more = refl
history_of-append id (x ∷ rows) more = ground (arith, history_of-append id rows more)

history_of-other :
    (id : ℕ) (rows : List ClaimStatusHistory) (h : ClaimStatusHistory)
    → h.claim_id == id ≡ false
    → history_of id (rows ++ h ∷ []) ≡ history_of id rows
history_of-other id rows h other = rw history_of-append (simp (other, append-nil))

history_of-own :
    (rows : List ClaimStatusHistory) (h : ClaimStatusHistory)
    → history_of h.claim_id (rows ++ h ∷ []) ≡ history_of h.claim_id rows ++ h ∷ []
history_of-own rows h =
    let own : h.claim_id == h.claim_id ≡ true = ground arith in rw history_of-append (simp own)

module _ (draw : Draw) where
  -- A row that moves from its own status keeps the trails.
  pub moving_trail :
      (c : Claim) (w : World) (t : Status) (notes : Text) (amount : Option ℤ)
      → find_row row_id c.id w.claims ≡ some c
      → allowed c.status t ≡ true
      → IsTrailed w
      → (id : ℕ)
      → HasTrail (find_row row_id id (update_row row_id c.id (moved t amount draw.now) w.claims)) (
          history_of id
            (w.history ++ new_history (draw.uuid 0) draw.now c.id (some c.status) t notes ∷ []))
  moving_trail c w t notes amount found may trailed id = elim (Bool-cases (c.id == id)) [
    | inl here ↦
        subst
          (λ k.
            HasTrail (find_row row_id k (update_row row_id c.id (moved t amount draw.now) w.claims))
              (history_of k (w.history ++ h ∷ [])))
          (ground arith) self
    | inr there ↦
        let ne : id ≢ c.id = ground arith in
        let same =
          find_row-update_ne row_id c.id id (moved t amount draw.now) w.claims (λ r. refl) ne in
        subst (λ o. HasTrail o (history_of id (w.history ++ h ∷ []))) (sym same)
          (subst (HasTrail (find_row row_id id w.claims))
            (sym (history_of-other id w.history h there)) (trailed id))
  ]
    where
      h : ClaimStatusHistory
      h = new_history (draw.uuid 0) draw.now c.id (some c.status) t notes

      self :
          HasTrail
            (find_row row_id c.id (update_row row_id c.id (moved t amount draw.now) w.claims))
            (history_of c.id (w.history ++ h ∷ []))
      self =
          let before = subst (λ o. HasTrail o (history_of c.id w.history)) found (trailed c.id) in
          let after = Leads-snoc none (history_of c.id w.history) c.status h before refl may in
          subst (λ o. HasTrail o (history_of c.id (w.history ++ h ∷ [])))
            (sym (find_row-update_self row_id c.id (moved t amount draw.now) w.claims found refl))
            (subst (λ rows. Leads none rows t) (sym (history_of-own w.history h)) after)

  -- A row with a new primary key, and its first history row, keep the trails.
  pub filing_trail :
      (c : Claim) (w : World) (id_ : ℕ) (notes : Text)
      → c.status ≡ Status.filed
      → find_row row_id c.id w.claims ≡ none
      → IsTrailed w
      → (id : ℕ)
      → HasTrail
          (find_row row_id id (w.claims ++ c ∷ []))
          (history_of id (w.history ++ new_history id_ draw.now c.id none Status.filed notes ∷ []))
  filing_trail c w id_ notes filed_ missing trailed id = elim (Bool-cases (c.id == id)) [
    | inl here ↦
        subst
          (λ k.
            HasTrail (find_row row_id k (w.claims ++ c ∷ [])) (history_of k (w.history ++ h ∷ [])))
          (ground arith) self
    | inr there ↦
        let same : find_row row_id id (w.claims ++ c ∷ []) ≡ find_row row_id id w.claims =
          elim (Option-cases (find_row row_id id w.claims)) [
            | inl gone ↦
                find_row-append_new row_id id w.claims (c ∷ []) gone ∙ (simp there) ∙ sym gone
            | inr (r, present) ↦ find_row-append row_id id w.claims (c ∷ []) present ∙ sym present
          ] in
        subst (λ o. HasTrail o (history_of id (w.history ++ h ∷ []))) (sym same)
          (subst (HasTrail (find_row row_id id w.claims))
            (sym (history_of-other id w.history h there)) (trailed id))
  ]
    where
      h : ClaimStatusHistory
      h = new_history id_ draw.now c.id none Status.filed notes

      own : c.id == c.id ≡ true
      own = ground arith

      self :
          HasTrail
            (find_row row_id c.id (w.claims ++ c ∷ []))
            (history_of c.id (w.history ++ h ∷ []))
      self =
          let empty : history_of c.id w.history ≡ [] =
            subst (λ o. HasTrail o (history_of c.id w.history)) missing (trailed c.id) in
          let there : find_row row_id c.id (w.claims ++ c ∷ []) ≡ some c =
            find_row-append_new row_id c.id w.claims (c ∷ []) missing ∙ (simp own) in
          subst (λ o. HasTrail o (history_of c.id (w.history ++ h ∷ []))) (sym there)
            (subst (λ rows. Leads none rows c.status)
              (sym (history_of-own w.history h ∙ ap (λ rows. rows ++ h ∷ []) empty))
              (refl, refl, ap some (sym filed_)))
