-- ===== src/Claims/Register.antt =====
-- What the claims service promises, told without tables: a register that gives each identifier the
-- status of its claim, and that moves by filing a claim and by one step of a claim's life. The
-- service refines it.
use mathlib.Core.Path.{subst, fun_ext}
use risk_core.Prelude.{
  ℕ, ◌≡◌, ◌≢◌, refl, ◌∙◌, sym, ap, true, false, Option, none, some, List, [], ◌∷◌, ◌++◌, arith,
  ◌==◌, find_row, find_row-key, find_row-append, find_row-append_new, find_row-update_self,
  find_row-update_ne, update_row, Bool-cases, Option-cases, inl, inr, ◌⊎◌, if◌then◌else◌,
}
use risk_core.Prelude.Int.{ℤ}
use risk_core.Runtime.{Runtime, Draw}
use risk_core.Claims.{Claim, Status, World, row_id}
use risk_core.Claims.Service.{allowed, moved, new_claim}
use risk_core.Claims.Requests.{Request, filing, moving, perform, serve}
use risk_core.Claims.Transitions.{move_cases, move_run}
use risk_core.Claims.Filing.{file_cases}
use risk_core.Claims.Served.{transition_cases, clashes-missing}

abbrev pub Register : Type 0
Register = ℕ → Option Status

abbrev pub set : Register → ℕ → Status → Register
set s id status j = if j == id then some status else s j

-- One step of the register.
pub data Step (s t : Register) : Type 0 where
  file : (id : ℕ) → s id ≡ none → t ≡ set s id Status.filed → Step s t
  move :
      (id : ℕ) (current new : Status)
      → s id ≡ some current
      → allowed current new ≡ true
      → t ≡ set s id new
      → Step s t

pub data Reach (s : Register) : Register → Type 0 where
  start : Reach s s
  later : {t u : Register} → Reach s t → Step t u → Reach s u

Reach-append : {s t u : Register} → Reach s t → Reach t u → Reach s u
Reach-append r start = r
Reach-append r (later q step) = later (Reach-append r q) step

abbrev pub status_of : Option Claim → Option Status
status_of none = none
status_of (some c) = some c.status

-- What the register shows of the tables.
abbrev pub register : List Claim → Register
register claims id = status_of (find_row row_id id claims)

pub register-append :
    (c : Claim) (claims : List Claim)
    → find_row row_id c.id claims ≡ none
    → register (claims ++ c ∷ []) ≡ set (register claims) c.id c.status
register-append c claims missing = fun_ext λ j. elim (Bool-cases (j == c.id)) [
  | inl here ↦
      let e : j ≡ c.id = ground arith in
      let own : c.id == c.id ≡ true = ground arith in
      subst (λ k. register (claims ++ c ∷ []) k ≡ set (register claims) c.id c.status k) (sym e)
        (ap status_of (find_row-append_new row_id c.id claims (c ∷ []) missing) ∙ (simp own))
  | inr other ↦
      let ne : c.id == j ≡ false = ground arith in
      elim (Option-cases (find_row row_id j claims)) [
        | inl gone ↦
            ap status_of (find_row-append_new row_id j claims (c ∷ []) gone)
            ∙ (simp (ne, other, gone))
        | inr (r, there) ↦
            ap status_of (find_row-append row_id j claims (c ∷ []) there) ∙ (simp (other, there))
      ]
]

pub register-update :
    (c : Claim) (claims : List Claim) (t : Status) (amount : Option ℤ) (now : ℕ)
    → find_row row_id c.id claims ≡ some c
    → register (update_row row_id c.id (moved t amount now) claims) ≡ set (register claims) c.id t
register-update c claims t amount now found = fun_ext λ j. elim (Bool-cases (j == c.id)) [
  | inl here ↦
      let e : j ≡ c.id = ground arith in
      let own : c.id == c.id ≡ true = ground arith in
      subst
        (λ k.
          register (update_row row_id c.id (moved t amount now) claims) k
          ≡ set (register claims) c.id t k)
        (sym e)
        (ap status_of (find_row-update_self row_id c.id (moved t amount now) claims found refl)
          ∙ (simp own))
  | inr other ↦
      let ne : j ≢ c.id = ground arith in
      ap status_of (find_row-update_ne row_id c.id j (moved t amount now) claims (λ r. refl) ne)
      ∙ (simp other)
]

-- A request leaves the register as it is, or is one step of it.
perform_steps :
    (rt : Runtime) (draw : Draw) (request : Request) (w : World)
    → (register (perform rt draw request w).1.claims ≡ register w.claims)
      ⊎ Step (register w.claims) (register (perform rt draw request w).1.claims)
unfolding perform
perform_steps rt draw (filing year verified request) w =
    elim (file_cases rt draw year verified request w) [
      | inl (e, failed) ↦ inl (ap (λ r. register r.1.claims) failed)
      | inr (number, free, (_, claims, _, _)) ↦
          let c = new_claim draw request number in
          let missing = clashes-missing c w.claims free in
          inr (
            file c.id (ap status_of missing)
              (ap register claims ∙ register-append c w.claims missing))
    ]
perform_steps rt draw (moving pk d) w = elim (transition_cases rt draw pk d w) [
  | inl (e, failed) ↦ inl (ap (λ r. register r.1.claims) failed)
  | inr (c, found, same) ↦ elim (move_cases rt draw c d.new_status d.notes d.approved_amount w) [
    | inl (e, failed) ↦ inl (ap (λ r. register r.1.claims) (same ∙ failed))
    | inr (row, may, has, there, takes) ↦
        let key : c.id ≡ pk = find_row-key row_id pk w.claims found in
        let own : find_row row_id c.id w.claims ≡ some c =
          subst (λ k. find_row row_id k w.claims ≡ some c) (sym key) found in
        let run = move_run rt draw c c d.new_status d.notes d.approved_amount w may has own takes in
        inr (
          move c.id c.status d.new_status (ap status_of own) may (
            ap (λ r. register r.1.claims) (same ∙ run)
            ∙ register-update c w.claims d.new_status d.approved_amount draw.now own))
  ]
]

-- The claims service refines the register where requests come one at a time, so that nothing is
-- written between a transition's load of the claim and its lock: what any sequence of filings and
-- transitions, failing ones included, makes of the tables shows as a state that the register
-- reaches by its own steps.
pub serve-Reach :
    (rt : Runtime) (requests : List (Draw × Request)) (w : World)
    → Reach (register w.claims) (register (serve rt requests w).claims)
unfolding serve
serve-Reach rt [] w = start
serve-Reach rt ((draw, request) ∷ rest) w =
    let w' = (perform rt draw request w).1 in
    let onward = serve-Reach rt rest w' in
    elim (perform_steps rt draw request w) [
      | inl same ↦ subst (λ s. Reach s (register (serve rt rest w').claims)) same onward
      | inr step ↦ Reach-append (later start step) onward
    ]
