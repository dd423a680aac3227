-- ===== src/Notifications/Ledger.antt =====
-- Counting notifications: in the table, among the tasks, and as mailed; and what a run of a task
-- does with and without its row.
use risk_core.Prelude.{
  ℕ, ◌+◌, ◌≤◌, ◌≡◌, ◌≢◌, refl, ◌∙◌, Option, none, some, List, [], ◌∷◌, ◌++◌, arith, count,
  count-append, All, ◌==◌, find_row, find_row-key, find_row-update_self, find_row-update_ne,
  update_row, inl, inr, Bool-cases,
}
use risk_core.Notifications.{Notification, row_id}
use risk_core.Notifications.Consumer.{Message}
use risk_core.Notifications.Task.{Attempt, send_email_notification, attempt_mail}
use risk_core.Notifications.Workers.{Office, mail_of, settle}

-- How often an identifier stands in a table, and in a list of tasks with their retries.
abbrev pub rows_of : ℕ → List Notification → ℕ
rows_of i ns = count (λ n. n.id == i) ns

abbrev pub held_of : ℕ → List (ℕ × ℕ) → ℕ
held_of i held = count (λ h. h.0 == i) held

abbrev pub opened : ℕ → Option (Message × Notification) → ℕ
opened i none = 0
opened i (some (m, n)) = rows_of i (n ∷ [])

-- A notification that was mailed has its row, with the subject, the recipient and the event.
abbrev pub InTable : List Notification → Notification → Type 0
InTable rows n =
    (r : Notification) × (find_row row_id n.id rows ≡ some r)
    × (mail_of r ≡ mail_of n)
    × (r.event_id ≡ n.event_id)

rows_of-none :
    (id : ℕ) (rows : List Notification) → find_row row_id id rows ≡ none → rows_of id rows ≡ 0
rows_of-none id [] h = refl
rows_of-none id (x ∷ rows) h = ground (arith, rows_of-none id rows)

module _ (id : ℕ) (change : Notification → Notification)
    (same_id : (r : Notification) → (change r).id ≡ r.id)
    (same_mail : (r : Notification) → mail_of (change r) ≡ mail_of r)
    (same_event_id : (r : Notification) → (change r).event_id ≡ r.event_id) where
  pub InTable-update :
      (rows : List Notification) (n : Notification)
      → InTable rows n
      → InTable (update_row row_id id change rows) n
  InTable-update rows n (r, found, mail, event) = elim (Bool-cases (n.id == id)) [
    | inl here ↦
        let e : n.id ≡ id = ground arith in
        let found' : find_row row_id id rows ≡ some r = rw e at found in
        (
          change r,
          rw e (
              find_row-update_self row_id id change rows found'
                (same_id r ∙ find_row-key row_id id rows found')),
          same_mail r ∙ mail,
          same_event_id r ∙ event,
        )
    | inr other ↦
        let ne : n.id ≢ id = ground arith in
        (r, find_row-update_ne row_id id n.id change rows same_id ne ∙ found, mail, event)
  ]

pub All-InTable :
    (rows rows' : List Notification) (ns : List Notification)
    → ((n : Notification) → InTable rows n → InTable rows' n)
    → All (InTable rows) ns
    → All (InTable rows') ns
All-InTable rows rows' [] f h = tt
All-InTable rows rows' (n ∷ ns) f h = (f n h.0, All-InTable rows rows' ns f h.1)

-- One task among those that are held.
pub held_split :
    (i : ℕ) (before after : List (ℕ × ℕ)) (h : ℕ × ℕ)
    → held_of i (before ++ h ∷ after) ≡ held_of i (h ∷ []) + held_of i (before ++ after)
held_split i before after h = omega (
  arith,
  count-append (λ x. x.0 == i) before (h ∷ after),
  count-append (λ x. x.0 == i) before after,
)

-- A row that is new counts once.
pub one_row :
    (i : ℕ) (n : Notification) (rows : List Notification)
    → find_row row_id n.id rows ≡ none
    → rows_of i rows ≤ 1
    → rows_of i rows + rows_of i (n ∷ []) ≤ 1
one_row i n rows new single = elim (Bool-cases (n.id == i)) [
  | inl here ↦
      let e : n.id ≡ i = ground arith in
      let gone = rows_of-none n.id rows new in
      let gone' : rows_of i rows ≡ 0 = rw e at gone in rw here (omega (arith, gone'))
  | inr other ↦ rw other (omega (arith, single))
]

-- What a run does where it finds no row, and where it finds one.
module _ (s : Office) (before after : List (ℕ × ℕ)) (id k log_id now : ℕ) (a : Attempt) where
  pub run_missing :
      find_row row_id id s.world.notifications ≡ none
      → settle s before after id k
          (find_row row_id id s.world.notifications)
          (send_email_notification k log_id now a id s.world)
        ≡ record s { held = before ++ after; lost = s.lost ++ id ∷ [] }
  unfolding send_email_notification
  run_missing gone = rw (gone, send_email_notification) refl

  pub run_found :
      (n : Notification)
      → find_row row_id id s.world.notifications ≡ some n
      → settle s before after id k
          (find_row row_id id s.world.notifications)
          (send_email_notification k log_id now a id s.world)
        ≡ settle s before after id k (some n) (attempt_mail k log_id now a n s.world)
  unfolding send_email_notification
  run_found n found = rw (found, send_email_notification) refl
