-- ===== src/Notifications/SingleEvent.antt =====
-- The unique column of the table of notifications: one row for an event at most, counting that of
-- an open transaction.
use mathlib.Core.Path.{subst}
use risk_core.Prelude.{
  ℕ, ◌+◌, ◌≤◌, ◌≡◌, ◌≢◌, refl, ◌∙◌, sym, ap, Bool, true, false, Option, none, some, List, [], ◌∷◌,
  ◌++◌, arith, Text, text_eq, text_eq-eq, length, length-append, count, count-none, count-append,
  count-update_keeps, ltb, find_row, inl, inr, Bool-cases, Option-cases,
}
use risk_core.Json.{Json, Fields}
use risk_core.Runtime.{Draw}
use risk_core.Action.{ok, atomic}
use risk_core.Notifications.{Notification, World, row_id}
use risk_core.Notifications.Consumer.{Library, Message, create_notification, has_notification}
use risk_core.Notifications.Task.{
  Attempt, Outcome, returned, retry, raised, no_template, mailed, refused, send_email_notification,
  attempt_mail, mark_sent, mark_failed, max_retries,
}
use risk_core.Notifications.Pairs.{create_cases}
use risk_core.Notifications.Workers.{
  Office, settle, Step, Reach, start, later, insert, finish, skip, take, run, unsure, cut_off,
  redeliver, doubled, Cut, at_once, mailed_only, mailed_saved, mailed_logged, refused_saved,
  refused_logged, left_by,
}
use risk_core.Notifications.Ledger.{run_missing, run_found}

abbrev of_event : Text → Notification → Bool
of_event e n = text_eq n.event_id e

-- How many notifications of an event a table has, and an open transaction.
abbrev pub events_of : Text → List Notification → ℕ
events_of e ns = count (of_event e) ns

abbrev pub opened_event : Text → Option (Message × Notification) → ℕ
opened_event e none = 0
opened_event e (some (m, n)) = events_of e (n ∷ [])

abbrev pub IsSingleEvent : Office → Type 0
IsSingleEvent s = (e : Text) → events_of e s.world.notifications + opened_event e s.open_ ≤ 1

last_same : (xs : List Notification) (a b : Notification) → xs ++ a ∷ [] ≡ xs ++ b ∷ [] → a ≡ b
last_same [] a b h = cc
last_same (x ∷ xs) a b h = last_same xs a b (cc)

no_longer : (xs : List Notification) (a : Notification) → xs ++ a ∷ [] ≢ xs
no_longer xs a h = omega (arith, ap length h, length-append xs (a ∷ []))

-- A row is inserted only for an event that the table does not have.
created_new :
    (lib : Library) (draw : Draw) (event_id : Json) (event_type : Text) (fields : Fields)
    (n : Notification) (w : World)
    → create_notification lib draw true event_id event_type fields w ≡ (
      ok tt,
      record w { notifications = w.notifications ++ n ∷ []; tasks = w.tasks ++ n.id ∷ [] },
    )
    → has_notification n.event_id w ≡ false
created_new lib draw event_id event_type fields n w created =
    let done : (atomic (create_notification lib draw true event_id event_type fields)
          w).1.notifications
        ≡ w.notifications ++ n ∷ [] =
      rw created refl in
    elim (create_cases lib draw true event_id event_type fields w) [
      | inl same ↦ absurd (no_longer w.notifications n (sym done ∙ ap (λ v. v.notifications) same))
      | inr (m, new, added) ↦
          let e : n ≡ m =
            last_same w.notifications n m (sym done ∙ ap (λ v. v.notifications) added) in
          rw e new
    ]

one_event :
    (e : Text) (n : Notification) (w : World)
    → has_notification n.event_id w ≡ false
    → events_of e w.notifications ≤ 1
    → events_of e w.notifications + events_of e (n ∷ []) ≤ 1
one_event e n w new single = elim (Bool-cases (text_eq n.event_id e)) [
  | inl here ↦
      let same : n.event_id ≡ e = text_eq-eq n.event_id e here in
      let gone = count-none (of_event n.event_id) w.notifications new in
      let gone' : events_of e w.notifications ≡ 0 = rw same at gone in
      rw here (omega (arith, gone'))
  | inr other ↦ rw other (omega (arith, single))
]

-- A run keeps the events of the table.
module _ (s : Office) (before after : List (ℕ × ℕ)) (id k log_id now : ℕ) (e : Text) where
  abbrev events_in : Office → ℕ
  events_in o = events_of e o.world.notifications

  settled :
      (a : Attempt) (n : Notification)
      → events_in (settle s before after id k (some n) (attempt_mail k log_id now a n s.world))
        ≡ events_in s
  settled no_template n = refl
  settled (mailed t) n =
      count-update_keeps row_id (of_event e) n.id (mark_sent t) (λ r. refl) s.world.notifications
  settled (refused message) n =
      let kept =
        count-update_keeps row_id (of_event e) n.id mark_failed (λ r. refl) s.world.notifications in
      elim (Bool-cases (ltb k max_retries)) [ inl again ↦ rw again kept | inr over ↦ rw over kept ]

  run_events :
      (a : Attempt)
      → events_in (
          settle s before after id k
            (find_row row_id id s.world.notifications)
            (send_email_notification k log_id now a id s.world))
        ≡ events_in s
  run_events a = elim (Option-cases (find_row row_id id s.world.notifications)) [
    | inl gone ↦ ap events_in (run_missing s before after id k log_id now a gone)
    | inr (n, found) ↦
        ap events_in (run_found s before after id k log_id now a n found) ∙ settled a n
  ]

left_by-events :
    (e : Text) (c : Cut) (n : Notification) (w : World)
    → events_of e (left_by c n w).notifications ≡ events_of e w.notifications
left_by-events e at_once n w = refl
left_by-events e mailed_only n w = refl
left_by-events e (mailed_saved now) n w =
    count-update_keeps row_id (of_event e) n.id (mark_sent now) (λ r. refl) w.notifications
left_by-events e (mailed_logged _ _ now) n w =
    count-update_keeps row_id (of_event e) n.id (mark_sent now) (λ r. refl) w.notifications
left_by-events e refused_saved n w =
    count-update_keeps row_id (of_event e) n.id mark_failed (λ r. refl) w.notifications
left_by-events e (refused_logged _ _ _ _) n w =
    count-update_keeps row_id (of_event e) n.id mark_failed (λ r. refl) w.notifications

-- It opens and closes no transaction.
run_open :
    (s : Office) (before after : List (ℕ × ℕ)) (id k : ℕ) (row : Option Notification)
    (r : Outcome × World)
    → (settle s before after id k row r).open_ ≡ s.open_
run_open s before after id k none (o, w) = refl
run_open s before after id k (some n) (returned, w) = refl
run_open s before after id k (some n) (retry, w) = refl
run_open s before after id k (some n) (raised, w) = refl

module _ (lib : Library) where
  Step-IsSingleEvent : (s t : Office) → Step lib s t → IsSingleEvent s → IsSingleEvent t
  Step-IsSingleEvent s t (insert m draw event_id event_type fields n idle created new next) single =
      subst IsSingleEvent (sym next) (λ e.
        one_event e n s.world (created_new lib draw event_id event_type fields n s.world created)
          (omega (arith, single e)))
  Step-IsSingleEvent s t (finish m n was next) single = subst IsSingleEvent (sym next) (λ e. omega (
    arith,
    single e,
    ap (opened_event e) was,
    count-append (of_event e) s.world.notifications (n ∷ []),
  ))
  Step-IsSingleEvent s t (skip m idle next) single = subst IsSingleEvent (sym next) single
  Step-IsSingleEvent s t (take before after id was next) single =
      subst IsSingleEvent (sym next) single
  Step-IsSingleEvent s t (run before after id k log_id now a was next) single =
      subst IsSingleEvent (sym next) (λ e. omega (
        arith,
        single e,
        run_events s before after id k log_id now e a,
        ap (opened_event e) (
            run_open s before after id k (find_row row_id id s.world.notifications)
              (send_email_notification k log_id now a id s.world)),
      ))
  Step-IsSingleEvent s t (unsure before after id k log_id now message n was found next) single =
      subst IsSingleEvent (sym next) (λ e. omega (
        arith,
        single e,
        settled s before after id k log_id now e (refused message) n,
        ap (opened_event e) (
            run_open s before after id k (some n)
              (attempt_mail k log_id now (refused message) n s.world)),
      ))
  Step-IsSingleEvent s t (cut_off before after id k n c was found next) single =
      subst IsSingleEvent (sym next) (λ e. omega (arith, single e, left_by-events e c n s.world))
  Step-IsSingleEvent s t (redeliver before after id k n c was found next) single =
      subst IsSingleEvent (sym next) (λ e. omega (arith, single e, left_by-events e c n s.world))
  Step-IsSingleEvent s t (doubled before after id k log_id now message n was found again next)
        single =
      subst IsSingleEvent (sym next) (λ e. omega (
        arith,
        single e,
        count-update_keeps row_id (of_event e) n.id mark_failed (λ r. refl) s.world.notifications,
      ))

  pub Reach-IsSingleEvent : {s t : Office} → Reach lib s t → IsSingleEvent s → IsSingleEvent t
  Reach-IsSingleEvent start h = h
  Reach-IsSingleEvent {s} (later {t} {u} reach step) h =
      Step-IsSingleEvent t u step (Reach-IsSingleEvent reach h)
