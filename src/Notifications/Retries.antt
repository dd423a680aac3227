-- ===== src/Notifications/Retries.antt =====
-- All the runs of one task: how many there are, and what is left when they are over.
use mathlib.Core.Path.{subst}
use risk_core.Prelude.{
  ℕ, zero, suc, ◌+◌, ◌<◌, ◌≤◌, ◌≡◌, refl, ◌∙◌, sym, ap, true, some, [], ◌∷◌, ◌++◌, arith, Text,
  length, length-append, ltb, find_row, find_row-key, find_row-update_self, update_row,
}
use risk_core.Notifications.{Notification, Status, World, row_id}
use risk_core.Notifications.Task.{
  Attempt, mailed, refused, returned, raised, send_email_notification, attempt_mail, run_task,
  mark_sent, mark_failed, after_mail, after_refusal,
}

module _ (attempts : ℕ → ℕ × ℕ × Attempt) (id : ℕ) where
  -- What the run with k retries behind it meets.
  abbrev pub met : ℕ → Attempt
  met k = (attempts k).2

  abbrev pub IsRefused : ℕ → Type 0
  IsRefused k = (message : Text) × (met k ≡ refused message)

  send_run :
      (r : ℕ) (a : Attempt) (n : Notification) (w : World)
      → find_row row_id id w.notifications ≡ some n
      → met r ≡ a
      → send_email_notification r (attempts r).0 (attempts r).1 (met r) id w
        ≡ attempt_mail r (attempts r).0 (attempts r).1 a n w
  unfolding send_email_notification
  send_run r a n w found met_ = rw (found, send_email_notification) (rw met_ refl)

  refused_run :
      (fuel r : ℕ) (message : Text) (n : Notification) (w : World)
      → find_row row_id id w.notifications ≡ some n
      → met r ≡ refused message
      → r < 3
      → run_task (suc fuel) r attempts id w
        ≡ run_task fuel
            (r + 1)
            attempts
            id
            (after_refusal (r + 1) (attempts r).0 (attempts r).1 message n w)
  unfolding run_task
  refused_run fuel r message n w found met_ more =
      let again : ltb r 3 ≡ true = ground arith in
      rw (send_run r (refused message) n w found met_, run_task) (rw again refl)

  last_refused :
      (fuel : ℕ) (message : Text) (n : Notification) (w : World)
      → find_row row_id id w.notifications ≡ some n
      → met 3 ≡ refused message
      → run_task (suc fuel) 3 attempts id w
        ≡ (raised, after_refusal 4 (attempts 3).0 (attempts 3).1 message n w)
  unfolding run_task
  last_refused fuel message n w found met_ =
      rw (send_run 3 (refused message) n w found met_, run_task) refl

  mailed_run :
      (fuel r t : ℕ) (n : Notification) (w : World)
      → find_row row_id id w.notifications ≡ some n
      → met r ≡ mailed t
      → run_task (suc fuel) r attempts id w ≡ (returned, after_mail (r + 1) (attempts r).0 t n w)
  unfolding run_task
  mailed_run fuel r t n w found met_ = rw (send_run r (mailed t) n w found met_, run_task) refl

  -- The row after a refusal.
  still_there :
      (n : Notification) (w : World)
      → find_row row_id id w.notifications ≡ some n
      → find_row row_id id (update_row row_id n.id mark_failed w.notifications)
        ≡ some (mark_failed n)
  still_there n w found =
      let key : n.id ≡ id = find_row-key row_id id w.notifications found in
      subst
        (λ k.
          find_row row_id id (update_row row_id k mark_failed w.notifications)
          ≡ some (mark_failed n))
        (sym key) (find_row-update_self row_id id mark_failed w.notifications found key)

  shift : (r i : ℕ) → IsRefused (r + suc i) → IsRefused (r + 1 + i)
  shift r i h = subst IsRefused (omega arith) h

  first-IsRefused : (r : ℕ) → IsRefused (r + 0) → IsRefused r
  first-IsRefused r h = subst IsRefused (omega arith) h

  -- After j refused runs and one that is mailed, from a run with r retries behind it.
  sent_from :
      (j fuel r t : ℕ) (n : Notification) (w : World)
      → find_row row_id id w.notifications ≡ some n
      → ((i : ℕ) → i < j → IsRefused (r + i))
      → met (r + j) ≡ mailed t
      → r + j ≤ 3
      → j < fuel
      → let (o, w') = run_task fuel r attempts id w in
        (o ≡ returned)
        × ((n' : Notification) × (find_row row_id id w'.notifications ≡ some n')
            × (n'.status ≡ Status.sent)
            × (n'.sent_at ≡ some t))
        × (w'.mails
            ≡ w.mails ++ (record { subject = n.subject; recipient = n.recipient_email }) ∷ [])
        × (length w'.logs ≡ length w.logs + j + 1)
  sent_from j zero r t n w found before now bound enough = absurd (ground arith)
  sent_from zero (suc fuel) r t n w found before now bound enough =
      let met_ : met r ≡ mailed t = ap met (omega arith) ∙ now in
      let key : n.id ≡ id = find_row-key row_id id w.notifications found in
      rw (mailed_run fuel r t n w found met_) (
        refl,
        (
          mark_sent t n,
          subst
              (λ k.
                find_row row_id id (update_row row_id k (mark_sent t) w.notifications)
                ≡ some (mark_sent t n))
              (sym key) (find_row-update_self row_id id (mark_sent t) w.notifications found key),
          refl,
          refl,
        ),
        refl,
        omega (arith, length-append w.logs),
      )
  sent_from (suc j) (suc fuel) r t n w found before now bound enough =
      let (message, met_) = first-IsRefused r (before 0 (omega arith)) in
      let w1 = after_refusal (r + 1) (attempts r).0 (attempts r).1 message n w in
      let (o, row, mails, logs) =
        sent_from j fuel (r + 1) t (mark_failed n) w1 (still_there n w found)
          (λ i lt. shift r i (before (suc i) (omega arith))) (ap met (omega arith) ∙ now)
          (omega arith) (omega arith) in
      rw (refused_run fuel r message n w found met_ (omega arith))
        (o, row, mails, omega (arith, logs, length-append w.logs))

  failed_from :
      (j fuel r : ℕ) (n : Notification) (w : World)
      → find_row row_id id w.notifications ≡ some n
      → ((i : ℕ) → i ≤ j → IsRefused (r + i))
      → r + j ≡ 3
      → j < fuel
      → let (o, w') = run_task fuel r attempts id w in
        (o ≡ raised)
        × ((n' : Notification) × (find_row row_id id w'.notifications ≡ some n')
            × (n'.status ≡ Status.failed))
        × (w'.mails ≡ w.mails)
        × (length w'.logs ≡ length w.logs + j + 1)
  failed_from j zero r n w found before bound enough = absurd (ground arith)
  failed_from zero (suc fuel) r n w found before bound enough =
      let three : r ≡ 3 = omega arith in
      let (message, met_) = first-IsRefused r (before 0 (omega arith)) in
      subst
        (λ k.
          let (o, w') = run_task (suc fuel) k attempts id w in
          (o ≡ raised)
          × ((n' : Notification) × (find_row row_id id w'.notifications ≡ some n')
              × (n'.status ≡ Status.failed))
          × (w'.mails ≡ w.mails)
          × (length w'.logs ≡ length w.logs + 0 + 1))
        (sym three)
        (rw (last_refused fuel message n w found (ap met (sym three) ∙ met_)) (
          refl,
          (mark_failed n, still_there n w found, refl),
          refl,
          omega (arith, length-append w.logs),
        ))
  failed_from (suc j) (suc fuel) r n w found before bound enough =
      let (message, met_) = first-IsRefused r (before 0 (omega arith)) in
      let w1 = after_refusal (r + 1) (attempts r).0 (attempts r).1 message n w in
      let (o, row, mails, logs) =
        failed_from j fuel (r + 1) (mark_failed n) w1 (still_there n w found)
          (λ i le. shift r i (before (suc i) (omega arith))) (omega arith) (omega arith) in
      rw (refused_run fuel r message n w found met_ (omega arith))
        (o, row, mails, omega (arith, logs, length-append w.logs))

  -- A task whose first j runs are refused by the mail server, with j at most 3, and whose next run
  -- is not, ends there: the notification is SENT at that time, also where earlier runs had marked
  -- it FAILED, exactly one mail has gone to its recipient, and each of the j + 1 runs has a log row.
  -- Four runs of fuel are enough.
  pub run_task_sent :
      (j t : ℕ) (n : Notification) (w : World)
      → find_row row_id id w.notifications ≡ some n
      → ((i : ℕ) → i < j → IsRefused i)
      → met j ≡ mailed t
      → j ≤ 3
      → let (o, w') = run_task 4 0 attempts id w in
        (o ≡ returned)
        × ((n' : Notification) × (find_row row_id id w'.notifications ≡ some n')
            × (n'.status ≡ Status.sent)
            × (n'.sent_at ≡ some t))
        × (w'.mails
            ≡ w.mails ++ (record { subject = n.subject; recipient = n.recipient_email }) ∷ [])
        × (length w'.logs ≡ length w.logs + j + 1)
  run_task_sent j t n w found before now bound =
      sent_from j 4 0 t n w found (λ i lt. subst IsRefused (omega arith) (before i lt))
        (ap met (omega arith) ∙ now) (omega arith) (omega arith)

  -- A task whose first four runs are all refused by the mail server is given up there: it raises,
  -- the notification is FAILED, no mail has gone out, and there are four more log rows.
  pub run_task_failed :
      (n : Notification) (w : World)
      → find_row row_id id w.notifications ≡ some n
      → ((i : ℕ) → i ≤ 3 → IsRefused i)
      → let (o, w') = run_task 4 0 attempts id w in
        (o ≡ raised)
        × ((n' : Notification) × (find_row row_id id w'.notifications ≡ some n')
            × (n'.status ≡ Status.failed))
        × (w'.mails ≡ w.mails)
        × (length w'.logs ≡ length w.logs + 4)
  run_task_failed n w found before =
      let (o, row, mails, logs) =
        failed_from 3 4 0 n w found (λ i le. subst IsRefused (omega arith) (before i le))
          (omega arith) (omega arith) in
      (o, row, mails, omega (arith, logs))
