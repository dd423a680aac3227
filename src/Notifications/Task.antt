-- ===== src/Notifications/Task.antt =====
-- notification-service/apps/notifications/tasks.py: one run of the Celery task, and its retries.
use risk_core.Prelude.{
  ℕ, zero, suc, ◌+◌, none, some, [], ◌∷◌, ◌++◌, map, Text, codes, ltb, ◌==◌, find_row, update_row,
  if◌then◌else◌,
}
use risk_core.Notifications.{
  Notification, NotificationLog, LogStatus, Status, World, row_id, success, failure,
}

-- event_type.replace(".", "_")
abbrev pub replace_dots : Text → Text
replace_dots event_type = map (λ c. if c == 46 then 95 else c) event_type

unfoldable pub template_name : Text → Text
template_name event_type = codes "notifications/emails/" ++ replace_dots event_type ++ codes ".html"

-- What one run meets: `render_to_string` raises, or `send_mail` returns at a time or raises with a
-- text; and the identifier and the time of the log row.
pub data Attempt : Type 0 where
  no_template : Attempt
  mailed : ℕ → Attempt
  refused : Text → Attempt

-- How a run ends: it returns, it asks Celery for another one, or it raises.
pub data Outcome : Type 0 where
  returned retry raised : Outcome

abbrev pub max_retries : ℕ
max_retries = 3

abbrev pub log_row : ℕ → ℕ → ℕ → ℕ → LogStatus → Text → NotificationLog
log_row id notification attempt now status message = record {
  id = id;
  notification_id = notification;
  attempt = attempt;
  status = status;
  error_message = message;
  attempted_at = now;
}

abbrev pub mark_sent : ℕ → Notification → Notification
mark_sent now n = record n { status = Status.sent; sent_at = some now }

abbrev pub mark_failed : Notification → Notification
mark_failed n = record n { status = Status.failed }

-- The state after a mail has been sent.
abbrev pub after_mail : ℕ → ℕ → ℕ → Notification → World → World
after_mail attempt log_id now n w = record w {
  notifications = update_row row_id n.id (mark_sent now) w.notifications;
  logs = w.logs ++ log_row log_id n.id attempt now success [] ∷ [];
  mails = w.mails ++ (record { subject = n.subject; recipient = n.recipient_email }) ∷ [];
  notifications_sent_total = w.notifications_sent_total ++ (n.event_type, success) ∷ [];
}

-- The `except` clause up to the retry.
abbrev pub after_refusal : ℕ → ℕ → ℕ → Text → Notification → World → World
after_refusal attempt log_id now message n w = record w {
  notifications = update_row row_id n.id mark_failed w.notifications;
  logs = w.logs ++ log_row log_id n.id attempt now failure message ∷ [];
  notifications_sent_total = w.notifications_sent_total ++ (n.event_type, failure) ∷ [];
}

-- The task after the row is found. `self.retry` asks for another run, and raises the exception of
-- the mail after the last one.
abbrev pub attempt_mail : ℕ → ℕ → ℕ → Attempt → Notification → World → Outcome × World
attempt_mail retries log_id now no_template n w = (raised, w)
attempt_mail retries log_id now (mailed sent_at) n w =
    (returned, after_mail (retries + 1) log_id sent_at n w)
attempt_mail retries log_id now (refused message) n w = (
  if ltb retries max_retries then retry else raised,
  after_refusal (retries + 1) log_id now message n w,
)

unfoldable pub send_email_notification : ℕ → ℕ → ℕ → Attempt → ℕ → World → Outcome × World
send_email_notification retries log_id now a id w = elim (find_row row_id id w.notifications) [
  | none ↦ (returned, w)
  | some n ↦ attempt_mail retries log_id now a n w
]

-- Celery runs the task again while it asks for it; `attempts k` is what the run with k retries
-- behind it meets, with the identifier and the time of its log row.
unfoldable pub run_task : ℕ → ℕ → (ℕ → ℕ × ℕ × Attempt) → ℕ → World → Outcome × World
unfolding send_email_notification
run_task zero retries attempts id w = (retry, w)
run_task (suc fuel) retries attempts id w =
    let (log_id, now, a) = attempts retries in
    again (λ w'. run_task fuel (retries + 1) attempts id w')
      (send_email_notification retries log_id now a id w)
  where
    again : (World → Outcome × World) → Outcome × World → Outcome × World
    again next (retry, w') = next w'
    again next (returned, w') = (returned, w')
    again next (raised, w') = (raised, w')
