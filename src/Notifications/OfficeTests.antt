-- ===== src/Notifications/OfficeTests.antt =====
-- The consumer and a worker on one claim, refused once by the mail server; the worker is lost after
-- the mail of the second run.
use risk_core.Prelude.{
  find_row, ◌*◌, times, All, ◌≤◌, ℕ, ◌+◌, ◌≡◌, refl, none, some, List, [], ◌∷◌, arith, map, codes,
}
use risk_core.Json.{Json, Fields}
use risk_core.Samples.{draw}
use risk_core.Notifications.{Notification, row_id}
use risk_core.Notifications.Consumer.{
  extract_recipient, create_notification, build_subject, build_context, new_notification,
}
use risk_core.Notifications.Task.{Attempt, send_email_notification, attempt_mail, mark_failed}
use risk_core.Notifications.Workers.{
  Step, left_by, repeated, mailed_only, redeliver, Office, Reach as OfficeReach, settle, start,
  later, insert, finish, take, run as run_once, mail_of,
}
use risk_core.Notifications.Ledger.{rows_of, held_of, opened, InTable}
use risk_core.Notifications.Accounts.{mail_accounts}
use risk_core.Notifications.SingleEvent.{events_of}
use risk_core.Notifications.OneMail.{one_mail}
use risk_core.Notifications.Ends.{additions, load, worker, worker_steps, workers_end}
use risk_core.Notifications.Tests.{lib, empty, filed}

abbrev claim_notification : Notification
claim_notification = new_notification lib draw (codes "x") (codes "claim.filed") Fields.end

abbrev opening : Office
opening = record { world = empty; open_ = none; held = []; lost = []; repeats = [] }

abbrev finished : Office
finished = record opening {
  world = record empty {
    notifications = claim_notification ∷ [];
    tasks = 50 ∷ [];
    commits = (0, 5) ∷ [];
  };
}

abbrev taken : Office
taken = record finished { world = record finished.world { tasks = [] }; held = (50, 0) ∷ [] }

-- One refused run; one that is mailed, with its worker lost; and one that is mailed again.
abbrev again : Office
again =
    settle taken [] [] 50 0 (some claim_notification)
      (attempt_mail 0 80 60 (Attempt.refused []) claim_notification taken.world)

abbrev failed_once : Notification
failed_once = mark_failed claim_notification

abbrev worker_lost : Office
worker_lost = record again {
  world = left_by mailed_only failed_once again.world;
  repeats = repeated mailed_only 50 again.repeats;
}

abbrev closed : Office
closed =
    settle worker_lost [] [] 50 1 (some failed_once)
      (attempt_mail 1 81 61 (Attempt.mailed 70) failed_once worker_lost.world)

office_run : OfficeReach lib opening closed
unfolding create_notification send_email_notification extract_recipient build_subject build_context
office_run =
    later
      (later
        (later
          (later
            (later
              (later start (
                insert filed draw (Json.str (codes "x")) (codes "claim.filed") Fields.end
                  claim_notification refl refl refl refl))
              (finish filed claim_notification refl refl))
            (take [] [] 50 refl refl))
          (run_once [] [] 50 0 80 60 (Attempt.refused []) refl refl))
        (redeliver [] [] 50 1 failed_once mailed_only refl refl refl))
      (run_once [] [] 50 1 81 61 (Attempt.mailed 70) refl refl)

-- The mail goes out again.
mailed_twice : closed.world.mails ≡ mail_of claim_notification ∷ mail_of claim_notification ∷ []
mailed_twice = refl

mail_accounts_example :
    (sent : List Notification) × (closed.world.mails ≡ map mail_of sent)
    × All (InTable closed.world.notifications) sent
    × ((i : ℕ)
        → rows_of i sent
            + times i closed.lost
            + held_of i closed.held
            + times i closed.world.tasks
            + 0
          ≡ rows_of i closed.world.notifications + opened i closed.open_ + times i closed.repeats)
    × ((i : ℕ) → rows_of i closed.world.notifications + opened i closed.open_ ≤ 1)
mail_accounts_example = mail_accounts lib empty closed (λ i. omega arith) refl office_run

one_mail_example :
    (sent : List Notification) × (closed.world.mails ≡ map mail_of sent)
    × All (InTable closed.world.notifications) sent
    × ((i : ℕ) (r : Notification)
        → find_row row_id i closed.world.notifications ≡ some r
        → events_of r.event_id sent ≤ 1 + times i closed.repeats)
one_mail_example = one_mail lib empty closed (λ i. omega arith) (λ e. omega arith) refl office_run

workers_end_example :
    (worker_steps office_run + load closed ≤ 5 * additions office_run)
    × (load closed ≡ 0 → (closed.world.tasks ≡ []) × (closed.held ≡ []))
    × ((log_id now : ℕ) (a : Attempt)
        → 1 ≤ load closed
        → (u : Office) × (step : Step lib closed u) × (worker step ≡ 1))
workers_end_example = workers_end lib opening closed office_run refl refl
