-- ===== src/Notifications/Workers.antt =====
-- The consumer and several Celery workers on one database, step by step: the transaction of
-- `_handle_message` as in Notifications/Race, and `send_email_notification` one run at a time, so
-- that the runs of one task and of different tasks come in any order.
use risk_core.Prelude.{
  ltb, ℕ, ◌+◌, ◌≡◌, true, false, Bool, Option, none, some, List, [], ◌∷◌, ◌++◌, Text, find_row,
  update_row, if◌then◌else◌,
}
use risk_core.Json.{Json, Fields}
use risk_core.Runtime.{Draw}
use risk_core.Action.{ok}
use risk_core.Notifications.{Notification, Mail, World, row_id, success, failure}
use risk_core.Notifications.Consumer.{Library, Message, create_notification, commit}
use risk_core.Notifications.Task.{
  Attempt, refused, Outcome, returned, retry, raised, send_email_notification, attempt_mail,
  log_row, max_retries, after_refusal, mark_sent, mark_failed,
}

-- What the database and Celery hold; the message of an open transaction with the row that it has
-- inserted; the tasks that were given to a worker, or wait for another run, with the retries behind
-- them; and, to account for them, the tasks that have ended without a mail, and those that a run
-- has left although its mail had gone out, or besides the next run.
pub record Office : Type 0 where
  pub world : World
  pub open_ : Option (Message × Notification)
  pub held : List (ℕ × ℕ)
  pub lost : List ℕ
  pub repeats : List ℕ

-- The arguments of `send_mail`.
abbrev pub mail_of : Notification → Mail
mail_of n = record { subject = n.subject; recipient = n.recipient_email }

abbrev pub mail_out : Notification → World → World
mail_out n w = record w { mails = w.mails ++ mail_of n ∷ [] }

-- Where a run is cut off: before it has done anything; with the mail out, then with the row saved,
-- then with the log; in the `except` clause with the row saved, then with the log.
pub data Cut : Type 0 where
  at_once mailed_only : Cut
  mailed_saved : ℕ → Cut
  mailed_logged : ℕ → ℕ → ℕ → Cut
  refused_saved : Cut
  refused_logged : ℕ → ℕ → ℕ → Text → Cut

abbrev pub has_mailed : Cut → Bool
has_mailed at_once = false
has_mailed mailed_only = true
has_mailed (mailed_saved _) = true
has_mailed (mailed_logged _ _ _) = true
has_mailed refused_saved = false
has_mailed (refused_logged _ _ _ _) = false

-- The table and the logs that it leaves, apart from the mail.
abbrev pub written : Cut → Notification → World → World
written at_once n w = w
written mailed_only n w = w
written (mailed_saved now) n w = record w {
  notifications = update_row row_id n.id (mark_sent now) w.notifications;
}
written (mailed_logged attempt log_id now) n w = record w {
  notifications = update_row row_id n.id (mark_sent now) w.notifications;
  logs = w.logs ++ log_row log_id n.id attempt now success [] ∷ [];
}
written refused_saved n w = record w {
  notifications = update_row row_id n.id mark_failed w.notifications;
}
written (refused_logged attempt log_id now message) n w = record w {
  notifications = update_row row_id n.id mark_failed w.notifications;
  logs = w.logs ++ log_row log_id n.id attempt now failure message ∷ [];
}

abbrev pub left_by : Cut → Notification → World → World
left_by c n w = if has_mailed c then mail_out n (written c n w) else written c n w

-- What the task of a run that was cut off counts as.
abbrev pub ended : Cut → ℕ → List ℕ → List ℕ
ended c id lost = if has_mailed c then lost else lost ++ id ∷ []

abbrev pub repeated : Cut → ℕ → List ℕ → List ℕ
repeated c id repeats = if has_mailed c then repeats ++ id ∷ [] else repeats

-- After a run of the task between `before` and `after`, on the row that it found. `self.retry`
-- leaves the task for another run.
abbrev pub settle :
    Office → List (ℕ × ℕ) → List (ℕ × ℕ) → ℕ → ℕ → Option Notification → Outcome × World → Office
settle s before after id k none (o, w) = record s {
  world = w;
  held = before ++ after;
  lost = s.lost ++ id ∷ [];
}
settle s before after id k (some n) (returned, w) = record s { world = w; held = before ++ after }
settle s before after id k (some n) (retry, w) = record s {
  world = w;
  held = before ++ (id, k + 1) ∷ after;
}
settle s before after id k (some n) (raised, w) = record s {
  world = w;
  held = before ++ after;
  lost = s.lost ++ id ∷ [];
}

-- The consumer inserts a row of a new identifier and sends its task; it ends the transaction and
-- commits the message; it commits a message that adds nothing. A worker takes a task and runs it
-- once. `unsure`: `send_mail` raises although the mail has gone out. `cut_off`: the run ends where
-- `SoftTimeLimitExceeded` is raised outside `send_mail`, a save raises, or its process is killed;
-- Celery acknowledges the task. `redeliver`: the worker itself is lost in the middle of a run; with
-- `task_acks_late` the task is not yet acknowledged, and comes again with its retries. `doubled`:
-- the worker is lost after `self.retry` has sent the next run, so that both are there.
pub data Step (lib : Library) (s t : Office) : Type 0 where
  insert :
      (m : Message) (draw : Draw) (event_id : Json) (event_type : Text) (fields : Fields)
      (n : Notification)
      → s.open_ ≡ none
      → create_notification lib draw true event_id event_type fields s.world ≡ (
        ok tt,
        record s.world {
          notifications = s.world.notifications ++ n ∷ [];
          tasks = s.world.tasks ++ n.id ∷ [];
        },
      )
      → find_row row_id n.id s.world.notifications ≡ none
      → t ≡ record s {
        world = record s.world { tasks = s.world.tasks ++ n.id ∷ [] };
        open_ = some (m, n);
      }
      → Step lib s t
  finish :
      (m : Message) (n : Notification)
      → s.open_ ≡ some (m, n)
      → t ≡ record s {
        world = commit m (record s.world { notifications = s.world.notifications ++ n ∷ [] });
        open_ = none;
      }
      → Step lib s t
  skip : (m : Message) → s.open_ ≡ none → t ≡ record s { world = commit m s.world } → Step lib s t
  take :
      (before after : List ℕ) (id : ℕ)
      → s.world.tasks ≡ before ++ id ∷ after
      → t ≡ record s { world = record s.world { tasks = before ++ after }; held = (id, 0) ∷ s.held }
      → Step lib s t
  run :
      (before after : List (ℕ × ℕ)) (id k log_id now : ℕ) (a : Attempt)
      → s.held ≡ before ++ (id, k) ∷ after
      → t
        ≡ settle s before after id k
            (find_row row_id id s.world.notifications)
            (send_email_notification k log_id now a id s.world)
      → Step lib s t
  unsure :
      (before after : List (ℕ × ℕ)) (id k log_id now : ℕ) (message : Text) (n : Notification)
      → s.held ≡ before ++ (id, k) ∷ after
      → find_row row_id id s.world.notifications ≡ some n
      → t ≡ (
          let u =
            settle s before after id k
              (some n)
              (attempt_mail k log_id now (refused message) n s.world) in
          record u { world = mail_out n u.world; repeats = u.repeats ++ id ∷ [] })
      → Step lib s t
  cut_off :
      (before after : List (ℕ × ℕ)) (id k : ℕ) (n : Notification) (c : Cut)
      → s.held ≡ before ++ (id, k) ∷ after
      → find_row row_id id s.world.notifications ≡ some n
      → t
        ≡ record s { world = left_by c n s.world; held = before ++ after; lost = ended c id s.lost }
      → Step lib s t
  redeliver :
      (before after : List (ℕ × ℕ)) (id k : ℕ) (n : Notification) (c : Cut)
      → s.held ≡ before ++ (id, k) ∷ after
      → find_row row_id id s.world.notifications ≡ some n
      → t ≡ record s { world = left_by c n s.world; repeats = repeated c id s.repeats }
      → Step lib s t
  doubled :
      (before after : List (ℕ × ℕ)) (id k log_id now : ℕ) (message : Text) (n : Notification)
      → s.held ≡ before ++ (id, k) ∷ after
      → find_row row_id id s.world.notifications ≡ some n
      → ltb k max_retries ≡ true
      → t ≡ record s {
        world = after_refusal (k + 1) log_id now message n s.world;
        held = before ++ (id, k) ∷ (id, k + 1) ∷ after;
        repeats = s.repeats ++ id ∷ [];
      }
      → Step lib s t

pub data Reach (lib : Library) (s : Office) : Office → Type 0 where
  start : Reach lib s s
  later : {t u : Office} → Reach lib s t → Step lib t u → Reach lib s u
