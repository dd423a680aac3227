-- ===== src/Notifications/Tests.antt =====
-- The notification service on the events of one policy and one claim, and on a task that is
-- refused twice.
use risk_core.Prelude.{
  ℕ, zero, suc, ◌+◌, ◌<◌, ◌≡◌, refl, Bool, true, false, none, some, List, [], ◌∷◌, arith, map, Text,
  codes, length, find_row, IsDistinct,
}
use risk_core.Json.{Json, Fields}
use risk_core.Runtime.{Draw}
use risk_core.Samples.{rt, draw, policy, claim}
use risk_core.Policy.Events as PolicyEvents
use risk_core.Claims.Events as ClaimEvents
use risk_core.Notifications.{Notification, Status, World, row_id}
use risk_core.Notifications.Consumer.{Library, Message, extract_recipient, new_notification, run}
use risk_core.Notifications.Task.{Attempt, Outcome, run_task}
use risk_core.Notifications.Retries.{run_task_sent, run_task_failed}
use risk_core.Notifications.Delivery.{BecomesNotification, build_created_recipient}
use risk_core.Notifications.Pairs.{same_event, run_pairs}
use risk_core.Notifications.Race.{Shared, Reach, lost_mail}

abbrev pub lib : Library
lib = record { default_from_email = codes "no-reply@x.es"; str_of = λ _. codes "None" }

abbrev pub empty : World
empty = record {
  notifications = [];
  logs = [];
  tasks = [];
  mails = [];
  commits = [];
  notifications_sent_total = [];
}

abbrev message : Text → Json → Message
message topic payload = record { topic = topic; partition = 0; offset = 5; value = some payload }

abbrev notification : Notification
notification = record {
  id = 1;
  event_id = codes "x";
  event_type = codes "claim.filed";
  recipient_email = codes "ann@x.es";
  subject = codes "Siniestro registrado";
  context = Fields.end;
  status = Status.pending;
  created_at = 0;
  sent_at = none;
}

abbrev world : World
world = record empty { notifications = notification ∷ [] }

-- Refused twice, then mailed at time 70.
abbrev attempts : ℕ → ℕ × ℕ × Attempt
attempts zero = (80, 60, Attempt.refused [])
attempts (suc zero) = (81, 61, Attempt.refused [])
attempts _ = (82, 62, Attempt.mailed 70)

abbrev never : ℕ → ℕ × ℕ × Attempt
never _ = (80, 60, Attempt.refused (codes "no"))

build_created_recipient_example :
    BecomesNotification lib draw
      (message (codes "policy.created") (PolicyEvents.build_created rt 11 8 policy))
      empty
      (11 ∷ [])
      (codes "no-reply@x.es")
      (codes "Póliza creada")
build_created_recipient_example =
    build_created_recipient rt lib draw
      (message (codes "policy.created") (PolicyEvents.build_created rt 11 8 policy)) empty 11 8 refl
      refl policy refl refl

run_task_sent_example :
    let (o, w') = run_task 4 0 attempts 1 world in
    (o ≡ Outcome.returned)
    × ((n' : Notification) × (find_row row_id 1 w'.notifications ≡ some n')
        × (n'.status ≡ Status.sent)
        × (n'.sent_at ≡ some 70))
    × (w'.mails
        ≡ (record { subject = codes "Siniestro registrado"; recipient = codes "ann@x.es" }) ∷ [])
    × (length w'.logs ≡ 0 + 2 + 1)
run_task_sent_example =
    run_task_sent attempts 1 2 70 notification world refl refused_before refl (omega arith)
  where
    refused_before : (i : ℕ) → i < 2 → (text : Text) × ((attempts i).2 ≡ Attempt.refused text)
    refused_before zero lt = ([], refl)
    refused_before (suc zero) lt = ([], refl)
    refused_before (suc (suc i)) lt = absurd (omega (arith, lt))

run_task_failed_example :
    let (o, w') = run_task 4 0 never 1 world in
    (o ≡ Outcome.raised)
    × ((n' : Notification) × (find_row row_id 1 w'.notifications ≡ some n')
        × (n'.status ≡ Status.failed))
    × (w'.mails ≡ [])
    × (length w'.logs ≡ 0 + 4)
run_task_failed_example =
    run_task_failed never 1 notification world refl (λ i le. (codes "no", refl))

lost_mail_example :
    let m = message (codes "claim.filed") Json.null in
    let n = new_notification lib draw (codes "x") (codes "claim.filed") Fields.end in
    (t : Shared) × Reach lib (record { world = empty; open_ = none }) t
    × (t.open_ ≡ none)
    × (find_row row_id 50 t.world.notifications ≡ some n)
    × (t.world.tasks ≡ [])
    × (t.world.mails ≡ [])
    × (t.world.commits ≡ (m.partition, m.offset) ∷ [])
unfolding extract_recipient
lost_mail_example =
    lost_mail lib draw (message (codes "claim.filed") Json.null) empty (codes "x")
      (codes "claim.filed") Fields.end attempts refl refl refl refl refl refl

abbrev pub filed : Message
filed = message (codes "claim.filed") (ClaimEvents.build_filed rt 12 8 claim)

-- An event that Celery does not take the task of, its two redeliveries, and a message that is no
-- object.
abbrev deliveries : List (Draw × Bool × Message)
deliveries =
    (draw, false, filed)
    ∷ (draw, true, filed)
    ∷ (draw, true, filed)
    ∷ (draw, true, message (codes "claim.filed") Json.null)
    ∷ []

run_pairs_example :
    let w = (run lib deliveries empty).1 in
    (new : List Notification) × (w.notifications ≡ new)
    × (w.tasks ≡ map row_id new)
    × (w.mails ≡ [])
    × IsDistinct same_event w.notifications
run_pairs_example = run_pairs lib deliveries empty tt
