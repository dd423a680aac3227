-- ===== src/Notifications/Race.antt =====
-- The transaction of `_handle_message` in steps: the task goes to Celery when `delay` is called, the
-- row is there for other connections when the transaction ends, and a worker may come in between.
use risk_core.Prelude.{
  ℕ, ◌≡◌, refl, ◌∙◌, ap, true, false, Option, none, some, List, [], ◌∷◌, ◌++◌, arith, Text, length,
  leb, ◌==◌, find_row, find_row-append_new,
}
use risk_core.Json.{Json, Fields}
use risk_core.Runtime.{Draw}
use risk_core.Action.{ok}
use risk_core.Notifications.{Notification, World, row_id}
use risk_core.Notifications.Consumer.{
  Library, Message, create_notification, extract_recipient, has_notification, new_notification,
  commit, handle_payload,
}
use risk_core.Notifications.Task.{Attempt, returned, send_email_notification, run_task}

-- What all connections see; the message of an open transaction, and the row it has inserted.
pub record Shared : Type 0 where
  pub world : World
  pub open_ : Option (Message × Notification)

-- The consumer inserts the row and sends the task; it ends the transaction and commits the message;
-- a worker takes the first task and runs it to its end.
pub data Step (lib : Library) (s t : Shared) : Type 0 where
  insert :
      (m : Message) (draw : Draw) (event_id : Json) (event_type : Text) (fields : Fields)
      (n : Notification)
      → s.open_ ≡ none
      → create_notification lib draw true event_id event_type fields s.world ≡ (
        ok tt,
        record s.world {
          notifications = s.world.notifications ++ n ∷ [];
          tasks = s.world.tasks ++ n.id ∷ [];
        },
      )
      → t ≡ (record {
        world = record s.world { tasks = s.world.tasks ++ n.id ∷ [] };
        open_ = some (m, n);
      })
      → Step lib s t
  finish :
      (m : Message) (n : Notification)
      → s.open_ ≡ some (m, n)
      → t ≡ (record {
        world = commit m (record s.world { notifications = s.world.notifications ++ n ∷ [] });
        open_ = none;
      })
      → Step lib s t
  work :
      (id : ℕ) (rest : List ℕ) (attempts : ℕ → ℕ × ℕ × Attempt)
      → s.world.tasks ≡ id ∷ rest
      → t ≡ record s { world = (run_task 4 0 attempts id (record s.world { tasks = rest })).1 }
      → Step lib s t

pub data Reach (lib : Library) (s : Shared) : Shared → Type 0 where
  start : Reach lib s s
  later : {t u : Shared} → Reach lib s t → Step lib t u → Reach lib s u

module _ (lib : Library) (draw : Draw) (m : Message) (w : World) (event_id event_type : Text)
    (fields : Fields) where
  abbrev inserted : Notification
  inserted = new_notification lib draw event_id event_type fields

  create_run :
      has_notification event_id w ≡ false
      → leb (length event_id) 100 ≡ true
      → leb (length event_type) 100 ≡ true
      → leb (length (extract_recipient lib fields event_type)) 254 ≡ true
      → create_notification lib draw true (Json.str event_id) event_type fields w ≡ (
        ok tt,
        record w {
          notifications = w.notifications ++ inserted ∷ [];
          tasks = w.tasks ++ draw.uuid 0 ∷ [];
        },
      )
  unfolding create_notification
  create_run new short short_type short_recipient = simp (new, short, short_type, short_recipient)

  missing_run :
      (attempts : ℕ → ℕ × ℕ × Attempt) (id : ℕ) (u : World)
      → find_row row_id id u.notifications ≡ none
      → run_task 4 0 attempts id u ≡ (returned, u)
  unfolding run_task
  missing_run attempts id u gone = rw (send_missing, run_task) refl
    where
      send_missing :
          send_email_notification 0 (attempts 0).0 (attempts 0).1 (attempts 0).2 id u
          ≡ (returned, u)
      send_missing = rw (gone, send_email_notification) refl

  -- Without a worker in between, the two steps are what `_handle_message` does.
  pub insert_finish :
      has_notification event_id w ≡ false
      → leb (length event_id) 100 ≡ true
      → leb (length event_type) 100 ≡ true
      → leb (length (extract_recipient lib fields event_type)) 254 ≡ true
      → handle_payload lib draw true m (Json.str event_id) (Json.str event_type) (Json.obj fields) w
        ≡ (
          ok tt,
          commit m (record w {
            notifications = w.notifications ++ inserted ∷ [];
            tasks = w.tasks ++ draw.uuid 0 ∷ [];
          }),
        )
  unfolding handle_payload
  insert_finish new short short_type short_recipient =
      rw (create_run new short short_type short_recipient) refl

  -- A mail can be lost: from every state without tasks in which an event is new (and its texts fit
  -- their columns), a run of consumer and worker leads to a state in which the event's notification
  -- is in the table and PENDING, the message is committed, no task is left, and no mail has been
  -- sent, whatever the mail server would have answered.
  pub lost_mail :
      (attempts : ℕ → ℕ × ℕ × Attempt)
      → w.tasks ≡ []
      → find_row row_id (draw.uuid 0) w.notifications ≡ none
      → has_notification event_id w ≡ false
      → leb (length event_id) 100 ≡ true
      → leb (length event_type) 100 ≡ true
      → leb (length (extract_recipient lib fields event_type)) 254 ≡ true
      → (t : Shared) × Reach lib (record { world = w; open_ = none }) t
        × (t.open_ ≡ none)
        × (find_row row_id (draw.uuid 0) t.world.notifications ≡ some inserted)
        × (t.world.tasks ≡ [])
        × (t.world.mails ≡ w.mails)
        × (t.world.commits ≡ w.commits ++ (m.partition, m.offset) ∷ [])
  lost_mail attempts idle unused new short short_type short_recipient =
      let queued : World = record w { tasks = w.tasks ++ draw.uuid 0 ∷ [] } in
      let one : queued.tasks ≡ draw.uuid 0 ∷ [] = ap (λ ts. ts ++ draw.uuid 0 ∷ []) idle in
      let taken : World = record w { tasks = [] } in
      let ran = missing_run attempts (draw.uuid 0) taken unused in
      let own : draw.uuid 0 == draw.uuid 0 ≡ true = ground arith in
      let first =
        insert m draw (Json.str event_id) event_type fields inserted refl
          (create_run new short short_type short_recipient) refl in
      let second = work (draw.uuid 0) [] attempts one refl in
      let third = finish m inserted refl refl in
      (
        _,
        later (later (later start first) second) third,
        refl,
        ap (λ r. find_row row_id (draw.uuid 0) (r.1.notifications ++ inserted ∷ [])) ran
            ∙ find_row-append_new row_id (draw.uuid 0) w.notifications (inserted ∷ []) unused
            ∙ (simp own),
        ap (λ r. r.1.tasks) ran,
        ap (λ r. r.1.mails) ran,
        ap (λ r. r.1.commits ++ (m.partition, m.offset) ∷ []) ran,
      )
