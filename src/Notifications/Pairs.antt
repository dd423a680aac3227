-- ===== src/Notifications/Pairs.antt =====
-- The table of notifications and the tasks that were sent to Celery, along a run of the consumer.
use mathlib.Core.List.{append_assoc, append-nil, map-append}
use mathlib.Core.Path.{subst}
use risk_core.Prelude.{
  ◌≡◌, refl, ◌∙◌, sym, ap, Bool, false, ◌&&◌, Option, none, some, List, [], ◌∷◌, ◌++◌, map, Text,
  text_eq, text_eq_comm, length, leb, IsDistinct, IsDistinct-append, Bool-cases, Option-cases, inl,
  inr, ◌⊎◌,
}
use risk_core.Json.{Json, Fields, get_or}
use risk_core.Runtime.{Draw}
use risk_core.Action.{Result, ok, err, atomic, ◌>>=◌}
use risk_core.Notifications.{Notification, World, row_id}
use risk_core.Notifications.Consumer.{
  Library, Message, Error, integrity_error, unexpected, column, fits, extract_recipient,
  has_notification, new_notification, create_notification, after_create, handle_payload,
  handle_message, run,
}

abbrev pub same_event : Notification → Notification → Bool
same_event n o = text_eq o.event_id n.event_id

-- New rows, each with its task, in the same order; no mail is sent.
abbrev pub Adds : List Notification → World → World → Type 0
Adds new w w' =
    (w'.notifications ≡ w.notifications ++ new)
    × (w'.tasks ≡ w.tasks ++ map row_id new)
    × (w'.mails ≡ w.mails)

Adds-none :
    (w w' : World)
    → w'.notifications ≡ w.notifications
    → w'.tasks ≡ w.tasks
    → w'.mails ≡ w.mails
    → Adds [] w w'
Adds-none w w' n t m = (n ∙ sym (append-nil w.notifications), t ∙ sym (append-nil w.tasks), m)

Adds-append :
    (new more : List Notification) (u v w : World)
    → Adds new u v
    → Adds more v w
    → Adds (new ++ more) u w
Adds-append new more u v w (n, t, m) (n', t', m') = (
  n' ∙ ap (λ xs. xs ++ more) n ∙ append_assoc u.notifications new more,
  t'
      ∙ ap (λ xs. xs ++ map row_id more) t
      ∙ append_assoc u.tasks (map row_id new) (map row_id more)
      ∙ ap (λ xs. u.tasks ++ xs) (sym (map-append row_id new more)),
  m' ∙ m,
)

module _ (lib : Library) where
  -- A transaction leaves the state as it was, or adds a row of a new event and its task.
  pub create_cases :
      (draw : Draw) (broker : Bool) (event_id : Json) (event_type : Text) (fields : Fields)
      (w : World)
      → ((atomic (create_notification lib draw broker event_id event_type fields) w).1 ≡ w)
        ⊎ ((n : Notification) × (has_notification n.event_id w ≡ false)
            × ((atomic (create_notification lib draw broker event_id event_type fields) w).1
                ≡ record w {
                  notifications = w.notifications ++ n ∷ [];
                  tasks = w.tasks ++ n.id ∷ [];
                }))
  unfolding create_notification
  create_cases draw broker event_id event_type fields w =
      elim (Option-cases (column lib event_id)) [
        | inl null ↦ elim (Bool-cases (sizes none)) [
          | inr long ↦ inl (simp (null, long))
          | inl short ↦ inl (simp (null, short))
        ]
        | inr (id, there) ↦ elim (Bool-cases (sizes (some id))) [
          | inr long ↦ inl (simp (there, long))
          | inl short ↦ elim (Bool-cases (has_notification id w)) [
            | inl known ↦ inl (simp (there, short, known))
            | inr new ↦ elim (Bool-cases broker) [
              | inr down ↦ inl (simp (there, short, new, down))
              | inl up ↦ inr (
                new_notification lib draw id event_type fields,
                new,
                simp (there, short, new, up),
              )
            ]
          ]
        ]
      ]
    where
      sizes : Option Text → Bool
      sizes event_id_ =
          fits 100 event_id_
          && (leb (length event_type) 100
              && leb (length (extract_recipient lib fields event_type)) 254)

  -- The clauses around the transaction only commit.
  after_Adds :
      (m : Message) (new : List Notification) (w : World) (r : Result Error (Unit {0}) × World)
      → Adds new w r.1
      → Adds new w (after_create m r)
  after_Adds m new w (ok _, w') h = h
  after_Adds m new w (err integrity_error, w') h = h
  after_Adds m new w (err unexpected, w') h = h

  -- What a message adds: nothing, or one row of a new event.
  abbrev AddsOne : World → World → Type 0
  AddsOne w w' =
      Adds [] w w'
      ⊎ ((n : Notification) × (has_notification n.event_id w ≡ false) × Adds (n ∷ []) w w')

  stays : (w : World) → AddsOne w w
  stays w = inl (Adds-none w w refl refl refl)

  payload_adds :
      (draw : Draw) (broker : Bool) (m : Message) (event_id event_type fields : Json) (w : World)
      → AddsOne w (handle_payload lib draw broker m event_id event_type fields w).1
  unfolding handle_payload
  payload_adds draw broker m event_id (Json.str t) (Json.obj fields) w =
      elim (create_cases draw broker event_id t fields w) [
        | inl same ↦
            inl (after_Adds m [] w _ (subst (Adds [] w) (sym same) (Adds-none w w refl refl refl)))
        | inr (n, new, added) ↦ inr (
          n,
          new,
          after_Adds m (n ∷ []) w _ (subst (Adds (n ∷ []) w) (sym added) (refl, refl, refl)),
        )
      ]
  payload_adds draw broker m event_id (Json.str t) Json.null w = stays w
  payload_adds draw broker m event_id (Json.str t) (Json.bool _) w = stays w
  payload_adds draw broker m event_id (Json.str t) (Json.num _) w = stays w
  payload_adds draw broker m event_id (Json.str t) (Json.str _) w = stays w
  payload_adds draw broker m event_id (Json.str t) (Json.arr _) w = stays w
  payload_adds draw broker m event_id Json.null fields w = stays w
  payload_adds draw broker m event_id (Json.bool _) fields w = stays w
  payload_adds draw broker m event_id (Json.num _) fields w = stays w
  payload_adds draw broker m event_id (Json.arr _) fields w = stays w
  payload_adds draw broker m event_id (Json.obj _) fields w = stays w

  message_adds :
      (draw : Draw) (broker : Bool) (m : Message) (w : World)
      → AddsOne w (handle_message lib draw broker m w).1
  unfolding handle_message
  message_adds draw broker m w = by_value m.value
    where
      by_value :
          (value : Option Json)
          → AddsOne w (handle_message lib draw broker (record m { value = value }) w).1
      by_value none = stays w
      by_value (some Json.null) = stays w
      by_value (some (Json.bool _)) = stays w
      by_value (some (Json.num _)) = stays w
      by_value (some (Json.str _)) = stays w
      by_value (some (Json.arr _)) = stays w
      by_value (some (Json.obj payload)) =
          payload_adds draw broker (record m { value = some (Json.obj payload) })
            (get_or "event_id" (Json.str []) payload) (get_or "event_type" (Json.str []) payload)
            (get_or "data" (Json.obj Fields.end) payload) w

  -- The same with distinct events.
  message_keeps :
      (w w' : World)
      → AddsOne w w'
      → IsDistinct same_event w.notifications
      → (new : List Notification) × Adds new w w' × IsDistinct same_event w'.notifications
  message_keeps w w' (inl (n, t, m)) h =
      ([], (n, t, m), subst (IsDistinct same_event) (sym (n ∙ append-nil w.notifications)) h)
  message_keeps w w' (inr (x, new, (n, t, m))) h = (
    x ∷ [],
    (n, t, m),
    subst (IsDistinct same_event) (sym n) (
        IsDistinct-append same_event (λ a b. text_eq_comm b.event_id a.event_id) w.notifications x h
          new),
  )

-- What `run_pairs` states of two states.
abbrev Pairs : World → World → Type 0
Pairs w w' =
    (new : List Notification) × (w'.notifications ≡ w.notifications ++ new)
    × (w'.tasks ≡ w.tasks ++ map row_id new)
    × (w'.mails ≡ w.mails)
    × IsDistinct same_event w'.notifications

-- A run of the consumer, whatever the messages are (redelivered, malformed, or one that ends the
-- run) and whether or not Celery takes each task: the rows that it adds and the tasks that it sends
-- are the same notifications in the same order, each once; no two rows of the table are of one
-- event, if that was so before; and no mail is sent by the consumer itself.
pub run_pairs :
    (lib : Library) (messages : List (Draw × Bool × Message)) (w : World)
    → IsDistinct same_event w.notifications
    → let w' = (run lib messages w).1 in
      (new : List Notification) × (w'.notifications ≡ w.notifications ++ new)
      × (w'.tasks ≡ w.tasks ++ map row_id new)
      × (w'.mails ≡ w.mails)
      × IsDistinct same_event w'.notifications
unfolding run
run_pairs lib [] w h = ([], sym (append-nil w.notifications), sym (append-nil w.tasks), refl, h)
run_pairs lib ((draw, broker, m) ∷ rest) w h =
    let r = handle_message lib draw broker m w in
    let (new, added, distinct) = message_keeps lib w r.1 (message_adds lib draw broker m w) h in
    onward (λ v d. run_pairs lib rest v d) r new added distinct
  where
    onward :
        ((v : World) → IsDistinct same_event v.notifications → Pairs v (run lib rest v).1)
        → (r : Result Error (Unit {0}) × World) (new : List Notification) → Adds new w r.1
        → IsDistinct same_event r.1.notifications
        → Pairs w (((λ (_ : World). r) >>= λ _. run lib rest) w).1
    onward next (err e, v) new (n, t, s) distinct = (new, n, t, s, distinct)
    onward next (ok _, v) new added distinct =
        let (more, n, t, s, d) = next v distinct in
        let (n', t', s') = Adds-append new more w v (run lib rest v).1 added (n, t, s) in
        (new ++ more, n', t', s', d)
