-- ===== src/Notifications/Accounts.antt =====
-- What becomes of each notification: its task waits, is held by a worker, has ended without a mail,
-- or its mail has gone out.
use mathlib.Core.List.{append_assoc, append-nil, map-append}
use mathlib.Core.Path.{subst}
use risk_core.Prelude.{
  Text, ℕ, ◌+◌, ◌≤◌, ◌≡◌, refl, ◌∙◌, sym, ap, Option, none, some, List, [], ◌∷◌, ◌++◌, arith, map,
  count-append, count-update_keeps, times, All, All-append, ltb, ◌==◌, find_row, find_row-key,
  find_row-append, update_row, inl, inr, Bool-cases,
}
use risk_core.Notifications.{success, failure, Notification, NotificationLog, World, row_id}
use risk_core.Notifications.Consumer.{Library}
use risk_core.Notifications.Task.{
  Attempt, no_template, mailed, refused, send_email_notification, attempt_mail, mark_sent,
  mark_failed, max_retries, log_row, after_refusal,
}
use risk_core.Notifications.Workers.{
  Office, mail_of, settle, Step, Reach, start, later, insert, finish, skip, take, run, unsure,
  cut_off, redeliver, doubled, mail_out, Cut, at_once, mailed_only, mailed_saved, mailed_logged,
  refused_saved, refused_logged, has_mailed, written, left_by, ended, repeated,
}
use risk_core.Notifications.Ledger.{
  rows_of, held_of, opened, InTable, InTable-update, All-InTable, held_split, one_row, run_missing,
  run_found,
}

-- The books of the office, opened on the world w.
abbrev Balance : World → List Notification → Office → Type 0
Balance w sent s =
    (i : ℕ)
    → rows_of i sent
        + times i s.lost
        + held_of i s.held
        + times i s.world.tasks
        + rows_of i w.notifications
      ≡ rows_of i s.world.notifications + opened i s.open_ + times i s.repeats

abbrev IsSingle : Office → Type 0
IsSingle s = (i : ℕ) → rows_of i s.world.notifications + opened i s.open_ ≤ 1

abbrev IsAccounted : World → Office → Type 0
IsAccounted w s =
    (sent : List Notification) × (s.world.mails ≡ w.mails ++ map mail_of sent)
    × All (InTable s.world.notifications) sent
    × Balance w sent s
    × IsSingle s

module _ (lib : Library) (w : World) where
  mailed_more :
      (s : Office) (sent : List Notification) (n : Notification)
      → s.world.mails ≡ w.mails ++ map mail_of sent
      → s.world.mails ++ mail_of n ∷ [] ≡ w.mails ++ map mail_of (sent ++ n ∷ [])
  mailed_more s sent n mails =
      ap (λ ms. ms ++ mail_of n ∷ []) mails
      ∙ append_assoc w.mails (map mail_of sent) (mail_of n ∷ [])
      ∙ ap (λ ms. w.mails ++ ms) (sym (map-append mail_of sent (n ∷ [])))

  -- A task that is lost.
  lose :
      (s : Office) (before after : List (ℕ × ℕ)) (id k : ℕ)
      → s.held ≡ before ++ (id, k) ∷ after
      → IsAccounted w s
      → IsAccounted w (record s { held = before ++ after; lost = s.lost ++ id ∷ [] })
  lose s before after id k was (sent, mails, there, balance, single) = (
    sent,
    mails,
    there,
    (λ i. omega (
      arith,
      balance i,
      held_split i before after (id, k),
      ap (held_of i) was,
      count-append (λ j. j == i) s.lost (id ∷ []),
    )),
    single,
  )

  -- Another mail, whose task is not over for it.
  mail_repeated :
      (s : Office) (n : Notification)
      → InTable s.world.notifications n
      → IsAccounted w s
      → IsAccounted w (record s { world = mail_out n s.world; repeats = s.repeats ++ n.id ∷ [] })
  mail_repeated s n row (sent, mails, there, balance, single) = (
    sent ++ n ∷ [],
    mailed_more s sent n mails,
    All-append _ sent (n ∷ []) there (row, tt),
    (λ i. omega (
      arith,
      balance i,
      count-append (λ m. m.id == i) sent (n ∷ []),
      count-append (λ j. j == i) s.repeats (n.id ∷ []),
    )),
    single,
  )

  -- A task that comes again besides its next run.
  twice :
      (s : Office) (before after : List (ℕ × ℕ)) (id k : ℕ)
      → s.held ≡ before ++ (id, k) ∷ after
      → (v : World) → IsAccounted w (record s { world = v })
      → IsAccounted w (record s {
        world = v;
        held = before ++ (id, k) ∷ (id, k + 1) ∷ after;
        repeats = s.repeats ++ id ∷ [];
      })
  twice s before after id k was v (sent, mails, there, balance, single) = (
    sent,
    mails,
    there,
    (λ i. omega (
      arith,
      balance i,
      held_split i before after (id, k),
      held_split i before ((id, k + 1) ∷ after) (id, k),
      held_split i before after (id, k + 1),
      ap (held_of i) was,
      count-append (λ j. j == i) s.repeats (id ∷ []),
    )),
    single,
  )

  -- A mail that ends its task.
  mail_ends :
      (s : Office) (n : Notification) (before after : List (ℕ × ℕ)) (k : ℕ)
      → InTable s.world.notifications n
      → s.held ≡ before ++ (n.id, k) ∷ after
      → IsAccounted w s
      → IsAccounted w (record s { world = mail_out n s.world; held = before ++ after })
  mail_ends s n before after k row was (sent, mails, there, balance, single) = (
    sent ++ n ∷ [],
    mailed_more s sent n mails,
    All-append _ sent (n ∷ []) there (row, tt),
    (λ i. omega (
      arith,
      balance i,
      held_split i before after (n.id, k),
      ap (held_of i) was,
      count-append (λ m. m.id == i) sent (n ∷ []),
    )),
    single,
  )

  -- What a run writes to the row of the notification, wherever it is cut off.
  module _ (s : Office) (n : Notification) (row : InTable s.world.notifications n) where
    abbrev IsKept : World → Type 0
    IsKept v = IsAccounted w s → InTable v.notifications n × IsAccounted w (record s { world = v })

    changed :
        (change : Notification → Notification) (logs : List NotificationLog)
        → ((r : Notification) → (change r).id ≡ r.id)
        → ((r : Notification) → mail_of (change r) ≡ mail_of r)
        → ((r : Notification) → (change r).event_id ≡ r.event_id)
        → IsKept (record s.world {
          notifications = update_row row_id n.id change s.world.notifications;
          logs = logs;
        })
    changed change logs keeps mail event (sent, mails, there, balance, single) =
        let rows = s.world.notifications in
        let same : (i : ℕ) → rows_of i (update_row row_id n.id change rows) ≡ rows_of i rows = λ i.
          count-update_keeps row_id (λ m. m.id == i) n.id change (λ r. ap (λ j. j == i) (keeps r))
            rows in
        let kept = InTable-update n.id change keeps mail event rows in
        (
          kept n row,
          (
            sent,
            mails,
            All-InTable rows _ sent kept there,
            (λ i. omega (arith, balance i, same i)),
            λ i. omega (arith, single i, same i),
          ),
        )

    written-IsKept : (c : Cut) → IsKept (written c n s.world)
    written-IsKept at_once books = (row, books)
    written-IsKept mailed_only books = (row, books)
    written-IsKept (mailed_saved now) books =
        changed (mark_sent now) s.world.logs (λ r. refl) (λ r. refl) (λ r. refl) books
    written-IsKept (mailed_logged attempt log_id now) books =
        changed (mark_sent now) (s.world.logs ++ log_row log_id n.id attempt now success [] ∷ [])
          (λ r. refl) (λ r. refl) (λ r. refl) books
    written-IsKept refused_saved books =
        changed mark_failed s.world.logs (λ r. refl) (λ r. refl) (λ r. refl) books
    written-IsKept (refused_logged attempt log_id now message) books =
        changed mark_failed (s.world.logs ++ log_row log_id n.id attempt now failure message ∷ [])
          (λ r. refl) (λ r. refl) (λ r. refl) books

    redelivered :
        (c : Cut)
        → IsAccounted w s
        → IsAccounted w
            (record s { world = left_by c n s.world; repeats = repeated c n.id s.repeats })
    redelivered c books =
        let (row', books') = written-IsKept c books in
        elim (Bool-cases (has_mailed c)) [
          | inl out ↦
              rw out (mail_repeated (record s { world = written c n s.world }) n row' books')
          | inr not_yet ↦ rw not_yet books'
        ]

    cut :
        (c : Cut) (before after : List (ℕ × ℕ)) (k : ℕ)
        → s.held ≡ before ++ (n.id, k) ∷ after
        → IsAccounted w s
        → IsAccounted w (record s {
          world = left_by c n s.world;
          held = before ++ after;
          lost = ended c n.id s.lost;
        })
    cut c before after k was books =
        let (row', books') = written-IsKept c books in
        let t : Office = record s { world = written c n s.world } in
        elim (Bool-cases (has_mailed c)) [
          | inl out ↦ rw out (mail_ends t n before after k row' was books')
          | inr not_yet ↦ rw not_yet (lose t before after n.id k was books')
        ]

  -- A run of the task of a row that is there.
  module _ (s : Office) (before after : List (ℕ × ℕ)) (id k log_id now : ℕ) (n : Notification)
      (was : s.held ≡ before ++ (id, k) ∷ after)
      (found : find_row row_id id s.world.notifications ≡ some n) where
    same_count :
        (change : Notification → Notification)
        → ((r : Notification) → (change r).id ≡ r.id)
        → (i : ℕ)
        → rows_of i (update_row row_id n.id change s.world.notifications)
          ≡ rows_of i s.world.notifications
    same_count change keeps i =
        count-update_keeps row_id (λ m. m.id == i) n.id change (λ r. ap (λ j. j == i) (keeps r))
          s.world.notifications

    run_keeps :
        (a : Attempt)
        → IsAccounted w s
        → IsAccounted w
            (settle s before after id k (some n) (attempt_mail k log_id now a n s.world))
    run_keeps no_template books = lose s before after id k was books
    run_keeps (mailed t) (sent, mails, there, balance, single) =
        let rows = s.world.notifications in
        let key = find_row-key row_id id rows found in
        let same = same_count (mark_sent t) (λ r. refl) in
        let kept = InTable-update n.id (mark_sent t) (λ r. refl) (λ r. refl) (λ r. refl) rows in
        (
          sent ++ n ∷ [],
          mailed_more s sent n mails,
          All-append _ sent (n ∷ []) (All-InTable rows _ sent kept there)
              (kept n (n, ap (λ j. find_row row_id j rows) key ∙ found, refl, refl), tt),
          (λ i. ground (
            arith,
            balance i,
            held_split i before after (id, k),
            ap (held_of i) was,
            count-append (λ m. m.id == i) sent (n ∷ []),
            same i,
            key,
          )),
          λ i. omega (arith, single i, same i),
        )
    run_keeps (refused message) (sent, mails, there, balance, single) =
        let rows = s.world.notifications in
        let same = same_count mark_failed (λ r. refl) in
        let there' =
          All-InTable rows _ sent
            (InTable-update n.id mark_failed (λ r. refl) (λ r. refl) (λ r. refl) rows) there in
        let single' : (i : ℕ)
            → rows_of i (update_row row_id n.id mark_failed rows) + opened i s.open_ ≤ 1 =
          λ i. omega (arith, single i, same i) in
        elim (Bool-cases (ltb k max_retries)) [
          | inl again ↦ rw again (
            sent,
            mails,
            there',
            (λ i. omega (
              arith,
              balance i,
              held_split i before after (id, k),
              held_split i before after (id, k + 1),
              ap (held_of i) was,
              same i,
            )),
            single',
          )
          | inr over ↦ rw over (
            sent,
            mails,
            there',
            (λ i. omega (
              arith,
              balance i,
              held_split i before after (id, k),
              ap (held_of i) was,
              count-append (λ j. j == i) s.lost (id ∷ []),
              same i,
            )),
            single',
          )
        ]

  found_row :
      (s : Office) (n : Notification) (id : ℕ)
      → find_row row_id id s.world.notifications ≡ some n
      → (n.id ≡ id) × InTable s.world.notifications n
  found_row s n id found =
      let rows = s.world.notifications in
      let key = find_row-key row_id id rows found in
      (key, (n, ap (λ j. find_row row_id j rows) key ∙ found, refl, refl))

  settled-InTable :
      (s : Office) (before after : List (ℕ × ℕ)) (id k log_id now : ℕ) (message : Text)
      (n : Notification)
      → InTable s.world.notifications n
      → InTable
          (settle s before after id k
            (some n)
            (attempt_mail k log_id now (refused message) n s.world)).world.notifications
          n
  settled-InTable s before after id k log_id now message n row =
      let kept =
        InTable-update n.id mark_failed (λ r. refl) (λ r. refl) (λ r. refl) s.world.notifications n
          row in
      elim (Bool-cases (ltb k max_retries)) [ inl again ↦ rw again kept | inr over ↦ rw over kept ]

  Step-IsAccounted : (s t : Office) → Step lib s t → IsAccounted w s → IsAccounted w t
  Step-IsAccounted s t (insert m draw event_id event_type fields n idle created new next)
        (sent, mails, there, balance, single) =
      subst (IsAccounted w) (sym next) (
        sent,
        mails,
        there,
        (λ i. omega (
          arith,
          balance i,
          ap (opened i) idle,
          count-append (λ j. j == i) s.world.tasks (n.id ∷ []),
        )),
        λ i. one_row i n s.world.notifications new (omega (arith, single i)),
      )
  Step-IsAccounted s t (finish m n was next) (sent, mails, there, balance, single) =
      let rows = s.world.notifications in
      subst (IsAccounted w) (sym next) (
        sent,
        mails,
        All-InTable rows _ sent
            (λ x h. (h.0, find_row-append row_id x.id rows (n ∷ []) h.1, h.2, h.3)) there,
        (λ i.
            omega
              (arith, balance i, ap (opened i) was, count-append (λ r. r.id == i) rows (n ∷ []))),
        λ i.
            omega (arith, single i, ap (opened i) was, count-append (λ r. r.id == i) rows (n ∷ [])),
      )
  Step-IsAccounted s t (skip m idle next) books = subst (IsAccounted w) (sym next) books
  Step-IsAccounted s t (take before after id was next) (sent, mails, there, balance, single) =
      subst (IsAccounted w) (sym next) (
        sent,
        mails,
        there,
        (λ i. omega (
          arith,
          balance i,
          ap (times i) was,
          count-append (λ j. j == i) before (id ∷ after),
          count-append (λ j. j == i) before after,
        )),
        single,
      )
  Step-IsAccounted s t (run before after id k log_id now a was next) books =
      subst (IsAccounted w) (sym next) (by_row (find_row row_id id s.world.notifications) refl)
    where
      by_row :
          (row : Option Notification)
          → find_row row_id id s.world.notifications ≡ row
          → IsAccounted w (
              settle s before after id k
                (find_row row_id id s.world.notifications)
                (send_email_notification k log_id now a id s.world))
      by_row none gone =
          subst (IsAccounted w) (sym (run_missing s before after id k log_id now a gone))
            (lose s before after id k was books)
      by_row (some n) found =
          subst (IsAccounted w) (sym (run_found s before after id k log_id now a n found))
            (run_keeps s before after id k log_id now n was found a books)
  Step-IsAccounted s t (unsure before after id k log_id now message n was found next) books =
      let (key, row) = found_row s n id found in
      let u =
        settle s before after id k (some n)
          (attempt_mail k log_id now (refused message) n s.world) in
      let row' = settled-InTable s before after id k log_id now message n row in
      subst (IsAccounted w)
        (sym (
          next
          ∙ ap (λ j. record u { world = mail_out n u.world; repeats = u.repeats ++ j ∷ [] })
              (sym key)))
        (mail_repeated u n row'
          (run_keeps s before after id k log_id now n was found (refused message) books))
  Step-IsAccounted s t (cut_off before after id k n c was found next) books =
      let (key, row) = found_row s n id found in
      subst (IsAccounted w)
        (sym (
          next
          ∙ ap
              (λ j. record s {
                world = left_by c n s.world;
                held = before ++ after;
                lost = ended c j s.lost;
              })
              (sym key)))
        (cut s n row c before after k (was ∙ ap (λ j. before ++ (j, k) ∷ after) (sym key)) books)
  Step-IsAccounted s t (redeliver before after id k n c was found next) books =
      let (key, row) = found_row s n id found in
      subst (IsAccounted w)
        (sym (
          next
          ∙ ap (λ j. record s { world = left_by c n s.world; repeats = repeated c j s.repeats })
              (sym key)))
        (redelivered s n row c books)
  Step-IsAccounted s t (doubled before after id k log_id now message n was found again next) books =
      let (key, row) = found_row s n id found in
      subst (IsAccounted w) (sym next) (
        twice s before after id k was (after_refusal (k + 1) log_id now message n s.world)
          (changed s n row mark_failed
            (s.world.logs ++ log_row log_id n.id (k + 1) now failure message ∷ []) (λ r. refl)
            (λ r. refl) (λ r. refl) books).1)

  Reach-IsAccounted : {s t : Office} → Reach lib s t → IsAccounted w s → IsAccounted w t
  Reach-IsAccounted start h = h
  Reach-IsAccounted {s} (later {t} {u} reach step) h =
      Step-IsAccounted t u step (Reach-IsAccounted reach h)

-- The consumer and the workers, in any interleaving of their steps, of retries, of runs that are cut
-- off, and of workers that are lost: from a table of distinct identifiers with no task about, the
-- mails that have gone out since are each of some notification, with the subject, the recipient and
-- the event of the notification's row. For every notification the ways in which it is accounted for
-- (in the table before; a mail; its task waits in Celery; it is with a worker or waits for another
-- run; it has ended without a mail) count one, and one more for each run that was mailed and whose
-- task runs again, because its worker was lost, or that counted as refused, and for each that was
-- lost after it had asked for the next. So a notification of which no run was of these kinds is
-- mailed once at most, and is not mailed if it was there before;
-- with no task left, it has been mailed exactly once or has had its task end without a mail.
pub mail_accounts :
    (lib : Library) (w : World) (s : Office)
    → ((i : ℕ) → rows_of i w.notifications ≤ 1)
    → w.tasks ≡ []
    → Reach lib (record { world = w; open_ = none; held = []; lost = []; repeats = [] }) s
    → (sent : List Notification) × (s.world.mails ≡ w.mails ++ map mail_of sent)
      × All (InTable s.world.notifications) sent
      × ((i : ℕ)
          → rows_of i sent
              + times i s.lost
              + held_of i s.held
              + times i s.world.tasks
              + rows_of i w.notifications
            ≡ rows_of i s.world.notifications + opened i s.open_ + times i s.repeats)
      × ((i : ℕ) → rows_of i s.world.notifications + opened i s.open_ ≤ 1)
mail_accounts lib w s distinct idle reach = Reach-IsAccounted lib w reach (
  [],
  sym (append-nil w.mails),
  tt,
  (λ i. omega (arith, ap (times i) idle)),
  λ i. omega (arith, distinct i),
)
