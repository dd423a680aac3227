-- ===== src/Notifications/OneMail.antt =====
-- How many mails go out for an event, however often Kafka delivers it: the unique column of the table
-- and the accounts of the notifications together.
use risk_core.Prelude.{
  ℕ, ◌+◌, times, ◌≤◌, ◌≡◌, true, none, some, List, [], ◌∷◌, ◌++◌, arith, Text, text_eq,
  text_eq_refl, map, All, find_row, inl, inr, Bool-cases,
}
use risk_core.Notifications.{Notification, World, row_id}
use risk_core.Notifications.Consumer.{Library}
use risk_core.Notifications.Workers.{Office, mail_of, Reach}
use risk_core.Notifications.Ledger.{rows_of, InTable}
use risk_core.Notifications.Accounts.{mail_accounts}
use risk_core.Notifications.SingleEvent.{events_of, Reach-IsSingleEvent}

event_found :
    (e : Text) (id : ℕ) (rows : List Notification) (r : Notification)
    → find_row row_id id rows ≡ some r
    → text_eq r.event_id e ≡ true
    → 1 ≤ events_of e rows
event_found e id [] r found here = absurd (ground arith)
event_found e id (x ∷ rows) r found here = ground (arith, event_found e id rows r)

-- The row of an event is one row.
same_row :
    (e : Text) (i j : ℕ) (rows : List Notification) (r q : Notification)
    → events_of e rows ≤ 1
    → find_row row_id i rows ≡ some r
    → find_row row_id j rows ≡ some q
    → text_eq r.event_id e ≡ true
    → text_eq q.event_id e ≡ true
    → i ≡ j
same_row e i j [] r q single fi fj hr hq = absurd (ground arith)
same_row e i j (x ∷ rows) r q single fi fj hr hq =
    ground (arith, event_found e i rows r, event_found e j rows q, same_row e i j rows r q)

-- All mails about the event of a row are of its notification.
of_one_row :
    (e : Text) (i : ℕ) (r : Notification) (rows ns : List Notification)
    → events_of e rows ≤ 1
    → find_row row_id i rows ≡ some r
    → text_eq r.event_id e ≡ true
    → All (InTable rows) ns
    → events_of e ns ≤ rows_of i ns
of_one_row e i r rows [] single found here h = omega arith
of_one_row e i r rows (m ∷ ns) single found here ((q, found', mail, event), h) =
    let rest = of_one_row e i r rows ns single found here h in
    elim (Bool-cases (text_eq m.event_id e)) [
      | inl same ↦
          let id = same_row e i m.id rows r q single found found' here (rw event same) in
          ground (arith, rest, id, same)
      | inr other ↦ rw other (ground (arith, rest))
    ]

-- The consumer and the workers, in any interleaving of their steps, of retries, of runs that are cut
-- off, and of workers that are lost: from a table of distinct identifiers and distinct events with
-- no task about, the mails that have gone out since are each of some notification, with the subject
-- and the recipient of the notification's row. About the event of a row at most one mail has gone
-- out, however often the event is delivered, and one more at most for each run of its notification
-- that was mailed and whose task runs again, because its worker was lost, or that counted as refused,
-- and for each that was lost after it had asked for the next.
pub one_mail :
    (lib : Library) (w : World) (s : Office)
    → ((i : ℕ) → rows_of i w.notifications ≤ 1)
    → ((e : Text) → events_of e w.notifications ≤ 1)
    → w.tasks ≡ []
    → Reach lib (record { world = w; open_ = none; held = []; lost = []; repeats = [] }) s
    → (sent : List Notification) × (s.world.mails ≡ w.mails ++ map mail_of sent)
      × All (InTable s.world.notifications) sent
      × ((i : ℕ) (r : Notification)
          → find_row row_id i s.world.notifications ≡ some r
          → events_of r.event_id sent ≤ 1 + times i s.repeats)
one_mail lib w s distinct events idle reach =
    let (sent, mails, there, balance, single) = mail_accounts lib w s distinct idle reach in
    let apart = Reach-IsSingleEvent lib reach (λ e. omega (arith, events e)) in
    (
      sent,
      mails,
      there,
      λ i r found. omega (
        arith,
        balance i,
        single i,
        of_one_row r.event_id i r s.world.notifications sent (omega (arith, apart r.event_id)) found
            (text_eq_refl r.event_id) there,
      ),
    )
