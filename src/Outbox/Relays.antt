-- ===== src/Outbox/Relays.antt =====
-- run_outbox_relay.py run by several processes on one table: the transactions of `_process_batch`,
-- step by step, with the rows that each holds locked.
use risk_core.Prelude.{
  ℕ, ◌≡◌, Bool, true, false, Option, none, some, List, [], ◌∷◌, ◌++◌, Text, any, ◌==◌, update_row,
}
use risk_core.Outbox.{OutboxEvent, is_pending}
use risk_core.Outbox.Relay.{Environment, row_id, save_columns, after_produce, select_batch}

-- An open transaction: the events that it has handled, with what `produce` raised for each, and
-- those that it has still to handle. All of their rows are locked.
pub record Work : Type 0 where
  pub done : List (OutboxEvent × Option Text)
  pub todo : List OutboxEvent

-- The committed table, the open transactions, the keys of the events that a producer has accepted,
-- in order, and among these the ones of transactions that were rolled back.
pub record System : Type 0 where
  pub rows : List OutboxEvent
  pub works : List Work
  pub log : List ℕ
  pub wasted : List ℕ

abbrev pub handled : List (OutboxEvent × Option Text) → List OutboxEvent
handled [] = []
handled ((e, error) ∷ done) = e ∷ handled done

abbrev pub held_by : Work → List OutboxEvent
held_by w = handled w.done ++ w.todo

-- The rows that open transactions hold locked.
abbrev pub held : List Work → List OutboxEvent
held [] = []
held (w ∷ works) = held_by w ++ held works

abbrev pub locked : List Work → OutboxEvent → Bool
locked works e = any (λ h. h.id == e.id) (held works)

-- What `produce` has taken: the key where it did not raise.
abbrev pub taken : OutboxEvent → Option Text → List ℕ
taken e none = e.id ∷ []
taken e (some error) = []

abbrev pub accepted : List (OutboxEvent × Option Text) → List ℕ
accepted [] = []
accepted ((e, error) ∷ done) = taken e error ++ accepted done

module _ {P B : Type 0} (env : Environment P B) where
  -- The table that a transaction commits.
  abbrev pub save_all : List (OutboxEvent × Option Text) → List OutboxEvent → List OutboxEvent
  save_all [] rows = rows
  save_all ((e, error) ∷ done) rows =
      save_all done (update_row row_id e.id (save_columns (after_produce env e error)) rows)

  -- A relay begins a transaction by the query, which skips locked rows; it handles one event, by
  -- whatever `produce` does; it commits; or it dies, and the database rolls back. A service adds an
  -- event to the table.
  pub data Step (s t : System) : Type 0 where
    begin :
        t ≡ record s {
          works = (record { done = []; todo = select_batch env (locked s.works) s.rows }) ∷ s.works;
        }
        → Step s t
    handle :
        (before after : List Work) (done : List (OutboxEvent × Option Text)) (e : OutboxEvent)
        (rest : List OutboxEvent) (error : Option Text)
        → s.works ≡ before ++ (record { done = done; todo = e ∷ rest }) ∷ after
        → t ≡ record s {
          works = before ++ (record { done = done ++ (e, error) ∷ []; todo = rest }) ∷ after;
          log = s.log ++ taken e error;
        }
        → Step s t
    commit :
        (before after : List Work) (done : List (OutboxEvent × Option Text))
        → s.works ≡ before ++ (record { done = done; todo = [] }) ∷ after
        → t ≡ record s { works = before ++ after; rows = save_all done s.rows }
        → Step s t
    crash :
        (before after : List Work) (w : Work)
        → s.works ≡ before ++ w ∷ after
        → t ≡ record s { works = before ++ after; wasted = s.wasted ++ accepted w.done }
        → Step s t
    emit :
        (e : OutboxEvent)
        → any (λ r. r.id == e.id) s.rows ≡ false
        → is_pending e ≡ true
        → t ≡ record s { rows = s.rows ++ e ∷ [] }
        → Step s t

  pub data Reach (s : System) : System → Type 0 where
    start : Reach s s
    later : {t u : System} → Reach s t → Step t u → Reach s u
