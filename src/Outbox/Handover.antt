-- ===== src/Outbox/Handover.antt =====
-- The relay with a producer that accepts every message: a batch, and the batches of a run.
use mathlib.Core.List.{Memᴰ, Permᴰ}
use mathlib.Core.List.Memᴰ
use mathlib.Core.Path.{subst}
use risk_core.Prelude.{
  ℕ, zero, suc, ◌≤◌, ◌≡◌, refl, ◌∙◌, sym, Bool, true, false, some, List, [], ◌∷◌, arith, any, count,
  All, ◌==◌, find_row, Bool-cases, inl, inr, ◌⊎◌,
}
use risk_core.Outbox.{OutboxEvent, is_pending, is_published}
use risk_core.Outbox.Relay.{
  Environment, RelayState, Message, row_id, message_of, select_batch, finish_batch, process_batch,
  run_batches,
}
use risk_core.Outbox.Rows.{Distinct, Fresh, select_batch-Fresh}
use risk_core.Outbox.Accounting.{IsSound}
use risk_core.Outbox.Progress.{
  budget, find_row_settled, process_batch-Distinct, run_batches_settles,
}
use risk_core.Outbox.Delivery.{
  Accepts, publish_all_log, publish_all_other, publish_all_row, same_key,
}

module _ {B : Type 0} (env : Environment (List (Message B)) B) (accepts : Accepts env) where
  module _ (perm : (xs : List OutboxEvent) → Permᴰ xs (env.order_by xs))
      (locked : OutboxEvent → Bool) (e : OutboxEvent) where
    -- The message of the event is in the log, and its row is published.
    abbrev IsDone : RelayState (List (Message B)) → Type 0
    IsDone s =
        Memᴰ (message_of env e) s.producer
        × ((row : OutboxEvent) × (find_row row_id e.id s.rows ≡ some row)
            × (is_published row ≡ true))

    -- A batch does this for an event that it takes.
    batch_published :
        (s : RelayState (List (Message B)))
        → Distinct s.rows
        → Memᴰ e (select_batch env locked s.rows)
        → IsDone (process_batch env locked s).0
    unfolding process_batch
    batch_published s distinct taken =
        go (select_batch env locked s.rows) (select_batch-Fresh env perm locked s.rows distinct)
          taken
      where
        go :
            (events : List OutboxEvent)
            → Fresh s.rows events
            → Memᴰ e events
            → IsDone (finish_batch env events s).0
        go [] fresh h = elim h [ ]
        go (x ∷ events) fresh h = (
          subst (Memᴰ (message_of env e)) (sym (publish_all_log env accepts (x ∷ events) s))
              (Memᴰ.append_right s.producer (Memᴰ.map (message_of env) h)),
          publish_all_row env accepts (x ∷ events) s e fresh h,
        )

    -- An event that a batch does not take stays as it is.
    batch_passes :
        (s : RelayState (List (Message B)))
        → any (λ x. x.id == e.id) (select_batch env locked s.rows) ≡ false
        → find_row row_id e.id (process_batch env locked s).0.rows ≡ find_row row_id e.id s.rows
    unfolding process_batch
    batch_passes s absent = go (select_batch env locked s.rows) absent
      where
        go :
            (events : List OutboxEvent)
            → any (λ x. x.id == e.id) events ≡ false
            → find_row row_id e.id (finish_batch env events s).0.rows ≡ find_row row_id e.id s.rows
        go [] h = refl
        go (x ∷ events) h = publish_all_other env accepts (x ∷ events) s e.id h

    -- The log only grows.
    batch_logged :
        (s : RelayState (List (Message B))) (m : Message B)
        → Memᴰ m s.producer
        → Memᴰ m (process_batch env locked s).0.producer
    unfolding process_batch
    batch_logged s m h = go (select_batch env locked s.rows)
      where
        go : (events : List OutboxEvent) → Memᴰ m (finish_batch env events s).0.producer
        go [] = h
        go (x ∷ events) =
            subst (Memᴰ m) (sym (publish_all_log env accepts (x ∷ events) s)) (Memᴰ.append_left _ h)

    batch-IsDone :
        (s : RelayState (List (Message B)))
        → Distinct s.rows
        → IsDone s
        → IsDone (process_batch env locked s).0
    batch-IsDone s distinct (logged, (row, found, published)) = (
      batch_logged s _ logged,
      (
        row,
        (find_row_settled env perm locked s e.id row distinct found (settled row published)).0,
        published,
      ),
    )
      where
        settled : (row : OutboxEvent) → is_published row ≡ true → is_pending row ≡ false
        settled row h = ground arith

    batch_cases :
        (s : RelayState (List (Message B)))
        → Distinct s.rows
        → (find_row row_id e.id s.rows ≡ some e) ⊎ IsDone s
        → (find_row row_id e.id (process_batch env locked s).0.rows ≡ some e)
          ⊎ IsDone (process_batch env locked s).0
    batch_cases s distinct (inr done) = inr (batch-IsDone s distinct done)
    batch_cases s distinct (inl waits) =
        let events = select_batch env locked s.rows in
        elim (Bool-cases (any (λ x. x.id == e.id) events)) [
          | inl taken ↦ inr (
              batch_published s distinct (
                same_key env accepts s.rows events e
                  (select_batch-Fresh env perm locked s.rows distinct) waits taken))
          | inr passed ↦ inl (batch_passes s passed ∙ waits)
        ]

    run_cases :
        (k : ℕ) (s : RelayState (List (Message B)))
        → Distinct s.rows
        → (find_row row_id e.id s.rows ≡ some e) ⊎ IsDone s
        → (find_row row_id e.id (run_batches env k locked s).rows ≡ some e)
          ⊎ IsDone (run_batches env k locked s)
    unfolding run_batches
    run_cases zero s distinct h = h
    run_cases (suc k) s distinct h =
        run_cases k (process_batch env locked s).0
          (process_batch-Distinct env perm locked s distinct) (batch_cases s distinct h)

  none_pending :
      (e : OutboxEvent) (rows : List OutboxEvent)
      → find_row row_id e.id rows ≡ some e
      → count is_pending rows ≡ 0
      → is_pending e ≡ false
  none_pending e [] found none_ = absurd (cc)
  none_pending e (x ∷ rows) found none_ = elim (Bool-cases (x.id == e.id)) [
    | inl here ↦ ground arith
    | inr other ↦ none_pending e rows (ground arith) (ground arith)
  ]

  -- Every event that waits in the outbox when the relay starts is handed to the producer, and its
  -- row is published, within as many batches as there are tries left, when the producer accepts.
  pub run_batches-IsDone :
      (perm : (xs : List OutboxEvent) → Permᴰ xs (env.order_by xs)) (k : ℕ)
      (s : RelayState (List (Message B)))
      → Distinct s.rows
      → All IsSound s.rows
      → budget s.rows ≤ k
      → (e : OutboxEvent) → find_row row_id e.id s.rows ≡ some e
      → is_pending e ≡ true
      → IsDone perm (λ _. false) e (run_batches env k (λ _. false) s)
  run_batches-IsDone perm k s distinct sound enough e waits pending =
      elim (run_cases perm (λ _. false) e k s distinct (inl waits)) [
        | inr done ↦ done
        | inl still ↦
            let gone = run_batches_settles env perm k s distinct sound enough in
            let no_ : is_pending e ≡ false = none_pending e _ still gone in absurd (cc)
      ]
