-- ===== src/Outbox/Accounting.antt =====
-- What a batch does to the table as a whole, and to the metrics.
use mathlib.Core.List.{Permᴰ}
use native.Mathlib.Nat.{zero-add}
use risk_core.Prelude.{
  ℕ, ◌+◌, ◌<◌, ◌≡◌, refl, Bool, true, Option, none, some, List, [], ◌∷◌, arith, length,
  length-append, count, All, find_row, count-update_row, All-update_row, All-find_row,
}
use risk_core.Prelude.Int.{sub_ℕ}
use risk_core.Outbox.{OutboxEvent, Status, is_pending, is_published}
use risk_core.Outbox.Relay.{
  Environment, RelayState, row_id, save_columns, max_attempts, message_of, after_produce, observe,
  publish_one, publish_all, select_batch, finish_batch, process_batch,
}
use risk_core.Outbox.Rows.{Distinct, Fresh, select_batch-Fresh}
use risk_core.Outbox.Loop.{publish_all_induction}

-- A pending event has tries left and no publication time, a published one has a time, and a
-- failed one has used all its tries.
abbrev pub IsSound : OutboxEvent → Type 0
IsSound e =
    (e.status ≡ Status.pending → (e.attempts < max_attempts) × (e.published_at ≡ none))
    × (e.status ≡ Status.published → (t : ℕ) × (e.published_at ≡ some t))
    × (e.status ≡ Status.failed → e.attempts ≡ max_attempts)

module _ {P B : Type 0} (env : Environment P B) where
  -- The change that one event makes to its row is sound and leaves it published, failed, or
  -- pending with one try less.
  saved-IsSound :
      (e : OutboxEvent) (error : Option (List ℕ))
      → is_pending e ≡ true
      → IsSound e
      → IsSound (save_columns (after_produce env e error) e)
  unfolding after_produce
  saved-IsSound e none p h = (λ q. ground arith, λ q. (env.now e, refl), λ q. ground arith)
  saved-IsSound e (some x) p h = (λ q. ground arith, λ q. ground arith, λ q. ground arith)

  pub publish_one-IsSound :
      (e : OutboxEvent) (s : RelayState P)
      → find_row row_id e.id s.rows ≡ some e
      → is_pending e ≡ true
      → All IsSound s.rows
      → All IsSound (publish_one env e s).0.rows
  unfolding publish_one
  publish_one-IsSound e s found p h =
      let error = (env.produce s.producer (message_of env e)).1 in
      All-update_row row_id IsSound e.id (save_columns (after_produce env e error)) s.rows found
        (saved-IsSound e error p (All-find_row row_id IsSound e.id s.rows found h)) h

  -- Totals that one event moves between: pending, published and failed.
  publish_one_moves :
      (e : OutboxEvent) (s : RelayState P)
      → find_row row_id e.id s.rows ≡ some e
      → is_pending e ≡ true
      → let (t, n) = publish_one env e s in
        (count is_published t.rows ≡ count is_published s.rows + n)
        × (length t.published_total ≡ length s.published_total + n)
        × (length t.lag_seconds ≡ length s.lag_seconds + n)
        × (count is_pending t.rows + length t.published_total + length t.failed_total
            ≡ count is_pending s.rows + length s.published_total + length s.failed_total)
  unfolding publish_one after_produce observe
  publish_one_moves e s found p =
      let error = (env.produce s.producer (message_of env e)).1 in
      let change = save_columns (after_produce env e error) in
      ground (
        arith,
        count-update_row row_id is_published e.id change s.rows found,
        count-update_row row_id is_pending e.id change s.rows found,
        length-append s.published_total (e.topic ∷ []),
        length-append s.failed_total (e.topic ∷ []),
        length-append s.lag_seconds (sub_ℕ (env.now e) e.created_at ∷ []),
      )

  -- The totals so far, against those at the start.
  abbrev Moves : RelayState P → RelayState P → ℕ → Type 0
  Moves s t n =
      (count is_published t.rows ≡ count is_published s.rows + n)
      × (length t.published_total ≡ length s.published_total + n)
      × (length t.lag_seconds ≡ length s.lag_seconds + n)
      × (count is_pending t.rows + length t.published_total + length t.failed_total
          ≡ count is_pending s.rows + length s.published_total + length s.failed_total)

  Moves-trans : (s t u : RelayState P) (n k : ℕ) → Moves s t n → Moves t u k → Moves s u (n + k)
  Moves-trans s t u n k h j = omega arith

  publish_all-Moves :
      (events : List OutboxEvent) (s : RelayState P)
      → Fresh s.rows events
      → Moves s (publish_all env events s).0 (publish_all env events s).1
  publish_all-Moves events s fresh = rw (← zero-add (publish_all env events s).1) (
      publish_all_induction env (λ t n. Moves s t n)
        (λ e t n found p h.
          Moves-trans s t (publish_one env e t).0 n (publish_one env e t).1 h
            (publish_one_moves e t found p))
        events s 0 fresh (omega arith))

  module _ (perm : (xs : List OutboxEvent) → Permᴰ xs (env.order_by xs)) where
    -- A batch, whatever the producer answers and whatever rows other relays hold locked, returns
    -- the number of rows that became PUBLISHED; the published counter and the observed lags grow
    -- by that number, and every row that left PENDING is counted once, as published or as failed.
    -- It needs a table with distinct keys and an `order_by` that only rearranges rows.
    pub process_batch_accounts :
        (locked : OutboxEvent → Bool) (s : RelayState P)
        → Distinct s.rows
        → let (t, n) = process_batch env locked s in
          (count is_published t.rows ≡ count is_published s.rows + n)
          × (length t.published_total ≡ length s.published_total + n)
          × (length t.lag_seconds ≡ length s.lag_seconds + n)
          × (count is_pending t.rows + length t.published_total + length t.failed_total
              ≡ count is_pending s.rows + length s.published_total + length s.failed_total)
    unfolding process_batch
    process_batch_accounts locked s d =
        go (select_batch env locked s.rows) (select_batch-Fresh env perm locked s.rows d)
      where
        go :
            (events : List OutboxEvent)
            → Fresh s.rows events
            → Moves s (finish_batch env events s).0 (finish_batch env events s).1
        go [] fresh = omega arith
        go (e ∷ events) fresh = publish_all-Moves (e ∷ events) s fresh

    -- The batch keeps every row sound: retry counts below ten while pending, ten when failed, and
    -- a publication time on what is published.
    pub process_batch-IsSound :
        (locked : OutboxEvent → Bool) (s : RelayState P)
        → Distinct s.rows
        → All IsSound s.rows
        → All IsSound (process_batch env locked s).0.rows
    unfolding process_batch
    process_batch-IsSound locked s d sound =
        go (select_batch env locked s.rows) (select_batch-Fresh env perm locked s.rows d)
      where
        keep :
            (e : OutboxEvent) (t : RelayState P) (n : ℕ)
            → find_row row_id e.id t.rows ≡ some e
            → is_pending e ≡ true
            → All IsSound t.rows
            → All IsSound (publish_one env e t).0.rows
        keep e t n found p h = publish_one-IsSound e t found p h

        go :
            (events : List OutboxEvent)
            → Fresh s.rows events
            → All IsSound (finish_batch env events s).0.rows
        go [] fresh = sound
        go (e ∷ events) fresh =
            publish_all_induction env (λ t n. All IsSound t.rows) keep (e ∷ events) s 0 fresh sound
