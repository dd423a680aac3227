-- ===== src/Outbox/Loop.antt =====
-- The loop over a batch: a rule for what it keeps, from what one event keeps.
use risk_core.Prelude.{
  ℕ, ◌+◌, ◌≡◌, ◌≢◌, refl, ◌∙◌, true, false, some, List, [], ◌∷◌, arith, ◌==◌, any, All, find_row,
  find_row-update_ne, update_row,
}
use native.Mathlib.Nat.{add-zero, add_assoc}
use risk_core.Outbox.{OutboxEvent, is_pending}
use risk_core.Outbox.Relay.{
  Environment, RelayState, row_id, save_columns, message_of, after_produce, publish_one,
  publish_all,
}
use risk_core.Outbox.Rows.{Fresh}

-- What is fresh stays fresh for the table in which the row of another event has changed.
pub Fresh-update_row :
    (e : OutboxEvent) (change : OutboxEvent → OutboxEvent) (events rows : List OutboxEvent)
    → ((r : OutboxEvent) → (change r).id ≡ r.id)
    → any (λ x. x.id == e.id) events ≡ false
    → Fresh rows events
    → Fresh (update_row row_id e.id change rows) events
Fresh-update_row e change events rows keeps apart (found, distinct) =
    (go events apart found, distinct)
  where
    go :
        (xs : List OutboxEvent)
        → any (λ x. x.id == e.id) xs ≡ false
        → All (λ x. (find_row row_id x.id rows ≡ some x) × (is_pending x ≡ true)) xs
        → All
            (λ x.
              (find_row row_id x.id (update_row row_id e.id change rows) ≡ some x)
              × (is_pending x ≡ true))
            xs
    go [] ne h = tt
    go (x ∷ xs) ne h =
        let other : x.id ≢ e.id = ground arith in
        (
          (find_row-update_ne row_id e.id x.id change rows keeps other ∙ h.0.0, h.0.1),
          go xs (ground arith) h.1,
        )

module _ {P B : Type 0} (env : Environment P B) where
  -- Handling one event leaves every other row as it was.
  pub find_row-publish_one :
      (e : OutboxEvent) (s : RelayState P) (id : ℕ)
      → id ≢ e.id
      → find_row row_id id (publish_one env e s).0.rows ≡ find_row row_id id s.rows
  unfolding publish_one
  find_row-publish_one e s id ne =
      let error = (env.produce s.producer _).1 in
      find_row-update_ne row_id e.id id (save_columns (after_produce env e error)) s.rows
        (λ r. refl) ne

  -- So the rest of a fresh batch is fresh for the table that one event leaves.
  pub Fresh-publish_one :
      (e : OutboxEvent) (events : List OutboxEvent) (s : RelayState P)
      → Fresh s.rows (e ∷ events)
      → Fresh (publish_one env e s).0.rows events
  unfolding publish_one
  Fresh-publish_one e events s h =
      let error = (env.produce s.producer (message_of env e)).1 in
      Fresh-update_row e (save_columns (after_produce env e error)) events s.rows (λ r. refl) h.1.0
        (h.0.1, h.1.1)

  -- A relation between the state and the number published so far that each event keeps holds of
  -- the whole batch.
  pub publish_all_induction :
      (Q : RelayState P → ℕ → Type 0)
      → ((e : OutboxEvent) (s : RelayState P) (n : ℕ)
          → find_row row_id e.id s.rows ≡ some e
          → is_pending e ≡ true
          → Q s n
          → Q (publish_one env e s).0 (n + (publish_one env e s).1))
      → (events : List OutboxEvent) (s : RelayState P) (n : ℕ) → Fresh s.rows events
      → Q s n
      → Q (publish_all env events s).0 (n + (publish_all env events s).1)
  unfolding publish_all
  publish_all_induction Q keep [] s n fresh h = rw add-zero h
  publish_all_induction Q keep (e ∷ events) s n fresh h =
      let (t, k) = publish_one env e s in
      rw (← add_assoc n k (publish_all env events t).1) (
        publish_all_induction Q keep events t (n + k) (Fresh-publish_one e events s fresh)
          (keep e s n fresh.0.0.0 fresh.0.0.1 h))
