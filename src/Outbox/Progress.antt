-- ===== src/Outbox/Progress.antt =====
-- What the relay leaves alone, and that it comes to an end on every event.
use mathlib.Core.List.{Permᴰ}
use mathlib.Core.List.Permᴰ
use mathlib.Core.Path.{subst}
use risk_core.Prelude.{
  All-imp, ap, ◌≢◌, ℕ, zero, suc, ◌-◌, ◌≤◌, ◌<◌, ◌≡◌, refl, ◌∙◌, sym, Bool, true, false, some, List,
  [], ◌∷◌, arith, length, length-select, take, count, select, All, find_row, total,
  total-update_row, if◌then◌else◌, inl, inr, ◌⊎◌, All-find_row,
}
use risk_core.Outbox.{OutboxEvent, is_pending}
use risk_core.Outbox.Relay.{
  Environment, RelayState, row_id, save_columns, max_attempts, batch_size, message_of,
  after_produce, publish_one, publish_all, finish_batch, select_batch, process_batch, run_batches,
}
use risk_core.Outbox.Rows.{Distinct, Fresh, All-perm, Distinct-update_row, select_batch-Fresh}
use risk_core.Outbox.Loop.{publish_all_induction, find_row-publish_one, Fresh-publish_one}
use risk_core.Outbox.Accounting.{IsSound, publish_one-IsSound, process_batch-IsSound}

-- How many tries the pending rows have left, together.
abbrev pub tries_left : OutboxEvent → ℕ
tries_left e = if is_pending e then max_attempts - e.attempts else 0

abbrev pub budget : List OutboxEvent → ℕ
budget = total tries_left

-- A batch of no rows means that no row passes the test.
count_of_no_batch :
    (p : OutboxEvent → Bool) (rows ys : List OutboxEvent)
    → Permᴰ (select p rows) ys
    → take batch_size ys ≡ []
    → count p rows ≡ 0
count_of_no_batch p rows ys perm h =
    sym (length-select p rows) ∙ go (select p rows) perm (no_ys ys h)
  where
    no_ys : (ys : List OutboxEvent) → take 100 ys ≡ [] → ys ≡ []
    no_ys [] h = refl
    no_ys (y ∷ ys) h = cc

    none_left : (xs : List OutboxEvent) → All (λ _. ⊥) xs → length xs ≡ 0
    none_left [] h = refl
    none_left (x ∷ xs) h = absurd (h.0)

    go : (xs : List OutboxEvent) → Permᴰ xs ys → ys ≡ [] → length xs ≡ 0
    go xs perm e = none_left xs (All-perm (λ _. ⊥) (Permᴰ.symm perm) (rw e tt))

budget_of_none : (rows : List OutboxEvent) → count is_pending rows ≡ 0 → budget rows ≡ 0
budget_of_none [] h = refl
budget_of_none (x ∷ rows) h = ground (arith, budget_of_none rows)

count-le-budget : (rows : List OutboxEvent) → All IsSound rows → count is_pending rows ≤ budget rows
count-le-budget [] h = omega arith
count-le-budget (x ∷ rows) h = ground (arith, count-le-budget rows h.1, h.0)

module _ {P B : Type 0} (env : Environment P B) where
  publish_one-Distinct :
      (e : OutboxEvent) (s : RelayState P) → Distinct s.rows → Distinct (publish_one env e s).0.rows
  unfolding publish_one
  publish_one-Distinct e s d =
      let error = (env.produce s.producer (message_of env e)).1 in
      Distinct-update_row e.id (save_columns (after_produce env e error)) s.rows (λ r. refl) d

  -- One event uses up at least one try.
  publish_one-budget :
      (e : OutboxEvent) (s : RelayState P)
      → find_row row_id e.id s.rows ≡ some e
      → is_pending e ≡ true
      → IsSound e
      → budget (publish_one env e s).0.rows < budget s.rows
  unfolding publish_one after_produce
  publish_one-budget e s found p sound =
      let error = (env.produce s.producer (message_of env e)).1 in
      ground (
        arith,
        total-update_row row_id tries_left e.id (save_columns (after_produce env e error)) s.rows
            found,
      )

  publish_all-budget :
      (e : OutboxEvent) (events : List OutboxEvent) (s : RelayState P)
      → Fresh s.rows (e ∷ events)
      → All IsSound s.rows
      → budget (publish_all env (e ∷ events) s).0.rows < budget s.rows
  unfolding publish_all
  publish_all-budget e events s fresh sound =
      let t = (publish_one env e s).0 in
      let found = fresh.0.0.0 in
      let p = fresh.0.0.1 in
      let first : budget t.rows < budget s.rows =
        publish_one-budget e s found p (All-find_row row_id IsSound e.id s.rows found sound) in
      let rest : All IsSound (publish_all env events t).0.rows
          × (budget (publish_all env events t).0.rows ≤ budget t.rows) =
        publish_all_induction env (λ u n. All IsSound u.rows × (budget u.rows ≤ budget t.rows))
          (λ x u n found' p' h. (
            publish_one-IsSound env x u found' p' h.0,
            omega (
              arith,
              publish_one-budget x u found' p' (All-find_row row_id IsSound x.id u.rows found' h.0),
            ),
          ))
          events t 0 (Fresh-publish_one env e events s fresh)
          (publish_one-IsSound env e s found p sound, omega arith) in
      omega (arith, rest.1)

  -- The producer after these events have been handed to it, one after the other.
  abbrev pub hand : List OutboxEvent → P → P
  hand [] producer = producer
  hand (e ∷ events) producer = hand events (env.produce producer (message_of env e)).0

  publish_one-producer :
      (e : OutboxEvent) (s : RelayState P)
      → (publish_one env e s).0.producer ≡ (env.produce s.producer (message_of env e)).0
  unfolding publish_one
  publish_one-producer e s = refl

  publish_all-producer :
      (events : List OutboxEvent) (s : RelayState P)
      → (publish_all env events s).0.producer ≡ hand events s.producer
  unfolding publish_all
  publish_all-producer [] s = refl
  publish_all-producer (e ∷ events) s =
      publish_all-producer events (publish_one env e s).0
      ∙ ap (hand events) (publish_one-producer e s)

  finish_batch-producer :
      (events : List OutboxEvent) (s : RelayState P)
      → (finish_batch env events s).0.producer ≡ hand events s.producer
  unfolding finish_batch
  finish_batch-producer [] s = refl
  finish_batch-producer (e ∷ events) s = publish_all-producer (e ∷ events) s

  module _ (perm : (xs : List OutboxEvent) → Permᴰ xs (env.order_by xs)) where
    pub process_batch-Distinct :
        (locked : OutboxEvent → Bool) (s : RelayState P)
        → Distinct s.rows
        → Distinct (process_batch env locked s).0.rows
    unfolding process_batch
    process_batch-Distinct locked s d =
        go (select_batch env locked s.rows) (select_batch-Fresh env perm locked s.rows d)
      where
        go :
            (events : List OutboxEvent)
            → Fresh s.rows events
            → Distinct (finish_batch env events s).0.rows
        go [] fresh = d
        go (e ∷ events) fresh =
            publish_all_induction env (λ t n. Distinct t.rows)
              (λ x t n found p h. publish_one-Distinct x t h) (e ∷ events) s 0 fresh d

    -- A row that is PUBLISHED or FAILED is left as it is by a batch, on a table of distinct keys;
    -- and what the producer gets in the batch is some rows of the table, one after the other, all
    -- of which are PENDING and none of which has the key of that row: an event is handed to the
    -- producer again only while it is PENDING.
    pub find_row_settled :
        (locked : OutboxEvent → Bool) (s : RelayState P) (id : ℕ) (r : OutboxEvent)
        → Distinct s.rows
        → find_row row_id id s.rows ≡ some r
        → is_pending r ≡ false
        → (find_row row_id id (process_batch env locked s).0.rows ≡ some r)
          × (batch : List OutboxEvent) × ((process_batch env locked s).0.producer
              ≡ hand batch s.producer)
          × All
              (λ e. (find_row row_id e.id s.rows ≡ some e) × (is_pending e ≡ true) × (e.id ≢ id))
              batch
    unfolding process_batch
    find_row_settled locked s id r d at_start settled =
        let events = select_batch env locked s.rows in
        let fresh = select_batch-Fresh env perm locked s.rows d in
        (
          go events fresh,
          events,
          finish_batch-producer events s,
          All-imp _ _ events
              (λ e h. (h.0, h.1, λ same. cc (rw same at (h.0), at_start, h.1, settled))) fresh.0,
        )
      where
        keep :
            (e : OutboxEvent) (t : RelayState P) (n : ℕ)
            → find_row row_id e.id t.rows ≡ some e
            → is_pending e ≡ true
            → find_row row_id id t.rows ≡ some r
            → find_row row_id id (publish_one env e t).0.rows ≡ some r
        keep e t n found p h =
            find_row-publish_one env e t id (λ same. cc (rw same at h, found, p, settled)) ∙ h

        go :
            (events : List OutboxEvent)
            → Fresh s.rows events
            → find_row row_id id (finish_batch env events s).0.rows ≡ some r
        go [] fresh = at_start
        go (e ∷ events) fresh =
            publish_all_induction env (λ t n. find_row row_id id t.rows ≡ some r) keep (e ∷ events)
              s 0 fresh at_start

    -- While something is pending, a batch uses up at least one try.
    process_batch-budget :
        (s : RelayState P)
        → Distinct s.rows
        → All IsSound s.rows
        → ((count is_pending s.rows ≡ 0) × ((process_batch env (λ _. false) s).0 ≡ s))
          ⊎ (budget (process_batch env (λ _. false) s).0.rows < budget s.rows)
    unfolding process_batch select_batch
    process_batch-budget s d sound =
        go (select_batch env (λ _. false) s.rows)
          (select_batch-Fresh env perm (λ _. false) s.rows d) refl
      where
        chosen : List OutboxEvent
        chosen = select is_pending s.rows

        go :
            (events : List OutboxEvent)
            → Fresh s.rows events
            → take batch_size (env.order_by chosen) ≡ events
            → ((count is_pending s.rows ≡ 0) × ((finish_batch env events s).0 ≡ s))
              ⊎ (budget (finish_batch env events s).0.rows < budget s.rows)
        go [] fresh e =
            inl (count_of_no_batch is_pending s.rows (env.order_by chosen) (perm chosen) e, refl)
        go (e ∷ events) fresh _ = inr (publish_all-budget e events s fresh sound)

    -- The relay ends on every event: started on sound rows with distinct keys, with nothing locked
    -- by others and no new events, as many batches as there are tries left (ten for each new
    -- event) leave no row PENDING, whatever the producer answers.
    pub run_batches_settles :
        (k : ℕ) (s : RelayState P)
        → Distinct s.rows
        → All IsSound s.rows
        → budget s.rows ≤ k
        → count is_pending (run_batches env k (λ _. false) s).rows ≡ 0
    unfolding run_batches
    run_batches_settles zero s d sound enough = omega (arith, count-le-budget s.rows sound)
    run_batches_settles (suc k) s d sound enough = elim (process_batch-budget s d sound) [
      | inl (idle, same) ↦
          subst (λ t. count is_pending (run_batches env k (λ _. false) t).rows ≡ 0) (sym same)
            (run_batches_settles k s d sound (omega (arith, budget_of_none s.rows idle)))
      | inr less ↦
          run_batches_settles k (process_batch env (λ _. false) s).0
            (process_batch-Distinct (λ _. false) s d)
            (process_batch-IsSound env perm (λ _. false) s d sound) (omega arith)
    ]
