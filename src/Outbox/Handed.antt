-- ===== src/Outbox/Handed.antt =====
-- How often the relays hand an event to the producer.
use mathlib.Core.List.{Permᴰ, append-nil}
use mathlib.Core.Path.{subst}
use risk_core.Prelude.{
  ℕ, ◌+◌, ◌≤◌, ◌≡◌, refl, ◌∙◌, sym, ap, true, false, Option, none, some, List, [], ◌∷◌, ◌++◌, arith,
  Text, count, count-append, times, All, ◌==◌, find_row, count-update_row, update_row, inl, inr,
}
use risk_core.Outbox.{OutboxEvent, is_published}
use risk_core.Outbox.Relay.{Environment, row_id, save_columns, after_produce, select_batch}
use risk_core.Outbox.Rows.{
  Distinct, Fresh, Distinct-update_row, select_batch-Fresh, select_batch-unlocked,
}
use risk_core.Outbox.Loop.{Fresh-update_row}
use risk_core.Outbox.Relays.{
  System, Step, Reach, start, later, begin, handle, commit, crash, emit, held, held_by, handled,
  locked, taken, accepted, save_all,
}
use risk_core.Outbox.Held.{
  held-perm, held-append, Fresh-perm, Fresh-back, Fresh-append, Fresh-emit, Distinct-emit,
  Distinct-count, Distinct-find, Fresh-find,
}
use risk_core.Outbox.InFlight.{
  in_flight, published_as, in_flight_split, accepted-append, held_by_next, in_flight-le,
  published-le, none_published,
}

-- Each event that was accepted is in a transaction that is open, was rolled back, or has committed
-- it as PUBLISHED; and what the relays hold is fresh.
abbrev IsOrderly : System → Type 0
IsOrderly s =
    Distinct s.rows
    × Fresh s.rows (held s.works)
    × ((i : ℕ)
        → times i s.log
          ≡ times i s.wasted + times i (in_flight s.works) + count (published_as i) s.rows)

module _ {P B : Type 0} (env : Environment P B) where
  -- What a commit does to the table.
  save_all_lem :
      (i : ℕ) (done : List (OutboxEvent × Option Text)) (rows rest : List OutboxEvent)
      → Distinct rows
      → Fresh rows (handled done ++ rest)
      → Distinct (save_all env done rows)
        × Fresh (save_all env done rows) rest
        × (count (published_as i) (save_all env done rows)
            ≡ count (published_as i) rows + times i (accepted done))
  unfolding after_produce
  save_all_lem i [] rows rest d fresh = (d, fresh, omega arith)
  save_all_lem i ((e, error) ∷ done) rows rest d (h, apart) =
      let change = save_columns (after_produce env e error) in
      let (d', fresh', counted) =
        save_all_lem i done (update_row row_id e.id change rows) rest
          (Distinct-update_row e.id change rows (λ r. refl) d)
          (Fresh-update_row e change (handled done ++ rest) rows (λ r. refl) apart.0
            (h.1, apart.1)) in
      (d', fresh', counted ∙ one_row error)
    where
      one_row :
          (error : Option Text)
          → count
                (published_as i)
                (update_row row_id e.id (save_columns (after_produce env e error)) rows)
              + times i (accepted done)
            ≡ count (published_as i) rows + times i (accepted ((e, error) ∷ done))
      one_row none = ground (
        arith,
        count-update_row row_id (published_as i) e.id (save_columns (after_produce env e none)) rows
            h.0.0,
        h.0.1,
      )
      one_row (some x) = ground (
        arith,
        count-update_row row_id (published_as i) e.id (save_columns (after_produce env e (some x)))
            rows h.0.0,
        h.0.1,
      )

  module _ (perm : (xs : List OutboxEvent) → Permᴰ xs (env.order_by xs)) where
    Step-IsOrderly : (s t : System) → Step env s t → IsOrderly s → IsOrderly t
    Step-IsOrderly s t (begin e) (d, fresh, counted) = subst IsOrderly (sym e) (
      d,
      Fresh-append s.rows batch (held s.works)
          (select_batch-Fresh env perm (locked s.works) s.rows d) fresh
          (select_batch-unlocked env perm (locked s.works) s.rows),
      counted,
    )
      where
        batch : List OutboxEvent
        batch = select_batch env (locked s.works) s.rows
    Step-IsOrderly s t (handle before after done e rest error was next) (d, fresh, counted) =
        subst IsOrderly (sym next) (
          d,
          subst (Fresh s.rows)
              (ap held was
                ∙ held-append before _
                ∙ ap (λ l. held before ++ (l ++ held after)) (sym (held_by_next done e error rest))
                ∙ sym (held-append before _))
              fresh,
          λ i.
              let now =
                in_flight_split i before after
                  (record { done = done ++ (e, error) ∷ []; todo = rest }) in
              let then_ =
                ap (λ l. times i (in_flight l)) was
                ∙ in_flight_split i before after (record { done = done; todo = e ∷ rest }) in
              let one = ap (times i) (
                accepted-append done ((e, error) ∷ [])
                ∙ ap (λ l. accepted done ++ l) (append-nil (taken e error))) in
              omega (
                arith,
                counted i,
                now,
                then_,
                one,
                count-append (λ k. k == i) s.log (taken e error),
                count-append (λ k. k == i) (accepted done) (taken e error),
              ),
        )
    Step-IsOrderly s t (commit before after done was next) (d, fresh, counted) =
        subst IsOrderly (sym next) (
          (save_all_lem 0 done s.rows (held (before ++ after)) d front).0,
          (save_all_lem 0 done s.rows (held (before ++ after)) d front).1,
          λ i.
              let split =
                ap (λ l. times i (in_flight l)) was
                ∙ in_flight_split i before after (record { done = done; todo = [] }) in
              omega (
                arith,
                counted i,
                split,
                (save_all_lem i done s.rows (held (before ++ after)) d front).2,
              ),
        )
      where
        front : Fresh s.rows (handled done ++ held (before ++ after))
        front =
            subst (λ l. Fresh s.rows (l ++ held (before ++ after))) (append-nil (handled done))
              (Fresh-perm s.rows (held-perm before after (record { done = done; todo = [] }))
                (subst (λ l. Fresh s.rows (held l)) was fresh))
    Step-IsOrderly s t (crash before after w was next) (d, fresh, counted) =
        subst IsOrderly (sym next) (
          d,
          Fresh-back s.rows (held_by w) (held (before ++ after)) (
              Fresh-perm s.rows (held-perm before after w)
                (subst (λ l. Fresh s.rows (held l)) was fresh)),
          λ i.
              let split = ap (λ l. times i (in_flight l)) was ∙ in_flight_split i before after w in
              omega
                (arith, counted i, split, count-append (λ k. k == i) s.wasted (accepted w.done)),
        )
    Step-IsOrderly s t (emit e new waits next) (d, fresh, counted) = subst IsOrderly (sym next) (
      Distinct-emit s.rows e new d,
      Fresh-emit s.rows (e ∷ []) (held s.works) fresh,
      λ i.
          let none_ : is_published e ≡ false = ground arith in
          ground (arith, counted i, count-append (published_as i) s.rows (e ∷ []), none_),
    )

    Reach-IsOrderly : {s t : System} → Reach env s t → IsOrderly s → IsOrderly t
    Reach-IsOrderly start h = h
    Reach-IsOrderly {s} (later {t} {u} reach step) h =
        Step-IsOrderly t u step (Reach-IsOrderly reach h)

  -- Several relays on one table, in any interleaving of their transactions with each other, with
  -- services that add events and with relays that die: from a table with distinct keys and nothing
  -- published, every event is accepted by a producer at most once, and once more for each
  -- transaction that had it accepted and was rolled back; and an event whose row is PUBLISHED has
  -- been accepted exactly once, and once more for each of these. It needs an `order_by` that only
  -- rearranges rows.
  pub accepted_once :
      ((xs : List OutboxEvent) → Permᴰ xs (env.order_by xs))
      → (s t : System) → Distinct s.rows
      → All (λ r. is_published r ≡ false) s.rows
      → s.works ≡ []
      → s.log ≡ []
      → s.wasted ≡ []
      → Reach env s t
      → (i : ℕ)
      → (times i t.log ≤ 1 + times i t.wasted)
        × ((r : OutboxEvent)
            → find_row row_id i t.rows ≡ some r
            → is_published r ≡ true
            → times i t.log ≡ 1 + times i t.wasted)
  accepted_once perm s t distinct unpublished idle empty_ unwasted reach i =
      let (d, fresh, counted) = Reach-IsOrderly perm reach at_start in
      let flying = in_flight-le i t.works in
      let once = Distinct-count i (held t.works) fresh.1 in
      elim (Fresh-find i t.rows (held t.works) fresh) [
        | inl gone ↦
            let most = published-le i t.rows in
            let one = Distinct-count i t.rows d in
            (
              omega (arith, counted i, flying, gone, most, one),
              λ r found published.
                  let row = Distinct-find is_published i t.rows r d found in
                  ground (arith, counted i, flying, gone, row, published),
            )
        | inr (e, there, waits) ↦
            let row = Distinct-find is_published i t.rows e d there in
            let none_ : is_published e ≡ false = ground arith in
            (
              ground (arith, counted i, flying, once, row, none_),
              λ r found published.
                  let same : some e ≡ some r = sym there ∙ found in absurd (ground arith),
            )
      ]
    where
      at_start : IsOrderly s
      at_start =
          rw (idle, empty_, unwasted)
            (distinct, (tt, tt), λ i. omega (arith, none_published i s.rows unpublished))
