-- ===== src/Outbox/Delivery.antt =====
-- The relay with a producer that accepts every message: the messages and the rows of a batch.
use mathlib.Core.List.{Memᴰ, append_assoc, append-nil}
use mathlib.Core.List.Memᴰ.{head, tail}
use risk_core.Prelude.{
  ℕ, ◌≡◌, ◌≢◌, refl, ◌∙◌, sym, ap, true, false, none, some, List, [], ◌∷◌, ◌++◌, arith, map, any,
  ◌==◌, find_row, find_row-update_self, Bool-cases, inl, inr,
}
use risk_core.Outbox.{OutboxEvent, is_published}
use risk_core.Outbox.Relay.{
  Environment, RelayState, Message, row_id, message_of, save_columns, after_produce, publish_one,
  publish_all,
}
use risk_core.Outbox.Rows.{Fresh}
use risk_core.Outbox.Loop.{find_row-publish_one, Fresh-publish_one}

-- A producer that accepts every message appends it to the log of its topic, here one log for all.
abbrev pub Accepts : {B : Type 0} → Environment (List (Message B)) B → Type 0
Accepts {B} env =
    (log : List (Message B)) (m : Message B) → env.produce log m ≡ (log ++ m ∷ [], none)

module _ {B : Type 0} (env : Environment (List (Message B)) B) (accepts : Accepts env) where
  publish_one_log :
      (e : OutboxEvent) (s : RelayState (List (Message B)))
      → (publish_one env e s).0.producer ≡ s.producer ++ message_of env e ∷ []
  unfolding publish_one
  publish_one_log e s = ap (λ r. r.0) (accepts s.producer (message_of env e))

  -- A batch that is handled leaves its messages at the end of the log.
  pub publish_all_log :
      (events : List OutboxEvent) (s : RelayState (List (Message B)))
      → (publish_all env events s).0.producer ≡ s.producer ++ map (message_of env) events
  unfolding publish_all
  publish_all_log [] s = sym (append-nil s.producer)
  publish_all_log (e ∷ events) s =
      publish_all_log events (publish_one env e s).0
      ∙ ap (λ log. log ++ map (message_of env) events) (publish_one_log e s)
      ∙ append_assoc s.producer (message_of env e ∷ []) (map (message_of env) events)

  -- The row of an event that is handled is published.
  publish_one_row :
      (e : OutboxEvent) (s : RelayState (List (Message B)))
      → find_row row_id e.id s.rows ≡ some e
      → (row : OutboxEvent) × (find_row row_id e.id (publish_one env e s).0.rows ≡ some row)
        × (is_published row ≡ true)
  unfolding publish_one after_produce
  publish_one_row e s found =
      let error = (env.produce s.producer (message_of env e)).1 in
      let taken : error ≡ none = ap (λ r. r.1) (accepts s.producer (message_of env e)) in
      (
        save_columns (after_produce env e error) e,
        find_row-update_self row_id e.id (save_columns (after_produce env e error)) s.rows found
            refl,
        ap (λ o. is_published (save_columns (after_produce env e o) e)) taken,
      )

  -- The rest of a batch leaves a row alone that it does not have.
  pub publish_all_other :
      (events : List OutboxEvent) (s : RelayState (List (Message B))) (id : ℕ)
      → any (λ x. x.id == id) events ≡ false
      → find_row row_id id (publish_all env events s).0.rows ≡ find_row row_id id s.rows
  unfolding publish_all
  publish_all_other [] s id ne = refl
  publish_all_other (e ∷ events) s id ne =
      let other : id ≢ e.id = ground arith in
      publish_all_other events (publish_one env e s).0 id (ground arith)
      ∙ find_row-publish_one env e s id other

  pub publish_all_row :
      (events : List OutboxEvent) (s : RelayState (List (Message B))) (e : OutboxEvent)
      → Fresh s.rows events
      → Memᴰ e events
      → (row : OutboxEvent) × (find_row row_id e.id (publish_all env events s).0.rows ≡ some row)
        × (is_published row ≡ true)
  unfolding publish_all
  publish_all_row [] s e fresh h = elim h [ ]
  publish_all_row (x ∷ events) s e fresh (tail h) =
      publish_all_row events (publish_one env x s).0 e (Fresh-publish_one env x events s fresh) h
  publish_all_row (x ∷ events) s e fresh (head same) =
      let (row, found, published) = publish_one_row x s fresh.0.0.0 in
      (
        row,
        ap (λ y. find_row row_id y.id (publish_all env events (publish_one env x s).0).0.rows) same
            ∙ publish_all_other events (publish_one env x s).0 x.id fresh.1.0
            ∙ found,
        published,
      )

  -- An event of the table that shares its key with one of the batch is in the batch.
  pub same_key :
      (rows events : List OutboxEvent) (e : OutboxEvent)
      → Fresh rows events
      → find_row row_id e.id rows ≡ some e
      → any (λ x. x.id == e.id) events ≡ true
      → Memᴰ e events
  same_key rows [] e fresh found h = absurd (cc)
  same_key rows (x ∷ events) e fresh found h = elim (Bool-cases (x.id == e.id)) [
    | inl here ↦
        let id : x.id ≡ e.id = ground arith in
        let one : some e ≡ some x =
          sym found ∙ ap (λ i. find_row row_id i rows) (sym id) ∙ fresh.0.0.0 in
        head (ap (λ o. elim o [ none ↦ e | some y ↦ y ]) one)
    | inr other ↦ tail (same_key rows events e (fresh.0.1, fresh.1.1) found (ground arith))
  ]
