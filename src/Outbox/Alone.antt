-- ===== src/Outbox/Alone.antt =====
-- One relay alone: the steps of its transaction make what `process_batch` makes.
use mathlib.Core.List.{append_assoc, append-nil}
use mathlib.Core.Path.{subst}
use risk_core.Prelude.{ℕ, ◌≡◌, refl, sym, ap, false, Option, List, [], ◌∷◌, ◌++◌, Text}
use risk_core.Outbox.{OutboxEvent}
use risk_core.Outbox.Relay.{
  Environment, RelayState, message_of, publish_one, publish_all, select_batch, finish_batch,
  process_batch,
}
use risk_core.Outbox.Relays.{
  System, Reach, start, later, begin, handle, commit, taken, accepted, save_all,
}

module _ {P B : Type 0} (env : Environment P B) where
  -- The events of a batch with what the producer raises for each.
  abbrev pub outcomes : List OutboxEvent → RelayState P → List (OutboxEvent × Option Text)
  outcomes [] s = []
  outcomes (e ∷ events) s =
      (e, (env.produce s.producer (message_of env e)).1) ∷ outcomes events (publish_one env e s).0

  publish_all-save_all :
      (events : List OutboxEvent) (s : RelayState P)
      → (publish_all env events s).0.rows ≡ save_all env (outcomes events s) s.rows
  unfolding publish_all publish_one
  publish_all-save_all [] s = refl
  publish_all-save_all (e ∷ events) s = publish_all-save_all events (publish_one env e s).0

  finish_batch-save_all :
      (events : List OutboxEvent) (s : RelayState P)
      → (finish_batch env events s).0.rows ≡ save_all env (outcomes events s) s.rows
  unfolding process_batch
  finish_batch-save_all [] s = refl
  finish_batch-save_all (e ∷ events) s = publish_all-save_all (e ∷ events) s

  abbrev working :
      List OutboxEvent
      → List ℕ
      → List ℕ
      → List (OutboxEvent × Option Text)
      → List OutboxEvent
      → System
  working rows log wasted done todo = record {
    rows = rows;
    works = (record { done = done; todo = todo }) ∷ [];
    log = log;
    wasted = wasted;
  }

  handle_all :
      (events : List OutboxEvent) (s : RelayState P) (from : System) (rows : List OutboxEvent)
      (log wasted : List ℕ) (done : List (OutboxEvent × Option Text))
      → Reach env from (working rows log wasted done events)
      → Reach env from
          (working rows (log ++ accepted (outcomes events s)) wasted (done ++ outcomes events s) [])
  handle_all [] s from rows log wasted done r =
      subst (λ l. Reach env from (working rows l wasted (done ++ []) [])) (sym (append-nil log))
        (subst (λ d. Reach env from (working rows log wasted d [])) (sym (append-nil done)) r)
  handle_all (e ∷ events) s from rows log wasted done r =
      let error = (env.produce s.producer (message_of env e)).1 in
      let next = (publish_one env e s).0 in
      subst (λ l. Reach env from (working rows l wasted (done ++ outcomes (e ∷ events) s) []))
        (append_assoc log (taken e error) (accepted (outcomes events next)))
        (subst
          (λ d.
            Reach env from (
              working rows ((log ++ taken e error) ++ accepted (outcomes events next)) wasted d []))
          (append_assoc done ((e, error) ∷ []) (outcomes events next))
          (handle_all events next from rows (log ++ taken e error) wasted (done ++ (e, error) ∷ [])
            (later r (handle [] [] done e events error refl refl))))

  -- A relay that works alone reaches, by its steps, the table that `process_batch` leaves.
  pub process_batch-Reach :
      (s : RelayState P) (log wasted : List ℕ)
      → (log' : List ℕ) × Reach env
          (record { rows = s.rows; works = []; log = log; wasted = wasted })
          (record {
            rows = (process_batch env (λ _. false) s).0.rows;
            works = [];
            log = log';
            wasted = wasted;
          })
  unfolding process_batch
  process_batch-Reach s log wasted =
      let events = select_batch env (λ _. false) s.rows in
      let idle : System = record { rows = s.rows; works = []; log = log; wasted = wasted } in
      (
        _,
        later (handle_all events s idle s.rows log wasted [] (later start (begin refl))) (
            commit [] [] (outcomes events s) refl (
              ap
                (λ r. record {
                  rows = r;
                  works = [];
                  log = log ++ accepted (outcomes events s);
                  wasted = wasted;
                })
                (finish_batch-save_all events s))),
      )
