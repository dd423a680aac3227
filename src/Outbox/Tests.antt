-- ===== src/Outbox/Tests.antt =====
-- The relay on a table of three events, with a producer that refuses every second message.
use mathlib.Core.List.{Permᴰ}
use mathlib.Core.List.Permᴰ
use risk_core.Prelude.{
  ◌≢◌, times, ℕ, ◌+◌, ◌≤◌, true, ◌%◌, ◌≡◌, refl, Bool, false, none, some, List, [], ◌∷◌, arith, ltb,
  ◌==◌, length, map, count, codes, Bool-cases, inl, inr, All, find_row, if◌then◌else◌,
}
use risk_core.Json.{Json}
use risk_core.Outbox.{OutboxEvent, Status, new_event, is_pending, is_published}
use risk_core.Outbox.Relay.{
  Environment, RelayState, row_id, publish_all, publish_one, after_produce, observe, select_batch,
  process_batch, run_batches,
}
use risk_core.Outbox.Accounting.{IsSound, process_batch_accounts, process_batch-IsSound}
use risk_core.Outbox.Relays.{System, Reach, later, begin, handle, crash}
use risk_core.Outbox.Handed.{accepted_once}
use risk_core.Outbox.Progress.{hand, find_row_settled, run_batches_settles}

abbrev insert : OutboxEvent → List OutboxEvent → List OutboxEvent
insert e [] = e ∷ []
insert e (x ∷ xs) = if ltb x.created_at e.created_at then x ∷ insert e xs else e ∷ x ∷ xs

abbrev oldest_first : List OutboxEvent → List OutboxEvent
oldest_first [] = []
oldest_first (x ∷ xs) = insert x (oldest_first xs)

insert-perm : (e : OutboxEvent) (xs : List OutboxEvent) → Permᴰ (e ∷ xs) (insert e xs)
insert-perm e [] = Permᴰ.refl (e ∷ [])
insert-perm e (x ∷ xs) = elim (Bool-cases (ltb x.created_at e.created_at)) [
  | inl older ↦ rw older (Permᴰ.trans (Permᴰ.swap refl refl) (Permᴰ.cons refl (insert-perm e xs)))
  | inr newer ↦ rw newer (Permᴰ.refl (e ∷ x ∷ xs))
]

oldest_first-perm : (xs : List OutboxEvent) → Permᴰ xs (oldest_first xs)
oldest_first-perm [] = Permᴰ.nil
oldest_first-perm (x ∷ xs) =
    Permᴰ.trans (Permᴰ.cons refl (oldest_first-perm xs)) (insert-perm x (oldest_first xs))

abbrev flaky : Environment ℕ Json
flaky = record {
  produce =
      λ calls message. (calls + 1, if calls % 2 == 0 then none else some (codes "queue full"));
  dumps = λ payload. payload;
  uuid_str = λ u. u ∷ [];
  order_by = oldest_first;
  now = λ e. e.created_at + 5;
}

abbrev event : ℕ → ℕ → OutboxEvent
event id created =
    new_event id (codes "policy") 7 (codes "policy.created") (codes "policy.created") [] Json.null
      created

abbrev start : RelayState ℕ
start = record {
  rows = event 1 30 ∷ event 2 10 ∷ event 3 20 ∷ [];
  producer = 0;
  published_total = [];
  failed_total = [];
  lag_seconds = [];
  pending_gauge = 0;
}

abbrev nothing : OutboxEvent → Bool
nothing _ = false

-- Oldest first: 2 is published, 3 is refused, 1 is published.
first_batch :
    let (t, n) = process_batch flaky nothing start in
    (n ≡ 2) × (map (λ e. e.attempts) t.rows ≡ 0 ∷ 0 ∷ 1 ∷ []) × (t.pending_gauge ≡ 1)
unfolding process_batch select_batch publish_all publish_one after_produce observe
first_batch = (refl, refl, refl)

process_batch_accounts_example :
    let (t, n) = process_batch flaky nothing start in
    (count is_published t.rows ≡ count is_published start.rows + n)
    × (length t.published_total ≡ length start.published_total + n)
    × (length t.lag_seconds ≡ length start.lag_seconds + n)
    × (count is_pending t.rows + length t.published_total + length t.failed_total
        ≡ count is_pending start.rows + length start.published_total + length start.failed_total)
process_batch_accounts_example =
    process_batch_accounts flaky oldest_first-perm nothing start (refl, (refl, (refl, tt)))

start-IsSound : All IsSound start.rows
start-IsSound = ground arith

process_batch-IsSound_example : All IsSound (process_batch flaky nothing start).0.rows
process_batch-IsSound_example =
    process_batch-IsSound flaky oldest_first-perm nothing start (refl, (refl, (refl, tt)))
      start-IsSound

abbrev published_row : OutboxEvent
published_row = record (event 1 30) { status = Status.published; published_at = some 35 }

abbrev half_done : RelayState ℕ
half_done = record start { rows = published_row ∷ event 2 10 ∷ [] }

find_row_settled_example :
    (find_row row_id 1 (process_batch flaky nothing half_done).0.rows ≡ some published_row)
    × (batch : List OutboxEvent) × ((process_batch flaky nothing half_done).0.producer
        ≡ hand flaky batch half_done.producer)
    × All
        (λ e. (find_row row_id e.id half_done.rows ≡ some e) × (is_pending e ≡ true) × (e.id ≢ 1))
        batch
find_row_settled_example =
    find_row_settled flaky oldest_first-perm nothing half_done 1 published_row (refl, (refl, tt))
      refl refl

run_batches_settles_example : count is_pending (run_batches flaky 30 nothing start).rows ≡ 0
run_batches_settles_example =
    run_batches_settles flaky oldest_first-perm 30 start (refl, (refl, (refl, tt))) start-IsSound
      (omega arith)

-- Two relays begin at once; the second finds every row locked, and the first dies after it has
-- handed an event over.
abbrev table : System
table = record { rows = event 1 30 ∷ []; works = []; log = []; wasted = [] }

abbrev died : System
died = record {
  rows = event 1 30 ∷ [];
  works = (record { done = []; todo = [] }) ∷ [];
  log = 1 ∷ [];
  wasted = 1 ∷ [];
}

died-Reach : Reach flaky table died
unfolding select_batch
died-Reach =
    later
      (later (later (later Reach.start (begin refl)) (begin refl))
        (handle ((record { done = []; todo = [] }) ∷ []) [] [] (event 1 30) [] none refl refl))
      (crash ((record { done = []; todo = [] }) ∷ []) []
        (record { done = (event 1 30, none) ∷ []; todo = [] }) refl refl)

accepted_once_example :
    (times 1 died.log ≤ 1 + times 1 died.wasted)
    × ((r : OutboxEvent)
        → find_row row_id 1 died.rows ≡ some r
        → is_published r ≡ true
        → times 1 died.log ≡ 1 + times 1 died.wasted)
accepted_once_example =
    accepted_once flaky oldest_first-perm table died (refl, tt) (refl, tt) refl refl refl died-Reach
      1
