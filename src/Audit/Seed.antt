-- ===== src/Audit/Seed.antt =====
-- audit-service/apps/audit/management/commands/seed_audit_events.py: the command that fills the
-- table up to a number of events. What its calls of `random`, `uuid4` and `now` draw for an event is
-- an argument, and the identifiers are taken to be new.
use risk_core.Prelude.{
  ℕ, zero, suc, ◌+◌, ◌-◌, ◌*◌, ◌≤◌, ◌<◌, ◌≡◌, Bool, true, false, List, [], ◌∷◌, ◌++◌, arith, Text,
  codes, starts_with, length, length-append, leb, All, All-append, Bool-cases, inl, inr,
  if◌then◌else◌,
}
use risk_core.Json.{Json, Fields}
use risk_core.Runtime.{Runtime}
use risk_core.Audit.{AuditEvent}

-- What one round of the loop draws.
pub record SeedDraw : Type 0 where
  pub id : ℕ
  pub event_id : ℕ
  pub topic : Text
  pub entity_id : ℕ
  pub service : Text
  pub hours : ℕ
  pub seconds : ℕ
  pub payload_id : ℕ
  pub now : ℕ

-- The table, and the sizes of the `bulk_create` calls.
pub record SeedState : Type 0 where
  pub events : List AuditEvent
  pub batches : List ℕ

abbrev pub batch_size : ℕ
batch_size = 1000

unfoldable pub seed_event : Runtime → ℕ → SeedDraw → AuditEvent
seed_event rt base_time d = record {
  id = d.id;
  event_id = rt.uuid_str d.event_id;
  event_type = d.topic;
  kafka_topic = d.topic;
  entity_type = if starts_with d.topic (codes "policy.") then codes "policy" else codes "claim";
  entity_id = d.entity_id;
  service = d.service;
  occurred_at = base_time + (d.hours * 3600 + d.seconds) * 1_000_000;
  received_at = d.now;
  payload = Json.obj (
      Fields.field "event" (Json.str d.topic) (
        Fields.field "entity_id" (Json.str (rt.uuid_str d.payload_id))
          (Fields.field "timestamp" (Json.str (rt.datetime_iso d.now)) Fields.end)));
}

abbrev pub bulk_create : List AuditEvent → SeedState → SeedState
bulk_create rows s = record { events = s.events ++ rows; batches = s.batches ++ length rows ∷ [] }

-- if len(events) >= batch_size: …
abbrev pub flush_full : List AuditEvent → SeedState → List AuditEvent × SeedState
flush_full rows s = if leb batch_size (length rows) then ([], bulk_create rows s) else (rows, s)

-- if events: …
abbrev pub flush_rest : List AuditEvent × SeedState → SeedState
flush_rest ([], s) = s
flush_rest (e ∷ rows, s) = bulk_create (e ∷ rows) s

-- The loop, from its k-th round on; `more` appends a row and flushes a full buffer.
abbrev pub more : AuditEvent → List AuditEvent × SeedState → List AuditEvent × SeedState
more e (rows, s) = flush_full (rows ++ e ∷ []) s

unfoldable pub seed_loop :
    (ℕ → AuditEvent) → ℕ → ℕ → List AuditEvent × SeedState → List AuditEvent × SeedState
seed_loop row zero k state = state
seed_loop row (suc n) k state = seed_loop row n (k + 1) (more (row k) state)

-- `handle`; `debug` is settings.DEBUG, and 90 days are subtracted from the time.
unfoldable pub seed : Runtime → Bool → ℕ → ℕ → (ℕ → SeedDraw) → SeedState → SeedState
unfolding seed_event seed_loop
seed rt debug now count draws s =
    if debug
    then (if leb count (length s.events)
        then s
        else flush_rest (
            seed_loop (λ k. seed_event rt (now - 90 * 86_400_000_000) (draws k))
              (count - length s.events) 0 ([], s)))
    else s

-- A buffer below the batch size, and batches of at most that size.
abbrev IsBuffered : List AuditEvent × SeedState → Type 0
IsBuffered (rows, s) = (length rows < batch_size) × All (λ n. n ≤ batch_size) s.batches

abbrev size : List AuditEvent × SeedState → ℕ
size (rows, s) = length rows + length s.events

more-IsBuffered :
    (e : AuditEvent) (state : List AuditEvent × SeedState)
    → IsBuffered state
    → IsBuffered (more e state) × (size (more e state) ≡ size state + 1)
more-IsBuffered e (rows, s) (small, old) =
    let grown = length-append rows (e ∷ []) in
    elim (Bool-cases (leb batch_size (length (rows ++ e ∷ [])))) [
      | inl full ↦ rw full (
        (
          ground arith,
          All-append _ s.batches (length (rows ++ e ∷ []) ∷ []) old (ground arith, tt),
        ),
        omega (arith, grown, length-append s.events (rows ++ e ∷ [])),
      )
      | inr room ↦ rw room ((ground arith, old), omega (arith, grown))
    ]

seed_loop-IsBuffered :
    (row : ℕ → AuditEvent) (n k : ℕ) (state : List AuditEvent × SeedState)
    → IsBuffered state
    → IsBuffered (seed_loop row n k state) × (size (seed_loop row n k state) ≡ size state + n)
unfolding seed_loop
seed_loop-IsBuffered row zero k state h = (h, omega arith)
seed_loop-IsBuffered row (suc n) k state h =
    let (h', one) = more-IsBuffered (row k) state h in
    let (h'', rest) = seed_loop-IsBuffered row n (k + 1) (more (row k) state) h' in
    (h'', omega (arith, one, rest))

flush_rest_lem :
    (state : List AuditEvent × SeedState)
    → IsBuffered state
    → (length (flush_rest state).events ≡ size state)
      × All (λ n. n ≤ batch_size) (flush_rest state).batches
flush_rest_lem ([], s) (small, old) = (omega arith, old)
flush_rest_lem (e ∷ rows, s) (small, old) = (
  omega (arith, length-append s.events (e ∷ rows)),
  All-append _ s.batches (length (e ∷ rows) ∷ []) old (ground arith, tt),
)

-- With DEBUG on, the command leaves exactly the requested number of events in a table that had
-- fewer, and writes them in batches of at most 1000.
pub seed_count :
    (rt : Runtime) (now count : ℕ) (draws : ℕ → SeedDraw) (s : SeedState)
    → length s.events < count
    → All (λ n. n ≤ batch_size) s.batches
    → (length (seed rt true now count draws s).events ≡ count)
      × All (λ n. n ≤ batch_size) (seed rt true now count draws s).batches
unfolding seed
seed_count rt now count draws s few old =
    let row : ℕ → AuditEvent = λ k. seed_event rt (now - 90 * 86_400_000_000) (draws k) in
    let start = seed_loop-IsBuffered row (count - length s.events) 0 ([], s) (ground arith, old) in
    let (total, batched) =
      flush_rest_lem (seed_loop row (count - length s.events) 0 ([], s)) start.0 in
    let room : leb count (length s.events) ≡ false = ground arith in
    rw room (omega (arith, total, start.1), batched)
