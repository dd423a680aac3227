-- ===== src/Outbox/InFlight.antt =====
-- Events on their way: what the open transactions have handed to the producer, counted by key.
use mathlib.Core.List.{append_assoc}
use risk_core.Prelude.{
  ℕ, ◌+◌, ◌≤◌, ◌≡◌, refl, ◌∙◌, sym, ap, Bool, false, ◌&&◌, Option, none, some, List, [], ◌∷◌, ◌++◌,
  arith, Text, count, count-append, times, All, ◌==◌,
}
use risk_core.Outbox.{OutboxEvent, is_published}
use risk_core.Outbox.Relays.{Work, held, held_by, handled, taken, accepted}

-- What the open transactions have handed to the producer.
abbrev pub in_flight : List Work → List ℕ
in_flight [] = []
in_flight (w ∷ works) = accepted w.done ++ in_flight works

abbrev pub published_as : ℕ → OutboxEvent → Bool
published_as i r = r.id == i && is_published r

in_flight-append : (xs ys : List Work) → in_flight (xs ++ ys) ≡ in_flight xs ++ in_flight ys
in_flight-append [] ys = refl
in_flight-append (w ∷ xs) ys =
    ap (λ l. accepted w.done ++ l) (in_flight-append xs ys)
    ∙ sym (append_assoc (accepted w.done) (in_flight xs) (in_flight ys))

-- One transaction's share.
pub in_flight_split :
    (i : ℕ) (before after : List Work) (w : Work)
    → times i (in_flight (before ++ w ∷ after))
      ≡ times i (accepted w.done) + times i (in_flight (before ++ after))
in_flight_split i before after w =
    ap (times i) (in_flight-append before (w ∷ after))
    ∙ (let share = ap (times i) (in_flight-append before after) in
        omega (
          arith,
          share,
          count-append (λ k. k == i) (in_flight before) (accepted w.done ++ in_flight after),
          count-append (λ k. k == i) (in_flight before) (in_flight after),
          count-append (λ k. k == i) (accepted w.done) (in_flight after),
        ))

pub accepted-append :
    (xs ys : List (OutboxEvent × Option Text)) → accepted (xs ++ ys) ≡ accepted xs ++ accepted ys
accepted-append [] ys = refl
accepted-append ((e, error) ∷ xs) ys =
    ap (λ l. taken e error ++ l) (accepted-append xs ys)
    ∙ sym (append_assoc (taken e error) (accepted xs) (accepted ys))

handled-append :
    (xs ys : List (OutboxEvent × Option Text)) → handled (xs ++ ys) ≡ handled xs ++ handled ys
handled-append [] ys = refl
handled-append ((e, error) ∷ xs) ys = ap (λ l. e ∷ l) (handled-append xs ys)

-- The next event counts as held before and after it is handled.
pub held_by_next :
    (done : List (OutboxEvent × Option Text)) (e : OutboxEvent) (error : Option Text)
    (rest : List OutboxEvent)
    → handled (done ++ (e, error) ∷ []) ++ rest ≡ handled done ++ e ∷ rest
held_by_next done e error rest =
    ap (λ l. l ++ rest) (handled-append done ((e, error) ∷ []))
    ∙ append_assoc (handled done) (e ∷ []) rest

pub in_flight-le :
    (i : ℕ) (works : List Work) → times i (in_flight works) ≤ count (λ x. x.id == i) (held works)
in_flight-le i [] = omega arith
in_flight-le i (w ∷ works) = omega (
  arith,
  in_flight-le i works,
  accepted-le w.done,
  count-append (λ k. k == i) (accepted w.done) (in_flight works),
  count-append (λ x. x.id == i) (held_by w) (held works),
  count-append (λ x. x.id == i) (handled w.done) w.todo,
)
  where
    accepted-le :
        (done : List (OutboxEvent × Option Text))
        → times i (accepted done) ≤ count (λ x. x.id == i) (handled done)
    accepted-le [] = omega arith
    accepted-le ((e, none) ∷ done) = ground (arith, accepted-le done)
    accepted-le ((e, some x) ∷ done) = ground (arith, accepted-le done)

pub published-le :
    (i : ℕ) (rows : List OutboxEvent) → count (published_as i) rows ≤ count (λ x. x.id == i) rows
published-le i [] = omega arith
published-le i (x ∷ rows) = ground (arith, published-le i rows)

pub none_published :
    (i : ℕ) (rows : List OutboxEvent)
    → All (λ r. is_published r ≡ false) rows
    → count (published_as i) rows ≡ 0
none_published i [] h = refl
none_published i (x ∷ rows) (h, more) = ground (arith, none_published i rows more, h)
