-- ===== src/Outbox/Held.antt =====
-- The rows that the relays hold locked: no row is held twice, and each is PENDING in the table.
use mathlib.Core.List.{Permᴰ, append_assoc}
use mathlib.Core.List.Permᴰ
use mathlib.Core.Path.{subst}
use risk_core.Prelude.{
  ℕ, ◌≤◌, ◌≡◌, refl, ◌∙◌, sym, ap, Bool, true, false, ◌&&◌, some, List, [], ◌∷◌, ◌++◌, arith, any,
  any-append, count, count-none, if◌then◌else◌, All, All-imp, ◌==◌, find_row, find_row-append,
  Bool-cases, inl, inr, ◌⊎◌,
}
use risk_core.Outbox.{OutboxEvent, is_pending}
use risk_core.Outbox.Relay.{row_id}
use risk_core.Outbox.Rows.{Distinct, Fresh, All-perm, Distinct-perm}
use risk_core.Outbox.Relays.{Work, held, held_by}

pub held-append : (xs ys : List Work) → held (xs ++ ys) ≡ held xs ++ held ys
held-append [] ys = refl
held-append (w ∷ xs) ys =
    ap (λ l. held_by w ++ l) (held-append xs ys)
    ∙ sym (append_assoc (held_by w) (held xs) (held ys))

-- One transaction's rows first.
pub held-perm :
    (before after : List Work) (w : Work)
    → Permᴰ (held (before ++ w ∷ after)) (held_by w ++ held (before ++ after))
held-perm before after w =
    subst (λ l. Permᴰ l (held_by w ++ held (before ++ after)))
      (sym (held-append before (w ∷ after)))
      (subst (λ l. Permᴰ (held before ++ (held_by w ++ held after)) (held_by w ++ l))
        (sym (held-append before after))
        (Permᴰ.trans
          (subst (λ l. Permᴰ l ((held before ++ held_by w) ++ held after))
            (append_assoc (held before) (held_by w) (held after)) (Permᴰ.refl _))
          (subst (λ l. Permᴰ ((held before ++ held_by w) ++ held after) l)
            (append_assoc (held_by w) (held before) (held after))
            (Permᴰ.append_right (held after) (Permᴰ.append_comm (held before) (held_by w))))))

pub Fresh-perm :
    (rows : List OutboxEvent) {xs ys : List OutboxEvent}
    → Permᴰ xs ys
    → Fresh rows xs
    → Fresh rows ys
Fresh-perm rows perm (found, distinct) = (All-perm _ perm found, Distinct-perm perm distinct)

All-back : (P : OutboxEvent → Type 0) (xs ys : List OutboxEvent) → All P (xs ++ ys) → All P ys
All-back P [] ys h = h
All-back P (x ∷ xs) ys h = All-back P xs ys h.1

-- The two parts of a fresh list, and that they have no key in common.
pub Fresh-back : (rows xs ys : List OutboxEvent) → Fresh rows (xs ++ ys) → Fresh rows ys
Fresh-back rows [] ys h = h
Fresh-back rows (x ∷ xs) ys (h, d) = Fresh-back rows xs ys (h.1, d.1)

-- Fresh events that no relay holds may be taken.
pub Fresh-append :
    (rows xs ys : List OutboxEvent)
    → Fresh rows xs
    → Fresh rows ys
    → All (λ x. any (λ y. y.id == x.id) ys ≡ false) xs
    → Fresh rows (xs ++ ys)
Fresh-append rows [] ys h k free = k
Fresh-append rows (x ∷ xs) ys (h, d) k (free, more) =
    let (h', d') = Fresh-append rows xs ys (h.1, d.1) k more in
    ((h.0, h'), (any-append _ xs ys ∙ simp (d.0, free), d'))

-- A new row of the table.
pub Fresh-emit :
    (rows more events : List OutboxEvent) → Fresh rows events → Fresh (rows ++ more) events
Fresh-emit rows more events (h, d) =
    (All-imp _ _ events (λ x q. (find_row-append row_id x.id rows more q.0, q.1)) h, d)

pub Distinct-emit :
    (rows : List OutboxEvent) (e : OutboxEvent)
    → any (λ r. r.id == e.id) rows ≡ false
    → Distinct rows
    → Distinct (rows ++ e ∷ [])
Distinct-emit [] e new d = (refl, tt)
Distinct-emit (r ∷ rows) e new d =
    let other : e.id == r.id ≡ false = ground arith in
    (any-append _ rows (e ∷ []) ∙ simp (d.0, other), Distinct-emit rows e (ground arith) d.1)

-- Among distinct keys each comes at most once.
pub Distinct-count : (i : ℕ) (xs : List OutboxEvent) → Distinct xs → count (λ x. x.id == i) xs ≤ 1
Distinct-count i [] d = omega arith
Distinct-count i (x ∷ xs) d = elim (Bool-cases (x.id == i)) [
  | inl here ↦
      let same : x.id ≡ i = ground arith in
      let gone =
        count-none (λ y. y.id == i) xs (ap (λ k. any (λ y. y.id == k) xs) (sym same) ∙ d.0) in
      ground (arith, gone, here)
  | inr other ↦ ground (arith, Distinct-count i xs d.1, other)
]

-- A row that is found by its key, counted by its key and a test.
pub Distinct-find :
    (p : OutboxEvent → Bool) (i : ℕ) (rows : List OutboxEvent) (e : OutboxEvent)
    → Distinct rows
    → find_row row_id i rows ≡ some e
    → count (λ r. r.id == i && p r) rows ≡ (if p e then 1 else 0)
Distinct-find p i [] e d found = absurd (cc)
Distinct-find p i (x ∷ rows) e d found = elim (Bool-cases (x.id == i)) [
  | inl here ↦
      let same : x.id ≡ i = ground arith in
      let one : x ≡ e = ground arith in
      let gone =
        count-none (λ r. r.id == i && p r) rows
          (apart rows (ap (λ k. any (λ y. y.id == k) rows) (sym same) ∙ d.0)) in
      ground (arith, gone, here, ap p one)
  | inr other ↦ ground (arith, Distinct-find p i rows e d.1, other)
]
  where
    apart :
        (xs : List OutboxEvent)
        → any (λ y. y.id == i) xs ≡ false
        → any (λ r. r.id == i && p r) xs ≡ false
    apart [] h = refl
    apart (y ∷ xs) h = ground (arith, apart xs)

-- A held row is in the table and PENDING.
pub Fresh-find :
    (i : ℕ) (rows xs : List OutboxEvent)
    → Fresh rows xs
    → (count (λ x. x.id == i) xs ≡ 0)
      ⊎ ((e : OutboxEvent) × (find_row row_id i rows ≡ some e) × (is_pending e ≡ true))
Fresh-find i rows [] h = inl refl
Fresh-find i rows (x ∷ xs) (h, d) = elim (Bool-cases (x.id == i)) [
  | inl here ↦
      let same : x.id ≡ i = ground arith in
      inr (x, ap (λ k. find_row row_id k rows) (sym same) ∙ h.0.0, h.0.1)
  | inr other ↦ elim (Fresh-find i rows xs (h.1, d.1)) [
    | inl gone ↦ inl (simp (other, gone))
    | inr there ↦ inr there
  ]
]
