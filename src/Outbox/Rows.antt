-- ===== src/Outbox/Rows.antt =====
-- The batch that the relay selects: rows of the table, pending, each once.
use mathlib.Core.List.{Permᴰ}
use mathlib.Core.Path.{subst₂}
use risk_core.Prelude.{
  ℕ, zero, suc, ◌≡◌, refl, ◌∙◌, Bool, true, false, not, ◌&&◌, some, List, [], ◌∷◌, arith, ◌==◌,
  Bool-cases, inl, inr, take, select, any, All, All-imp, All-selected, find_row, update_row,
}
use risk_core.Outbox.{OutboxEvent, is_pending}
use risk_core.Outbox.Relay.{Environment, row_id, select_batch, batch_size}

-- No two rows have the same primary key.
abbrev pub Distinct : List OutboxEvent → Type 0
Distinct [] = Unit {0}
Distinct (r ∷ rows) = (any (λ x. x.id == r.id) rows ≡ false) × Distinct rows

-- Each event of the batch is the pending row of its key, and no key comes twice.
abbrev pub Fresh : List OutboxEvent → List OutboxEvent → Type 0
Fresh rows events =
    All (λ e. (find_row row_id e.id rows ≡ some e) × (is_pending e ≡ true)) events × Distinct events

All-take : (P : OutboxEvent → Type 0) (n : ℕ) (xs : List OutboxEvent) → All P xs → All P (take n xs)
All-take P zero xs h = tt
All-take P (suc n) [] h = tt
All-take P (suc n) (x ∷ xs) h = (h.0, All-take P n xs h.1)

any-take-false :
    (p : OutboxEvent → Bool) (n : ℕ) (xs : List OutboxEvent)
    → any p xs ≡ false
    → any p (take n xs) ≡ false
any-take-false p zero xs h = refl
any-take-false p (suc n) [] h = refl
any-take-false p (suc n) (x ∷ xs) h = ground (arith, any-take-false p n xs)

Distinct-take : (n : ℕ) (xs : List OutboxEvent) → Distinct xs → Distinct (take n xs)
Distinct-take zero xs h = tt
Distinct-take (suc n) [] h = tt
Distinct-take (suc n) (x ∷ xs) h = (any-take-false _ n xs h.0, Distinct-take n xs h.1)

any-select-false :
    (q p : OutboxEvent → Bool) (xs : List OutboxEvent)
    → any q xs ≡ false
    → any q (select p xs) ≡ false
any-select-false q p [] h = refl
any-select-false q p (x ∷ xs) h = ground (arith, any-select-false q p xs)

Distinct-select :
    (p : OutboxEvent → Bool) (xs : List OutboxEvent) → Distinct xs → Distinct (select p xs)
Distinct-select p [] h = tt
Distinct-select p (x ∷ xs) h = elim (Bool-cases (p x)) [
  | inl in_it ↦ rw in_it (any-select-false _ p xs h.0, Distinct-select p xs h.1)
  | inr out ↦ rw out (Distinct-select p xs h.1)
]

pub All-perm :
    (P : OutboxEvent → Type 0) {xs ys : List OutboxEvent} → Permᴰ xs ys → All P xs → All P ys
All-perm P Permᴰ.nil h = tt
All-perm P (Permᴰ.cons e d) h = (rw e at (h.0), All-perm P d h.1)
All-perm P (Permᴰ.swap e f) h = (rw f at (h.1.0), (rw e at (h.0), h.1.1))
All-perm P (Permᴰ.trans d e) h = All-perm P e (All-perm P d h)

any-perm : (p : OutboxEvent → Bool) {xs ys : List OutboxEvent} → Permᴰ xs ys → any p xs ≡ any p ys
any-perm p Permᴰ.nil = refl
any-perm p (Permᴰ.cons {a} {b} e d) = rw (e, any-perm p d)
any-perm p (Permᴰ.swap e f) = rw (e, f) (ground arith)
any-perm p (Permᴰ.trans d e) = any-perm p d ∙ any-perm p e

eq_comm_test : (a b : ℕ) → (a == b) ≡ (b == a)
eq_comm_test a b = ground arith

Distinct-swap :
    (a b : OutboxEvent) (l : List OutboxEvent) → Distinct (a ∷ b ∷ l) → Distinct (b ∷ a ∷ l)
Distinct-swap a b l h =
    (ground (arith, eq_comm_test a.id b.id, h.0, h.1.0), (ground (arith, h.0), h.1.1))

pub Distinct-perm : {xs ys : List OutboxEvent} → Permᴰ xs ys → Distinct xs → Distinct ys
Distinct-perm Permᴰ.nil h = tt
Distinct-perm (Permᴰ.cons {a} {b} e d) h =
    (rw (← e, ← any-perm (λ x. x.id == a.id) d) (h.0), Distinct-perm d h.1)
Distinct-perm (Permᴰ.swap {a} {b} {a'} {b'} {l} e f) h =
    subst₂ (λ x y. Distinct (x ∷ y ∷ l)) f e (Distinct-swap a b l h)
Distinct-perm (Permᴰ.trans d e) h = Distinct-perm e (Distinct-perm d h)

-- In a table with distinct keys each row is the one that its key finds.
find_row_self :
    (rows : List OutboxEvent) → Distinct rows → All (λ e. find_row row_id e.id rows ≡ some e) rows
find_row_self [] h = tt
find_row_self (r ∷ rows) h = (ground arith, later r rows rows h.0 (find_row_self rows h.1))
  where
    later :
        (r : OutboxEvent) (rows xs : List OutboxEvent)
        → any (λ x. x.id == r.id) xs ≡ false
        → All (λ e. find_row row_id e.id rows ≡ some e) xs
        → All (λ e. find_row row_id e.id (r ∷ rows) ≡ some e) xs
    later r rows [] ne h = tt
    later r rows (x ∷ xs) ne h = (ground arith, later r rows xs (ground arith) h.1)

any-update_row :
    (k id : ℕ) (change : OutboxEvent → OutboxEvent) (rows : List OutboxEvent)
    → ((r : OutboxEvent) → (change r).id ≡ r.id)
    → any (λ x. x.id == k) (update_row row_id id change rows) ≡ any (λ x. x.id == k) rows
any-update_row k id change [] keeps = refl
any-update_row k id change (x ∷ rows) keeps =
    ground (arith, keeps x, any-update_row k id change rows keeps)

pub Distinct-update_row :
    (id : ℕ) (change : OutboxEvent → OutboxEvent) (rows : List OutboxEvent)
    → ((r : OutboxEvent) → (change r).id ≡ r.id)
    → Distinct rows
    → Distinct (update_row row_id id change rows)
Distinct-update_row id change [] keeps h = tt
Distinct-update_row id change (x ∷ rows) keeps h = elim (Bool-cases (x.id == id)) [
  | inl here ↦ rw (here, keeps x) h
  | inr there ↦
      rw (there, any-update_row x.id id change rows keeps)
        (h.0, Distinct-update_row id change rows keeps h.1)
]

module _ {P B : Type 0} (env : Environment P B) where
  open env use {order_by}

  -- The query gives a batch that is fresh, when `order_by` only rearranges.
  pub select_batch-Fresh :
      ((xs : List OutboxEvent) → Permᴰ xs (order_by xs))
      → (locked : OutboxEvent → Bool) (rows : List OutboxEvent) → Distinct rows
      → Fresh rows (select_batch env locked rows)
  unfolding select_batch
  select_batch-Fresh perm locked rows h =
      let test = λ (e : OutboxEvent). not (locked e) && is_pending e in
      let chosen = select test rows in
      (
        All-take _ batch_size _ (
            All-perm _ (perm chosen) (
              All-selected (λ e. (find_row row_id e.id rows ≡ some e) × (is_pending e ≡ true)) test
                rows
                (All-imp _ _ rows (λ x q passes. (q, waits x passes)) (find_row_self rows h)))),
        Distinct-take batch_size _ (Distinct-perm (perm chosen) (Distinct-select test rows h)),
      )
    where
      waits : (e : OutboxEvent) → (not (locked e) && is_pending e) ≡ true → is_pending e ≡ true
      waits e passes = ground arith

  -- No row of the batch is locked.
  pub select_batch-unlocked :
      ((xs : List OutboxEvent) → Permᴰ xs (order_by xs))
      → (locked : OutboxEvent → Bool) (rows : List OutboxEvent)
      → All (λ e. locked e ≡ false) (select_batch env locked rows)
  unfolding select_batch
  select_batch-unlocked perm locked rows =
      let test = λ (e : OutboxEvent). not (locked e) && is_pending e in
      All-take _ batch_size _ (
        All-perm _ (perm (select test rows))
          (All-selected (λ e. locked e ≡ false) test rows (every rows)))
    where
      free : (e : OutboxEvent) → (not (locked e) && is_pending e) ≡ true → locked e ≡ false
      free e passes = ground arith

      every :
          (xs : List OutboxEvent)
          → All (λ e. (not (locked e) && is_pending e) ≡ true → locked e ≡ false) xs
      every [] = tt
      every (x ∷ xs) = (free x, every xs)
