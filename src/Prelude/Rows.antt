-- ===== src/Prelude/Rows.antt =====
-- A database table as the list of its rows, each with a primary key.
use Prim.Native.Nat.{ℕ, ◌+◌}
use mathlib.Core.Path.{◌≡◌, refl}
use mathlib.Core.Logic.{◌≢◌, inl, inr}
use mathlib.Core.Option.{Option, none, some}
use mathlib.Core.Bool.{Bool}
use mathlib.Core.List.{List, [], ◌∷◌, ◌++◌}
use native.Mathlib.Omega.{arith}
use risk_core.Prelude.Tests.{Bool-cases, ◌==◌, if◌then◌else◌}
use risk_core.Prelude.Lists.{count, All, length}

module _ {A : Type 0} (key : A → ℕ) where
  -- `objects.get(pk=id)`; `none` is `DoesNotExist`.
  abbrev pub find_row : ℕ → List A → Option A
  find_row id [] = none
  find_row id (r ∷ rows) = if key r == id then some r else find_row id rows

  -- `UPDATE … SET … WHERE pk = id`: the columns that `change` writes, in the row with that key.
  abbrev pub update_row : ℕ → (A → A) → List A → List A
  update_row id change [] = []
  update_row id change (r ∷ rows) =
      if key r == id then change r ∷ rows else r ∷ update_row id change rows

  pub find_row-key : (id : ℕ) (rows : List A) {r : A} → find_row id rows ≡ some r → key r ≡ id
  find_row-key id [] h = ground arith
  find_row-key id (x ∷ rows) {r} h = ground (arith, find_row-key id rows {r = r})

  pub find_row-update_self :
      (id : ℕ) (change : A → A) (rows : List A) {r : A}
      → find_row id rows ≡ some r
      → key (change r) ≡ id
      → find_row id (update_row id change rows) ≡ some (change r)
  find_row-update_self id change [] h k = ground arith
  find_row-update_self id change (x ∷ rows) {r} h k =
      ground (arith, find_row-update_self id change rows {r = r})

  pub find_row-update_ne :
      (id j : ℕ) (change : A → A) (rows : List A)
      → ((r : A) → key (change r) ≡ key r)
      → j ≢ id
      → find_row j (update_row id change rows) ≡ find_row j rows
  find_row-update_ne id j change [] keeps ne = refl
  find_row-update_ne id j change (x ∷ rows) keeps ne =
      ground (arith, keeps x, find_row-update_ne id j change rows keeps ne)

  pub length-update_row :
      (id : ℕ) (change : A → A) (rows : List A) → length (update_row id change rows) ≡ length rows
  length-update_row id change [] = refl
  length-update_row id change (x ∷ rows) = ground (arith, length-update_row id change rows)

  pub find_row-append :
      (id : ℕ) (rows more : List A) {r : A}
      → find_row id rows ≡ some r
      → find_row id (rows ++ more) ≡ some r
  find_row-append id [] more h = ground arith
  find_row-append id (x ∷ rows) more {r} h = ground (arith, find_row-append id rows more {r = r})

  pub find_row-append_new :
      (id : ℕ) (rows more : List A)
      → find_row id rows ≡ none
      → find_row id (rows ++ more) ≡ find_row id more
  find_row-append_new id [] more h = refl
  find_row-append_new id (x ∷ rows) more h = ground (arith, find_row-append_new id rows more)

module _ {A : Type 0} where
  abbrev pub total : (A → ℕ) → List A → ℕ
  total f [] = 0
  total f (x ∷ xs) = f x + total f xs

-- How often a key stands in a list of keys.
abbrev pub times : ℕ → List ℕ → ℕ
times i keys = count (λ k. k == i) keys

module _ {A : Type 0} (key : A → ℕ) where
  -- One row changes, so a sum over the table changes by the change in that row.
  pub total-update_row :
      (f : A → ℕ) (id : ℕ) (change : A → A) (rows : List A) {r : A}
      → find_row key id rows ≡ some r
      → total f (update_row key id change rows) + f r ≡ total f rows + f (change r)
  total-update_row f id change [] h = ground arith
  total-update_row f id change (x ∷ rows) {r} h =
      ground (arith, total-update_row f id change rows {r = r})

  pub count-update_row :
      (p : A → Bool) (id : ℕ) (change : A → A) (rows : List A) {r : A}
      → find_row key id rows ≡ some r
      → count p (update_row key id change rows) + (if p r then 1 else 0)
        ≡ count p rows + (if p (change r) then 1 else 0)
  count-update_row p id change [] h = ground arith
  count-update_row p id change (x ∷ rows) {r} h =
      ground (arith, count-update_row p id change rows {r = r})

  -- A change that does not touch what is counted.
  pub count-update_keeps :
      (p : A → Bool) (id : ℕ) (change : A → A)
      → ((r : A) → p (change r) ≡ p r)
      → (rows : List A) → count p (update_row key id change rows) ≡ count p rows
  count-update_keeps p id change keeps [] = refl
  count-update_keeps p id change keeps (x ∷ rows) =
      ground (arith, keeps x, count-update_keeps p id change keeps rows)

  pub All-update_row :
      (P : A → Type 0) (id : ℕ) (change : A → A) (rows : List A) {r : A}
      → find_row key id rows ≡ some r
      → P (change r)
      → All P rows
      → All P (update_row key id change rows)
  All-update_row P id change [] h new old = tt
  All-update_row P id change (x ∷ rows) {r} h new old = elim (Bool-cases (key x == id)) [
    | inl here ↦ let e : r ≡ x = ground arith in rw here (rw e at new, old.1)
    | inr there ↦
        rw there (old.0, All-update_row P id change rows {r = r} (rw there at h) new old.1)
  ]

  pub All-find_row :
      (P : A → Type 0) (id : ℕ) (rows : List A) {r : A}
      → find_row key id rows ≡ some r
      → All P rows
      → P r
  All-find_row P id [] found h = absurd (cc)
  All-find_row P id (x ∷ rows) {r} found h = elim (Bool-cases (key x == id)) [
    | inl here ↦ let e : r ≡ x = ground arith in rw e (h.0)
    | inr there ↦ All-find_row P id rows {r = r} (rw there at found) h.1
  ]
