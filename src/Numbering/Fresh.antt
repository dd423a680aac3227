-- ===== src/Numbering/Fresh.antt =====
-- When the next number is new, and when it is not.
use mathlib.Core.Bool.{false≢true}
use mathlib.Core.List.{append_assoc}
use risk_core.Prelude.{
  ℕ, ◌+◌, ◌≤◌, ◌<◌, ◌≡◌, refl, ◌∙◌, sym, true, false, none, some, List, [], ◌∷◌, ◌++◌, arith, Text,
  codes, starts_with, starts_with-append, append_cancel, All-text_eq, any-text_eq, text_eq, select,
  any, All, All-imp, All-both, All-selected, All-unselected, Bool-cases, Option-cases, inl, inr,
  ◌==◌,
}
use risk_core.Numbering.{
  decimal, pad6, dash, prefix, last_part, to_int, lex_ltb, latest, next_number,
  generate_claim_number,
}
use risk_core.Numbering.Digits.{read_back, pad6_inj}
use risk_core.Numbering.Order.{lex_ltb-append, latest_above, latest_in, lex_ltb-pad6}

-- A number of the table that has the prefix was printed from some k up to the bound.
abbrev pub IsIssued : ℕ → Text → Text → Type 0
IsIssued bound p t = starts_with t p ≡ true → (k : ℕ) × (k ≤ bound) × (t ≡ p ++ pad6 k)

-- Each number of the list with the prefix is below the one printed from n.
abbrev pub Below : ℕ → Text → List Text → Type 0
Below n p = All (λ t. (k : ℕ) → t ≡ p ++ pad6 k → k < n)

latest-none : (xs : List Text) → latest xs ≡ none → xs ≡ []
unfolding latest
latest-none [] h = refl
latest-none (x ∷ xs) h = ground arith

next_number-none :
    (p : Text) (numbers : List Text)
    → latest (select (λ t. starts_with t p) numbers) ≡ none
    → next_number p numbers ≡ some (p ++ pad6 1)
unfolding next_number
next_number-none p numbers e = rw (e, next_number)

next_number_after :
    (p : Text) (numbers : List Text) (m : Text) (k : ℕ)
    → latest (select (λ t. starts_with t p) numbers) ≡ some m
    → to_int (last_part m) ≡ some k
    → next_number p numbers ≡ some (p ++ pad6 (k + 1))
unfolding next_number
next_number_after p numbers m k e r = rw (e, r, next_number)

million_lt : lex_ltb (pad6 1_000_000) (pad6 999_999) ≡ true
unfolding lex_ltb pad6
million_lt = refl

module _ (q : Text) where
  abbrev p : Text
  p = q ++ dash ∷ []

  read_last : (k : ℕ) → to_int (last_part (p ++ pad6 k)) ≡ some k
  read_last k = rw append_assoc (read_back q k)

  not_above :
      (k j : ℕ) → k ≤ 999_999 → j ≤ 999_999 → lex_ltb (p ++ pad6 k) (p ++ pad6 j) ≡ false → j ≤ k
  not_above k j hk hj h =
      let order =
        lex_ltb-append p (pad6 k) (pad6 j) ∙ lex_ltb-pad6 k j (omega arith) (omega arith) in
      ground (arith, order)

  below_next :
      (k j : ℕ) (t : Text)
      → k ≤ 999_999
      → lex_ltb (p ++ pad6 k) t ≡ false
      → (i : ℕ) × (i ≤ 999_999) × (t ≡ p ++ pad6 i)
      → t ≡ p ++ pad6 j
      → j < k + 1
  below_next k j t hk h (i, hi, shown) same =
      let e : j ≡ i = pad6_inj j i (append_cancel p (pad6 j) (pad6 i) (sym same ∙ shown)) in
      omega (arith, not_above k j hk (rw e hi) (rw same at h))

  -- While no issued number of this prefix is above 999999, the generated number is one more than
  -- the largest of them (1 if there is none), so it is not in the table.
  pub next_number_fresh :
      (numbers : List Text)
      → All (IsIssued 999_999 p) numbers
      → (n : ℕ) × (next_number p numbers ≡ some (p ++ pad6 n))
        × (n ≤ 1_000_000)
        × Below n p numbers
        × (any (text_eq (p ++ pad6 n)) numbers ≡ false)
  unfolding next_number
  next_number_fresh numbers issued =
      elim (Option-cases (latest (select (λ t. starts_with t p) numbers))) [
        | inl nothing ↦ finish 1 (next_number-none p numbers nothing) (omega arith) (
            All-unselected (λ t. (k : ℕ) → t ≡ p ++ pad6 k → k < 1) (λ t. starts_with t p) numbers
              (rw (latest-none (select (λ t. starts_with t p) numbers) nothing) tt))
        | inr (m, e) ↦
            let (k, fits, shown) =
              latest_in (λ t. (k : ℕ) × (k ≤ 999_999) × (t ≡ p ++ pad6 k)) _ e
                (All-selected _ (λ t. starts_with t p) numbers issued) in
            finish (k + 1) (next_number_after p numbers m k e (rw shown (read_last k)))
              (omega arith)
              (All-unselected (λ t. (j : ℕ) → t ≡ p ++ pad6 j → j < k + 1) (λ t. starts_with t p)
                numbers
                (All-imp _ _ _
                  (λ t both j same. below_next k j t fits (rw shown at (both.0)) both.1 same)
                  (All-both _ _ _ (latest_above _ e)
                    (All-selected _ (λ t. starts_with t p) numbers issued))))
      ]
    where
      finish :
          (n : ℕ)
          → next_number p numbers ≡ some (p ++ pad6 n)
          → n ≤ 1_000_000
          → All (λ t. starts_with t p ≡ true → (k : ℕ) → t ≡ p ++ pad6 k → k < n) numbers
          → (n : ℕ) × (next_number p numbers ≡ some (p ++ pad6 n))
            × (n ≤ 1_000_000)
            × Below n p numbers
            × (any (text_eq (p ++ pad6 n)) numbers ≡ false)
      finish n e small below =
          let all_below : Below n p numbers =
            All-imp _ _ numbers (λ t h k same. h (rw same (starts_with-append p (pad6 k))) k same)
              below in
          (
            n,
            e,
            small,
            all_below,
            any-text_eq (p ++ pad6 n) numbers (
                All-imp _ _ numbers (λ t h same. absurd (omega (arith, h n (sym same)))) all_below),
          )

  above_not_issued :
      (k : ℕ) → k ≤ 1_000_000 → lex_ltb (p ++ pad6 k) (p ++ pad6 999_999) ≡ false → k ≡ 999_999
  above_not_issued k h above = elim (Bool-cases (k == 1_000_000)) [
    | inl million ↦
        let e : k ≡ 1_000_000 = ground arith in absurd (million_is_below (rw e at above))
    | inr smaller ↦
        let bound : k ≤ 999_999 = ground arith in
        omega (arith, bound, not_above k 999_999 bound (omega arith) above)
  ]
    where
      million_is_below : lex_ltb (p ++ pad6 1_000_000) (p ++ pad6 999_999) ≡ false → ⊥
      million_is_below h =
          false≢true (sym h ∙ lex_ltb-append p (pad6 1_000_000) (pad6 999_999) ∙ million_lt)

  -- Once 999999 has been issued for a prefix, and nothing above 1000000, every later call gives
  -- 1000000 again: as text 1000000 stands below 999999, so the column's order never finds it. If
  -- it is in the table already, the insert breaks the unique constraint.
  pub next_number_stuck :
      (numbers : List Text)
      → All (IsIssued 1_000_000 p) numbers
      → any (text_eq (p ++ pad6 999_999)) numbers ≡ true
      → next_number p numbers ≡ some (p ++ pad6 1_000_000)
  next_number_stuck numbers issued there =
      let has = starts_with-append p (pad6 999_999) in
      elim (Option-cases (latest (select (λ t. starts_with t p) numbers))) [
        | inl nothing ↦ absurd (
            All-text_eq (λ t. starts_with t p ≡ true → ⊥) (p ++ pad6 999_999) numbers there
              (All-unselected (λ _. ⊥) (λ t. starts_with t p) numbers
                (rw (latest-none (select (λ t. starts_with t p) numbers) nothing) tt))
              has)
        | inr (m, e) ↦
            let (k, fits, shown) =
              latest_in (λ t. (k : ℕ) × (k ≤ 1_000_000) × (t ≡ p ++ pad6 k)) _ e
                (All-selected _ (λ t. starts_with t p) numbers issued) in
            let above : lex_ltb (p ++ pad6 k) (p ++ pad6 999_999) ≡ false = rw shown at (
              All-text_eq (λ t. starts_with t p ≡ true → lex_ltb m t ≡ false) (p ++ pad6 999_999)
                numbers there
                (All-unselected (λ t. lex_ltb m t ≡ false) (λ t. starts_with t p) numbers
                  (latest_above _ e))
                has) in
            let top : k ≡ 999_999 = above_not_issued k fits above in
            next_number_after p numbers m 999_999 e (rw (shown, top) (read_last 999_999))
      ]

-- The same of the claim numbers of a year.
abbrev pub claim_stem : ℕ → Text
claim_stem year = codes "CLM" ++ dash ∷ decimal year

claim_prefix : (year : ℕ) → prefix (codes "CLM") year ≡ claim_stem year ++ dash ∷ []
unfolding prefix
claim_prefix year = refl

-- In a table whose claim numbers of the year go up to 999999 at most, `generate_claim_number`
-- gives a number of at most 1000000 that is in the table nowhere, and above all of that year.
pub generate_claim_number_fresh :
    (year : ℕ) (numbers : List Text)
    → All (IsIssued 999_999 (prefix (codes "CLM") year)) numbers
    → (n : ℕ) × (generate_claim_number year numbers ≡ some (prefix (codes "CLM") year ++ pad6 n))
      × (n ≤ 1_000_000)
      × Below n (prefix (codes "CLM") year) numbers
      × (any (text_eq (prefix (codes "CLM") year ++ pad6 n)) numbers ≡ false)
unfolding generate_claim_number prefix
generate_claim_number_fresh year numbers issued = next_number_fresh (claim_stem year) numbers issued

-- In a table that holds the claim number 999999 of the year, and none of that year above 1000000,
-- `generate_claim_number` gives 1000000.
pub generate_claim_number_stuck :
    (year : ℕ) (numbers : List Text)
    → All (IsIssued 1_000_000 (prefix (codes "CLM") year)) numbers
    → any (text_eq (prefix (codes "CLM") year ++ pad6 999_999)) numbers ≡ true
    → generate_claim_number year numbers ≡ some (prefix (codes "CLM") year ++ pad6 1_000_000)
unfolding generate_claim_number prefix
generate_claim_number_stuck year numbers issued there =
    next_number_stuck (claim_stem year) numbers issued there
