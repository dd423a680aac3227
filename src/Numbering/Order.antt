-- ===== src/Numbering/Order.antt =====
-- The order of the column on printed numbers, and the largest of a list.
use mathlib.Core.Path.{subst}
use risk_core.Prelude.{
  ℕ, zero, suc, ◌+◌, ◌*◌, ◌/◌, ◌%◌, ◌<◌, ◌≡◌, refl, ◌∙◌, sym, true, false, ◌||◌, ◌&&◌, none, some,
  List, [], ◌∷◌, ◌++◌, arith, Text, text_eq, length, length-append, All, ltb, ◌==◌, Bool-cases,
  Option-cases, inl, inr,
}
use risk_core.Numbering.{digits, pad6, lex_ltb, latest}

pub lex_ltb-append : (p s t : Text) → lex_ltb (p ++ s) (p ++ t) ≡ lex_ltb s t
unfolding lex_ltb
lex_ltb-append [] s t = refl
lex_ltb-append (c ∷ p) s t = ground (arith, lex_ltb-append p s t)

-- `x` is not below `y`, nor `y` below `z`, so `x` is not below `z`.
lex_ltb_trans : (x y z : Text) → lex_ltb x y ≡ false → lex_ltb y z ≡ false → lex_ltb x z ≡ false
unfolding lex_ltb
lex_ltb_trans [] [] z h k = k
lex_ltb_trans [] (b ∷ y) z h k = cc
lex_ltb_trans (a ∷ x) [] [] h k = refl
lex_ltb_trans (a ∷ x) [] (c ∷ z) h k = cc
lex_ltb_trans (a ∷ x) (b ∷ y) [] h k = refl
lex_ltb_trans (a ∷ x) (b ∷ y) (c ∷ z) h k = ground (arith, lex_ltb_trans x y z)

lex_ltb_asym : (x y : Text) → lex_ltb x y ≡ true → lex_ltb y x ≡ false
unfolding lex_ltb
lex_ltb_asym [] [] h = cc
lex_ltb_asym [] (b ∷ y) h = refl
lex_ltb_asym (a ∷ x) [] h = cc
lex_ltb_asym (a ∷ x) (b ∷ y) h = ground (arith, lex_ltb_asym x y)

lex_ltb_irrefl : (x : Text) → lex_ltb x x ≡ false
unfolding lex_ltb
lex_ltb_irrefl [] = refl
lex_ltb_irrefl (a ∷ x) = ground (arith, lex_ltb_irrefl x)

All-not_below :
    (x m : Text) (ys : List Text)
    → lex_ltb x m ≡ false
    → All (λ y. lex_ltb m y ≡ false) ys
    → All (λ y. lex_ltb x y ≡ false) ys
All-not_below x m [] h all = tt
All-not_below x m (y ∷ ys) h all = (lex_ltb_trans x m y h all.0, All-not_below x m ys h all.1)

-- No text of the list is above the latest one.
pub latest_above :
    (xs : List Text) {m : Text} → latest xs ≡ some m → All (λ x. lex_ltb m x ≡ false) xs
unfolding latest
latest_above [] h = tt
latest_above (x ∷ xs) {m} h = elim (Option-cases (latest xs)) [
  | inl nothing ↦ (ground (arith, lex_ltb_irrefl x), only xs m nothing)
  | inr (m', e) ↦ elim (Bool-cases (lex_ltb x m')) [
    | inl below ↦
        let same : m ≡ m' = ground arith in
        subst (λ y. All (λ z. lex_ltb y z ≡ false) (x ∷ xs)) (sym same)
          (lex_ltb_asym x m' below, latest_above xs e)
    | inr above ↦
        let same : m ≡ x = ground arith in
        subst (λ y. All (λ z. lex_ltb y z ≡ false) (x ∷ xs)) (sym same)
          (lex_ltb_irrefl x, All-not_below x m' xs above (latest_above xs e))
  ]
]
  where
    only : (ys : List Text) (m : Text) → latest ys ≡ none → All (λ y. lex_ltb m y ≡ false) ys
    only [] m h = tt
    only (y ∷ ys) m h = ground arith

-- The latest text is one of the list.
pub latest_in :
    (P : Text → Type 0) (xs : List Text) {m : Text} → latest xs ≡ some m → All P xs → P m
unfolding latest
latest_in P [] h all = absurd (cc)
latest_in P (x ∷ xs) {m} h all = elim (Option-cases (latest xs)) [
  | inl nothing ↦ let same : m ≡ x = ground arith in rw same (all.0)
  | inr (m', e) ↦ elim (Bool-cases (lex_ltb x m')) [
    | inl below ↦ let same : m ≡ m' = ground arith in rw same (latest_in P xs e all.1)
    | inr above ↦ let same : m ≡ x = ground arith in rw same (all.0)
  ]
]

-- Ten to the power w.
abbrev pub pow10 : ℕ → ℕ
pow10 zero = 1
pow10 (suc w) = 10 * pow10 w

length-digits : (w n : ℕ) → length (digits w n) ≡ w
unfolding digits
length-digits zero n = refl
length-digits (suc w) n =
    omega (arith, length-append (digits w (n / 10)) ((48 + n % 10) ∷ []), length-digits w (n / 10))

lex_ltb-concat :
    (s t : Text) (c d : ℕ)
    → length s ≡ length t
    → lex_ltb (s ++ c ∷ []) (t ++ d ∷ []) ≡ (lex_ltb s t || (text_eq s t && ltb c d))
unfolding lex_ltb
lex_ltb-concat [] [] c d h = ground arith
lex_ltb-concat [] (b ∷ t) c d h = absurd (omega arith)
lex_ltb-concat (a ∷ s) [] c d h = absurd (omega arith)
lex_ltb-concat (a ∷ s) (b ∷ t) c d h = ground (arith, lex_ltb-concat s t c d)

text_eq-concat :
    (s t : Text) (c d : ℕ)
    → length s ≡ length t
    → text_eq (s ++ c ∷ []) (t ++ d ∷ []) ≡ (text_eq s t && c == d)
text_eq-concat [] [] c d h = ground arith
text_eq-concat [] (b ∷ t) c d h = absurd (omega arith)
text_eq-concat (a ∷ s) [] c d h = absurd (omega arith)
text_eq-concat (a ∷ s) (b ∷ t) c d h = ground (arith, text_eq-concat s t c d)

-- On numbers of the same width the order of the texts is that of the numbers.
digits_order :
    (w a b : ℕ)
    → a < pow10 w
    → b < pow10 w
    → (lex_ltb (digits w a) (digits w b) ≡ ltb a b) × (text_eq (digits w a) (digits w b) ≡ (a == b))
unfolding digits
digits_order zero a b h k = (unfold lex_ltb in ground arith, ground arith)
digits_order (suc w) a b h k =
    let (below, same) = digits_order w (a / 10) (b / 10) (omega arith) (omega arith) in
    let widths : length (digits w (a / 10)) ≡ length (digits w (b / 10)) =
      omega (arith, length-digits w (a / 10), length-digits w (b / 10)) in
    let c = 48 + a % 10 in
    let d = 48 + b % 10 in
    (
      lex_ltb-concat (digits w (a / 10)) (digits w (b / 10)) c d widths ∙ ground arith,
      text_eq-concat (digits w (a / 10)) (digits w (b / 10)) c d widths ∙ ground arith,
    )

pub lex_ltb-pad6 : (a b : ℕ) → a < 1_000_000 → b < 1_000_000 → lex_ltb (pad6 a) (pad6 b) ≡ ltb a b
unfolding pad6
lex_ltb-pad6 a b h k =
    let a_fits : (a / 1_000_000 == 0) ≡ true = ground arith in
    let b_fits : (b / 1_000_000 == 0) ≡ true = ground arith in
    rw (a_fits, b_fits) ((digits_order 6 a b h k).0)
