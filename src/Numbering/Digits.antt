-- ===== src/Numbering/Digits.antt =====
-- Printing a number and reading it back.
use risk_core.Prelude.{
  ℕ, zero, suc, ◌+◌, ◌-◌, ◌*◌, ◌/◌, ◌%◌, ◌≤◌, ◌<◌, ◌≡◌, refl, ◌∙◌, ap, Bool, true, false, ◌&&◌, leb,
  some, [], ◌∷◌, ◌++◌, arith, Text, any, any-append, length, length-append, ◌==◌, Bool-cases, inl,
  inr, if◌then◌else◌,
}
use risk_core.Numbering.{decimal_fuel, decimal, digits, pad6, dash, last_part, to_int_from, to_int}

-- One printed digit is read back.
to_int_from-digit :
    (q n : ℕ) (acc : Text) → to_int_from q ((48 + n % 10) ∷ acc) ≡ to_int_from (q * 10 + n % 10) acc
unfolding to_int_from
to_int_from-digit q n acc =
    let shown : (leb 48 (48 + n % 10) && leb (48 + n % 10) 57) ≡ true = ground arith in
    let value : 48 + n % 10 - 48 ≡ n % 10 = omega arith in rw (shown, value)

to_int_from-decimal_fuel :
    (f n : ℕ) (acc : Text) → n < f → to_int_from 0 (decimal_fuel f n acc) ≡ to_int_from n acc
unfolding decimal_fuel
to_int_from-decimal_fuel zero n acc h = absurd (omega arith)
to_int_from-decimal_fuel (suc f) n acc h = elim (Bool-cases (n / 10 == 0)) [
  | inl small ↦ rw small (to_int_from-digit 0 n acc ∙ ap (λ k. to_int_from k acc) (ground arith))
  | inr large ↦ rw large (
      to_int_from-decimal_fuel f (n / 10) ((48 + n % 10) ∷ acc) (ground arith)
      ∙ to_int_from-digit (n / 10) n acc
      ∙ ap (λ k. to_int_from k acc) (omega arith))
]

to_int_from-decimal : (n : ℕ) (acc : Text) → to_int_from 0 (decimal n ++ acc) ≡ to_int_from n acc
unfolding decimal
to_int_from-decimal n acc =
    ap (to_int_from 0) (decimal_fuel-append (suc n) n [] acc)
    ∙ to_int_from-decimal_fuel (suc n) n acc (omega arith)
  where
    decimal_fuel-append :
        (f n : ℕ) (s t : Text) → decimal_fuel f n s ++ t ≡ decimal_fuel f n (s ++ t)
    decimal_fuel-append zero n s t = refl
    decimal_fuel-append (suc f) n s t =
        ground (arith, decimal_fuel-append f (n / 10) ((48 + n % 10) ∷ s) t)

to_int_from-digits6 : (q n : ℕ) → to_int_from q (digits 6 n) ≡ some (q * 1_000_000 + n % 1_000_000)
unfolding digits
to_int_from-digits6 q n = simp to_int_from-digit (unfold to_int_from in ap some (omega arith))

-- Printing with six digits and reading is the identity, for every number.
to_int_from-pad6 : (n : ℕ) → to_int_from 0 (pad6 n) ≡ some n
unfolding pad6
to_int_from-pad6 n = elim (Bool-cases (n / 1_000_000 == 0)) [
  | inl small ↦ rw small (to_int_from-digits6 0 n ∙ ap some (ground arith))
  | inr large ↦ rw large (
      to_int_from-decimal (n / 1_000_000) (digits 6 n)
      ∙ to_int_from-digits6 (n / 1_000_000) n
      ∙ ap some (omega arith))
]

abbrev has_dash : Text → Bool
has_dash = any (λ d. d == dash)

has_dash-decimal_fuel :
    (f n : ℕ) (acc : Text) → has_dash acc ≡ false → has_dash (decimal_fuel f n acc) ≡ false
unfolding decimal_fuel
has_dash-decimal_fuel zero n acc h = h
has_dash-decimal_fuel (suc f) n acc h =
    let digit : (48 + n % 10 == dash) ≡ false = ground arith in
    ground (arith, has_dash-decimal_fuel f (n / 10) ((48 + n % 10) ∷ acc), digit)

has_dash-digits : (w n : ℕ) → has_dash (digits w n) ≡ false
unfolding digits
has_dash-digits zero n = refl
has_dash-digits (suc w) n =
    any-append (λ d. d == dash) (digits w (n / 10)) ((48 + n % 10) ∷ [])
    ∙ (let digit : (48 + n % 10 == dash) ≡ false = ground arith in
        rw (has_dash-digits w (n / 10), digit))

pub has_dash-pad6 : (n : ℕ) → any (λ d. d == dash) (pad6 n) ≡ false
unfolding pad6
has_dash-pad6 n =
    any-append (λ d. d == dash) (if n / 1_000_000 == 0 then [] else decimal (n / 1_000_000))
      (digits 6 n)
    ∙ ground (
      arith,
      has_dash-digits 6 n,
      has_dash-decimal_fuel (suc (n / 1_000_000)) (n / 1_000_000) [] refl,
    )

pub last_part-append : (p t : Text) → any (λ d. d == dash) t ≡ false → last_part (p ++ dash ∷ t) ≡ t
unfolding last_part
last_part-append [] t h = ground arith
last_part-append (c ∷ p) t h =
    let found : any (λ d. d == dash) (p ++ dash ∷ t) ≡ true =
      any-append (λ d. d == dash) p (dash ∷ t) ∙ ground arith in
    rw found (last_part-append p t h)

length-pad6 : (n : ℕ) → 6 ≤ length (pad6 n)
unfolding pad6
length-pad6 n =
    omega (
      arith,
      length-append (if n / 1_000_000 == 0 then [] else decimal (n / 1_000_000)) (digits 6 n),
    )

to_int_of_nonempty :
    (t : Text) {k : ℕ} → 0 < length t → to_int_from 0 t ≡ some k → to_int t ≡ some k
unfolding to_int
to_int_of_nonempty [] h e = absurd (omega arith)
to_int_of_nonempty (c ∷ t) h e = e

pub to_int-pad6 : (n : ℕ) → to_int (pad6 n) ≡ some n
to_int-pad6 n = to_int_of_nonempty (pad6 n) (omega (arith, length-pad6 n)) (to_int_from-pad6 n)

-- Printed numbers differ when the numbers do.
pub pad6_inj : (a b : ℕ) → pad6 a ≡ pad6 b → a ≡ b
pad6_inj a b h = cc (to_int-pad6 a, to_int-pad6 b)

-- Reading the number of a policy or claim back, as the generators do for the latest one, gives
-- the number that was printed, whatever stands in front of the last dash and however many digits
-- the number has.
pub read_back : (p : Text) (n : ℕ) → to_int (last_part (p ++ dash ∷ pad6 n)) ≡ some n
read_back p n = rw (last_part-append p (pad6 n) (has_dash-pad6 n)) (to_int-pad6 n)
