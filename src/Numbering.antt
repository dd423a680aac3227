-- ===== src/Numbering.antt =====
-- The numbers of policies and claims, `POL-{year}-{n:06d}` and `CLM-{year}-{n:06d}`:
-- generate_policy_number of policy-service/apps/policies/models.py, generate_claim_number of
-- claims-service/apps/claims/models.py, and the sequence of
-- policy-service/apps/policies/migrations/0002_policy_number_sequence.py. The column is compared
-- as text, so `order_by("-claim_number")` is the order of code points.
pub mod Digits
pub mod Order
pub mod Fresh
pub mod Sequence
pub mod Migration
mod Tests
use risk_core.Prelude.{
  ℕ, zero, suc, ◌+◌, ◌-◌, ◌*◌, ◌/◌, ◌%◌, Bool, true, false, ◌&&◌, ◌||◌, Option, none, some, List,
  [], ◌∷◌, ◌++◌, Text, codes, starts_with, select, any, ltb, leb, ◌==◌, if◌then◌else◌,
}

-- str(n): the digits in front of `acc`, at most as many as the fuel, of which n + 1 is enough.
unfoldable pub decimal_fuel : ℕ → ℕ → Text → Text
decimal_fuel zero n acc = acc
decimal_fuel (suc f) n acc =
    let rest = decimal_fuel f (n / 10) ((48 + n % 10) ∷ acc) in
    if n / 10 == 0 then (48 + n % 10) ∷ acc else rest

unfoldable pub decimal : ℕ → Text
unfolding decimal_fuel
decimal n = decimal_fuel (suc n) n []

-- The last w digits.
unfoldable pub digits : ℕ → ℕ → Text
digits zero n = []
digits (suc w) n = digits w (n / 10) ++ (48 + n % 10) ∷ []

-- f"{n:06d}": at least six digits, filled up with zeros.
unfoldable pub pad6 : ℕ → Text
unfolding decimal digits
pad6 n = (if n / 1_000_000 == 0 then [] else decimal (n / 1_000_000)) ++ digits 6 n

abbrev pub dash : ℕ
dash = b'-'

-- f"{code}-{year}-"
unfoldable pub prefix : Text → ℕ → Text
unfolding decimal
prefix code year = code ++ dash ∷ decimal year ++ dash ∷ []

-- number.split("-")[-1]
unfoldable pub last_part : Text → Text
last_part [] = []
last_part (c ∷ t) =
    let rest = last_part t in
    if any (λ d. d == dash) t then rest else if c == dash then t else c ∷ t

-- int(text) of a text of digits; any other text raises ValueError, which is `none`.
unfoldable pub to_int_from : ℕ → Text → Option ℕ
to_int_from acc [] = some acc
to_int_from acc (c ∷ t) =
    let rest = to_int_from (acc * 10 + (c - 48)) t in if leb 48 c && leb c 57 then rest else none

unfoldable pub to_int : Text → Option ℕ
unfolding to_int_from
to_int [] = none
to_int (c ∷ t) = to_int_from 0 (c ∷ t)

-- The order of the column.
unfoldable pub lex_ltb : Text → Text → Bool
lex_ltb [] [] = false
lex_ltb [] (_ ∷ _) = true
lex_ltb (_ ∷ _) [] = false
lex_ltb (a ∷ s) (b ∷ t) = ltb a b || (a == b && lex_ltb s t)

-- .order_by("-number").first()
unfoldable pub latest : List Text → Option Text
unfolding lex_ltb
latest [] = none
latest (x ∷ xs) = elim (latest xs) [
  | none ↦ some x
  | some m ↦ if lex_ltb x m then some m else some x
]

-- The number after `last`; a `last` that is no number raises.
abbrev after : Text → Option ℕ → Option Text
after p none = none
after p (some n) = some (p ++ pad6 (n + 1))

-- The row-lock path of both functions, over the numbers in the table.
unfoldable pub next_number : Text → List Text → Option Text
unfolding latest last_part to_int pad6
next_number p numbers = elim (latest (select (λ n. starts_with n p) numbers)) [
  | none ↦ some (p ++ pad6 1)
  | some last ↦ after p (to_int (last_part last))
]

unfoldable pub generate_claim_number : ℕ → List Text → Option Text
unfolding next_number prefix
generate_claim_number year numbers = next_number (prefix (codes "CLM") year) numbers

-- The database behind `connection.vendor`.
pub data Vendor : Type 0 where
  postgresql other : Vendor

-- The generated number, and the value of the sequence afterwards.
unfoldable pub generate_policy_number : Vendor → ℕ → ℕ → List Text → Option Text × ℕ
unfolding next_number prefix pad6
generate_policy_number postgresql year sequence numbers =
    (some (prefix (codes "POL") year ++ pad6 (sequence + 1)), sequence + 1)
generate_policy_number other year sequence numbers =
    (next_number (prefix (codes "POL") year) numbers, sequence)
