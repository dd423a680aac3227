-- ===== src/Numbering/Migration.antt =====
-- policy-service/apps/policies/migrations/0002_policy_number_sequence.py: how the sequence that
-- gives policies their numbers starts. PostgreSQL's functions are an argument.
use risk_core.Prelude.{
  ℕ, suc, ◌+◌, ◌≤◌, ◌<◌, ◌≡◌, refl, ◌∙◌, sym, ap, false, Option, none, some, List, [], ◌∷◌, ◌++◌,
  arith, Text, codes, text_eq, text_eq-eq, any, All, leb, Bool-cases, inl, inr, if◌then◌else◌,
}
use mathlib.Core.List.{append_assoc}
use risk_core.Numbering.{
  Vendor, postgresql, other, prefix, pad6, generate_policy_number, last_part, to_int, dash, decimal,
}
use risk_core.Numbering.Digits.{read_back}

pub record Postgres : Type 0 where
  pub third_part : Text → Option ℕ  -- CAST(SPLIT_PART(number, '-', 3) AS INTEGER), or an error
  pub setval : ℕ → Option ℕ  -- the value of the sequence afterwards, or an error

-- The largest INTEGER of the database.
abbrev pub max_integer : ℕ
max_integer = 2_147_483_647

-- The documented behaviour: the third part of a number reads as its digits, in the range of an
-- INTEGER; a sequence made without a MINVALUE starts at 1, and `setval` refuses a value below that.
pub record IsDocumented (pg : Postgres) : Type 0 where
  pub reads :
      (year n : ℕ) → n ≤ max_integer → pg.third_part (prefix (codes "POL") year ++ pad6 n) ≡ some n
  pub refuses : pg.setval 0 ≡ none
  pub accepts : (n : ℕ) → n < max_integer → pg.setval (suc n) ≡ some (suc n)

abbrev larger : Option ℕ → Option ℕ → Option ℕ
larger (some a) (some b) = some (if leb a b then b else a)
larger _ _ = none

-- COALESCE(MAX(…), 0) over the table; a number that cannot be read is an error.
unfoldable pub coalesce_max : Postgres → List Text → Option ℕ
coalesce_max pg [] = some 0
coalesce_max pg (t ∷ ts) = larger (pg.third_part t) (coalesce_max pg ts)

abbrev set_to : Postgres → Option ℕ → Option ℕ
set_to pg none = none
set_to pg (some n) = pg.setval n

-- `create_sequence`: the value of the sequence afterwards, or `none` where a statement raises. On
-- another database there is no sequence, and the value that is handed in stays.
unfoldable pub create_sequence : Postgres → Vendor → ℕ → List Text → Option ℕ
unfolding coalesce_max
create_sequence pg postgresql sequence numbers = set_to pg (coalesce_max pg numbers)
create_sequence pg other sequence numbers = some sequence

-- `drop_sequence`, on the sequence where there is one.
unfoldable pub drop_sequence : Vendor → Option ℕ → Option ℕ
drop_sequence postgresql sequence = none
drop_sequence other sequence = sequence

-- A policy number of some year, in the range of an INTEGER.
abbrev pub IsNumber : Text → Type 0
IsNumber t = (year : ℕ) × (n : ℕ) × (t ≡ prefix (codes "POL") year ++ pad6 n) × (n ≤ max_integer)

-- The number of a text is at most m.
abbrev pub AtMost : ℕ → Text → Type 0
AtMost m t = (n : ℕ) × (to_int (last_part t) ≡ some n) × (n ≤ m)

pub read_number : (year n : ℕ) → to_int (last_part (prefix (codes "POL") year ++ pad6 n)) ≡ some n
unfolding prefix
read_number year n =
    ap (λ t. to_int (last_part t))
      (append_assoc (codes "POL" ++ dash ∷ decimal year) (dash ∷ []) (pad6 n))
    ∙ read_back (codes "POL" ++ dash ∷ decimal year) n

pub AtMost-weaken : (m m' : ℕ) (ts : List Text) → m ≤ m' → All (AtMost m) ts → All (AtMost m') ts
AtMost-weaken m m' [] le h = tt
AtMost-weaken m m' (t ∷ ts) le ((n, e, b), h) = ((n, e, omega arith), AtMost-weaken m m' ts le h)

coalesce_max-AtMost :
    (pg : Postgres)
    → IsDocumented pg
    → (ts : List Text) → All IsNumber ts
    → (m : ℕ) × (coalesce_max pg ts ≡ some m) × (m ≤ max_integer) × All (AtMost m) ts
unfolding coalesce_max
coalesce_max-AtMost pg doc [] h = (0, refl, omega arith, tt)
coalesce_max-AtMost pg doc (t ∷ ts) ((year, n, e, fits), h) =
    let (m, max, in_range, below) = coalesce_max-AtMost pg doc ts h in
    let read : pg.third_part t ≡ some n = ap pg.third_part e ∙ doc.reads year n fits in
    let number : to_int (last_part t) ≡ some n =
      ap (λ u. to_int (last_part u)) e ∙ read_number year n in
    elim (Bool-cases (leb n m)) [
      | inl le ↦ (m, rw (read, max) (rw le refl), in_range, ((n, number, ground arith), below))
      | inr gt ↦ (
        n,
        rw (read, max) (rw gt refl),
        fits,
        ((n, number, omega arith), AtMost-weaken m n ts (ground arith) below),
      )
    ]

pub unused :
    (year m s : ℕ) (ts : List Text)
    → All (AtMost m) ts
    → m ≤ s
    → any (text_eq (prefix (codes "POL") year ++ pad6 (s + 1))) ts ≡ false
unused year m s [] h le = refl
unused year m s (t ∷ ts) ((n, e, b), h) le =
    elim (Bool-cases (text_eq (prefix (codes "POL") year ++ pad6 (s + 1)) t)) [
      | inl same ↦
          let text = text_eq-eq (prefix (codes "POL") year ++ pad6 (s + 1)) t same in
          let number : some (s + 1) ≡ some n =
            sym (read_number year (s + 1)) ∙ ap (λ u. to_int (last_part u)) text ∙ e in
          absurd (ground arith)
      | inr differs ↦ rw differs (unused year m s ts h le)
    ]

-- The migration on a table of policy numbers, of any years and in the range of an INTEGER, with
-- what PostgreSQL documents: where there is none, it raises, since
-- the sequence cannot be set to 0; where there is one with a number above 0, it sets the sequence
-- so that this value and every later one give a number that the table does not hold.
pub create_sequence_lem :
    (pg : Postgres)
    → IsDocumented pg
    → (numbers : List Text) → All IsNumber numbers
    → (sequence : ℕ)
    → (numbers ≡ [] → create_sequence pg postgresql sequence numbers ≡ none)
      × ((m : ℕ)
          → coalesce_max pg numbers ≡ some (suc m)
          → (s : ℕ) × (create_sequence pg postgresql sequence numbers ≡ some s)
            × ((year later : ℕ)
                → s ≤ later
                → (t : Text) × ((generate_policy_number postgresql year later numbers).0 ≡ some t)
                  × (any (text_eq t) numbers ≡ false)))
unfolding create_sequence generate_policy_number
create_sequence_lem pg doc numbers h sequence = (
  (λ e. rw e doc.refuses),
  (λ m max.
      let (m', max', fits, below) = coalesce_max-AtMost pg doc numbers h in
      let same : m' ≡ suc m = ground arith in
      (
        suc m,
        rw max (doc.accepts m (omega arith)),
        λ year later le. (_, refl, unused year m' later numbers below (omega arith)),
      )),
)
