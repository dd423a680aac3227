-- ===== src/Numbering/Sequence.antt =====
-- The PostgreSQL path: the database's sequence.
use risk_core.Prelude.{ℕ, ◌+◌, ◌<◌, ◌≡◌, ◌≢◌, List, ◌++◌, arith, append_cancel, Text, codes}
use risk_core.Numbering.{Vendor, prefix, pad6, generate_policy_number}
use risk_core.Numbering.Digits.{pad6_inj}

-- Two calls on PostgreSQL in one year, the second at any later value of the sequence, give
-- different numbers, whatever the table holds.
pub generate_policy_number_distinct :
    (year s s' : ℕ) (numbers numbers' : List Text)
    → (generate_policy_number Vendor.postgresql year s numbers).1 < s' + 1
    → (generate_policy_number Vendor.postgresql year s numbers).0
      ≢ (generate_policy_number Vendor.postgresql year s' numbers').0
unfolding generate_policy_number
generate_policy_number_distinct year s s' numbers numbers' later same =
    let texts : prefix (codes "POL") year ++ pad6 (s + 1)
        ≡ prefix (codes "POL") year ++ pad6 (s' + 1) =
      cc in
    let e = pad6_inj (s + 1) (s' + 1) (append_cancel (prefix (codes "POL") year) _ _ texts) in
    omega arith
