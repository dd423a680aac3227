-- ===== src/Numbering/Tests.antt =====
-- Numbers on concrete tables.
use risk_core.Prelude.{
  ℕ, ◌≤◌, ◌≡◌, zero, suc, refl, false, none, some, List, [], ◌∷◌, ◌++◌, arith, Text, codes, text_eq,
  any,
}
use risk_core.Numbering.{
  Vendor, prefix, pad6, generate_claim_number, generate_policy_number, last_part, to_int, dash,
}
use risk_core.Numbering.Digits.{read_back}
use risk_core.Numbering.Migration.{
  Postgres, IsDocumented, create_sequence, coalesce_max, create_sequence_lem, read_number,
}

abbrev few : List Text
few = codes "CLM-2026-000009" ∷ codes "CLM-2025-000400" ∷ codes "CLM-2026-000010" ∷ []

next_of_few : generate_claim_number 2026 few ≡ some (codes "CLM-2026-000011")
unfolding generate_claim_number
next_of_few = refl

first_of_year : generate_claim_number 2027 few ≡ some (codes "CLM-2027-000001")
unfolding generate_claim_number
first_of_year = refl

read_back_example : to_int (last_part (codes "CLM-2026" ++ dash ∷ pad6 42)) ≡ some 42
read_back_example = read_back (codes "CLM-2026") 42

-- PostgreSQL, as far as the migration asks it.
abbrev pg : Postgres
pg = record {
  third_part = λ t. to_int (last_part t);
  setval = λ n. elim n [ zero ↦ none | suc m ↦ some (suc m) ];
}

pg-IsDocumented : IsDocumented pg
unfolding prefix
pg-IsDocumented = record {
  reads = λ year n fits. read_number year n;
  refuses = refl;
  accepts = λ n fits. refl;
}

abbrev issued : List Text
issued = (prefix (codes "POL") 2026 ++ pad6 7) ∷ (prefix (codes "POL") 2025 ++ pad6 3) ∷ []

create_sequence_lem_example :
    (issued ≡ [] → create_sequence pg Vendor.postgresql 0 issued ≡ none)
    × ((m : ℕ)
        → coalesce_max pg issued ≡ some (suc m)
        → (s : ℕ) × (create_sequence pg Vendor.postgresql 0 issued ≡ some s)
          × ((year later : ℕ)
              → s ≤ later
              → (t : Text) × ((generate_policy_number Vendor.postgresql year later issued).0
                  ≡ some t)
                × (any (text_eq t) issued ≡ false)))
create_sequence_lem_example =
    create_sequence_lem pg pg-IsDocumented issued
      ((2026, 7, refl, omega arith), ((2025, 3, refl, omega arith), tt)) 0
