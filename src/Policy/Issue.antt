-- ===== src/Policy/Issue.antt =====
-- A creation that returns, and one that must return: policy-service/apps/policies/services.py,
-- create_policy, on a database whose sequence is ahead of the numbers in its table.
use mathlib.Core.List.{map-append}
use risk_core.Prelude.{
  true, false, Bool, ◌&&◌, ◌||◌, ℕ, ◌+◌, ◌≡◌, refl, Option, none, some, List, [], ◌∷◌, ◌++◌, Text,
  codes, any, text_eq, map, arith, find_row, All, All-append,
}
use risk_core.Runtime.{TakesAll, Runtime, Draw}
use risk_core.Action.{ok}
use risk_core.Outbox.{Status as OutboxStatus}
use risk_core.Numbering.{Vendor, generate_policy_number, prefix, pad6}
use risk_core.Numbering.Migration.{AtMost, AtMost-weaken, unused, read_number}
use risk_core.Prelude.Int.{ℤ}
use risk_core.Policy.{Coverage, Policy, Status, World, policy_id}
use risk_core.Policy.Service.{PolicyData, CoverageData}
use risk_core.Policy.Create.{coverage_list, has_none, create_policy, find_customer, clashes}
use risk_core.Policy.Creation.{takes_create, new_policy, numbers, create_run}

-- No number in the table is above the sequence.
abbrev pub IsAhead : World → Type 0
IsAhead w = All (AtMost w.sequence) (map (λ p. p.policy_number) w.policies)

-- What a coverage says, and what a request asks for.
abbrev pub covered : Coverage → Text × ℤ × Text
covered c = (c.coverage_type, c.coverage_amount, c.description)

abbrev pub asked : CoverageData → Text × ℤ × Text
asked d = (d.coverage_type, d.coverage_amount, elim d.description [ none ↦ [] | some t ↦ t ])

module _ (rt : Runtime) (draw : Draw) (vendor : Vendor) (year : ℕ) (request : PolicyData)
    (coverages : Option (List CoverageData)) where
  -- What a creation that returns p has found and drawn.
  abbrev Made : World → Policy → Type 0
  Made w p =
      (customer : ℕ) × (number : Text) × (sequence : ℕ) × (find_customer request.customer_id w
        ≡ some customer)
      × (generate_policy_number vendor year w.sequence (numbers rt draw w)
          ≡ (some number, sequence))
      × (any (clashes (new_policy rt draw number customer request)) w.policies ≡ false)
      × (takes_create rt draw coverages ≡ true)
      × (p ≡ new_policy rt draw number customer request)

-- A row of a new identifier and a new number clashes with none.
clashes-new :
    (p : Policy) (ps : List Policy)
    → find_row policy_id p.id ps ≡ none
    → any (text_eq p.policy_number) (map (λ q. q.policy_number) ps) ≡ false
    → any (clashes p) ps ≡ false
clashes-new p [] new free = refl
clashes-new p (q ∷ ps) new free = ground (arith, clashes-new p ps)

takes_any : (b : Bool) → ((b || true) && true) ≡ true
takes_any true = refl
takes_any false = refl

module _ (rt : Runtime) (draw : Draw) (year : ℕ) (request : PolicyData)
    (coverages : Option (List CoverageData)) where
  -- On PostgreSQL, with a customer of the table, a new identifier, no number in the table above the
  -- sequence, and a database that takes every row, a creation returns: the policy has the number
  -- that follows the sequence, which is
  -- one higher, and still no number in the table is above it.
  pub issue_returns :
      (w : World) (customer : ℕ)
      → find_customer request.customer_id w ≡ some customer
      → find_row policy_id (draw.uuid 0) w.policies ≡ none
      → IsAhead w
      → TakesAll draw
      → let (r, w') = create_policy rt Vendor.postgresql year draw request coverages w in
        (p : Policy) × (r ≡ ok p)
        × (p.policy_number ≡ prefix (codes "POL") year ++ pad6 (w.sequence + 1))
        × (w'.sequence ≡ w.sequence + 1)
        × IsAhead w'
  unfolding generate_policy_number
  issue_returns w customer found new ahead takes =
      let s = w.sequence in
      let number = prefix (codes "POL") year ++ pad6 (s + 1) in
      let p = new_policy rt draw number customer request in
      let free =
        clashes-new p w.policies new
          (unused year s s (map (λ q. q.policy_number) w.policies) ahead (omega arith)) in
      rw
        (create_run rt draw Vendor.postgresql year request coverages w customer (s + 1) number found
          refl free (rw (takes 0, takes 1) (takes_any (has_none (coverage_list coverages)))))
        (
          p,
          refl,
          refl,
          refl,
          rw (map-append (λ q. q.policy_number) w.policies (p ∷ [])) (
              All-append (AtMost (s + 1)) (map (λ q. q.policy_number) w.policies) (number ∷ [])
                (AtMost-weaken s (s + 1) _ (omega arith) ahead)
                ((s + 1, read_number year (s + 1), omega arith), tt)),
        )
