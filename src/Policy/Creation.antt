-- ===== src/Policy/Creation.antt =====
-- What a creation does to the tables, on each branch of drawing and inserting the number.
use risk_core.Prelude.{
  arith, Bool, ◌&&◌, ◌||◌, ℕ, ◌+◌, ◌≡◌, refl, ap, true, false, Option, none, some, List, [], ◌∷◌,
  ◌++◌, Text, codes, any, map, length, Bool-cases, Option-cases, inl, inr, ◌⊎◌,
}
use risk_core.Runtime.{Runtime, Draw}
use risk_core.Action.{ok, err}
use risk_core.Outbox.{new_event}
use risk_core.Numbering.{Vendor, generate_policy_number}
use risk_core.Policy.{Policy, Status, World}
use risk_core.Policy.Errors.{Error}
use risk_core.Policy.Events.{build_created}
use risk_core.Policy.Service.{PolicyData, CoverageData}
use risk_core.Policy.Create.{
  coverage_list, has_none, new_coverages, or_empty, create_policy, find_customer, insert_policy,
  clashes,
}

module _ (rt : Runtime) (draw : Draw) where
  -- The row that a creation inserts, under its number.
  abbrev pub new_policy : Text → ℕ → PolicyData → Policy
  new_policy number customer request = record {
    id = draw.uuid 0;
    policy_number = number;
    customer_id = customer;
    policy_type = request.policy_type;
    status = Status.active;
    premium_amount = request.premium_amount;
    start_date = request.start_date;
    end_date = request.end_date;
    description = or_empty request.description;
    cancellation_reason = [];
    created_at = draw.now;
    updated_at = draw.now;
  }

  abbrev pub numbers : World → List Text
  numbers w = map (λ p. p.policy_number) w.policies

  abbrev pub after_create : ℕ → Policy → Option (List CoverageData) → World → World
  after_create sequence p coverages w =
      let n = length (coverage_list coverages) in
      record w {
        policies = w.policies ++ p ∷ [];
        coverages = w.coverages ++ new_coverages draw.uuid 1 p.id (coverage_list coverages);
        outbox =
            w.outbox
            ++ new_event (draw.uuid (2 + n)) (codes "policy") p.id (codes "policy.created")
                (codes "policy.created") (rt.uuid_str p.id)
                (build_created rt (draw.uuid (1 + n)) draw.now p) draw.now
              ∷ [];
        sequence = sequence;
        policies_created_total = w.policies_created_total ++ p.policy_type ∷ [];
      }

  -- Whether the database takes what a creation writes after the policy.
  abbrev pub takes_create : Option (List CoverageData) → Bool
  takes_create coverages = (has_none (coverage_list coverages) || draw.stored 0) && draw.stored 1

  insert_run :
      (vendor : Vendor) (year : ℕ) (request : PolicyData) (w : World) (customer sequence : ℕ)
      (number : Text)
      → generate_policy_number vendor year w.sequence (numbers w) ≡ (some number, sequence)
      → any (clashes (new_policy number customer request)) w.policies ≡ false
      → insert_policy vendor year draw customer request w ≡ (
        ok (new_policy number customer request),
        record w {
          policies = w.policies ++ new_policy number customer request ∷ [];
          sequence = sequence;
        },
      )
  unfolding insert_policy
  insert_run vendor year request w customer sequence number drawn free =
      rw (drawn, insert_policy) (rw free)

  pub insert_failed :
      (vendor : Vendor) (year : ℕ) (request : PolicyData) (w : World) (customer sequence : ℕ)
      (number : Option Text)
      → generate_policy_number vendor year w.sequence (numbers w) ≡ (number, sequence)
      → (number ≡ none)
        ⊎ ((t : Text) × (number ≡ some t)
            × (any (clashes (new_policy t customer request)) w.policies ≡ true))
      → (e : Error) × (insert_policy vendor year draw customer request w
          ≡ (err e, record w { sequence = sequence }))
  unfolding insert_policy
  insert_failed vendor year request w customer sequence number drawn (inl nothing) =
      (Error.value_error, rw (drawn, nothing, insert_policy))
  insert_failed vendor year request w customer sequence number drawn (inr (t, e, taken)) =
      (Error.integrity_error, rw (drawn, e, insert_policy) (rw taken))

  pub create_failed :
      (vendor : Vendor) (year : ℕ) (request : PolicyData) (coverages : Option (List CoverageData))
      (w : World) (customer sequence : ℕ) (e : Error)
      → find_customer request.customer_id w ≡ some customer
      → insert_policy vendor year draw customer request w
        ≡ (err e, record w { sequence = sequence })
      → create_policy rt vendor year draw request coverages w
        ≡ (err e, record w { sequence = sequence })
  unfolding create_policy
  create_failed vendor year request coverages w customer sequence e found failed =
      rw (found, failed)

  pub create_run :
      (vendor : Vendor) (year : ℕ) (request : PolicyData) (coverages : Option (List CoverageData))
      (w : World) (customer sequence : ℕ) (number : Text)
      → find_customer request.customer_id w ≡ some customer
      → generate_policy_number vendor year w.sequence (numbers w) ≡ (some number, sequence)
      → any (clashes (new_policy number customer request)) w.policies ≡ false
      → takes_create coverages ≡ true
      → create_policy rt vendor year draw request coverages w ≡ (
        ok (new_policy number customer request),
        after_create sequence (new_policy number customer request) coverages w,
      )
  unfolding create_policy
  create_run vendor year request coverages w customer sequence number found drawn free takes =
      let s0 : (has_none (coverage_list coverages) || draw.stored 0) ≡ true = ground arith in
      let s1 : draw.stored 1 ≡ true = ground arith in
      rw (found, insert_run vendor year request w customer sequence number drawn free, s0, s1)

  -- A statement that fails undoes those before it, but for the sequence.
  pub create_undone :
      (vendor : Vendor) (year : ℕ) (request : PolicyData) (coverages : Option (List CoverageData))
      (w : World) (customer sequence : ℕ) (number : Text)
      → find_customer request.customer_id w ≡ some customer
      → generate_policy_number vendor year w.sequence (numbers w) ≡ (some number, sequence)
      → any (clashes (new_policy number customer request)) w.policies ≡ false
      → takes_create coverages ≡ false
      → create_policy rt vendor year draw request coverages w
        ≡ (err Error.database_error, record w { sequence = sequence })
  unfolding create_policy
  create_undone vendor year request coverages w customer sequence number found drawn free fails =
      let run = insert_run vendor year request w customer sequence number drawn free in
      elim (Bool-cases (has_none (coverage_list coverages) || draw.stored 0)) [
        | inr f0 ↦ rw (found, run, f0)
        | inl s0 ↦ let f1 : draw.stored 1 ≡ false = ground arith in rw (found, run, s0, f1)
      ]

  -- A creation adds at most one row, an active one, at the end.
  pub create_cases :
      (vendor : Vendor) (year : ℕ) (request : PolicyData) (coverages : Option (List CoverageData))
      (w : World)
      → let w' = (create_policy rt vendor year draw request coverages w).1 in
        (w'.policies ≡ w.policies) ⊎ ((p : Policy) × (w'.policies ≡ w.policies ++ p ∷ []))
  create_cases vendor year request coverages w =
      elim (Option-cases (find_customer request.customer_id w)) [
        | inl missing ↦ inl (unfold create_policy in simp missing)
        | inr (customer, found) ↦
            by_number customer found (generate_policy_number vendor year w.sequence (numbers w)).0
              (generate_policy_number vendor year w.sequence (numbers w)).1 refl
      ]
    where
      by_number :
          (customer : ℕ)
          → find_customer request.customer_id w ≡ some customer
          → (number : Option Text) (sequence : ℕ)
          → generate_policy_number vendor year w.sequence (numbers w) ≡ (number, sequence)
          → let w' = (create_policy rt vendor year draw request coverages w).1 in
            (w'.policies ≡ w.policies) ⊎ ((p : Policy) × (w'.policies ≡ w.policies ++ p ∷ []))
      by_number customer found none sequence e =
          let (x, failed) =
            insert_failed vendor year request w customer sequence none e (inl refl) in
          inl (
            ap (λ r. r.1.policies)
              (create_failed vendor year request coverages w customer sequence x found failed))
      by_number customer found (some number) sequence e =
          elim (Bool-cases (any (clashes (new_policy number customer request)) w.policies)) [
            | inl taken ↦
                let (x, failed) =
                  insert_failed vendor year request w customer sequence (some number) e
                    (inr (number, refl, taken)) in
                inl (
                  ap (λ r. r.1.policies)
                    (create_failed vendor year request coverages w customer sequence x found
                      failed))
            | inr free ↦ elim (Bool-cases (takes_create coverages)) [
              | inl takes ↦ inr (
                new_policy number customer request,
                ap (λ r. r.1.policies)
                    (create_run vendor year request coverages w customer sequence number found e
                      free takes),
              )
              | inr fails ↦ inl (
                  ap (λ r. r.1.policies)
                    (create_undone vendor year request coverages w customer sequence number found e
                      free fails))
            ]
          ]
