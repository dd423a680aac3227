-- ===== src/Policy/Register.antt =====
-- That the customers of the table stay apart.
use risk_core.Prelude.{
  ◌≡◌, refl, true, false, ◌&&◌, List, [], ◌∷◌, ◌++◌, arith, text_eq, text_eq_comm, any, ◌==◌,
  Bool-cases, inl, inr,
}
use risk_core.Runtime.{Draw}
use risk_core.Action.{ok}
use risk_core.Policy.{Customer}
use risk_core.Policy.Serializers.{validate_email, validate_dni}
use risk_core.Policy.Customers.{CustomerData, clash, new_customer, customer_errors, create_customer}

no_clash :
    (c : Customer) (rows : List Customer)
    → any (λ x. text_eq x.email c.email && true) rows ≡ false
    → any (λ x. text_eq x.dni c.dni && true) rows ≡ false
    → any (λ x. c.id == x.id) rows ≡ false
    → any (clash c) rows ≡ false
no_clash c [] he hd hi = refl
no_clash c (x ∷ rows) he hd hi =
    ground (arith, text_eq_comm c.email x.email, text_eq_comm c.dni x.dni, no_clash c rows)

no_errors :
    (d : CustomerData) (rows : List Customer)
    → customer_errors rows d ≡ []
    → (any (λ x. text_eq x.email d.email && true) rows ≡ false)
      × (any (λ x. text_eq x.dni d.dni && true) rows ≡ false)
unfolding customer_errors validate_email validate_dni
no_errors d rows h = elim (Bool-cases (any (λ x. text_eq x.email d.email && true) rows)) [
  | inl taken ↦ absurd (let no_ = simp taken at h in cc)
  | inr email ↦ elim (Bool-cases (any (λ x. text_eq x.dni d.dni && true) rows)) [
    | inl taken ↦ absurd (let no_ = simp (email, taken) at h in cc)
    | inr dni ↦ (email, dni)
  ]
]

-- Where the validators see the table of the insert and find no error, the customer is created,
-- unless its drawn identifier is in use.
pub create_customer_ok :
    (draw : Draw) (d : CustomerData) (rows : List Customer)
    → customer_errors rows d ≡ []
    → any (λ x. draw.uuid 0 == x.id) rows ≡ false
    → create_customer draw d rows rows
      ≡ (ok (new_customer draw d), rows ++ new_customer draw d ∷ [])
create_customer_ok draw d rows h fresh =
    let (email, dni) = no_errors d rows h in
    let free = no_clash (new_customer draw d) rows email dni fresh in
    unfold create_customer in simp (h, free)
