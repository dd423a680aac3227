-- ===== src/Policy/Serializers.antt =====
-- policy-service/apps/policies/serializers.py: the validators. An error is the field with its
-- message.
use risk_core.Prelude.{
  ℕ, ◌≤◌, ◌<◌, ◌≡◌, Bool, true, false, not, ◌&&◌, Option, none, some, List, arith, Text, codes,
  text_eq, any, leb, ◌==◌, if◌then◌else◌,
}
use risk_core.Prelude.Int.{ℤ, pos, leb_ℤ}
use risk_core.Action.{Result, ok, err}
use risk_core.Http.{Invalid}
use risk_core.Policy.{Customer, Policy}
use risk_core.Policy.Service.{PolicyChanges, set_if}

-- The rows that the uniqueness test looks at: all, or all but the instance that is updated.
abbrev others : Option ℕ → Customer → Bool
others none c = true
others (some id) c = not (c.id == id)

unfoldable pub validate_email : Option ℕ → List Customer → Text → Result Invalid Text
validate_email instance_ customers value =
    if any (λ c. text_eq c.email value && others instance_ c) customers
    then err (codes "email", codes "Ya existe un cliente con este email.")
    else ok value

unfoldable pub validate_dni : Option ℕ → List Customer → Text → Result Invalid Text
validate_dni instance_ customers value =
    if any (λ c. text_eq c.dni value && others instance_ c) customers
    then err (codes "dni", codes "Ya existe un cliente con este DNI.")
    else ok value

unfoldable pub validate_premium_amount : ℤ → Result Invalid ℤ
validate_premium_amount value =
    if leb_ℤ value (pos 0)
    then err (codes "premium_amount", codes "El monto de prima debe ser mayor a cero.")
    else ok value

abbrev late : Option ℕ → Option ℕ → Bool
late (some start) (some end) = leb end start
late _ _ = false

-- `validate`, over the dates that the request gives: on a partial update either may be missing.
unfoldable pub validate : PolicyChanges → Result Invalid PolicyChanges
validate attrs =
    if late attrs.start_date attrs.end_date
    then err (codes "end_date", codes "La fecha de fin debe ser posterior a la fecha de inicio.")
    else ok attrs

-- A request that gives both dates passes exactly when the start lies before the end; so the two
-- dates of the row that such a request writes are in order.
pub validate_both :
    (attrs : PolicyChanges) (s e : ℕ)
    → attrs.start_date ≡ some s
    → attrs.end_date ≡ some e
    → ((validate attrs ≡ ok attrs) → s < e) × (s < e → validate attrs ≡ ok attrs)
unfolding validate
validate_both attrs s e hs he = (λ h. ground arith, λ h. ground arith)

-- A partial update that gives only the end date is not compared with the start date of the row:
-- for every policy and every end date up to its start, the request passes, and the dates that it
-- leaves in the row are not in order.
pub validate_end_only :
    (p : Policy) (end : ℕ) (attrs : PolicyChanges)
    → end ≤ p.start_date
    → attrs.start_date ≡ none
    → attrs.end_date ≡ some end
    → (validate attrs ≡ ok attrs)
      × (set_if attrs.end_date p.end_date ≤ set_if attrs.start_date p.start_date)
unfolding validate
validate_end_only p end attrs h hs he = (ground arith, rw (hs, he) h)
