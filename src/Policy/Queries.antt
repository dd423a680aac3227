-- ===== src/Policy/Queries.antt =====
-- policy-service/apps/policies/services.py, the operations that only read: get_metrics and
-- get_policies_queryset.
use risk_core.Prelude.{
  ℕ, Bool, Option, none, some, List, [], ◌∷◌, Text, text_eq, is_nonempty, leb, ◌==◌, length, select,
  count, if◌then◌else◌,
}
use risk_core.Prelude.Int.{ℤ, pos, ◌+ℤ◌}
use risk_core.Runtime.{Runtime, date_of}
use risk_core.Policy.{
  Policy, PolicyType, policy_types, policy_type_text, status_text, same_type, is_active,
}

-- A dict from policy types to numbers, in insertion order.
abbrev pub TypeCounts : Type 0
TypeCounts = List (PolicyType × ℕ)

abbrev pub put_count : PolicyType → ℕ → TypeCounts → TypeCounts
put_count t n [] = (t, n) ∷ []
put_count t n ((u, m) ∷ d) = if same_type u t then (u, n) ∷ d else (u, m) ∷ put_count t n d

abbrev pub get_count : PolicyType → TypeCounts → Option ℕ
get_count t [] = none
get_count t ((u, m) ∷ d) = if same_type u t then some m else get_count t d

-- dict.fromkeys(Policy.PolicyType.values, 0)
abbrev pub zeros : List PolicyType → TypeCounts
zeros [] = []
zeros (t ∷ ts) = (t, 0) ∷ zeros ts

abbrev pub of_type : PolicyType → Policy → Bool
of_type t p = same_type p.policy_type t

-- `.values("policy_type").annotate(count=Count("id"))`: a row for each type that occurs.
abbrev pub group_counts : List PolicyType → List Policy → TypeCounts
group_counts [] rows = []
group_counts (t ∷ ts) rows =
    let n = count (of_type t) rows in
    if n == 0 then group_counts ts rows else (t, n) ∷ group_counts ts rows

-- for row in by_type_qs: policies_by_type[row["policy_type"]] = row["count"]
abbrev pub fill : TypeCounts → TypeCounts → TypeCounts
fill [] d = d
fill ((t, n) ∷ rows) d = fill rows (put_count t n d)

-- `aggregate(Sum("premium_amount"))["total"] or Decimal("0")`: a sum over no rows is None.
abbrev pub sum_premium : List Policy → ℤ
sum_premium [] = pos 0
sum_premium (p ∷ rows) = p.premium_amount +ℤ sum_premium rows

pub record Metrics : Type 0 where
  pub active_policies : ℕ
  pub policies_today : ℕ
  pub policies_by_type : TypeCounts
  pub total_premium_active : Text

-- The amounts have two places, so `quantize(Decimal("0.01"))` keeps the sum.
unfoldable pub get_metrics : Runtime → ℕ → List Policy → Metrics
get_metrics rt now rows =
    let active = select is_active rows in
    record {
      active_policies = length active;
      policies_today = count (λ p. date_of p.created_at == date_of now) rows;
      policies_by_type = fill (group_counts policy_types active) (zeros policy_types);
      total_premium_active = rt.decimal_str (sum_premium active);
    }

-- The keyword arguments, which are query parameters; `none` is None.
pub record Filters : Type 0 where
  pub status : Option Text
  pub policy_type : Option Text
  pub customer_id : Option Text
  pub start_date_from : Option Text
  pub start_date_to : Option Text

-- `if value: queryset = queryset.filter(…)`, where the filter reads the value first, and raises
-- ValidationError (`none`) if it cannot.
unfoldable pub filter_by :
    {A B : Type 0} → (Text → Option B) → (B → A → Bool) → Option Text → List A → Option (List A)
filter_by read keep none rows = some rows
filter_by read keep (some value) rows =
    if is_nonempty value
    then (elim (read value) [ none ↦ none | some b ↦ some (select (keep b) rows) ])
    else some rows

infixl 5 ◌>>=◌
abbrev pub ◌>>=◌ : {A B : Type 0} → Option A → (A → Option B) → Option B
none >>= f = none
some a >>= f = f a

abbrev pub keep_status : Text → Policy → Bool
keep_status s p = text_eq s (status_text p.status)

abbrev pub keep_type : Text → Policy → Bool
keep_type t p = text_eq t (policy_type_text p.policy_type)

abbrev pub keep_customer : ℕ → Policy → Bool
keep_customer c p = p.customer_id == c

abbrev pub keep_from : ℕ → Policy → Bool
keep_from d p = leb d p.start_date

abbrev pub keep_to : ℕ → Policy → Bool
keep_to d p = leb p.start_date d

unfoldable pub get_policies_queryset : Runtime → Filters → List Policy → Option (List Policy)
unfolding filter_by
get_policies_queryset rt filters all = do
  a ← filter_by some keep_status filters.status all
  b ← filter_by some keep_type filters.policy_type a
  c ← filter_by rt.parse_uuid keep_customer filters.customer_id b
  d ← filter_by rt.parse_date keep_from filters.start_date_from c
  filter_by rt.parse_date keep_to filters.start_date_to d
