-- ===== src/Claims/Queries.antt =====
-- claims-service/apps/claims/services.py, the operations that only read: get_metrics and
-- get_claims_queryset.
use risk_core.Prelude.{
  ℕ, ◌-◌, Bool, not, ◌&&◌, Option, none, some, List, [], ◌∷◌, Text, text_eq, leb, ◌==◌, length,
  select, count, find_row, if◌then◌else◌,
}
use risk_core.Prelude.Int.{ℤ, pos, ◌+ℤ◌, sub_ℕ}
use risk_core.Runtime.{Runtime, date_of}
use risk_core.Policy.Queries.{filter_by, ◌>>=◌}
use risk_core.Claims.{
  Claim, ClaimStatusHistory, Status, row_id, same_status, status_text, incident_type_text,
}

-- `Claim.Status.values`
abbrev pub statuses : List Status
statuses =
    Status.filed ∷ Status.under_review ∷ Status.approved ∷ Status.rejected ∷ Status.resolved ∷ []

-- A dict from statuses to numbers, in insertion order.
abbrev pub StatusCounts : Type 0
StatusCounts = List (Status × ℕ)

abbrev pub put_count : Status → ℕ → StatusCounts → StatusCounts
put_count s n [] = (s, n) ∷ []
put_count s n ((u, m) ∷ d) = if same_status u s then (u, n) ∷ d else (u, m) ∷ put_count s n d

abbrev pub get_count : Status → StatusCounts → Option ℕ
get_count s [] = none
get_count s ((u, m) ∷ d) = if same_status u s then some m else get_count s d

-- dict.fromkeys(Claim.Status.values, 0)
abbrev pub zeros : List Status → StatusCounts
zeros [] = []
zeros (s ∷ rest) = (s, 0) ∷ zeros rest

abbrev pub has_status : Status → Claim → Bool
has_status s c = same_status c.status s

-- `.values("status").annotate(count=Count("id"))`: a row for each status that occurs.
abbrev pub by_status : List Status → List Claim → StatusCounts
by_status [] rows = []
by_status (s ∷ rest) rows =
    let n = count (has_status s) rows in
    if n == 0 then by_status rest rows else (s, n) ∷ by_status rest rows

-- for row in by_status_qs: claims_by_status[row["status"]] = row["count"]
abbrev pub fill : StatusCounts → StatusCounts → StatusCounts
fill [] d = d
fill ((s, n) ∷ rows) d = fill rows (put_count s n d)

-- The rows of `resolved_history`, with the days from the filing of their claim to them.
abbrev pub is_recent : ℕ → ClaimStatusHistory → Bool
is_recent now h =
    same_status h.to_status Status.resolved && leb (date_of now - 30) (date_of h.changed_at)

abbrev pub days_list : List Claim → List ClaimStatusHistory → List ℤ
days_list claims [] = []
days_list claims (h ∷ rows) = elim (find_row row_id h.claim_id claims) [
  | none ↦ days_list claims rows
  | some c ↦ sub_ℕ (date_of h.changed_at) (date_of c.filed_at) ∷ days_list claims rows
]

abbrev pub sum_ℤ : List ℤ → ℤ
sum_ℤ [] = pos 0
sum_ℤ (x ∷ xs) = x +ℤ sum_ℤ xs

pub record Metrics : Type 0 where
  pub open_claims : ℕ
  pub claims_today : ℕ
  pub claims_by_status : StatusCounts
  pub avg_resolution_days : ℤ

-- `round(sum(days) / len(days), 1) if days else 0.0`, in tenths; the rounded quotient of floats is
-- the argument.
abbrev pub average : (ℤ → ℕ → ℤ) → List ℤ → ℤ
average quotient [] = pos 0
average quotient (x ∷ xs) = quotient (sum_ℤ (x ∷ xs)) (length (x ∷ xs))

unfoldable pub get_metrics : (ℤ → ℕ → ℤ) → ℕ → List Claim → List ClaimStatusHistory → Metrics
get_metrics quotient now claims history = record {
  open_claims = count (λ c. not (has_status Status.resolved c)) claims;
  claims_today = count (λ c. date_of c.filed_at == date_of now) claims;
  claims_by_status = fill (by_status statuses claims) (zeros statuses);
  avg_resolution_days = average quotient (days_list claims (select (is_recent now) history));
}

-- The keyword arguments, which are query parameters; `none` is None.
pub record Filters : Type 0 where
  pub status : Option Text
  pub policy_id : Option Text
  pub incident_type : Option Text

unfoldable pub get_claims_queryset : Runtime → Filters → List Claim → Option (List Claim)
unfolding filter_by
get_claims_queryset rt filters all = do
  a ← filter_by some (λ s c. text_eq s (status_text c.status)) filters.status all
  b ← filter_by rt.parse_uuid (λ u c. c.policy_id == u) filters.policy_id a
  filter_by some (λ t c. text_eq t (incident_type_text c.incident_type)) filters.incident_type b
