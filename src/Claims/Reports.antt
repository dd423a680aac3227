-- ===== src/Claims/Reports.antt =====
-- That the metrics of the claims service count what they say.
use risk_core.Prelude.{ℕ, ◌+◌, ◌≡◌, refl, not, some, List, [], ◌∷◌, arith, count}
use risk_core.Prelude.Int.{ℤ}
use risk_core.Claims.{Claim, ClaimStatusHistory, Status}
use risk_core.Claims.Queries.{statuses, get_count, zeros, has_status, by_status, fill, get_metrics}

-- Each status of the dict has the number of claims in it.
status_count :
    (rows : List Claim) (s : Status)
    → get_count s (fill (by_status statuses rows) (zeros statuses))
      ≡ some (count (has_status s) rows)
status_count rows Status.filed = ground arith
status_count rows Status.under_review = ground arith
status_count rows Status.approved = ground arith
status_count rows Status.rejected = ground arith
status_count rows Status.resolved = ground arith

-- A claim has one status.
open_counts :
    (rows : List Claim)
    → count (has_status Status.filed) rows
        + count (has_status Status.under_review) rows
        + count (has_status Status.approved) rows
        + count (has_status Status.rejected) rows
      ≡ count (λ c. not (has_status Status.resolved c)) rows
open_counts [] = refl
open_counts (c ∷ rows) = one (open_counts rows) c.status refl
  where
    one :
        count (has_status Status.filed) rows
            + count (has_status Status.under_review) rows
            + count (has_status Status.approved) rows
            + count (has_status Status.rejected) rows
          ≡ count (λ c. not (has_status Status.resolved c)) rows
        → (s : Status) → c.status ≡ s
        → count (has_status Status.filed) (c ∷ rows)
            + count (has_status Status.under_review) (c ∷ rows)
            + count (has_status Status.approved) (c ∷ rows)
            + count (has_status Status.rejected) (c ∷ rows)
          ≡ count (λ c. not (has_status Status.resolved c)) (c ∷ rows)
    one ih Status.filed e = ground arith
    one ih Status.under_review e = ground arith
    one ih Status.approved e = ground arith
    one ih Status.rejected e = ground arith
    one ih Status.resolved e = ground arith

-- The dict of the claims' metrics has, under every status, the number of claims in it, statuses
-- with none included, and `open_claims` is the sum of the four that are not RESOLVED.
pub get_metrics_by_status :
    (quotient : ℤ → ℕ → ℤ) (now : ℕ) (rows : List Claim) (history : List ClaimStatusHistory)
    → let m = get_metrics quotient now rows history in
      ((s : Status) → get_count s m.claims_by_status ≡ some (count (has_status s) rows))
      × (count (has_status Status.filed) rows
            + count (has_status Status.under_review) rows
            + count (has_status Status.approved) rows
            + count (has_status Status.rejected) rows
          ≡ m.open_claims)
unfolding get_metrics
get_metrics_by_status quotient now rows history = (status_count rows, open_counts rows)
