-- ===== src/Notifications/Queries.antt =====
-- notification-service/apps/notifications/services.py and the filters of views.py.
use risk_core.Prelude.{
  ℕ, ◌+◌, ◌-◌, ◌≡◌, Bool, false, ◌&&◌, Option, none, some, List, [], ◌∷◌, Text, codes, text_eq, leb,
  ltb, ◌==◌, count, Bool-cases, inl, inr, arith, if◌then◌else◌,
}
use risk_core.Runtime.{date_of}
use risk_core.Policy.Queries.{filter_by, ◌>>=◌}
use risk_core.Notifications.{Notification, Status, same_status}

abbrev pub has_status : Status → Notification → Bool
has_status s n = same_status n.status s

abbrev pub sent_on : ℕ → Notification → Bool
sent_on day n = elim n.sent_at [ none ↦ false | some t ↦ date_of t == day ]

-- `.values("status").annotate(count=Count("id"))` over the rows that are SENT or FAILED: a row for
-- each status that occurs.
abbrev pub week_agg : (Notification → Bool) → List Status → List Notification → List (Status × ℕ)
week_agg recent [] rows = []
week_agg recent (s ∷ rest) rows =
    let n = count (λ x. recent x && has_status s x) rows in
    if n == 0 then week_agg recent rest rows else (s, n) ∷ week_agg recent rest rows

-- The loop over `week_agg`, on (sent_7d, failed_7d).
abbrev pub read_agg : List (Status × ℕ) → ℕ × ℕ → ℕ × ℕ
read_agg [] state = state
read_agg ((Status.sent, n) ∷ rest) (sent, failed) = read_agg rest (n, failed)
read_agg ((Status.failed, n) ∷ rest) (sent, failed) = read_agg rest (sent, n)
read_agg ((Status.pending, n) ∷ rest) state = read_agg rest state

pub record Metrics : Type 0 where
  pub sent_today : ℕ
  pub failed_today : ℕ
  pub pending : ℕ
  pub success_rate_7d : ℕ

-- round((sent / total) * 100, 1), in tenths, is the argument `percent`.
abbrev pub success_rate : (ℕ → ℕ → ℕ) → ℕ × ℕ → ℕ
success_rate percent (sent, failed) =
    if ltb 0 (sent + failed) then percent sent (sent + failed) else 1000

-- The rows of the last seven days.
abbrev pub recent : ℕ → Notification → Bool
recent now n = leb (date_of now - 7) (date_of n.created_at)

unfoldable pub get_metrics : (ℕ → ℕ → ℕ) → ℕ → List Notification → Metrics
get_metrics percent now rows = record {
  sent_today = count (λ n. has_status Status.sent n && sent_on (date_of now) n) rows;
  failed_today =
      count (λ n. has_status Status.failed n && (date_of n.created_at == date_of now)) rows;
  pending = count (has_status Status.pending) rows;
  success_rate_7d =
      success_rate percent
        (read_agg (week_agg (recent now) (Status.sent ∷ Status.failed ∷ []) rows) (0, 0));
}

abbrev pub status_text : Status → Text
status_text Status.pending = codes "PENDING"
status_text Status.sent = codes "SENT"
status_text Status.failed = codes "FAILED"

unfoldable pub get_queryset :
    Option Text → Option Text → List Notification → Option (List Notification)
unfolding filter_by
get_queryset status event_type all = do
  rows ← filter_by some (λ s n. text_eq s (status_text n.status)) status all
  filter_by some (λ t n. text_eq t n.event_type) event_type rows

-- The success rate is computed from the number of rows of the last seven days that are SENT and
-- of those that are FAILED, and is 100.0 where there is neither.
pub get_metrics_rate :
    (percent : ℕ → ℕ → ℕ) (now : ℕ) (rows : List Notification)
    → let sent = count (λ x. recent now x && has_status Status.sent x) rows in
      let failed = count (λ x. recent now x && has_status Status.failed x) rows in
      (get_metrics percent now rows).success_rate_7d
      ≡ (if ltb 0 (sent + failed) then percent sent (sent + failed) else 1000)
unfolding get_metrics
get_metrics_rate percent now rows =
    elim (Bool-cases (count (λ x. recent now x && has_status Status.sent x) rows == 0)) [
      | inl a ↦
          elim (Bool-cases (count (λ x. recent now x && has_status Status.failed x) rows == 0)) [
            | inl b ↦ ground arith
            | inr b ↦ ground arith
          ]
      | inr a ↦
          elim (Bool-cases (count (λ x. recent now x && has_status Status.failed x) rows == 0)) [
            | inl b ↦ ground arith
            | inr b ↦ ground arith
          ]
    ]
