-- ===== src/Policy/Requests.antt =====
-- policy-service/apps/policies/views.py, the actions of PolicyViewSet that write. The instance is
-- what `get_object` has loaded, at any earlier time: another request may have written its row since.
use risk_core.Prelude.{ℕ, Option, List, [], ◌∷◌, Text}
use risk_core.Runtime.{Runtime, Draw}
use risk_core.Action.{Action}
use risk_core.Numbering.{Vendor}
use risk_core.Policy.{Policy, World}
use risk_core.Policy.Errors.{Error}
use risk_core.Policy.Service.{PolicyData, PolicyChanges, CoverageData, cancel_policy, update_policy}
use risk_core.Policy.Create.{create_policy}

pub data Request : Type 0 where
  create : Vendor → ℕ → PolicyData → Option (List CoverageData) → Request
  partial_update : Policy → PolicyChanges → Request
  cancel : Policy → Text → Request

unfoldable pub perform : Runtime → Draw → Request → Action World Error Policy
unfolding create_policy update_policy cancel_policy
perform rt draw (create vendor year request coverages) =
    create_policy rt vendor year draw request coverages
perform rt draw (partial_update instance_ changes) = update_policy rt draw instance_ changes
perform rt draw (cancel instance_ reason) = cancel_policy rt draw instance_ reason

-- Requests one after the other, each with what it draws.
unfoldable pub serve : Runtime → List (Draw × Request) → World → World
unfolding perform
serve rt [] w = w
serve rt ((draw, request) ∷ rest) w = serve rt rest (perform rt draw request w).1
