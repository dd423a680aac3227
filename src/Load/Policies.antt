-- ===== src/Load/Policies.antt =====
-- infra/load-testing/scenario_1_policy_creation.py and the setup of scenario_2_claims_filing.py: the
-- users who create customers and policies.
use risk_core.Prelude.{
  ℕ, zero, suc, ◌+◌, Option, none, some, List, [], ◌∷◌, ◌++◌, Text, codes, ◌==◌, if◌then◌else◌,
}
use risk_core.Json.{Json, Fields}
use risk_core.Runtime.{Runtime}
use risk_core.Load.Claims.{Answer}

-- What the payloads draw.
pub record PolicyDraw : Type 0 where
  pub name : Text
  pub hex : Text
  pub dni : Text
  pub today : ℕ
  pub policy_type : Text
  pub premium : Text

-- The payload of `_create_customer`.
unfoldable pub customer_payload : PolicyDraw → Fields
customer_payload d = Fields.field "full_name" (Json.str (codes "Load Tester " ++ d.name)) (
    Fields.field "email" (Json.str (codes "user_" ++ d.hex ++ codes "@loadtest.example")) (
      Fields.field "dni" (Json.str (codes "LT" ++ d.dni)) (
        Fields.field "phone" (Json.str (codes "+34600000000"))
          (Fields.field "address" (Json.str (codes "Calle Test 1")) Fields.end))))

-- `_policy_payload`
unfoldable pub policy_payload : Runtime → PolicyDraw → Text → Fields
policy_payload rt d customer_id = Fields.field "customer_id" (Json.str customer_id) (
    Fields.field "policy_type" (Json.str d.policy_type) (
      Fields.field "premium_amount" (Json.str d.premium) (
        Fields.field "start_date" (Json.str (rt.date_iso d.today)) (
          Fields.field "end_date" (Json.str (rt.date_iso (d.today + 365)))
            (Fields.field "description" (Json.str (codes "Load test policy")) Fields.end)))))

-- The services, as the users meet them: each call changes a state and is answered.
pub record Target (W : Type 0) : Type 0 where
  pub post_customer : Fields → W → Answer × W
  pub post_policy : Fields → W → Answer × W
  pub get_policy : Text → W → Answer × W

-- The identifier of a 201 response, and else one failure.
abbrev created : {W : Type 0} → Answer × W → ℕ → Option Text × (ℕ × W)
created (a, w) failures =
    if a.status == 201 then (a.id, (failures, w)) else (none, (failures + 1, w))

-- `_create_customer` and `_create_policy`, on the number of failures and the services.
unfoldable pub create_customer :
    {W : Type 0} → Target W → PolicyDraw → ℕ × W → Option Text × (ℕ × W)
unfolding customer_payload
create_customer target d (failures, w) =
    created (target.post_customer (customer_payload d) w) failures

unfoldable pub create_policy :
    {W : Type 0} → Target W → Runtime → PolicyDraw → Text → ℕ × W → Option Text × (ℕ × W)
unfolding policy_payload
create_policy target rt d customer_id (failures, w) =
    created (target.post_policy (policy_payload rt d customer_id) w) failures

abbrev got : {W : Type 0} → Answer × W → ℕ → ℕ × W
got (a, w) failures = (if a.status == 200 then failures else failures + 1, w)

abbrev then_get : {W : Type 0} → Target W → Option Text × (ℕ × W) → ℕ × W
then_get target (none, s) = s
then_get target (some [], s) = s
then_get target (some (c ∷ id), (failures, w)) = got (target.get_policy (c ∷ id) w) failures

abbrev then_policy : {W : Type 0} → Target W → Runtime → PolicyDraw → Option Text × (ℕ × W) → ℕ × W
then_policy target rt d (none, s) = s
then_policy target rt d (some [], s) = s
then_policy target rt d (some (c ∷ id), s) = then_get target (create_policy target rt d (c ∷ id) s)

-- The task `create_customer_and_policy`.
unfoldable pub create_customer_and_policy :
    {W : Type 0} → Target W → Runtime → PolicyDraw → ℕ × W → ℕ × W
unfolding create_customer create_policy
create_customer_and_policy target rt d s = then_policy target rt d (create_customer target d s)

-- `on_start`: what it keeps in `_policy_id`.
abbrev start_policy :
    {W : Type 0} → Target W → Runtime → PolicyDraw → Option Text × (ℕ × W) → Option Text × (ℕ × W)
start_policy target rt d (none, s) = (none, s)
start_policy target rt d (some [], s) = (none, s)
start_policy target rt d (some (c ∷ id), s) = create_policy target rt d (c ∷ id) s

unfoldable pub on_start :
    {W : Type 0} → Target W → Runtime → PolicyDraw → ℕ × W → Option Text × (ℕ × W)
unfolding create_customer create_policy
on_start target rt d s = start_policy target rt d (create_customer target d s)

-- `list_policies`, by the status of the response.
abbrev pub list_policies : ℕ → ℕ → ℕ
list_policies status failures = if status == 200 then failures else failures + 1

-- `on_test_start` of the second scenario: the identifiers of the policies that the users share. Its
-- payloads have other texts, and are what `post_customer` and `post_policy` of the target add.
abbrev shared_policy : {W : Type 0} → Option Text × (ℕ × W) → List Text → List Text × W
shared_policy (none, (_, w)) ids = (ids, w)
shared_policy (some id, (_, w)) ids = (ids ++ id ∷ [], w)

abbrev setup_one :
    {W : Type 0} → (Text → W → Answer × W) → List Text → Option Text × (ℕ × W) → List Text × W
setup_one post_policy ids (none, (_, w)) = (ids, w)
setup_one post_policy ids (some customer_id, (_, w)) =
    shared_policy (created (post_policy customer_id w) 0) ids

abbrev pub setup_policy_count : ℕ
setup_policy_count = 50

-- The rounds of the setup, with what the two requests do; `none` at the end is SystemExit.
unfoldable pub setup_loop :
    {W : Type 0} → (W → Answer × W) → (Text → W → Answer × W) → ℕ → List Text × W → List Text × W
setup_loop post_customer post_policy zero s = s
setup_loop post_customer post_policy (suc n) (ids, w) =
    setup_loop post_customer post_policy n (setup_one post_policy ids (created (post_customer w) 0))

abbrev nonempty_or_exit : {W : Type 0} → List Text × W → Option (List Text) × W
nonempty_or_exit ([], w) = (none, w)
nonempty_or_exit (id ∷ ids, w) = (some (id ∷ ids), w)

unfoldable pub on_test_start :
    {W : Type 0} → (W → Answer × W) → (Text → W → Answer × W) → W → Option (List Text) × W
unfolding setup_loop
on_test_start post_customer post_policy w =
    nonempty_or_exit (setup_loop post_customer post_policy setup_policy_count ([], w))
