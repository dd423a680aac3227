-- ===== src/Integration/Verification.antt =====
-- claims-service/apps/claims/clients.py against the `verify` action of the policy service: the URL
-- that the client asks, and the claims service's verification of a policy in the tables of the
-- policy service.
use Prim.Native.String.{String}
use risk_core.Prelude.{
  ℕ, ◌≡◌, refl, ◌∙◌, sym, ap, Bool, true, false, Option, none, some, [], ◌∷◌, ◌++◌, Text, codes,
  ◌==◌, find_row, Option-cases, inl, inr, if◌then◌else◌,
}
use risk_core.Json.{Json, get_or}
use risk_core.Runtime.{Runtime, Draw, IsFaithful}
use risk_core.Action.{Result, ok, err}
use risk_core.Policy.{Policy, Status, World, policy_id, is_active, status_text, policy_type_text}
use risk_core.Policy.Errors.{policy_not_found, api_exception, error_body}
use risk_core.Policy.Service.{Verification}
use risk_core.Http.{Response, error_json}
use risk_core.Policy.Views.{verify_view, verification_data}
use risk_core.Claims.{Claim, World as ClaimsWorld}
use risk_core.Claims.Service.{ClaimData}
use risk_core.Claims.Requests.{create}
use risk_core.Claims.Filing.{create_effect}
use risk_core.Claims.Errors.{Error, policy_inactive}
use risk_core.Claims.Client.{HttpOutcome, HttpResult, truthy, verify_policy}

-- `text.rstrip("/")`
abbrev pub rstrip_slash : Text → Text
rstrip_slash [] = []
rstrip_slash (c ∷ t) = elim (rstrip_slash t) [
  | [] ↦ if c == 47 then [] else c ∷ []
  | d ∷ u ↦ c ∷ d ∷ u
]

-- The URL of `_http_verify`.
unfoldable pub verify_url : Runtime → Text → ℕ → Text
verify_url rt base_url policy_id =
    rstrip_slash base_url
    ++ codes "/api/policies/policies/"
    ++ rt.uuid_str policy_id
    ++ codes "/verify/"

abbrev pub outcome_of : Response → HttpOutcome
outcome_of r = HttpOutcome.response r.status r.body

-- The verification of a policy by the claims service, where the policy service answers.
unfoldable pub remote_verify :
    {Br : Type 0}
    → Runtime
    → (Text → String)
    → Text
    → (Br → HttpResult → Br × Bool)
    → Br
    → ℕ
    → World
    → Result Error Json × Br
unfolding verify_view verify_policy
remote_verify rt key request_id call breaker id w =
    verify_policy call breaker id (outcome_of (verify_view rt key request_id (rt.uuid_str id) w))

-- The data of a policy.
abbrev pub expected_data : Runtime → Policy → Verification
expected_data rt p = record {
  policy_id = rt.uuid_str p.id;
  status = status_text p.status;
  is_valid = is_active p;
  customer_id = rt.uuid_str p.customer_id;
  policy_type = policy_type_text p.policy_type;
}

-- What the claims service ought to learn of a policy, told without any HTTP.
abbrev pub expected : Runtime → ℕ → Option Policy → Result Error Json
expected rt id none = err (policy_inactive (some id) (Json.str (codes "NOT_FOUND")))
expected rt id (some p) =
    if is_active p
    then ok (verification_data (expected_data rt p))
    else err (policy_inactive (some id) (Json.str (status_text p.status)))

module _ {Br : Type 0} (rt : Runtime) (faithful : IsFaithful rt) (key : Text → String)
    (request_id : Text) (call : Br → HttpResult → Br × Bool) (breaker : Br) (id : ℕ)
    (w : World) where
  -- The response that the client gets, and what it comes to.
  abbrev answer : HttpOutcome
  answer = outcome_of (verify_view rt key request_id (rt.uuid_str id) w)

  abbrev not_found_json : Json
  not_found_json = elim (api_exception rt (policy_not_found (some id))) [
    | none ↦ Json.null
    | some (_, exc) ↦ error_json key (error_body exc (some request_id))
  ]

  view_found :
      (p : Policy)
      → find_row policy_id id w.policies ≡ some p
      → answer ≡ HttpOutcome.response 200 (some (verification_data (expected_data rt p)))
  unfolding verify_view
  view_found p found = simp (faithful.uuid_back id, found)

  view_missing :
      find_row policy_id id w.policies ≡ none
      → answer ≡ HttpOutcome.response 404 (some not_found_json)
  unfolding verify_view api_exception error_body
  view_missing missing = simp (faithful.uuid_back id, missing)

-- Whether a response has a JSON object whose "is_valid" is true.
abbrev says_valid : HttpOutcome → Bool
says_valid (HttpOutcome.response status (some (Json.obj fields))) =
    truthy (get_or "is_valid" Json.null fields)
says_valid _ = false

-- A claim that the claims service creates on the answer of the policy service is of a policy that
-- is in the policy service's tables, and is ACTIVE there.
pub create_active :
    {Br : Type 0} (rt : Runtime) (faithful : IsFaithful rt) (key : Text → String)
    (request_id : Text) (year : ℕ) (draw : Draw) (call : Br → HttpResult → Br × Bool)
    (request : ClaimData) (b : Br) (policies : World) (claims : ClaimsWorld) (c : Claim)
    → (create rt year draw call request
        (outcome_of (verify_view rt key request_id (rt.uuid_str request.policy_id) policies))
        (b, claims)).0
      ≡ ok c
    → (p : Policy) × (find_row policy_id c.policy_id policies.policies ≡ some p)
      × (p.status ≡ Status.active)
unfolding error_json api_exception verification_data
create_active rt faithful key request_id year draw call request b policies claims c h =
    let (status, fields, answered, valid, _, own, _, _, _, _, _, _, _) =
      create_effect rt year draw call request _ b claims c h in
    elim (Option-cases (find_row policy_id request.policy_id policies.policies)) [
      | inl missing ↦
          let e =
            view_missing rt faithful key request_id call b request.policy_id policies missing in
          let no_ : false ≡ true = sym (ap says_valid e) ∙ ap says_valid answered ∙ valid in
          absurd (cc)
      | inr (p, found) ↦
          let e = view_found rt faithful key request_id call b request.policy_id policies p found in
          let active : is_active p ≡ true =
            sym (ap says_valid e) ∙ ap says_valid answered ∙ valid in
          (
            p,
            ap (λ i. find_row policy_id i policies.policies) own ∙ found,
            is_active_lem p.status active,
          )
    ]
  where
    is_active_lem :
        (s : Status) → (elim s [ Status.active ↦ true | _ ↦ false ]) ≡ true → s ≡ Status.active
    is_active_lem Status.active h = refl
    is_active_lem Status.suspended h = absurd (cc)
    is_active_lem Status.cancelled h = absurd (cc)
    is_active_lem Status.expired h = absurd (cc)
