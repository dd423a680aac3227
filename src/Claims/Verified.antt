-- ===== src/Claims/Verified.antt =====
-- When the call of the policy service lets a claim through.
use risk_core.Prelude.{
  ℕ, ◌≡◌, refl, Bool, true, false, ◌&&◌, none, some, arith, leb, ltb, Bool-cases, inl, inr,
}
use risk_core.Json.{Json, Fields, get_or}
use risk_core.Action.{ok}
use risk_core.Claims.Client.{
  HttpOutcome, HttpResult, http_verify, truthy, check_data, after_call, verify_policy,
}

-- A body that passes `check_data` is an object with a true "is_valid".
check_data_ok :
    (policy_id : ℕ) (d j : Json)
    → check_data policy_id d ≡ ok j
    → (fields : Fields) × (d ≡ Json.obj fields)
      × (j ≡ Json.obj fields)
      × (truthy (get_or "is_valid" Json.null fields) ≡ true)
unfolding check_data
check_data_ok policy_id (Json.obj fields) j h =
    elim (Bool-cases (truthy (get_or "is_valid" Json.null fields))) [
      | inl valid ↦ (fields, refl, ground arith, valid)
      | inr invalid ↦ absurd (ground arith)
    ]
check_data_ok policy_id Json.null j h = absurd (cc)
check_data_ok policy_id (Json.bool _) j h = absurd (cc)
check_data_ok policy_id (Json.num _) j h = absurd (cc)
check_data_ok policy_id (Json.str _) j h = absurd (cc)
check_data_ok policy_id (Json.arr _) j h = absurd (cc)

after_call_ok :
    (policy_id : ℕ) (refused : Bool) (r : HttpResult) (j : Json)
    → after_call policy_id refused r ≡ ok j
    → (refused ≡ false) × (d : Json) × (r ≡ HttpResult.data_of d) × (check_data policy_id d ≡ ok j)
unfolding after_call
after_call_ok policy_id true r j h = absurd (cc)
after_call_ok policy_id false (HttpResult.data_of d) j h = (refl, d, refl, h)
after_call_ok policy_id false (HttpResult.business_error status d) j h = absurd (ground arith)
after_call_ok policy_id false HttpResult.infra_error j h = absurd (cc)
after_call_ok policy_id false HttpResult.decode_error j h = absurd (cc)

http_verify_ok :
    (outcome : HttpOutcome) (d : Json)
    → http_verify outcome ≡ HttpResult.data_of d
    → (status : ℕ) × (outcome ≡ HttpOutcome.response status (some d))
      × ((leb 200 status && ltb status 300) ≡ true)
unfolding http_verify
http_verify_ok HttpOutcome.request_error d h = absurd (cc)
http_verify_ok (HttpOutcome.response status none) d h = absurd (ground arith)
http_verify_ok (HttpOutcome.response status (some body)) d h =
    elim (Bool-cases (leb 200 status && ltb status 300)) [
      | inl valid ↦ (status, ground arith, valid)
      | inr invalid ↦ absurd (ground arith)
    ]

-- A verification that returns data had the call let through by the breaker and answered with a
-- status from 200 to 299, and its body is a JSON object whose "is_valid" is true in Python's
-- sense; it returns that object.
pub verify_policy_ok :
    {Br : Type 0} (call : Br → HttpResult → Br × Bool) (b : Br) (policy_id : ℕ)
    (outcome : HttpOutcome) (j : Json)
    → (verify_policy call b policy_id outcome).0 ≡ ok j
    → (status : ℕ) × (fields : Fields) × (outcome ≡ HttpOutcome.response status (some j))
      × (j ≡ Json.obj fields)
      × (truthy (get_or "is_valid" Json.null fields) ≡ true)
      × ((leb 200 status && ltb status 300) ≡ true)
      × ((call b (http_verify outcome)).1 ≡ false)
unfolding verify_policy
verify_policy_ok call b policy_id outcome j h =
    let (through, d, returned, passed) = after_call_ok policy_id _ _ j h in
    let (status, answered, fine) = http_verify_ok outcome d returned in
    let (fields, shape, same, valid) = check_data_ok policy_id d j passed in
    (status, fields, rw (answered, shape, same), same, valid, fine, through)
