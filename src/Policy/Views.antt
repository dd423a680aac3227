-- ===== src/Policy/Views.antt =====
-- policy-service/apps/policies/views.py with the serializers that it answers by: what a request is
-- answered with. Reading the body of a request is the framework's work, so the views take what the
-- framework hands on.
use Prim.Native.String.{String}
use risk_core.Prelude.{ℕ, Option, none, some, List, [], ◌∷◌, select, Text, codes, ◌==◌, find_row}
use risk_core.Prelude.Int.{ℤ}
use risk_core.Json.{Json, Items, Fields}
use risk_core.Runtime.{Runtime, Draw}
use risk_core.Action.{Result, ok, err}
use risk_core.Numbering.{Vendor}
use risk_core.Http.{Response, server_error, handled, error_json, respond_invalid, http_404}
use risk_core.Policy.{Policy, Coverage, World, policy_id, policy_type_text, status_text}
use risk_core.Policy.Errors.{Error, api_exception, custom_exception_handler}
use risk_core.Http.{Invalid}
use risk_core.Policy.Serializers.{validate_premium_amount, validate}
use risk_core.Policy.Service.{
  PolicyData, PolicyChanges, Verification, cancel_policy, update_policy, verify_policy,
}
use risk_core.Policy.Create.{create_policy}

-- An exception of the service. The framework's handler answers an APIException by its status.
unfoldable pub respond_error : Runtime → (Text → String) → Text → Error → Response
unfolding api_exception custom_exception_handler error_json
respond_error rt key request_id e = elim (api_exception rt e) [
  | none ↦ server_error
  | some (status, exc) ↦
      handled key (custom_exception_handler (λ _. some status) exc (some request_id))
]

-- `CoverageSerializer(many=True)`
unfoldable pub coverage_data : Runtime → Coverage → Json
coverage_data rt c = Json.obj (
    Fields.field "id" (Json.str (rt.uuid_str c.id)) (
      Fields.field "coverage_type" (Json.str c.coverage_type) (
        Fields.field "coverage_amount" (Json.str (rt.decimal_str c.coverage_amount))
          (Fields.field "description" (Json.str c.description) Fields.end))))

abbrev pub coverage_items : Runtime → List Coverage → Items
coverage_items rt [] = Items.nil
coverage_items rt (c ∷ rest) = Items.cons (coverage_data rt c) (coverage_items rt rest)

-- `PolicySerializer(policy).data`, over the coverages of the table; `customer_id` is write only.
unfoldable pub policy_data : Runtime → List Coverage → Policy → Json
unfolding coverage_data
policy_data rt coverages p = Json.obj (
    Fields.field "id" (Json.str (rt.uuid_str p.id)) (
      Fields.field "policy_number" (Json.str p.policy_number) (
        Fields.field "policy_type" (Json.str (policy_type_text p.policy_type)) (
          Fields.field "status" (Json.str (status_text p.status)) (
            Fields.field "premium_amount" (Json.str (rt.decimal_str p.premium_amount)) (
              Fields.field "start_date" (Json.str (rt.date_iso p.start_date)) (
                Fields.field "end_date" (Json.str (rt.date_iso p.end_date)) (
                  Fields.field "description" (Json.str p.description) (
                    Fields.field "cancellation_reason" (Json.str p.cancellation_reason) (
                      Fields.field "coverages"
                        (Json.arr (coverage_items rt (select (λ c. c.policy_id == p.id) coverages)))
                        (Fields.field "created_at" (Json.str (rt.datetime_iso p.created_at)) (
                          Fields.field "updated_at" (Json.str (rt.datetime_iso p.updated_at))
                            Fields.end))))))))))))

-- `PolicyVerifySerializer(result).data`: the policy type of the result is left out.
unfoldable pub verification_data : Verification → Json
verification_data v = Json.obj (
    Fields.field "policy_id" (Json.str v.policy_id) (
      Fields.field "status" (Json.str v.status) (
        Fields.field "is_valid" (Json.bool v.is_valid)
          (Fields.field "customer_id" (Json.str v.customer_id) Fields.end))))

abbrev verified : Runtime → (Text → String) → Text → Result Error Verification → Response
verified rt key request_id (ok v) = record { status = 200; body = some (verification_data v) }
verified rt key request_id (err e) = respond_error rt key request_id e

abbrev verified_at : Runtime → (Text → String) → Text → World → Option ℕ → Response
verified_at rt key request_id w none = server_error
verified_at rt key request_id w (some id) = verified rt key request_id (verify_policy rt id w).0

-- `verify`: a key that is no UUID raises Django's ValidationError, which nobody answers.
unfoldable pub verify_view : Runtime → (Text → String) → Text → Text → World → Response
unfolding verification_data verify_policy respond_error
verify_view rt key request_id pk w = verified_at rt key request_id w (rt.parse_uuid pk)

-- A policy, or the response to its exception.
abbrev pub answered :
    Runtime → (Text → String) → Text → ℕ → Result Error Policy × World → Response × World
answered rt key request_id status (ok p, w) =
    (record { status = status; body = some (policy_data rt w.coverages p) }, w)
answered rt key request_id status (err e, w) = (respond_error rt key request_id e, w)

abbrev pub changes_of : PolicyData → PolicyChanges
changes_of d = record {
  premium_amount = some d.premium_amount;
  start_date = some d.start_date;
  end_date = some d.end_date;
  description = d.description;
  policy_type = some d.policy_type;
}

-- The validators of PolicySerializer, field by field and then on all.
abbrev pub check_amount : Option ℤ → Result Invalid (Option ℤ)
check_amount none = ok none
check_amount (some a) = elim (validate_premium_amount a) [ ok b ↦ ok (some b) | err e ↦ err e ]

unfoldable pub is_valid : PolicyChanges → Result Invalid PolicyChanges
unfolding validate_premium_amount validate
is_valid changes = elim (check_amount changes.premium_amount) [
  | ok _ ↦ validate changes
  | err e ↦ err e
]

-- `create`
unfoldable pub create_view :
    Runtime → Vendor → ℕ → Draw → (Text → String) → Text → PolicyData → World → Response × World
unfolding is_valid respond_invalid respond_error policy_data create_policy
create_view rt vendor year draw key request_id request w = elim (is_valid (changes_of request)) [
  | err e ↦ (respond_invalid key request_id e, w)
  | ok _ ↦ answered rt key request_id 201 (create_policy rt vendor year draw request none w)
]

-- `partial_update`
unfoldable pub partial_update_view :
    Runtime → Draw → (Text → String) → Text → ℕ → PolicyChanges → World → Response × World
unfolding is_valid respond_invalid respond_error policy_data update_policy
partial_update_view rt draw key request_id pk changes w = elim (find_row policy_id pk w.policies) [
  | none ↦ (http_404 key request_id (codes "No Policy matches the given query."), w)
  | some p ↦ elim (is_valid changes) [
    | err e ↦ (respond_invalid key request_id e, w)
    | ok _ ↦ answered rt key request_id 200 (update_policy rt draw p changes w)
  ]
]

-- `cancel`, with the reason that the serializer requires to be there and not blank.
unfoldable pub cancel_view :
    Runtime → Draw → (Text → String) → Text → ℕ → Option Text → World → Response × World
unfolding respond_invalid respond_error policy_data cancel_policy
cancel_view rt draw key request_id pk reason w = elim (find_row policy_id pk w.policies) [
  | none ↦ (http_404 key request_id (codes "No Policy matches the given query."), w)
  | some p ↦ elim reason [
    | none ↦ (respond_invalid key request_id (codes "reason", codes "This field is required."), w)
    | some r ↦ answered rt key request_id 200 (cancel_policy rt draw p r w)
  ]
]
