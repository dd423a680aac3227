-- ===== src/Claims/Views.antt =====
-- claims-service/apps/claims/serializers.py and views.py: what a request is answered with.
use Prim.Native.String.{String}
use risk_core.Prelude.{
  ℕ, Bool, Option, none, some, List, [], ◌∷◌, select, Text, codes, ◌==◌, find_row,
}
use risk_core.Json.{Json, Items, Fields}
use risk_core.Runtime.{Runtime, Draw}
use risk_core.Action.{Result, ok, err}
use risk_core.Policy.Errors.{custom_exception_handler}
use risk_core.Http.{Response, server_error, handled, error_json, Invalid, respond_invalid}
use risk_core.Claims.{
  Claim, ClaimStatusHistory, Status, World, row_id, status_text, incident_type_text,
}
use risk_core.Claims.Errors.{Error, amount_required, invalid_data, claim_not_found, api_exception}
use risk_core.Claims.Client.{HttpOutcome, HttpResult}
use risk_core.Claims.Service.{ClaimData, TransitionData}
use risk_core.Claims.Requests.{create, transition}

pub record ClaimDocument : Type 0 where
  pub id : ℕ
  pub claim_id : ℕ
  pub document_type : Text
  pub file_url : Text
  pub uploaded_at : ℕ

abbrev pub opt_json : {A : Type 0} → (A → Json) → Option A → Json
opt_json f none = Json.null
opt_json f (some a) = f a

-- `from_status` of the first row is the empty text.
abbrev pub from_json : Option Status → Json
from_json none = Json.str []
from_json (some s) = Json.str (status_text s)

-- `ClaimStatusHistorySerializer`
unfoldable pub history_data : Runtime → ClaimStatusHistory → Json
history_data rt h = Json.obj (
    Fields.field "from_status" (from_json h.from_status) (
      Fields.field "to_status" (Json.str (status_text h.to_status)) (
        Fields.field "changed_at" (Json.str (rt.datetime_iso h.changed_at))
          (Fields.field "notes" (Json.str h.notes) Fields.end))))

-- `ClaimDocumentSerializer`
unfoldable pub document_data : Runtime → ClaimDocument → Json
document_data rt d = Json.obj (
    Fields.field "id" (Json.str (rt.uuid_str d.id)) (
      Fields.field "document_type" (Json.str d.document_type) (
        Fields.field "file_url" (Json.str d.file_url)
          (Fields.field "uploaded_at" (Json.str (rt.datetime_iso d.uploaded_at)) Fields.end))))

-- `many=True`
abbrev pub many : {A : Type 0} → (A → Json) → List A → Items
many f [] = Items.nil
many f (a ∷ rest) = Items.cons (f a) (many f rest)

-- `ClaimSerializer(claim).data`, over the tables of history rows and documents.
unfoldable pub claim_data : Runtime → List ClaimStatusHistory → List ClaimDocument → Claim → Json
unfolding history_data document_data
claim_data rt history documents c = Json.obj (
    Fields.field "id" (Json.str (rt.uuid_str c.id)) (
      Fields.field "claim_number" (Json.str c.claim_number) (
        Fields.field "policy_id" (Json.str (rt.uuid_str c.policy_id)) (
          Fields.field "claimant_name" (Json.str c.claimant_name) (
            Fields.field "claimant_email" (Json.str c.claimant_email) (
              Fields.field "incident_date" (Json.str (rt.date_iso c.incident_date)) (
                Fields.field "incident_type" (Json.str (incident_type_text c.incident_type)) (
                  Fields.field "description" (Json.str c.description) (
                    Fields.field "estimated_damage" (Json.str (rt.decimal_str c.estimated_damage)) (
                      Fields.field "approved_amount"
                        (opt_json (λ a. Json.str (rt.decimal_str a)) c.approved_amount)
                        (Fields.field "location" (Json.str c.location) (
                          Fields.field "status" (Json.str (status_text c.status)) (
                            Fields.field "filed_at" (Json.str (rt.datetime_iso c.filed_at)) (
                              Fields.field "updated_at" (Json.str (rt.datetime_iso c.updated_at)) (
                                Fields.field "status_history"
                                  (Json.arr (
                                    many (history_data rt)
                                      (select (λ h. h.claim_id == c.id) history)))
                                  (Fields.field "documents"
                                    (Json.arr (
                                      many (document_data rt)
                                        (select (λ d. d.claim_id == c.id) documents)))
                                    Fields.end))))))))))))))))

-- `ClaimListSerializer(claim).data`
unfoldable pub claim_list_data : Runtime → Claim → Json
claim_list_data rt c = Json.obj (
    Fields.field "id" (Json.str (rt.uuid_str c.id)) (
      Fields.field "claim_number" (Json.str c.claim_number) (
        Fields.field "policy_id" (Json.str (rt.uuid_str c.policy_id)) (
          Fields.field "claimant_name" (Json.str c.claimant_name) (
            Fields.field "claimant_email" (Json.str c.claimant_email) (
              Fields.field "incident_date" (Json.str (rt.date_iso c.incident_date)) (
                Fields.field "incident_type" (Json.str (incident_type_text c.incident_type)) (
                  Fields.field "estimated_damage" (Json.str (rt.decimal_str c.estimated_damage)) (
                    Fields.field "status" (Json.str (status_text c.status)) (
                      Fields.field "filed_at" (Json.str (rt.datetime_iso c.filed_at))
                        Fields.end))))))))))

-- An exception of the service, by the status of its class.
unfoldable pub respond_error : Runtime → (Text → String) → Text → Error → Response
unfolding api_exception custom_exception_handler error_json
respond_error rt key request_id e = elim (api_exception rt e) [
  | none ↦ server_error
  | some (status, exc) ↦
      handled key (custom_exception_handler (λ _. some status) exc (some request_id))
]

-- The ValidationErrors of a view: of its serializer, and the one that the service raises.
unfoldable pub respond : Runtime → (Text → String) → Text → Invalid → Error → Response
unfolding respond_invalid respond_error
respond rt key request_id invalid amount_required =
    respond_invalid key request_id
      (codes "approved_amount", codes "El monto aprobado es requerido para aprobar un siniestro.")
respond rt key request_id invalid invalid_data = respond_invalid key request_id invalid
respond rt key request_id invalid e = respond_error rt key request_id e

abbrev pub answered :
    Runtime
    → (Text → String)
    → Text
    → List ClaimDocument
    → Invalid
    → ℕ
    → World
    → Result Error Claim
    → Response
answered rt key request_id documents invalid status w (ok c) = record {
  status = status;
  body = some (claim_data rt w.history documents c);
}
answered rt key request_id documents invalid status w (err e) = respond rt key request_id invalid e

-- `create`
unfoldable pub create_view :
    {Br : Type 0}
    → Runtime
    → ℕ
    → Draw
    → (Br → HttpResult → Br × Bool)
    → (Text → String)
    → Text
    → List ClaimDocument
    → ClaimData
    → HttpOutcome
    → Br × World
    → Response × (Br × World)
unfolding create claim_data respond
create_view rt year draw call key request_id documents request outcome state =
    let (r, state') = create rt year draw call request outcome state in
    (
      answered rt key request_id documents
          (codes "incident_date", codes "La fecha del incidente no puede ser futura.") 201 state'.1
          r,
      state',
    )

-- `transition`, with the tables that `get_object` has seen.
unfoldable pub transition_view :
    Runtime
    → Draw
    → (Text → String)
    → Text
    → List ClaimDocument
    → World
    → ℕ
    → TransitionData
    → World
    → Response × World
unfolding transition claim_data respond
transition_view rt draw key request_id documents seen pk d w =
    let (r, w') = transition rt draw seen pk d w in
    (
      answered rt key request_id documents
          (
            codes "approved_amount",
            codes "El monto aprobado es obligatorio al aprobar un siniestro.",
          )
          200 w' r,
      w',
    )

-- `retrieve`, by `get_object` with no filter in the query and the key as the URL has it. A key that
-- is no UUID raises Django's ValidationError, which is no ValueError and is not caught.
unfoldable pub retrieve_view :
    Runtime → (Text → String) → Text → List ClaimDocument → Text → World → Response
unfolding claim_data respond_error
retrieve_view rt key request_id documents pk w = elim (rt.parse_uuid pk) [
  | none ↦ server_error
  | some id ↦ elim (find_row row_id id w.claims) [
    | none ↦ respond_error rt key request_id (claim_not_found (some id))
    | some c ↦ record { status = 200; body = some (claim_data rt w.history documents c) }
  ]
]
