-- ===== src/Claims/Errors.antt =====
-- claims-service/apps/core/exceptions.py: the exceptions of the service, with their HTTP status,
-- code and details. The handler is that of the policy service.
use risk_core.Prelude.{ℕ, Option, none, some, List, [], ◌∷◌, ◌++◌, codes}
use risk_core.Json.{Json, Items, Fields}
use risk_core.Runtime.{Runtime}
use risk_core.Policy.Errors.{ApiException}
use risk_core.Claims.{Status, status_text}

-- `invalid_data` is the ValidationError of a serializer; `unexpected` is an exception of Python or a
-- library that the service does not catch.
pub data Error : Type 0 where
  claim_not_found : Option ℕ → Error
  invalid_claim_status : Option ℕ → Status → List Status → Error
  policy_service_unavailable : Option ℕ → Error
  policy_inactive : Option ℕ → Json → Error
  amount_required invalid_data : Error
  does_not_exist integrity_error value_error unexpected : Error

abbrev only_if : Runtime → Option ℕ → (Json → Fields) → Fields
only_if rt none f = Fields.end
only_if rt (some u) f = f (Json.str (rt.uuid_str u))

abbrev optional_uuid : Runtime → Option ℕ → Json
optional_uuid rt none = Json.null
optional_uuid rt (some u) = Json.str (rt.uuid_str u)

abbrev status_items : List Status → Items
status_items [] = Items.nil
status_items (s ∷ rest) = Items.cons (Json.str (status_text s)) (status_items rest)

unfoldable pub api_exception : Runtime → Error → Option (ℕ × ApiException)
api_exception rt (claim_not_found u) = some (
  404,
  record {
    validation = none;
    code = some (codes "CLAIM_NOT_FOUND");
    details = some (only_if rt u (λ j. Fields.field "claim_id" j Fields.end));
    message = codes "El siniestro solicitado no existe.";
  },
)
api_exception rt (invalid_claim_status u status allowed) = some (
  400,
  record {
    validation = none;
    code = some (codes "INVALID_CLAIM_STATUS");
    details = some (
        Fields.field "claim_id" (optional_uuid rt u) (
          Fields.field "current_status" (Json.str (status_text status))
            (Fields.field "allowed_transitions" (Json.arr (status_items allowed)) Fields.end)));
    message =
        codes "La transición desde el estado '" ++ status_text status ++ codes "' no es válida.";
  },
)
api_exception rt (policy_service_unavailable u) = some (
  503,
  record {
    validation = none;
    code = some (codes "POLICY_SERVICE_UNAVAILABLE");
    details = some (only_if rt u (λ j. Fields.field "policy_id" j Fields.end));
    message =
        codes "El servicio de pólizas no está disponible. Intente nuevamente en unos momentos.";
  },
)
api_exception rt (policy_inactive u status) = some (
  400,
  record {
    validation = none;
    code = some (codes "POLICY_INACTIVE");
    details = some (
        Fields.field "policy_id" (optional_uuid rt u)
          (Fields.field "policy_status" status Fields.end));
    message = codes "No se puede crear un siniestro sobre una póliza que no está activa.";
  },
)
api_exception rt _ = none
