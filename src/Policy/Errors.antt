-- ===== src/Policy/Errors.antt =====
-- policy-service/apps/core/exceptions.py: the exceptions of the service, their HTTP status and
-- details, and the body that the handler of the framework's response puts in place of its data.
use risk_core.Prelude.{ℕ, Option, none, some, List, [], ◌∷◌, ◌++◌, map, Text, codes}
use risk_core.Json.{Json, Items, Fields}
use risk_core.Runtime.{Runtime}
use risk_core.Policy.{Status, status_text}

-- The last three are raised by the ORM or by `int` and not caught.
pub data Error : Type 0 where
  policy_not_found : Option ℕ → Error
  customer_not_found : Option ℕ → Error
  invalid_policy_status : Option ℕ → Status → List Status → Error
  does_not_exist integrity_error database_error value_error : Error

-- What the handler needs of an exception: the attributes `code` and `details` where it has them,
-- `str(exc)`, and whether it is the framework's ValidationError with a dict, by its fields, each
-- with a list of errors or a single one.
pub data FieldErrors : Type 0 where
  listed : List Text → FieldErrors
  single : Text → FieldErrors

pub record ApiException : Type 0 where
  pub validation : Option (List (Text × FieldErrors))
  pub code : Option Text
  pub details : Option Fields
  pub message : Text

pub record ErrorBody : Type 0 where
  pub code : Text
  pub message : Text
  pub details : List (Text × List Text)
  pub extra : Fields
  pub request_id : Text

or_default : {A : Type 0} → Option A → A → A
or_default none d = d
or_default (some a) d = a

abbrev texts_of : FieldErrors → List Text
texts_of (listed errors) = errors
texts_of (single error) = error ∷ []

-- `response.data` of `custom_exception_handler`, for an exception that the framework answers.
-- `details` holds the field errors of a ValidationError, `extra` those of any other exception.
unfoldable pub error_body : ApiException → Option Text → ErrorBody
unfolding or_default
error_body exc request_id = elim exc.validation [
  | some fields ↦ record {
    code = or_default exc.code (codes "VALIDATION_ERROR");
    message = codes "Error de validación de los datos enviados.";
    details = map (λ f. (f.0, texts_of f.1)) fields;
    extra = Fields.end;
    request_id = or_default request_id [];
  }
  | none ↦ record {
    code = or_default exc.code (codes "INTERNAL_ERROR");
    message = exc.message;
    details = [];
    extra = or_default exc.details Fields.end;
    request_id = or_default request_id [];
  }
]

-- The handler: `none` where the framework has no response, else its status with the body.
unfoldable pub custom_exception_handler :
    (ApiException → Option ℕ) → ApiException → Option Text → Option (ℕ × ErrorBody)
unfolding error_body
custom_exception_handler exception_handler exc request_id = elim (exception_handler exc) [
  | none ↦ none
  | some status ↦ some (status, error_body exc request_id)
]

abbrev optional_uuid : Runtime → Option ℕ → Json
optional_uuid rt none = Json.null
optional_uuid rt (some u) = Json.str (rt.uuid_str u)

abbrev status_items : List Status → Items
status_items [] = Items.nil
status_items (s ∷ rest) = Items.cons (Json.str (status_text s)) (status_items rest)

abbrev only_if : Runtime → Option ℕ → (Json → Fields) → Fields
only_if rt none f = Fields.end
only_if rt (some u) f = f (Json.str (rt.uuid_str u))

-- The exceptions of the service, as the framework sees them; `none` for what is no APIException.
unfoldable pub api_exception : Runtime → Error → Option (ℕ × ApiException)
api_exception rt (policy_not_found u) = some (
  404,
  record {
    validation = none;
    code = some (codes "POLICY_NOT_FOUND");
    details = some (only_if rt u (λ j. Fields.field "policy_id" j Fields.end));
    message = codes "La póliza solicitada no existe.";
  },
)
api_exception rt (customer_not_found u) = some (
  404,
  record {
    validation = none;
    code = some (codes "CUSTOMER_NOT_FOUND");
    details = some (only_if rt u (λ j. Fields.field "customer_id" j Fields.end));
    message = codes "El cliente solicitado no existe.";
  },
)
api_exception rt (invalid_policy_status u status allowed) = some (
  400,
  record {
    validation = none;
    code = some (codes "INVALID_POLICY_STATUS");
    details = some (
        Fields.field "policy_id" (optional_uuid rt u) (
          Fields.field "current_status" (Json.str (status_text status))
            (Fields.field "allowed_statuses" (Json.arr (status_items allowed)) Fields.end)));
    message =
        codes "La operación no es válida para una póliza en estado '"
        ++ status_text status
        ++ codes "'.";
  },
)
api_exception rt _ = none
