-- ===== src/Http.antt =====
-- What the services' core packages put around every request: core/exceptions.py with the rendering
-- of its body, core/middleware.py and core/views.py, which are the same code in the four services.
use Prim.Native.String.{String}
use risk_core.Prelude.{
  ℕ, Bool, Option, none, some, List, [], ◌∷◌, ◌++◌, Text, codes, or_text, if◌then◌else◌,
}
use risk_core.Json.{Json, Items, Fields}
use risk_core.Policy.Errors.{ErrorBody, listed, custom_exception_handler}

-- A response; its body is `none` where it is no JSON.
pub record Response : Type 0 where
  pub status : ℕ
  pub body : Option Json

abbrev pub text_items : List Text → Items
text_items [] = Items.nil
text_items (t ∷ ts) = Items.cons (Json.str t) (text_items ts)

-- The framework's rendering of the fields of a ValidationError, whose names are an argument here
-- since a JSON key is a string.
abbrev pub error_fields : (Text → String) → List (Text × List Text) → Fields → Fields
error_fields key [] rest = rest
error_fields key ((name, errors) ∷ more) rest =
    Fields.field (key name) (Json.arr (text_items errors)) (error_fields key more rest)

-- `response.data` of the handler, as JSON.
unfoldable pub error_json : (Text → String) → ErrorBody → Json
error_json key e = Json.obj (
    Fields.field "error"
      (Json.obj (
        Fields.field "code" (Json.str e.code) (
          Fields.field "message" (Json.str e.message)
            (Fields.field "details" (Json.obj (error_fields key e.details e.extra)) Fields.end))))
      (Fields.field "request_id" (Json.str e.request_id) Fields.end))

-- What is not answered by the handler is a server error with a page of HTML.
abbrev pub server_error : Response
server_error = record { status = 500; body = none }

abbrev pub handled : (Text → String) → Option (ℕ × ErrorBody) → Response
handled key none = server_error
handled key (some (status, e)) = record { status = status; body = some (error_json key e) }

-- The field with a validator's error, and its message.
abbrev pub Invalid : Type 0
Invalid = Text × Text

-- `is_valid(raise_exception=True)` on a value that a validator has refused.
unfoldable pub respond_invalid : (Text → String) → Text → Invalid → Response
unfolding custom_exception_handler error_json
respond_invalid key request_id (name, message) = handled key (
    custom_exception_handler (λ _. some 400)
      (record {
        validation = some ((name, listed (message ∷ [])) ∷ []);
        code = none;
        details = none;
        message = message;
      })
      (some request_id))

-- A row that `get_object` of the framework does not find: Http404, which has no code of its own.
abbrev pub http_404 : (Text → String) → Text → Text → Response
http_404 key request_id message = handled key (
    custom_exception_handler (λ _. some 404)
      (record { validation = none; code = none; details = none; message = message })
      (some request_id))

-- A response with the header "X-Request-ID" where the middleware has set it.
pub record Answer : Type 0 where
  pub response : Response
  pub request_id : Option Text

-- `request.headers.get("X-Request-ID") or str(uuid.uuid4())`
abbrev pub chosen_id : Option Text → Text → Text
chosen_id none fresh = fresh
chosen_id (some header) fresh = or_text header fresh

-- `RequestIDMiddleware.__call__`: the view gets the identifier that the answer carries. The second
-- component are the variables of the log while the view runs.
unfoldable pub request_id_middleware :
    {W : Type 0} → (Text → W → Response × W) → Option Text → Text → W → Answer × W
request_id_middleware get_response header fresh w =
    let id = chosen_id header fresh in
    let (response, w') = get_response id w in
    (record { response = response; request_id = some id }, w')

-- A line of the log of RequestLoggingMiddleware.
pub record Finished : Type 0 where
  pub method : Text
  pub path : Text
  pub status_code : ℕ
  pub duration_ms : ℕ

-- `RequestLoggingMiddleware.__call__`, with the rounded time that the view has taken.
unfoldable pub logging_middleware :
    {W : Type 0}
    → (W → Response × W)
    → Text
    → Text
    → ℕ
    → List Finished × W
    → Response × (List Finished × W)
logging_middleware get_response method path duration_ms (log, w) =
    let (response, w') = get_response w in
    let line : Finished = record {
      method = method;
      path = path;
      status_code = response.status;
      duration_ms = duration_ms;
    } in
    (response, (log ++ line ∷ [], w'))

-- `HealthCheckView.get`: it answers 200 whether or not the database does.
unfoldable pub health_check : Text → Bool → Response
health_check service db_ok = record {
  status = 200;
  body = some (
      Json.obj (
        Fields.field "status" (Json.str (codes "ok")) (
          Fields.field "service" (Json.str service) (
            Fields.field "version" (Json.str (codes "0.1.0")) (
              Fields.field "database" (Json.str (if db_ok then codes "ok" else codes "error"))
                Fields.end)))));
}
