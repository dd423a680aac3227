-- ===== src/Audit/Sockets.antt =====
-- audit-service/apps/audit/ws_middleware.py and ws_consumers.py: who is told of new events over a
-- web socket. The reading of a query string and of a token are the libraries', and an argument.
use risk_core.Prelude.{
  ℕ, not, Option, none, some, List, [], ◌∷◌, ◌++◌, map, Text, is_nonempty, any, select, ◌==◌,
  if◌then◌else◌,
}
use risk_core.Json.{Json, Fields, get}
use risk_core.Audit.{AuditEvent}

-- `str(value)`, and the claims of a token, where it is valid and has not expired.
pub record Tokens : Type 0 where
  pub str_of : Json → Text
  pub access_token : Text → Option Fields

-- `_validate_jwt`: a token without "user_id" is refused as an invalid one is.
unfoldable pub validate_jwt : Tokens → Text → Option Text
validate_jwt lib token = elim (lib.access_token token) [
  | none ↦ none
  | some claims ↦ elim (get "user_id" claims) [ none ↦ none | some v ↦ some (lib.str_of v) ]
]

-- What `parse_qs` found under "token", and the user that the scope names.
pub record Scope : Type 0 where
  pub token : Option (List Text)
  pub user_id : Option Text

-- params.get("token", [None])[0]; a list of `parse_qs` is not empty.
abbrev pub first_token : Option (List Text) → Option Text
first_token (some (t ∷ _)) = some t
first_token _ = none

abbrev keep_or : Option Text → Scope → Scope
keep_or none scope = scope
keep_or (some u) scope = record scope { user_id = some u }

-- `JWTAuthMiddleware.__call__`: the scope that the inner application gets.
unfoldable pub jwt_auth : Tokens → Scope → Scope
unfolding validate_jwt
jwt_auth lib scope = elim (first_token scope.token) [
  | none ↦ scope
  | some t ↦ if is_nonempty t then keep_or (validate_jwt lib t) scope else scope
]

-- The group "audit_events", and what was done to each channel.
pub record Sockets : Type 0 where
  pub group : List ℕ
  pub accepted : List ℕ
  pub closed : List (ℕ × ℕ)
  pub sent : List (ℕ × AuditEvent)

abbrev pub group_add : ℕ → List ℕ → List ℕ
group_add channel group = if any (λ c. c == channel) group then group else group ++ channel ∷ []

abbrev pub group_discard : ℕ → List ℕ → List ℕ
group_discard channel group = select (λ c. not (c == channel)) group

-- `connect`
unfoldable pub connect : ℕ → Scope → Sockets → Sockets
connect channel scope s = elim scope.user_id [
  | none ↦ record s { closed = s.closed ++ (channel, 4001) ∷ [] }
  | some _ ↦ record s { group = group_add channel s.group; accepted = s.accepted ++ channel ∷ [] }
]

-- `disconnect`
unfoldable pub disconnect : ℕ → Sockets → Sockets
disconnect channel s = record s { group = group_discard channel s.group }

-- `audit_event`, on each channel of the group that the event was sent to.
unfoldable pub audit_event : AuditEvent → Sockets → Sockets
audit_event e s = record s { sent = s.sent ++ map (λ c. (c, e)) s.group }

-- What happens to the server: a socket is opened by a request with these values of "token", or
-- closed, or an event is saved. The scope of a request names no user yet.
pub data Happening : Type 0 where
  opening : ℕ → Option (List Text) → Happening
  closing : ℕ → Happening
  saving : AuditEvent → Happening

unfoldable pub react : Tokens → Happening → Sockets → Sockets
unfolding jwt_auth connect disconnect audit_event
react lib (opening channel tokens) s =
    connect channel (jwt_auth lib (record { token = tokens; user_id = none })) s
react lib (closing channel) s = disconnect channel s
react lib (saving e) s = audit_event e s

unfoldable pub react_all : Tokens → List Happening → Sockets → Sockets
unfolding react
react_all lib [] s = s
react_all lib (h ∷ rest) s = react_all lib rest (react lib h s)
