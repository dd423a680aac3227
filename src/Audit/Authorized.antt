-- ===== src/Audit/Authorized.antt =====
-- Who the events of the audit service reach over web sockets.
use risk_core.Prelude.{
  ℕ, ◌≡◌, refl, Bool, true, false, ◌&&◌, Option, none, some, List, [], ◌∷◌, map, arith, Text,
  is_nonempty, any, All, All-imp, All-selected, All-append, ◌==◌, Bool-cases, Option-cases, inl,
  inr, ◌⊎◌,
}
use risk_core.Json.{Json, Fields, get}
use risk_core.Audit.{AuditEvent}
use risk_core.Audit.Sockets.{
  Tokens, Sockets, Happening, opening, closing, saving, first_token, validate_jwt, jwt_auth,
  connect, group_add, react, react_all,
}

-- Whether the token library accepts a token, and finds a user in it.
abbrev pub names_user : Tokens → Text → Bool
names_user lib t = elim (lib.access_token t) [
  | none ↦ false
  | some claims ↦ (elim (get "user_id" claims) [ none ↦ false | some _ ↦ true ])
]

-- Whether the request of a socket has such a token.
abbrev pub has_user : Tokens → Option Text → Bool
has_user lib none = false
has_user lib (some t) = is_nonempty t && names_user lib t

-- Whether a socket was opened on this channel by such a request.
abbrev pub admits : Tokens → ℕ → Happening → Bool
admits lib channel (opening c tokens) = c == channel && has_user lib (first_token tokens)
admits lib channel _ = false

-- What validate_jwt finds in a token.
module _ (lib : Tokens) (t : Text) where
  validate_refused : lib.access_token t ≡ none → validate_jwt lib t ≡ none
  unfolding validate_jwt
  validate_refused refused = rw (refused, validate_jwt) refl

  validate_nobody :
      (claims : Fields)
      → lib.access_token t ≡ some claims
      → get "user_id" claims ≡ none
      → validate_jwt lib t ≡ none
  unfolding validate_jwt
  validate_nobody claims valid nobody = rw (valid, nobody, validate_jwt) refl

  validate_named :
      (claims : Fields) (u : Json)
      → lib.access_token t ≡ some claims
      → get "user_id" claims ≡ some u
      → validate_jwt lib t ≡ some (lib.str_of u)
  unfolding validate_jwt
  validate_named claims u valid named = rw (valid, named, validate_jwt) refl

  names_user_lem :
      (claims : Fields) (u : Json)
      → lib.access_token t ≡ some claims
      → get "user_id" claims ≡ some u
      → names_user lib t ≡ true
  names_user_lem claims u valid named = rw (valid, named, names_user) refl

-- A new socket is let into the group when its request names a user, and only then.
connect_cases :
    (lib : Tokens) (c : ℕ) (tokens : Option (List Text)) (s : Sockets)
    → let t = connect c (jwt_auth lib (record { token = tokens; user_id = none })) s in
      (t.sent ≡ s.sent)
      × ((t.group ≡ s.group)
          ⊎ ((has_user lib (first_token tokens) ≡ true) × (t.group ≡ group_add c s.group)))
unfolding connect jwt_auth
connect_cases lib c none s = (refl, inl refl)
connect_cases lib c (some []) s = (refl, inl refl)
connect_cases lib c (some (t ∷ _)) s = elim (Bool-cases (is_nonempty t)) [
  | inr blank ↦ (simp blank, inl (simp blank))
  | inl given ↦ elim (Option-cases (lib.access_token t)) [
    | inl invalid ↦
        let fact = validate_refused lib t invalid in (simp (given, fact), inl (simp (given, fact)))
    | inr (claims, valid) ↦ elim (Option-cases (get "user_id" claims)) [
      | inl nobody ↦
          let fact = validate_nobody lib t claims valid nobody in
          (simp (given, fact), inl (simp (given, fact)))
      | inr (u, named) ↦
          let fact = validate_named lib t claims u valid named in
          (
            simp (given, fact),
            inr (simp (given, names_user_lem lib t claims u valid named), simp (given, fact)),
          )
    ]
  ]
]

module _ (lib : Tokens) (P : ℕ → Type 0) where
  -- Members of the group and receivers of events have P.
  abbrev IsKept : Sockets → Type 0
  IsKept s = All P s.group × All {A = ℕ × AuditEvent} (λ m. P m.0) s.sent

  abbrev Admitted : Happening → Type 0
  Admitted (opening c tokens) = has_user lib (first_token tokens) ≡ true → P c
  Admitted _ = Unit

  sent-All :
      (e : AuditEvent) (group : List ℕ)
      → All P group
      → All {A = ℕ × AuditEvent} (λ m. P m.0) (map (λ c. (c, e)) group)
  sent-All e [] h = tt
  sent-All e (c ∷ group) (p, h) = (p, sent-All e group h)

  group_add-All : (c : ℕ) (group : List ℕ) → P c → All P group → All P (group_add c group)
  group_add-All c group p h = elim (Bool-cases (any (λ d. d == c) group)) [
    | inl there ↦ rw there h
    | inr new ↦ rw new (All-append P group (c ∷ []) h (p, tt))
  ]

  react-IsKept : (h : Happening) (s : Sockets) → Admitted h → IsKept s → IsKept (react lib h s)
  unfolding react
  react-IsKept (opening c tokens) s may (members, receivers) =
      let (same, joins) = connect_cases lib c tokens s in
      elim joins [
        | inl stays ↦ rw (same, stays) (members, receivers)
        | inr (user, joined) ↦
            rw (same, joined) (group_add-All c s.group (may user) members, receivers)
      ]
  react-IsKept (closing c) s may (members, receivers) =
      (All-selected P _ s.group (All-imp _ _ s.group (λ c p _. p) members), receivers)
  react-IsKept (saving e) s may (members, receivers) = (
    members,
    All-append _ s.sent (map (λ c. (c, e)) s.group) receivers (sent-All e s.group members),
  )

  react_all-IsKept :
      (hs : List Happening) (s : Sockets) → All Admitted hs → IsKept s → IsKept (react_all lib hs s)
  unfolding react_all
  react_all-IsKept [] s may kept = kept
  react_all-IsKept (h ∷ hs) s (may, rest) kept =
      react_all-IsKept hs (react lib h s) rest (react-IsKept h s may kept)

All-Admitted :
    (lib : Tokens) (P : ℕ → Type 0) (hs : List Happening)
    → ((c : ℕ) → any (admits lib c) hs ≡ true → P c)
    → All (Admitted lib P) hs
All-Admitted lib P [] h = tt
All-Admitted lib P (opening c tokens ∷ hs) h =
    ((λ user. h c (ground arith)), All-Admitted lib P hs (λ d more. h d (ground arith)))
All-Admitted lib P (closing c ∷ hs) h = (tt, All-Admitted lib P hs (λ d more. h d (ground arith)))
All-Admitted lib P (saving e ∷ hs) h = (tt, All-Admitted lib P hs (λ d more. h d (ground arith)))

-- Along everything that happens to a server that starts with no sockets, every event that it sends
-- goes to a channel on which a socket was opened with a token that the token library accepts and
-- that names a user; the members of the group are such channels too.
pub react_all_lem :
    (lib : Tokens) (hs : List Happening) (s : Sockets)
    → s.group ≡ []
    → s.sent ≡ []
    → All (λ c. any (admits lib c) hs ≡ true) (react_all lib hs s).group
      × All {A = ℕ × AuditEvent} (λ m. any (admits lib m.0) hs ≡ true) (react_all lib hs s).sent
react_all_lem lib hs s none_yet nothing =
    react_all-IsKept lib (λ c. any (admits lib c) hs ≡ true) hs s (All-Admitted lib _ hs (λ c h. h))
      (rw none_yet tt, rw nothing tt)
