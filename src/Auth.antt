-- ===== src/Auth.antt =====
-- policy-service/apps/auth: management/commands/seed_test_user.py and views.py. Passwords, and the
-- check of a token, are Django's and simplejwt's.
use mathlib.Core.Path.{subst}
use risk_core.Prelude.{
  ◌≡◌, refl, ap, sym, ◌∙◌, Bool, true, false, List, [], ◌∷◌, ◌++◌, Text, codes, text_eq,
  text_eq_comm, any, any-append, IsDistinct, IsDistinct-append, Bool-cases, inl, inr, if◌then◌else◌,
}
use risk_core.Json.{Json, Fields}

pub record User : Type 0 where
  pub username : Text
  pub email : Text
  pub is_superuser : Bool

abbrev admin : User
admin = record {
  username = codes "admin";
  email = codes "admin@riskcore.local";
  is_superuser = true;
}

abbrev is_admin : User → Bool
is_admin u = text_eq u.username (codes "admin")

-- `Command.handle`, with settings.DEBUG.
unfoldable pub seed_test_user : Bool → List User → List User
seed_test_user debug users =
    if debug then (if any is_admin users then users else users ++ admin ∷ []) else users

-- The body that JWTVerifyView answers to a user whose token is valid.
abbrev pub jwt_verify : Json
jwt_verify = Json.obj (Fields.field "valid" (Json.bool true) Fields.end)

abbrev same_name : User → User → Bool
same_name u v = text_eq v.username u.username

known_stays : (users : List User) → any is_admin users ≡ true → seed_test_user true users ≡ users
unfolding seed_test_user
known_stays users known = rw known refl

new_added :
    (users : List User)
    → any is_admin users ≡ false
    → seed_test_user true users ≡ users ++ admin ∷ []
unfolding seed_test_user
new_added users new = rw new refl

has_admin : (users : List User) → any is_admin (seed_test_user true users) ≡ true
has_admin users = elim (Bool-cases (any is_admin users)) [
  | inl known ↦ ap (any is_admin) (known_stays users known) ∙ known
  | inr new ↦
      ap (any is_admin) (new_added users new) ∙ any-append is_admin users (admin ∷ []) ∙ rw new refl
]

-- With DEBUG off the command does nothing; with DEBUG on there is a user admin afterwards, a second
-- run changes nothing, and user names stay distinct.
pub seed_test_user_lem :
    (users : List User)
    → (seed_test_user false users ≡ users)
      × (any is_admin (seed_test_user true users) ≡ true)
      × (seed_test_user true (seed_test_user true users) ≡ seed_test_user true users)
      × (IsDistinct same_name users → IsDistinct same_name (seed_test_user true users))
unfolding seed_test_user
seed_test_user_lem users = (
  refl,
  has_admin users,
  known_stays (seed_test_user true users) (has_admin users),
  λ h. elim (Bool-cases (any is_admin users)) [
    | inl known ↦ subst (IsDistinct same_name) (sym (known_stays users known)) h
    | inr new ↦
        subst (IsDistinct same_name) (sym (new_added users new)) (
          IsDistinct-append same_name (λ a b. text_eq_comm b.username a.username) users admin h new)
  ],
)
