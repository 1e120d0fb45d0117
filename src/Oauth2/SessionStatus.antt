-- ===== src/Oauth2/SessionStatus.antt =====
-- `app/oauth2/sessions/status.py`: whether a token family is current, in Python and in SQL.
use zero_auth_lite.Prelude.{
  ℕ, ◌≡◌, arith, Bool, true, false, not, Option, none, some, leb, is_null, if◌then◌else◌,
}
use zero_auth_lite.Oauth2.Tables.{OAuth2Session, TokenState}
use zero_auth_lite.Oauth2.Refresh.{is_active}

-- `refresh_expires_at or access_expires_at`: a time is never false.
abbrev pub effective_expiry : TokenState → ℕ
effective_expiry token_state = elim token_state.refresh_expires_at [
  | none ↦ token_state.access_expires_at
  | some expires_at ↦ expires_at
]

unfoldable pub token_family_is_current : TokenState → OAuth2Session → ℕ → Bool
token_family_is_current token_state session now =
    if not (is_active session) then false else not (leb (effective_expiry token_state) now)

-- The truth values of SQL: a comparison with NULL is unknown.
pub data Truth : Type 0 where
  yes no unknown : Truth

abbrev pub of_bool : Bool → Truth
of_bool true = yes
of_bool false = no

abbrev pub and_ : Truth → Truth → Truth
and_ no _ = no
and_ yes b = b
and_ unknown no = no
and_ unknown _ = unknown

abbrev pub or_ : Truth → Truth → Truth
or_ yes _ = yes
or_ no b = b
or_ unknown yes = yes
or_ unknown _ = unknown

abbrev pub is_later : Option ℕ → ℕ → Truth
is_later none now = unknown
is_later (some t) now = of_bool (not (leb t now))

unfoldable pub token_family_is_current_predicate : TokenState → OAuth2Session → ℕ → Truth
token_family_is_current_predicate token_state session now =
    and_ (of_bool (is_null session.ended_at)) (
      or_ (is_later token_state.refresh_expires_at now) (
        and_ (of_bool (is_null token_state.refresh_expires_at))
          (is_later (some token_state.access_expires_at) now)))

-- A `WHERE` keeps a row whose condition is true, and neither false nor unknown.
abbrev pub keeps : Truth → Bool
keeps yes = true
keeps _ = false

-- The SQL predicate selects a token family exactly when the Python function says it is current,
-- though a missing refresh expiry makes the first comparison unknown.
pub token_family_is_current-eq-predicate :
    (token_state : TokenState) (session : OAuth2Session) (now : ℕ)
    → keeps (token_family_is_current_predicate token_state session now)
      ≡ token_family_is_current token_state session now
unfolding token_family_is_current token_family_is_current_predicate
token_family_is_current-eq-predicate token_state session now = ground arith
