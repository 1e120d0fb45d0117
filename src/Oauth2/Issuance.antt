-- ===== src/Oauth2/Issuance.antt =====
-- `app/oauth2/tokens/access.py`, `app/oauth2/tokens/issuance.py`, `app/oauth2/tokens/dtos.py` and
-- `session_principal_type` of `app/oauth2/principal_types.py`. The unique columns of
-- `oauth2_token_state` are enforced as the schema does: a write that repeats a value raises.
pub mod Lifetimes
pub mod Sessions
use zero_auth_lite.Prelude.{
  ℕ, ◌+◌, ◌-◌, ◌*◌, ◌/◌, Bool, true, false, not, ◌&&◌, ◌||◌, Option, none, some, List, [], ◌∷◌,
  ◌++◌, Text, text_eq, leb, ◌==◌, if◌then◌else◌, seconds, is_null, is_not_null, holds,
}
use zero_auth_lite.Table.{find_where}
use zero_auth_lite.Database.{
  Action, Outcome, ok, err, Connection, view, pure, raise, raise_if, ◌>>=◌, ◌>>◌,
}
use zero_auth_lite.Oauth2.Errors.{Error, value_error, integrity_error, OAuth2SessionGrantType}
use zero_auth_lite.Oauth2.Tables.{
  or_raise_outcome, Tables, Flow, TokenState, OAuth2Session, attempt, next_id,
}
use zero_auth_lite.Oauth2.Settings.{
  OAuth2Settings, Platform, AccessTokenPayload, PrincipalType, user, client, hash_oauth2_token,
}
use zero_auth_lite.Oauth2.Clients.{opt_text_eq}

pub record IssuedTokens : Type 0 where
  pub access_token : Text
  pub refresh_token : Option Text
  pub access_jti : Text
  pub access_token_lifetime_seconds : ℕ
  pub access_expires_at : ℕ
  pub refresh_expires_at : Option ℕ

unfoldable pub create_access_token_payload :
    Text → Text → Text → Text → Text → Text → AccessTokenPayload
create_access_token_payload user_public_id organization_public_id audience client_id scope
      access_jti =
    record {
      subject = user_public_id;
      organization = some organization_public_id;
      audience = audience;
      access_jti = access_jti;
      client_id = client_id;
      scope = scope;
      principal_type = none;
    }

unfoldable pub create_client_access_token_payload : Text → Text → Text → Text → AccessTokenPayload
create_client_access_token_payload client_id audience scope access_jti = record {
  subject = client_id;
  organization = none;
  audience = audience;
  access_jti = access_jti;
  client_id = client_id;
  scope = scope;
  principal_type = some client;
}

-- `refresh_deadline or now + lifetime`, if a refresh token is asked for.
abbrev pub refresh_expiry : OAuth2Settings → Bool → Option ℕ → ℕ → Option ℕ
refresh_expiry settings false deadline now = none
refresh_expiry settings true none now = some (now + seconds settings.refresh_token_lifetime_seconds)
refresh_expiry settings true (some deadline) now = some deadline

min : ℕ → ℕ → ℕ
min a b = if leb a b then a else b

abbrev pub access_expiry : OAuth2Settings → Option ℕ → ℕ → ℕ
unfolding min
access_expiry settings none now = now + seconds settings.access_token_lifetime_seconds
access_expiry settings (some deadline) now =
    min (now + seconds settings.access_token_lifetime_seconds) deadline

-- The whole seconds from one time to another; 0 where the source has a negative number.
abbrev pub whole_seconds : ℕ → ℕ → ℕ
whole_seconds now expires = (expires - now) / 1000000

unfoldable pub create_issued_tokens :
    Platform
    → OAuth2Settings
    → AccessTokenPayload
    → Bool
    → Option ℕ
    → ℕ
    → Text
    → Outcome Error IssuedTokens
unfolding access_expiry
create_issued_tokens p settings payload include_refresh_token refresh_deadline now
      new_refresh_token =
    let refresh_expires_at = refresh_expiry settings include_refresh_token refresh_deadline now in
    let access_expires_at = access_expiry settings refresh_expires_at now in
    let lifetime = whole_seconds now access_expires_at in
    if lifetime == 0
    then err value_error
    else ok (record {
      access_token = p.sign_access_token settings payload now access_expires_at;
      refresh_token = if include_refresh_token then some new_refresh_token else none;
      access_jti = payload.access_jti;
      access_token_lifetime_seconds = lifetime;
      access_expires_at = access_expires_at;
      refresh_expires_at = refresh_expires_at;
    })

-- None where the source raises `ValueError`.
unfoldable pub session_principal_type :
    OAuth2SessionGrantType → Option ℕ → Option ℕ → Option PrincipalType
session_principal_type OAuth2SessionGrantType.client_credentials none none = some client
session_principal_type OAuth2SessionGrantType.authorization_code (some _) (some _) = some user
session_principal_type OAuth2SessionGrantType.device_code (some _) (some _) = some user
session_principal_type _ _ _ = none

-- `hash` of an optional token.
abbrev pub hashed : Platform → OAuth2Settings → Option Text → Option Text
hashed p settings none = none
hashed p settings (some token) = some (hash_oauth2_token p token settings.token_hash_secret)

-- Another session's row has one of the unique values.
abbrev pub repeats : TokenState → TokenState → Bool
repeats added old =
    text_eq old.access_token_hash added.access_token_hash
    || text_eq old.access_jti added.access_jti
    || (is_not_null added.refresh_token_hash
        && opt_text_eq old.refresh_token_hash added.refresh_token_hash)

pub record NewTokenSession : Type 0 where
  pub access_payload : AccessTokenPayload
  pub grant_type : OAuth2SessionGrantType
  pub client_id : Text
  pub scope : Text
  pub user_id : Option ℕ
  pub organization_id : Option ℕ
  pub include_refresh_token : Bool

is_client : Option PrincipalType → Bool
is_client (some client) = true
is_client _ = false

-- The checks of `__post_init__`: false where it raises `ValueError`.
is_well_bound_for : NewTokenSession → Option PrincipalType → Bool
unfolding is_client
is_well_bound_for new none = false
is_well_bound_for new (some client) =
    is_client new.access_payload.principal_type
    && text_eq new.access_payload.subject new.client_id
    && is_null new.access_payload.organization
    && not new.include_refresh_token
is_well_bound_for new (some user) = not (is_client new.access_payload.principal_type)

unfoldable pub is_well_bound : NewTokenSession → Bool
unfolding is_well_bound_for
is_well_bound new =
    (text_eq new.access_payload.client_id new.client_id
      && text_eq new.access_payload.scope new.scope)
    && is_well_bound_for new (session_principal_type new.grant_type new.user_id new.organization_id)

abbrev pub new_session_row : NewTokenSession → Text → ℕ → OAuth2Session
new_session_row new public_id id = record {
  id = id;
  public_id = public_id;
  user_id = new.user_id;
  organization_id = new.organization_id;
  client_id = new.client_id;
  grant_type = new.grant_type;
  scope = new.scope;
  ended_at = none;
}

abbrev pub token_state_row : Platform → OAuth2Settings → IssuedTokens → ℕ → TokenState
token_state_row p settings tokens session_id = record {
  session_id = session_id;
  access_token_hash = hash_oauth2_token p tokens.access_token settings.token_hash_secret;
  access_jti = tokens.access_jti;
  refresh_token_hash = hashed p settings tokens.refresh_token;
  access_expires_at = tokens.access_expires_at;
  refresh_expires_at = tokens.refresh_expires_at;
}

-- Both inserts: the new session's key, or the refusal of a repeated unique value.
abbrev pub insert_session :
    Platform
    → OAuth2Settings
    → NewTokenSession
    → IssuedTokens
    → Text
    → Tables
    → Outcome Error (ℕ × Tables)
insert_session p settings new tokens public_id d =
    let id = next_id (λ (r : OAuth2Session). r.id) d.sessions in
    let state = token_state_row p settings tokens id in
    if is_not_null (find_where (repeats state) d.token_states)
    then err integrity_error
    else ok (
      id,
      record d {
        sessions = new_session_row new public_id id ∷ d.sessions;
        token_states = state ∷ d.token_states;
      },
    )

-- The random values and the clock of one issuance.
pub record IssuanceDraws : Type 0 where
  pub issued_at : ℕ
  pub refresh_token : Text
  pub session_public_id : Text

-- `issue_new_session`: the tokens and the key of their session.
unfoldable pub issue_new_session :
    Platform → OAuth2Settings → NewTokenSession → IssuanceDraws → Flow (IssuedTokens × ℕ)
issue_new_session p settings new draws = do
  raise_if (not (is_well_bound new)) value_error
  tokens ← or_raise_outcome (
      create_issued_tokens p settings new.access_payload new.include_refresh_token none
        draws.issued_at draws.refresh_token)
  id ← attempt (insert_session p settings new tokens draws.session_public_id)
  pure (tokens, id)

pub record TokenResponse : Type 0 where
  pub access_token : Text
  pub refresh_token : Option Text
  pub id_token : Option Text
  pub expires_in : ℕ

abbrev pub build_response : IssuedTokens → Option Text → TokenResponse
build_response tokens id_token = record {
  access_token = tokens.access_token;
  refresh_token = tokens.refresh_token;
  id_token = id_token;
  expires_in = tokens.access_token_lifetime_seconds;
}
