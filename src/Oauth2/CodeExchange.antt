-- ===== src/Oauth2/CodeExchange.antt =====
-- `app/oauth2/authorization/code_exchange.py`, with `app/oauth2/authorization/code.py`,
-- `create_id_token` of `app/oauth2/oidc/id_tokens.py` and `user_display_name` of
-- `app/oauth2/validation.py`. The comparison of digests is taken on ASCII texts.
pub mod Steps
pub mod SingleUse
use zero_auth_lite.Prelude.{
  ℕ, ◌+◌, ◌/◌, Bool, true, false, not, ◌&&◌, ◌||◌, Option, none, some, List, [], ◌∷◌, ◌++◌, Text,
  text, text_eq, leb, length, if◌then◌else◌, seconds, is_null, is_not_null,
}
use zero_auth_lite.Table.{find_where, update_where}
use zero_auth_lite.Database.{
  Action, Outcome, ok, err, Connection, view, pure, raise, raise_if, query, execute, or_raise,
  ◌>>=◌, ◌>>◌,
}
use zero_auth_lite.Oauth2.Errors.{
  Error, protocol, invalid_grant, invalid_client, invalid_scope, unauthorized_client,
  unsupported_grant_type, OAuth2GrantType, OAuth2SessionGrantType,
}
use zero_auth_lite.Oauth2.Tables.{Tables, Flow, ask, OAuth2Client, AuthorizationCode}
use zero_auth_lite.Oauth2.Settings.{OAuth2Settings, Platform, IdTokenClaims, is_grant_enabled}
use zero_auth_lite.Oauth2.Scopes.{
  split, is_member, validate_requested_scope, validate_oidc_scope_enabled, scope_includes_openid,
}
use zero_auth_lite.Oauth2.Clients.{
  ClientAuth, client_allows_grant, client_allows_user_organization, should_issue_refresh_token,
}
use zero_auth_lite.Oauth2.Identity.{Identity, IdentityUser, load_eligible_oauth2_user_identity}
use zero_auth_lite.Oauth2.Issuance.{
  IssuedTokens, IssuanceDraws, TokenResponse, NewTokenSession, create_access_token_payload,
  issue_new_session, build_response,
}

-- `request.code`, `request.redirect_uri` and `request.code_verifier`.
pub record AuthorizationCodeGrantRequest : Type 0 where
  pub code : Text
  pub redirect_uri : Text
  pub code_verifier : Text

-- The clock and the random values of one request, in the order of their use.
pub record CodeDraws : Type 0 where
  pub checked_at : ℕ
  pub used_at : ℕ
  pub access_jti : Text
  pub issuance : IssuanceDraws
  pub id_token_at : ℕ

abbrev pub hash_authorization_code : Platform → OAuth2Settings → Text → Text
hash_authorization_code p settings code = p.hmac_sha256 settings.authorization_code_hash_secret code

-- A character of `[A-Za-z0-9._~-]`.
abbrev pub is_verifier_char : ℕ → Bool
is_verifier_char c =
    (leb 65 c && leb c 90)
    || (leb 97 c && leb c 122)
    || (leb 48 c && leb c 57)
    || text_eq (c ∷ []) (text ".")
    || text_eq (c ∷ []) (text "_")
    || text_eq (c ∷ []) (text "~")
    || text_eq (c ∷ []) (text "-")

unfoldable pub are_verifier_chars : Text → Bool
are_verifier_chars [] = true
are_verifier_chars (c ∷ s) = is_verifier_char c && are_verifier_chars s

-- `PKCE_CODE_VERIFIER_PATTERN.fullmatch`: 43 to 128 such characters.
abbrev pub is_code_verifier : Text → Bool
is_code_verifier s = (leb 43 (length s) && leb (length s) 128) && are_verifier_chars s

unfoldable pub verify_s256_code_challenge : Platform → Text → Text → Bool
verify_s256_code_challenge p code_verifier code_challenge =
    is_code_verifier code_verifier && text_eq (p.s256 code_verifier) code_challenge

abbrev pub has_code_hash : Text → AuthorizationCode → Bool
has_code_hash code_hash a = text_eq a.code_hash code_hash

abbrev pub code_row : Text → Tables → Option AuthorizationCode
code_row code_hash d = find_where (has_code_hash code_hash) d.authorization_codes

unfoldable pub validate_authorization_code_client :
    Option ClientAuth → OAuth2Settings → Flow OAuth2Client
validate_authorization_code_client client_auth settings = do
  auth ← or_raise client_auth (protocol invalid_client)
  raise_if (not (is_grant_enabled settings OAuth2GrantType.authorization_code))
      (protocol unsupported_grant_type)
  raise_if (not auth.client.is_active) (protocol invalid_client)
  raise_if (not (client_allows_grant auth.client OAuth2GrantType.authorization_code))
      (protocol unauthorized_client)
  pure auth.client

-- The tests before those of the scope, and those after it.
abbrev pub is_redeemable :
    AuthorizationCodeGrantRequest → OAuth2Client → ℕ → AuthorizationCode → Bool
is_redeemable req client now a =
    is_null a.used_at
    && (not (leb a.expires_at now)
        && (text_eq a.client_id client.client_id && text_eq a.redirect_uri req.redirect_uri))

abbrev pub is_in_scope : OAuth2Settings → OAuth2Client → AuthorizationCode → Bool
is_in_scope settings client a =
    validate_requested_scope a.scope client.scopes
    && validate_oidc_scope_enabled a.scope settings.oidc_enabled

abbrev pub is_proven : Platform → AuthorizationCodeGrantRequest → AuthorizationCode → Bool
is_proven p req a =
    text_eq a.code_challenge_method (text "S256")
    && verify_s256_code_challenge p req.code_verifier a.code_challenge

abbrev pub check_code :
    Platform
    → OAuth2Settings
    → AuthorizationCodeGrantRequest
    → OAuth2Client
    → ℕ
    → Option AuthorizationCode
    → Flow AuthorizationCode
check_code p settings req client now row = do
  a ← or_raise row (protocol invalid_grant)
  raise_if (not (is_redeemable req client now a)) (protocol invalid_grant)
  raise_if (not (is_in_scope settings client a)) (protocol invalid_scope)
  raise_if (not (is_proven p req a)) (protocol invalid_grant)
  pure a

unfoldable pub load_authorization_code :
    Platform
    → OAuth2Settings
    → AuthorizationCodeGrantRequest
    → OAuth2Client
    → ℕ
    → Flow AuthorizationCode
load_authorization_code p settings req client now = do
  row ← query (code_row (hash_authorization_code p settings req.code))
  check_code p settings req client now row

abbrev pub is_unused : Text → AuthorizationCode → Bool
is_unused code_hash a = has_code_hash code_hash a && is_null a.used_at

abbrev pub used : ℕ → AuthorizationCode → AuthorizationCode
used now a = record a { used_at = some now }

-- The update, and whether it returned a row.
abbrev pub mark_code_used : Text → ℕ → Tables → Bool × Tables
mark_code_used code_hash now d = (
  is_not_null (find_where (is_unused code_hash) d.authorization_codes),
  record d {
    authorization_codes = update_where (is_unused code_hash) (used now) d.authorization_codes;
  },
)

unfoldable pub consume_authorization_code : Text → ℕ → Flow (Unit {0})
consume_authorization_code code_hash now = do
  marked ← execute (mark_code_used code_hash now)
  raise_if (not marked) (protocol invalid_grant)

abbrev pub admit_code_identity : OAuth2Client → AuthorizationCode → Option Identity → Flow Identity
admit_code_identity client a found = do
  identity ← or_raise found (protocol invalid_grant)
  allowed ← query (client_allows_user_organization client a.organization_id)
  raise_if (not allowed) (protocol invalid_grant)
  pure identity

unfoldable pub load_authorization_code_identity : OAuth2Client → AuthorizationCode → Flow Identity
load_authorization_code_identity client a = do
  found ← ask (load_eligible_oauth2_user_identity (some a.user_id) (some a.organization_id))
  admit_code_identity client a found

-- `" ".join` of the names that are not empty, or None.
unfoldable pub user_display_name : IdentityUser → Option Text
user_display_name user = elim user.first_name [
  | [] ↦ elim user.last_name [ [] ↦ none | c ∷ s ↦ some (c ∷ s) ]
  | c ∷ s ↦ elim user.last_name [
    | [] ↦ some (c ∷ s)
    | b ∷ t ↦ some ((c ∷ s) ++ text " " ++ (b ∷ t))
  ]
]

abbrev pub only_if : {A : Type 0} → Bool → Option A → Option A
only_if b value = if b then value else none

-- The claims of `create_id_token` for this call.
unfoldable pub id_token_claims :
    OAuth2Settings → AuthorizationCode → Text → IdentityUser → ℕ → IdTokenClaims
id_token_claims settings a client_id user now =
    let with_email = is_member (text "email") (split a.scope) in
    let with_profile = is_member (text "profile") (split a.scope) in
    record {
      iss = settings.issuer;
      sub = user.public_id;
      aud = client_id;
      exp = (now + seconds settings.id_token_lifetime_seconds) / 1000000;
      iat = now / 1000000;
      auth_time = a.authenticated_at / 1000000;
      nonce = a.nonce;
      email = only_if with_email (some user.email);
      email_verified = only_if with_email (some user.email_verified);
      name = only_if with_profile (user_display_name user);
      given_name = only_if with_profile (some user.first_name);
      family_name = only_if with_profile (some user.last_name);
    }

-- `_create_id_token`
abbrev pub create_id_token :
    Platform → OAuth2Settings → AuthorizationCode → Text → IdentityUser → ℕ → Option Text
create_id_token p settings a client_id user now =
    if scope_includes_openid a.scope
    then some (p.sign_id_token settings (id_token_claims settings a client_id user now))
    else none

abbrev pub code_session :
    OAuth2Settings → OAuth2Client → AuthorizationCode → Identity → Text → NewTokenSession
code_session settings client a identity access_jti = record {
  access_payload =
      create_access_token_payload identity.user.public_id identity.organization.public_id
        settings.access_token_audience client.client_id a.scope access_jti;
  grant_type = OAuth2SessionGrantType.authorization_code;
  client_id = client.client_id;
  scope = a.scope;
  user_id = some identity.user.id;
  organization_id = some identity.organization.id;
  include_refresh_token = should_issue_refresh_token settings (some client);
}

unfoldable pub issue_authorization_code_tokens :
    Platform
    → OAuth2Settings
    → OAuth2Client
    → AuthorizationCode
    → Identity
    → CodeDraws
    → Flow TokenResponse
issue_authorization_code_tokens p settings client a identity draws = do
  (tokens, id) ←
      issue_new_session p settings (code_session settings client a identity draws.access_jti)
        draws.issuance
  pure (
      build_response tokens
        (create_id_token p settings a client.client_id identity.user draws.id_token_at))

abbrev pub exchange_code :
    Platform
    → OAuth2Settings
    → Text
    → OAuth2Client
    → CodeDraws
    → AuthorizationCode
    → Flow TokenResponse
exchange_code p settings code_hash client draws a = do
  consume_authorization_code code_hash draws.used_at
  identity ← load_authorization_code_identity client a
  issue_authorization_code_tokens p settings client a identity draws

unfoldable pub handle_authorization_code_grant :
    Platform
    → OAuth2Settings
    → AuthorizationCodeGrantRequest
    → Option ClientAuth
    → CodeDraws
    → Flow TokenResponse
handle_authorization_code_grant p settings req client_auth draws = do
  client ← validate_authorization_code_client client_auth settings
  a ← load_authorization_code p settings req client draws.checked_at
  exchange_code p settings (hash_authorization_code p settings req.code) client draws a
