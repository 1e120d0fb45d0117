-- ===== src/Oauth2/Devices/Grant.antt =====
-- `handle_device_code_grant` of `app/oauth2/devices/polling.py`.
use zero_auth_lite.Prelude.{
  ℕ, Bool, false, not, ◌&&◌, Option, none, some, Text, leb, is_null, is_not_null,
}
use zero_auth_lite.Table.{find_where, update_where}
use zero_auth_lite.Database.{
  pure, raise, raise_if, query, execute, independently, commit, or_raise, ◌>>=◌, ◌>>◌,
}
use zero_auth_lite.Oauth2.Errors.{
  protocol, database_busy, invalid_grant, invalid_client, invalid_scope, unauthorized_client,
  unsupported_grant_type, access_denied, authorization_pending, expired_token, OAuth2GrantType,
  OAuth2SessionGrantType, OAuth2ErrorCode,
}
use zero_auth_lite.Oauth2.Tables.{Tables, Flow, ask, OAuth2Client, DeviceAuthorization}
use zero_auth_lite.Oauth2.Settings.{OAuth2Settings, Platform, hash_oauth2_token, is_grant_enabled}
use zero_auth_lite.Oauth2.Scopes.{validate_requested_scope, validate_oidc_scope_enabled}
use zero_auth_lite.Oauth2.Clients.{
  ClientAuth, lock_and_reload_token_client, client_allows_grant, client_allows_user_organization,
  should_issue_refresh_token,
}
use zero_auth_lite.Oauth2.Identity.{Identity, load_eligible_oauth2_user_identity}
use zero_auth_lite.Oauth2.Issuance.{
  IssuanceDraws, TokenResponse, NewTokenSession, create_access_token_payload, issue_new_session,
  build_response,
}
use zero_auth_lite.Oauth2.Devices.Polling.{
  approved, pending, slow_down, denied, expired, invalid, DevicePollDecision, has_device_code,
  evaluate_device_poll,
}

-- The clock and the random values of one request, in the order of their use.
pub record DeviceDraws : Type 0 where
  pub polled_at : ℕ
  pub consumed_at : ℕ
  pub access_jti : Text
  pub issuance : IssuanceDraws

unfoldable pub validate_initial_device_client : OAuth2Settings → Option ClientAuth → Flow ClientAuth
validate_initial_device_client settings client_auth = do
  raise_if (not (is_grant_enabled settings OAuth2GrantType.device_code))
      (protocol unsupported_grant_type)
  auth ← or_raise client_auth (protocol invalid_client)
  raise_if (not auth.client.is_active) (protocol invalid_client)
  pure auth

abbrev pub validate_reloaded : DeviceAuthorization → Option ClientAuth → Flow OAuth2Client
validate_reloaded authorization reloaded = do
  current ← or_raise reloaded (protocol invalid_client)
  raise_if (not (client_allows_grant current.client OAuth2GrantType.device_code))
      (protocol unauthorized_client)
  raise_if
      (not (
        validate_requested_scope authorization.scope current.client.scopes
        && validate_oidc_scope_enabled authorization.scope false))
      (protocol invalid_scope)
  pure current.client

unfoldable pub reload_and_validate_device_client :
    ClientAuth → DeviceAuthorization → Flow OAuth2Client
reload_and_validate_device_client client_auth authorization = do
  commit
  reloaded ← lock_and_reload_token_client (some client_auth)
  validate_reloaded authorization reloaded

abbrev pub admit_identity : OAuth2Client → Option Identity → Flow Identity
admit_identity client found = do
  identity ← or_raise found (protocol invalid_grant)
  allowed ← query (client_allows_user_organization client identity.organization.id)
  raise_if (not allowed) (protocol invalid_grant)
  pure identity

unfoldable pub load_device_identity : OAuth2Client → DeviceAuthorization → Flow Identity
load_device_identity client authorization = do
  found ←
      ask (load_eligible_oauth2_user_identity authorization.user_id authorization.organization_id)
  admit_identity client found

abbrev pub is_consumable : Text → ℕ → DeviceAuthorization → Bool
is_consumable device_code_hash now a =
    has_device_code device_code_hash a
    && (is_null a.used_at
        && (is_not_null a.approved_at && (is_null a.denied_at && not (leb a.expires_at now))))

abbrev pub used : ℕ → DeviceAuthorization → DeviceAuthorization
used now a = record a { used_at = some now }

-- The update, and whether it returned a row.
abbrev pub mark_used : Text → ℕ → Tables → Bool × Tables
mark_used device_code_hash now d = (
  is_not_null (find_where (is_consumable device_code_hash now) d.device_authorizations),
  record d {
    device_authorizations =
        update_where (is_consumable device_code_hash now) (used now) d.device_authorizations;
  },
)

unfoldable pub consume_device_authorization : Text → ℕ → Flow (Unit {0})
consume_device_authorization device_code_hash now = do
  marked ← execute (mark_used device_code_hash now)
  raise_if (not marked) (protocol invalid_grant)

abbrev pub device_session :
    OAuth2Settings → OAuth2Client → DeviceAuthorization → Identity → Text → NewTokenSession
device_session settings client authorization identity access_jti = record {
  access_payload =
      create_access_token_payload identity.user.public_id identity.organization.public_id
        settings.access_token_audience client.client_id authorization.scope access_jti;
  grant_type = OAuth2SessionGrantType.device_code;
  client_id = client.client_id;
  scope = authorization.scope;
  user_id = some identity.user.id;
  organization_id = some identity.organization.id;
  include_refresh_token = should_issue_refresh_token settings (some client);
}

unfoldable pub issue_device_tokens :
    Platform
    → OAuth2Settings
    → OAuth2Client
    → DeviceAuthorization
    → Identity
    → DeviceDraws
    → Flow TokenResponse
issue_device_tokens p settings client authorization identity draws = do
  (tokens, id) ←
      issue_new_session p settings
        (device_session settings client authorization identity draws.access_jti) draws.issuance
  pure (build_response tokens none)

-- The error of each status that is not an approval.
abbrev pub poll_result : DevicePollDecision → Flow DeviceAuthorization
poll_result decision = elim decision.status [
  | pending ↦ raise (protocol authorization_pending)
  | slow_down ↦ raise (protocol OAuth2ErrorCode.slow_down)
  | denied ↦ raise (protocol access_denied)
  | expired ↦ raise (protocol expired_token)
  | invalid ↦ raise (protocol invalid_grant)
  | approved ↦ or_raise decision.authorization (protocol invalid_grant)
]

abbrev pub exchange_device :
    Platform
    → OAuth2Settings
    → ClientAuth
    → Text
    → DeviceDraws
    → DeviceAuthorization
    → Flow TokenResponse
exchange_device p settings auth device_code_hash draws authorization = do
  client ← reload_and_validate_device_client auth authorization
  identity ← load_device_identity client authorization
  consume_device_authorization device_code_hash draws.consumed_at
  issue_device_tokens p settings client authorization identity draws

abbrev pub device_hash : Platform → OAuth2Settings → Text → Text
device_hash p settings device_code = hash_oauth2_token p device_code settings.token_hash_secret

-- `device_code` is the code of the request.
unfoldable pub handle_device_code_grant :
    Platform → OAuth2Settings → Text → Option ClientAuth → DeviceDraws → Flow TokenResponse
handle_device_code_grant p settings device_code client_auth draws = do
  auth ← validate_initial_device_client settings client_auth
  decision ← independently database_busy (
      evaluate_device_poll (device_hash p settings device_code) auth.client.client_id
        draws.polled_at)
  authorization ← poll_result decision
  exchange_device p settings auth (device_hash p settings device_code) draws authorization
