-- ===== src/Tests/CodeExchange.antt =====
-- An authorization code and its verifier.
use zero_auth_lite.Prelude.{◌≡◌, ◌≢◌, refl, none, some, [], ◌∷◌, Text, text, text_eq}
use zero_auth_lite.Database.{Outcome, ok, err, Connection, view, request}
use zero_auth_lite.Oauth2.Errors.{Error, protocol, invalid_grant, OAuth2GrantType, value}
use zero_auth_lite.Oauth2.Tables.{Tables, OAuth2Client, AuthorizationCode}
use zero_auth_lite.Oauth2.Scopes.{
  is_space, split, parts, close_word, is_member, are_members, validate_requested_scope,
  scope_includes_openid, validate_oidc_scope_enabled,
}
use zero_auth_lite.Oauth2.Clients.{
  ClientAuth, public, organization_assignment_count_is_valid, client_allows_user_organization,
}
use zero_auth_lite.Oauth2.Identity.{load_eligible_oauth2_user_identity}
use zero_auth_lite.Oauth2.Issuance.{
  TokenResponse, create_access_token_payload, create_issued_tokens, session_principal_type,
  is_well_bound, issue_new_session,
}
use zero_auth_lite.Oauth2.CodeExchange.{
  AuthorizationCodeGrantRequest, CodeDraws, are_verifier_chars, verify_s256_code_challenge,
  validate_authorization_code_client, load_authorization_code, consume_authorization_code,
  load_authorization_code_identity, id_token_claims, issue_authorization_code_tokens,
  handle_authorization_code_grant,
}
use zero_auth_lite.Oauth2.CodeExchange.SingleUse.{
  IsExchanged, code_exchange_establishes, code_exchange_failure_changes_nothing,
  authorization_code_single_use,
}
use zero_auth_lite.Tests.Store.{platform, settings, app, store}

abbrev verifier : Text
verifier = text "abcdefghijklmnopqrstuvwxyz0123456789ABCDEFG"

abbrev web_app : OAuth2Client
web_app = record app {
  grant_types = value OAuth2GrantType.authorization_code ∷ [];
  scopes = text "openid" ∷ [];
}

abbrev web_auth : ClientAuth
web_auth = record { client = web_app; method = public }

abbrev stored_code : AuthorizationCode
stored_code = record {
  id = 1;
  code_hash = 35 ∷ text "k";
  client_id = text "c";
  redirect_uri = text "https://x";
  scope = text "openid";
  nonce = none;
  code_challenge = 36 ∷ verifier;
  code_challenge_method = text "S256";
  expires_at = 9000;
  authenticated_at = 10;
  used_at = none;
  user_id = 7;
  organization_id = 3;
}

abbrev code_store : Tables
code_store = record store { clients = web_app ∷ []; authorization_codes = stored_code ∷ [] }

abbrev redeem : AuthorizationCodeGrantRequest
redeem = record { code = text "k"; redirect_uri = text "https://x"; code_verifier = verifier }

abbrev draws : CodeDraws
draws = record {
  checked_at = 100;
  used_at = 101;
  access_jti = text "j7";
  issuance = record { issued_at = 102; refresh_token = text "r7"; session_public_id = text "s7" };
  id_token_at = 103;
}

abbrev response : TokenResponse
response = record {
  access_token = text "j7";
  refresh_token = none;
  id_token = some (text "p");
  expires_in = 900;
}

abbrev redeemed : Outcome Error TokenResponse × Tables
redeemed =
    request (handle_authorization_code_grant platform settings redeem (some web_auth) draws)
      code_store

redeemed_is :
    request
      (handle_authorization_code_grant platform settings redeem (some web_auth) draws)
      code_store
    ≡ (ok response, redeemed.1)
unfolding text_eq is_space split parts close_word is_member are_members validate_requested_scope
    scope_includes_openid validate_oidc_scope_enabled organization_assignment_count_is_valid
    client_allows_user_organization load_eligible_oauth2_user_identity create_access_token_payload
    create_issued_tokens session_principal_type is_well_bound issue_new_session are_verifier_chars
    verify_s256_code_challenge validate_authorization_code_client load_authorization_code
    consume_authorization_code load_authorization_code_identity id_token_claims
    issue_authorization_code_tokens handle_authorization_code_grant
redeemed_is = refl

authorization_code_single_use_example :
    (request
      (handle_authorization_code_grant platform settings redeem (some web_auth) draws)
      redeemed.1).0
    ≢ ok response
authorization_code_single_use_example =
    authorization_code_single_use platform settings redeem redeem (some web_auth) (some web_auth)
      draws draws code_store redeemed.1 redeemed.1 response response refl redeemed_is refl

code_exchange_establishes_example :
    (c : Connection Tables) × IsExchanged platform settings redeem draws code_store
      (some web_auth)
      response
      c
    × (redeemed.1 ≡ view c)
code_exchange_establishes_example =
    code_exchange_establishes platform settings redeem draws code_store (some web_auth) response
      redeemed.1 redeemed_is

-- The user of the code is gone: the request fails after it has marked the code as used.
abbrev departed_store : Tables
departed_store = record code_store { users = [] }

departed_is :
    request
      (handle_authorization_code_grant platform settings redeem (some web_auth) draws)
      departed_store
    ≡ (err (protocol invalid_grant), departed_store)
unfolding text_eq is_space split parts close_word is_member are_members validate_requested_scope
    scope_includes_openid validate_oidc_scope_enabled organization_assignment_count_is_valid
    client_allows_user_organization load_eligible_oauth2_user_identity create_access_token_payload
    create_issued_tokens session_principal_type is_well_bound issue_new_session are_verifier_chars
    verify_s256_code_challenge validate_authorization_code_client load_authorization_code
    consume_authorization_code load_authorization_code_identity id_token_claims
    issue_authorization_code_tokens handle_authorization_code_grant
departed_is = refl

code_exchange_failure_changes_nothing_example : departed_store ≡ departed_store
code_exchange_failure_changes_nothing_example =
    code_exchange_failure_changes_nothing platform settings redeem draws departed_store
      (some web_auth) (protocol invalid_grant) departed_store departed_is
