-- ===== src/Tests/Store.antt =====
-- A small authorization server: one organization, one user, one client, one session.
use zero_auth_lite.Prelude.{true, false, none, some, [], ◌∷◌, text}
use zero_auth_lite.Oauth2.Errors.{value, OAuth2GrantType, OAuth2SessionGrantType}
use zero_auth_lite.Oauth2.Tables.{
  Tables, OAuth2Client, OAuth2Session, TokenState, DeviceAuthorization, unrestricted,
  UserEmailStatus, MembershipRole,
}
use zero_auth_lite.Oauth2.Settings.{OAuth2Settings, Platform}
use zero_auth_lite.Oauth2.Clients.{ClientAuth, public}

-- A transparent stand-in for the cryptography: the hash marks and keeps its message.
abbrev pub platform : Platform
platform = record {
  hmac_sha256 = λ key message. 35 ∷ message;
  s256 = λ verifier. 36 ∷ verifier;
  sign_access_token = λ settings payload issued_at expires_at. payload.access_jti;
  sign_id_token = λ settings claims. claims.sub;
}

abbrev pub settings : OAuth2Settings
settings = record {
  authorization_code_enabled = true;
  refresh_token_enabled = true;
  client_credentials_enabled = true;
  device_code_enabled = true;
  oidc_enabled = true;
  token_hash_secret = 1 ∷ [];
  authorization_code_hash_secret = 2 ∷ [];
  access_token_lifetime_seconds = 900;
  refresh_token_lifetime_seconds = 86400;
  id_token_lifetime_seconds = 900;
  device_code_interval_seconds = 5;
  issuer = text "i";
  access_token_audience = text "a";
  signing_key_id = none;
}

abbrev pub app : OAuth2Client
app = record {
  id = 1;
  client_id = text "c";
  client_secret = none;
  name = text "app";
  grant_types = value OAuth2GrantType.refresh_token ∷ value OAuth2GrantType.device_code ∷ [];
  scopes = text "r" ∷ [];
  is_confidential = false;
  requires_consent = false;
  is_active = true;
  user_organization_access = unrestricted;
}

abbrev pub app_auth : ClientAuth
app_auth = record { client = app; method = public }

abbrev pub session : OAuth2Session
session = record {
  id = 1;
  public_id = text "s";
  user_id = some 7;
  organization_id = some 3;
  client_id = text "c";
  grant_type = OAuth2SessionGrantType.device_code;
  scope = text "r";
  ended_at = none;
}

abbrev pub token_state : TokenState
token_state = record {
  session_id = 1;
  access_token_hash = 35 ∷ text "j0";
  access_jti = text "j0";
  refresh_token_hash = some (35 ∷ text "r0");
  access_expires_at = 900000000;
  refresh_expires_at = some 9000000000;
}

abbrev pub device : DeviceAuthorization
device = record {
  id = 4;
  device_code_hash = 35 ∷ text "d";
  user_code_hash = 35 ∷ text "u";
  client_id = text "c";
  scope = text "r";
  expires_at = 9000000000;
  interval_seconds = 5;
  last_polled_at = none;
  approved_at = none;
  denied_at = none;
  used_at = none;
  user_id = none;
  organization_id = none;
}

abbrev pub store : Tables
store = record {
  users =
      record {
        id = 7;
        public_id = text "p";
        first_name = text "Ann";
        last_name = text "Lee";
        is_active = true;
        is_operator = false;
      }
      ∷ [];
  emails =
      record {
        id = 1;
        user_id = 7;
        email = text "a@b";
        status = UserEmailStatus.current;
        verified_at = some 1;
      }
      ∷ [];
  memberships = record { user_id = 7; organization_id = 3; role = MembershipRole.member } ∷ [];
  organizations = record { id = 3; public_id = text "o"; name = text "Org" } ∷ [];
  clients = app ∷ [];
  client_user_organizations = [];
  sessions = session ∷ [];
  token_states = token_state ∷ [];
  refresh_history = [];
  device_authorizations = device ∷ [];
  authorization_codes = [];
}
