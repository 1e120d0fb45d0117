-- ===== src/Oauth2/Settings.antt =====
-- `app/oauth2/settings.py`, and the code outside the repository that the token endpoint calls.
use zero_auth_lite.Prelude.{ℕ, Bool, Option, Text}
use zero_auth_lite.Oauth2.Errors.{OAuth2GrantType}

pub record OAuth2Settings : Type 0 where
  pub authorization_code_enabled : Bool
  pub refresh_token_enabled : Bool
  pub client_credentials_enabled : Bool
  pub device_code_enabled : Bool
  pub oidc_enabled : Bool
  pub token_hash_secret : Text
  pub authorization_code_hash_secret : Text
  pub access_token_lifetime_seconds : ℕ
  pub refresh_token_lifetime_seconds : ℕ
  pub id_token_lifetime_seconds : ℕ
  pub device_code_interval_seconds : ℕ
  pub issuer : Text
  pub access_token_audience : Text
  pub signing_key_id : Option Text

abbrev pub is_grant_enabled : OAuth2Settings → OAuth2GrantType → Bool
is_grant_enabled s OAuth2GrantType.authorization_code = s.authorization_code_enabled
is_grant_enabled s OAuth2GrantType.refresh_token = s.refresh_token_enabled
is_grant_enabled s OAuth2GrantType.client_credentials = s.client_credentials_enabled
is_grant_enabled s OAuth2GrantType.device_code = s.device_code_enabled

pub data PrincipalType : Type 0 where
  user client : PrincipalType

pub record AccessTokenPayload : Type 0 where
  pub subject : Text
  pub organization : Option Text
  pub audience : Text
  pub access_jti : Text
  pub client_id : Text
  pub scope : Text
  pub principal_type : Option PrincipalType

-- The claims of `create_id_token` in `app/oauth2/oidc/id_tokens.py`; an optional one that is absent
-- is left out of the token. Times are whole seconds.
pub record IdTokenClaims : Type 0 where
  pub iss : Text
  pub sub : Text
  pub aud : Text
  pub exp : ℕ
  pub iat : ℕ
  pub auth_time : ℕ
  pub nonce : Option Text
  pub email : Option Text
  pub email_verified : Option Bool
  pub name : Option Text
  pub given_name : Option Text
  pub family_name : Option Text

-- What the endpoint takes from elsewhere: HMAC-SHA-256 of a key and a message as hexadecimal text,
-- the S256 challenge of a verifier, the signature of an access token with its issue and expiry
-- times, and that of an ID token, which the signing key is part of.
pub record Platform : Type 0 where
  pub hmac_sha256 : Text → Text → Text
  pub s256 : Text → Text
  pub sign_access_token : OAuth2Settings → AccessTokenPayload → ℕ → ℕ → Text
  pub sign_id_token : OAuth2Settings → IdTokenClaims → Text

-- `hash_oauth2_token` of `app/oauth2/tokens/hash.py`.
abbrev pub hash_oauth2_token : Platform → Text → Text → Text
hash_oauth2_token p token secret = p.hmac_sha256 secret token
