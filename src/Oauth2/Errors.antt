-- ===== src/Oauth2/Errors.antt =====
-- `app/oauth2/error_codes.py`, `app/oauth2/errors.py` and `app/oauth2/grants/types.py`.
use zero_auth_lite.Prelude.{Bool, Text, text}

pub data OAuth2ErrorCode : Type 0 where
  invalid_request invalid_client invalid_grant unauthorized_client unsupported_grant_type
        invalid_scope access_denied authorization_pending slow_down expired_token
        unsupported_token_type unsupported_response_type server_error temporarily_unavailable
        invalid_token insufficient_scope :
      OAuth2ErrorCode

-- What a handler may raise: an `OAuth2ProtocolError` with its code (400), an `InvalidClientError`
-- with its challenge flag (401), and the exceptions that no handler of the token endpoint catches.
pub data Error : Type 0 where
  protocol : OAuth2ErrorCode → Error
  client_rejected : Bool → Error
  value_error runtime_error integrity_error database_busy : Error

pub data OAuth2GrantType : Type 0 where
  authorization_code refresh_token client_credentials device_code : OAuth2GrantType

-- `OAuth2GrantType.value`
abbrev pub value : OAuth2GrantType → Text
value authorization_code = text "authorization_code"
value refresh_token = text "refresh_token"
value client_credentials = text "client_credentials"
value device_code = text "urn:ietf:params:oauth:grant-type:device_code"

pub data OAuth2SessionGrantType : Type 0 where
  authorization_code client_credentials device_code : OAuth2SessionGrantType
