-- ===== src/Oauth2/Revocation.antt =====
-- `app/oauth2/tokens/revocation.py`: revocation of a client's own token.
pub mod Effects
use zero_auth_lite.Prelude.{
  ℕ, Bool, true, false, ◌||◌, Option, none, some, List, Text, text_eq, if◌then◌else◌,
}
use zero_auth_lite.Table.{find_where}
use zero_auth_lite.Oauth2.Errors.{OAuth2SessionGrantType}
use zero_auth_lite.Oauth2.Tables.{Tables, OAuth2Session, TokenState}
use zero_auth_lite.Oauth2.Refresh.{
  TokenFamily, has_refresh_hash, session_row, end_session, delete_token_state,
}

pub record RevokedTokenFamily : Type 0 where
  pub session_id : ℕ
  pub session_public_id : Text
  pub grant_type : OAuth2SessionGrantType

abbrev pub has_token_hash : Text → TokenState → Bool
has_token_hash token_hash t =
    text_eq t.access_token_hash token_hash || has_refresh_hash token_hash t

-- The joined select.
abbrev pub token_row : Text → Tables → Option TokenFamily
token_row token_hash d = elim (find_where (has_token_hash token_hash) d.token_states) [
  | none ↦ none
  | some t ↦ elim (session_row t.session_id d) [
    | none ↦ none
    | some r ↦ some (record { session = r; token_state = t })
  ]
]

abbrev pub revoked_metadata : TokenFamily → RevokedTokenFamily
revoked_metadata family = record {
  session_id = family.token_state.session_id;
  session_public_id = family.session.public_id;
  grant_type = family.session.grant_type;
}

-- The hash of the token, the caller's client and the clock come as arguments.
unfoldable pub revoke : Text → Text → ℕ → Tables → Option RevokedTokenFamily × Tables
revoke token_hash client_id now d = elim (token_row token_hash d) [
  | none ↦ (none, d)
  | some family ↦
      if text_eq family.session.client_id client_id
      then (
        some (revoked_metadata family),
        end_session family.token_state.session_id now
            (delete_token_state family.token_state.session_id d),
      )
      else (none, d)
]
