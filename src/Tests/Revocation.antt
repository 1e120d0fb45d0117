-- ===== src/Tests/Revocation.antt =====
-- A revocation by the client that owns the token.
use zero_auth_lite.Prelude.{ℕ, ◌≡◌, ◌≢◌, refl, none, some, ◌∷◌, text, text_eq}
use zero_auth_lite.Database.{err, request}
use zero_auth_lite.Oauth2.Errors.{protocol, invalid_grant}
use zero_auth_lite.Oauth2.Tables.{Tables, OAuth2Session}
use zero_auth_lite.Oauth2.SessionStatus.{
  token_family_is_current, token_family_is_current_predicate, keeps,
  token_family_is_current-eq-predicate,
}
use zero_auth_lite.Oauth2.Refresh.{
  RefreshDraws, RefreshTokenGrantRequest, session_row, has_refresh_hash, handle_refresh_token_grant,
}
use zero_auth_lite.Oauth2.Refresh.Reuse.{IsRevoked}
use zero_auth_lite.Oauth2.Refresh.SingleUse.{UniqueRefreshHashes}
use zero_auth_lite.Oauth2.Revocation.{RevokedTokenFamily, revoked_metadata, revoke}
use zero_auth_lite.Oauth2.Revocation.Effects.{
  IsSpared, revoke_ends_family, revoked_token_not_refreshed,
}
use zero_auth_lite.Table.{find_where}
use zero_auth_lite.Tests.Store.{platform, settings, session, token_state, store}

abbrev answer : RevokedTokenFamily
answer = revoked_metadata (record { session = session; token_state = token_state })

abbrev revoked_store : Tables
revoked_store = (revoke (35 ∷ text "j0") (text "c") 50 store).1

revoked_is : revoke (35 ∷ text "j0") (text "c") 50 store ≡ (some answer, revoked_store)
unfolding text_eq revoke
revoked_is = refl

revoke_ends_family_example :
    ((r : OAuth2Session) × (session_row answer.session_id store ≡ some r)
      × (r.client_id ≡ text "c"))
    × IsRevoked answer.session_id revoked_store
    × ((other : ℕ) → other ≢ answer.session_id → IsSpared other store revoked_store)
revoke_ends_family_example =
    revoke_ends_family (35 ∷ text "j0") (text "c") 50 store answer revoked_store revoked_is

abbrev refresh_request : RefreshTokenGrantRequest
refresh_request = record { refresh_token = text "r0"; scope = none }

abbrev draws : RefreshDraws
draws = record {
  reused_at = 1000;
  checked_at = 1001;
  issued_at = 1002;
  access_jti = text "j1";
  refresh_token = text "r1";
}

one_hash : UniqueRefreshHashes store.token_states
one_hash = (λ h e. refl, tt)

live_before : find_where (has_refresh_hash (35 ∷ text "r0")) store.token_states ≡ some token_state
unfolding text_eq
live_before = refl

revoked_token_not_refreshed_example :
    (request
      (handle_refresh_token_grant platform settings refresh_request none draws)
      revoked_store).0
    ≡ err (protocol invalid_grant)
revoked_token_not_refreshed_example =
    revoked_token_not_refreshed platform settings refresh_request none draws (35 ∷ text "j0")
      (text "c") 50 store revoked_store answer token_state refl one_hash revoked_is live_before refl

token_family_is_current-eq-predicate_example :
    keeps (token_family_is_current_predicate token_state session 9000000000)
    ≡ token_family_is_current token_state session 9000000000
token_family_is_current-eq-predicate_example =
    token_family_is_current-eq-predicate token_state session 9000000000
