-- ===== src/Oauth2/Refresh/Reuse.antt =====
-- A refresh token is good for one rotation, and its second use ends the family.
use zero_auth_lite.Prelude.{
  ℕ, ◌≡◌, refl, true, false, ◌&&◌, Option, none, some, arith, Text, ◌==◌, is_null, inl, inr,
  Bool-cases,
}
use zero_auth_lite.Table.{find_where-delete_where}
use zero_auth_lite.Table.Keyed.{row-update_where, row_key}
use zero_auth_lite.Database.{err, request}
use zero_auth_lite.Oauth2.Errors.{protocol, invalid_grant, OAuth2GrantType}
use zero_auth_lite.Oauth2.Tables.{Tables, OAuth2Session, TokenState, RefreshTokenHistory}
use zero_auth_lite.Oauth2.Settings.{OAuth2Settings, Platform, is_grant_enabled}
use zero_auth_lite.Oauth2.Clients.{ClientAuth}
use zero_auth_lite.Oauth2.Refresh.{
  RefreshDraws, RefreshTokenGrantRequest, refresh_hash_of, family_row, session_row, ended,
  end_session, is_active, history_row, token_state_of, reused_session, load_refresh_family,
  revoke_reused_refresh_family, handle_refresh_token_grant,
}

-- A hash that no live family has is refused, and its family is looked for in the history.
pub refused_unknown :
    (p : Platform) (settings : OAuth2Settings) (req : RefreshTokenGrantRequest)
    (auth : Option ClientAuth) (draws : RefreshDraws) (d : Tables)
    → is_grant_enabled settings OAuth2GrantType.refresh_token ≡ true
    → family_row (refresh_hash_of p settings req) d ≡ none
    → request (handle_refresh_token_grant p settings req auth draws) d ≡ (
      err (protocol invalid_grant),
      revoke_reused_refresh_family (refresh_hash_of p settings req) draws.reused_at d,
    )
unfolding handle_refresh_token_grant load_refresh_family
refused_unknown p settings req auth draws d enabled absent = simp (enabled, absent)

-- The session of a reused token: found through the history, with live token state.
pub record IsReused (h : Text) (session_id : ℕ) (d : Tables) : Type 0 where
  pub entry : RefreshTokenHistory
  pub state : TokenState
  pub session : OAuth2Session
  pub in_history : history_row h d ≡ some entry
  pub of_session : entry.session_id ≡ session_id
  pub live : token_state_of session_id d ≡ some state
  pub stored : session_row session_id d ≡ some session

-- The family of a session is over: no token state is left, and the session has ended.
pub record IsRevoked (session_id : ℕ) (d : Tables) : Type 0 where
  pub no_tokens : token_state_of session_id d ≡ none
  pub session : OAuth2Session
  pub stored : session_row session_id d ≡ some session
  pub over : is_active session ≡ false

reused_session_of :
    (h : Text) (session_id : ℕ) (d : Tables)
    → IsReused h session_id d
    → reused_session h d ≡ some session_id
reused_session_of h session_id d u =
    let state_key =
      row_key (λ (t : TokenState). t.session_id) session_id d.token_states u.state u.live in
    let session_key =
      row_key (λ (r : OAuth2Session). r.id) session_id d.sessions u.session u.stored in
    ground (arith, u.in_history, u.of_session, u.live, u.stored)

pub end_session-IsRevoked :
    (session_id now : ℕ) (d : Tables) (r : OAuth2Session)
    → session_row session_id d ≡ some r
    → (r' : OAuth2Session) × (session_row session_id (end_session session_id now d) ≡ some r')
      × (is_active r' ≡ false)
end_session-IsRevoked session_id now d r stored =
    let out =
      row-update_where (λ (x : OAuth2Session). x.id) session_id
        (λ x. x.id == session_id && is_null x.ended_at) (ended now) d.sessions (λ x. refl) in
    let key = row_key (λ (x : OAuth2Session). x.id) session_id d.sessions r stored in
    elim (Bool-cases (is_null r.ended_at)) [
      | inl open_session ↦ (ended now r, ground arith, refl)
      | inr over ↦ (r, ground arith, over)
    ]

pub revoke-IsRevoked :
    (h : Text) (session_id now : ℕ) (d : Tables)
    → IsReused h session_id d
    → IsRevoked session_id (revoke_reused_refresh_family h now d)
unfolding revoke_reused_refresh_family
revoke-IsRevoked h session_id now d u =
    let (r', stored, over) = end_session-IsRevoked session_id now d u.session u.stored in
    rw (reused_session_of h session_id d u, revoke_reused_refresh_family)
      (record {
        no_tokens = find_where-delete_where (λ t. t.session_id == session_id) d.token_states;
        session = r';
        stored = stored;
        over = over;
      })

-- Replaying a refresh token that was rotated away, while its family lives and the refresh grant is
-- enabled: the request answers `invalid_grant`, and although it fails, the revocation is committed.
-- The family keeps no token state and its session has ended.
pub reuse_revokes_family :
    (p : Platform) (settings : OAuth2Settings) (req : RefreshTokenGrantRequest)
    (auth : Option ClientAuth) (draws : RefreshDraws) (session_id : ℕ) (d : Tables)
    → is_grant_enabled settings OAuth2GrantType.refresh_token ≡ true
    → family_row (refresh_hash_of p settings req) d ≡ none
    → IsReused (refresh_hash_of p settings req) session_id d
    → let (outcome, d') = request (handle_refresh_token_grant p settings req auth draws) d in
      (outcome ≡ err (protocol invalid_grant)) × IsRevoked session_id d'
reuse_revokes_family p settings req auth draws session_id d enabled absent u =
    rw (refused_unknown p settings req auth draws d enabled absent)
      (refl, revoke-IsRevoked (refresh_hash_of p settings req) session_id draws.reused_at d u)
