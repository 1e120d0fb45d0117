-- ===== src/Oauth2/Revocation/Effects.antt =====
-- What a revocation ends, and that its tokens cannot be refreshed.
use zero_auth_lite.Prelude.{
  ℕ, ◌≡◌, ◌≢◌, ◌∙◌, ap, refl, arith, true, ◌&&◌, Option, none, some, List, [], ◌∷◌, Text, text_eq,
  text_eq_iff, ◌==◌, is_null, inl, inr, Bool-cases, Option-cases,
}
use zero_auth_lite.Table.{find_where, delete_where, find_where-delete_where}
use zero_auth_lite.Table.Keyed.{row-update_where, row_key}
use zero_auth_lite.Database.{err, request}
use zero_auth_lite.Oauth2.Errors.{protocol, invalid_grant, OAuth2GrantType}
use zero_auth_lite.Oauth2.Tables.{Tables, OAuth2Session, TokenState}
use zero_auth_lite.Oauth2.Settings.{OAuth2Settings, Platform, is_grant_enabled}
use zero_auth_lite.Oauth2.Clients.{ClientAuth}
use zero_auth_lite.Oauth2.Refresh.{
  TokenFamily, RefreshDraws, RefreshTokenGrantRequest, refresh_hash_of, family_row,
  has_refresh_hash, session_row, token_state_of, ended, end_session, delete_token_state,
  handle_refresh_token_grant,
}
use zero_auth_lite.Oauth2.Refresh.Reuse.{IsRevoked, end_session-IsRevoked, refused_unknown}
use zero_auth_lite.Oauth2.Refresh.SingleUse.{UniqueRefreshHashes}
use zero_auth_lite.Oauth2.Revocation.{RevokedTokenFamily, token_row, revoked_metadata, revoke}

-- A session and its token state are the same before and after.
pub record IsSpared (session_id : ℕ) (d d' : Tables) : Type 0 where
  pub same_tokens : token_state_of session_id d' ≡ token_state_of session_id d
  pub same_session : session_row session_id d' ≡ session_row session_id d

-- A revocation that answers: what it has found and written.
record HasRevoked (h client_id : Text) (now : ℕ) (d : Tables) (answer : RevokedTokenFamily)
    (d' : Tables) : Type 0 where
  family : TokenFamily
  found : token_row h d ≡ some family
  owned : family.session.client_id ≡ client_id
  answered : answer ≡ revoked_metadata family
  written :
      d'
      ≡ end_session family.token_state.session_id now
          (delete_token_state family.token_state.session_id d)

revoke_won :
    (h client_id : Text) (now : ℕ) (d : Tables) (answer : RevokedTokenFamily) (d' : Tables)
    → revoke h client_id now d ≡ (some answer, d')
    → HasRevoked h client_id now d answer d'
unfolding revoke
revoke_won h client_id now d answer d' e = elim (Option-cases (token_row h d)) [
  | inl absent ↦ absurd (ground arith)
  | inr (family, found) ↦ elim (Bool-cases (text_eq family.session.client_id client_id)) [
    | inl same ↦ record {
      family = family;
      found = found;
      owned = (text_eq_iff family.session.client_id client_id).0 same;
      answered = ground arith;
      written = ground arith;
    }
    | inr other ↦ absurd (ground arith)
  ]
]

other_tokens :
    (i j : ℕ) (ts : List TokenState)
    → i ≢ j
    → find_where (λ t. t.session_id == i) (delete_where (λ t. t.session_id == j) ts)
      ≡ find_where (λ t. t.session_id == i) ts
other_tokens i j [] ne = refl
other_tokens i j (t ∷ ts) ne = ground (arith, other_tokens i j ts)

other_session :
    (i j now : ℕ) (d : Tables) → i ≢ j → session_row i (end_session j now d) ≡ session_row i d
other_session i j now d ne =
    let out =
      row-update_where (λ (x : OAuth2Session). x.id) i (λ x. x.id == j && is_null x.ended_at)
        (ended now) d.sessions (λ x. refl) in
    elim (Option-cases (session_row i d)) [
      | inl absent ↦ ground (arith)
      | inr (r, found) ↦
          let key = row_key (λ (x : OAuth2Session). x.id) i d.sessions r found in ground (arith)
    ]

-- A revocation that answers with a family has found the token, of access or refresh kind, in a
-- session of the calling client. It leaves that session ended and without token state, and every
-- other session and its token state as they were.
pub revoke_ends_family :
    (h client_id : Text) (now : ℕ) (d : Tables) (answer : RevokedTokenFamily) (d' : Tables)
    → revoke h client_id now d ≡ (some answer, d')
    → ((r : OAuth2Session) × (session_row answer.session_id d ≡ some r) × (r.client_id ≡ client_id))
      × IsRevoked answer.session_id d'
      × ((other : ℕ) → other ≢ answer.session_id → IsSpared other d d')
revoke_ends_family h client_id now d answer d' e =
    let v = revoke_won h client_id now d answer d' e in
    let sid = v.family.token_state.session_id in
    let stored = family_session h d v.family v.found in
    let (r', ended_row, over) =
      end_session-IsRevoked sid now (delete_token_state sid d) v.family.session stored in
    rw (v.answered, v.written)
      (
        (v.family.session, stored, v.owned),
        record {
          no_tokens = find_where-delete_where (λ t. t.session_id == sid) d.token_states;
          session = r';
          stored = ended_row;
          over = over;
        },
        λ other ne. record {
          same_tokens = other_tokens other sid d.token_states ne;
          same_session = other_session other sid now (delete_token_state sid d) ne;
        },
      )
  where
    family_session :
        (h : Text) (d : Tables) (family : TokenFamily)
        → token_row h d ≡ some family
        → session_row family.token_state.session_id d ≡ some family.session
    family_session h d family e = ground arith

-- A revocation that answers nothing changes nothing: the token is unknown, or another client's.
pub revoke_refused :
    (h client_id : Text) (now : ℕ) (d d' : Tables) → revoke h client_id now d ≡ (none, d') → d' ≡ d
unfolding revoke
revoke_refused h client_id now d d' e = ground arith

absent_after_delete :
    (h : Text) (sid : ℕ) (ts : List TokenState)
    → find_where (has_refresh_hash h) ts ≡ none
    → find_where (has_refresh_hash h) (delete_where (λ t. t.session_id == sid) ts) ≡ none
absent_after_delete h sid [] e = refl
absent_after_delete h sid (t ∷ ts) e = ground (arith, absent_after_delete h sid ts)

deleted_with_session :
    (h : Text) (sid : ℕ) (ts : List TokenState) (t : TokenState)
    → UniqueRefreshHashes ts
    → find_where (has_refresh_hash h) ts ≡ some t
    → t.session_id ≡ sid
    → find_where (has_refresh_hash h) (delete_where (λ t. t.session_id == sid) ts) ≡ none
deleted_with_session h sid [] t u e s = absurd (cc)
deleted_with_session h sid (x ∷ ts) t u e s = elim (Bool-cases (has_refresh_hash h x)) [
  | inl has ↦ let rest = absent_after_delete h sid ts (u.0 h has) in ground arith
  | inr has_not ↦ let rest = deleted_with_session h sid ts t u.1 in ground arith
]

-- With the refresh grant enabled and unique refresh hashes, after a revocation, the refresh token of the revoked session is
-- refused: a refresh request with it, by any caller, answers `invalid_grant`.
pub revoked_token_not_refreshed :
    (p : Platform) (settings : OAuth2Settings) (req : RefreshTokenGrantRequest)
    (auth : Option ClientAuth) (draws : RefreshDraws) (h client_id : Text) (now : ℕ) (d d' : Tables)
    (answer : RevokedTokenFamily) (t : TokenState)
    → is_grant_enabled settings OAuth2GrantType.refresh_token ≡ true
    → UniqueRefreshHashes d.token_states
    → revoke h client_id now d ≡ (some answer, d')
    → find_where (has_refresh_hash (refresh_hash_of p settings req)) d.token_states ≡ some t
    → t.session_id ≡ answer.session_id
    → (request (handle_refresh_token_grant p settings req auth draws) d').0
      ≡ err (protocol invalid_grant)
revoked_token_not_refreshed p settings req auth draws h client_id now d d' answer t enabled u e
      found same =
    let v = revoke_won h client_id now d answer d' e in
    let hash = refresh_hash_of p settings req in
    let sid = v.family.token_state.session_id in
    let gone =
      deleted_with_session hash sid d.token_states t u found
        (same ∙ ap (λ (a : RevokedTokenFamily). a.session_id) v.answered) in
    let absent : family_row hash d' ≡ none = rw (v.written, gone, family_row) refl in
    ap (λ r. r.0) (refused_unknown p settings req auth draws d' enabled absent)
