-- ===== src/Oauth2/Issuance/Sessions.antt =====
-- What the issuance of a new session does, and what it leaves on failure.
use zero_auth_lite.Prelude.{◌≡◌, true, not, none, arith, ℕ, ◌∷◌}
use zero_auth_lite.Database.{Outcome, ok, Connection, view, ◌>>=◌, pure}
use zero_auth_lite.Database.Laws.{Ends, Ends-bind, Ends-raise_if}
use zero_auth_lite.Oauth2.Errors.{Error, value_error}
use zero_auth_lite.Oauth2.Tables.{Tables, Flow, attempt, or_raise_outcome, next_id, OAuth2Session}
use zero_auth_lite.Oauth2.Flows.{Untouched, attempt-Ends, or_raise_outcome-Ends}
use zero_auth_lite.Oauth2.Settings.{OAuth2Settings, Platform}
use zero_auth_lite.Oauth2.Issuance.{
  IssuedTokens, IssuanceDraws, NewTokenSession, is_well_bound, create_issued_tokens, insert_session,
  issue_new_session, new_session_row, token_state_row,
}

-- A session is issued: well bound, with tokens, and its two rows inserted.
pub record IsIssued (p : Platform) (settings : OAuth2Settings) (new : NewTokenSession)
    (draws : IssuanceDraws) (d : Tables) (tokens : IssuedTokens) (id : ℕ) (d' : Tables)
    : Type 0 where
  pub well_bound : is_well_bound new ≡ true
  pub issued :
      create_issued_tokens p settings new.access_payload new.include_refresh_token none
        draws.issued_at draws.refresh_token
      ≡ ok tokens
  pub fresh_key : id ≡ next_id (λ (r : OAuth2Session). r.id) d.sessions
  pub inserted : d' ≡ record d {
    sessions = new_session_row new draws.session_public_id id ∷ d.sessions;
    token_states = token_state_row p settings tokens id ∷ d.token_states;
  }

module _ (p : Platform) (settings : OAuth2Settings) (new : NewTokenSession) (draws : IssuanceDraws)
    (d : Tables) where
  insert_session_rows :
      (tokens : IssuedTokens) (id : ℕ) (d1 d2 : Tables)
      → insert_session p settings new tokens draws.session_public_id d1 ≡ ok (id, d2)
      → (id ≡ next_id (λ (r : OAuth2Session). r.id) d1.sessions)
        × (d2 ≡ record d1 {
          sessions = new_session_row new draws.session_public_id id ∷ d1.sessions;
          token_states = token_state_row p settings tokens id ∷ d1.token_states;
        })
  insert_session_rows tokens id d1 d2 e = ground arith

  pub issue_new_session-Ends :
      (c : Connection Tables)
      → c.committed ≡ d
      → Ends
          (λ r c'. (c'.committed ≡ d) × IsIssued p settings new draws (view c) r.0 r.1 (view c'))
          (Untouched d)
          (issue_new_session p settings new draws c)
  unfolding issue_new_session
  issue_new_session-Ends c kept =
      Ends-raise_if
        (λ r c'. (c'.committed ≡ d) × IsIssued p settings new draws (view c) r.0 r.1 (view c'))
        (Untouched d) (not (is_well_bound new)) value_error (or_raise_outcome outcome >>= insert) c
        (λ _. kept)
        λ bound.
          Ends-bind (λ tokens c'. (c' ≡ c) × (outcome ≡ ok tokens)) _ (Untouched d)
            (or_raise_outcome outcome) insert c (or_raise_outcome-Ends outcome d c kept)
            λ tokens c' (same, issued).
              Ends-bind
                (λ id c''.
                  (c''.committed ≡ d)
                  × (insert_session p settings new tokens draws.session_public_id (view c')
                      ≡ ok (id, view c'')))
                _ (Untouched d)
                (attempt (insert_session p settings new tokens draws.session_public_id))
                (λ id. pure (tokens, id)) c'
                (attempt-Ends (insert_session p settings new tokens draws.session_public_id) d c'
                  (rw same kept))
                λ id c'' (kept', e).
                  let rows = insert_session_rows tokens id (view c) (view c'') (rw same at e) in
                  (
                    kept',
                    record {
                      well_bound = ground arith;
                      issued = issued;
                      fresh_key = rows.0;
                      inserted = rows.1;
                    },
                  )
    where
      outcome : Outcome Error IssuedTokens
      outcome =
          create_issued_tokens p settings new.access_payload new.include_refresh_token none
            draws.issued_at draws.refresh_token

      insert : IssuedTokens → Flow (IssuedTokens × ℕ)
      insert tokens =
          attempt (insert_session p settings new tokens draws.session_public_id) >>= λ id.
          pure (tokens, id)
