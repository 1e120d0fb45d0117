-- ===== src/Oauth2/Refresh/Rotation.antt =====
-- What a rotation writes.
use zero_auth_lite.Prelude.{
  ℕ, ◌≡◌, ◌∙◌, sym, ap, subst, refl, Bool, true, false, not, Option, none, some, ◌∷◌, arith, Text,
  is_not_null,
}
use zero_auth_lite.Table.{find_where, update_where}
use zero_auth_lite.Database.{Outcome, ok, err, Connection, view, ◌>>=◌, ◌>>◌, pure, raise_if}
use zero_auth_lite.Database.Laws.{Ends, Ends-bind, Ends-map}
use zero_auth_lite.Oauth2.Errors.{Error, protocol, invalid_grant}
use zero_auth_lite.Oauth2.Tables.{or_raise_outcome, Tables, Flow, attempt}
use zero_auth_lite.Oauth2.Settings.{OAuth2Settings, Platform, AccessTokenPayload}
use zero_auth_lite.Oauth2.Identity.{Identity}
use zero_auth_lite.Oauth2.Issuance.{
  IssuedTokens, TokenResponse, build_response, create_issued_tokens, create_access_token_payload,
}
use zero_auth_lite.Oauth2.Refresh.{
  TokenFamily, RefreshDraws, rotated_state, is_current_pair, rotate_token_state, add_history,
  rotate_with, rotate_refresh_family,
}
use zero_auth_lite.Oauth2.Flows.{Untouched, Reads, attempt-Ends}

-- The tables after a rotation.
abbrev pub rotated_tables :
    Platform → OAuth2Settings → Text → ℕ → IssuedTokens → Text → ℕ → Tables → Tables
rotated_tables p settings h session_id tokens token deadline d = record d {
  token_states =
      update_where (is_current_pair session_id h) (rotated_state p settings tokens token deadline)
        d.token_states;
  refresh_history = record { token_hash = h; session_id = session_id } ∷ d.refresh_history;
}

module _ (p : Platform) (settings : OAuth2Settings) (h : Text) (session_id : ℕ) where
  rotate_token_state_won :
      (tokens : IssuedTokens) (token : Text) (deadline : ℕ) (d d' : Tables)
      → rotate_token_state p settings session_id h tokens token deadline d ≡ ok (true, d')
      → (d' ≡ record d {
        token_states =
            update_where
              (is_current_pair session_id h)
              (rotated_state p settings tokens token deadline)
              d.token_states;
      })
        × (is_not_null (find_where (is_current_pair session_id h) d.token_states) ≡ true)
  unfolding rotate_token_state
  rotate_token_state_won tokens token deadline d d' e = ground arith

add_history_won :
    (h : Text) (session_id : ℕ) (d d' : Tables)
    → add_history h session_id d ≡ ok (tt, d')
    → d' ≡ record d {
      refresh_history = record { token_hash = h; session_id = session_id } ∷ d.refresh_history;
    }
add_history_won h session_id d d' e = ground arith

-- What a rotation that returns has done, seen before the request commits.
pub record IsRotated (p : Platform) (settings : OAuth2Settings) (h : Text) (session_id : ℕ)
    (tokens : IssuedTokens) (token : Text) (deadline : ℕ) (d : Tables) (response : TokenResponse)
    (c : Connection Tables) : Type 0 where
  pub was_current : is_not_null (find_where (is_current_pair session_id h) d.token_states) ≡ true
  pub written : view c ≡ rotated_tables p settings h session_id tokens token deadline d
  pub answered : response ≡ build_response tokens none

-- The refresh token of a rotation is the new one, and its deadline the old one.
rotation_token_fields :
    (p : Platform) (settings : OAuth2Settings) (payload : AccessTokenPayload) (deadline now : ℕ)
    (token : Text) (tokens : IssuedTokens)
    → create_issued_tokens p settings payload true (some deadline) now token ≡ ok tokens
    → (tokens.refresh_token ≡ some token) × (tokens.refresh_expires_at ≡ some deadline)
unfolding create_issued_tokens
rotation_token_fields p settings payload deadline now token tokens e = ground arith

module _ (p : Platform) (settings : OAuth2Settings) (h : Text) (family : TokenFamily)
    (d : Tables) where
  rotate_with-Ends :
      (tokens : IssuedTokens) (token : Text) (deadline : ℕ) (c : Connection Tables)
      → Reads d c
      → Ends
          (IsRotated p settings h family.token_state.session_id tokens token deadline d)
          (Untouched d)
          (rotate_with p settings h family tokens (some token) (some deadline) c)
  rotate_with-Ends tokens token deadline c r =
      Ends-bind
        (λ won c'.
          (c'.committed ≡ d)
          × (rotate_token_state p settings sid h tokens token deadline (view c)
              ≡ ok (won, view c')))
        (IsRotated p settings h sid tokens token deadline d) (Untouched d)
        (attempt (rotate_token_state p settings sid h tokens token deadline)) after c
        (attempt-Ends (rotate_token_state p settings sid h tokens token deadline) d c r.committed)
        checked
    where
      sid : ℕ
      sid = family.token_state.session_id

      record_use : Flow TokenResponse
      record_use = attempt (add_history h sid) >> pure (build_response tokens none)

      after : Bool → Flow TokenResponse
      after won = raise_if (not won) (protocol invalid_grant) >> record_use

      checked :
          (won : Bool) (c' : Connection Tables)
          → (c'.committed ≡ d)
            × (rotate_token_state p settings sid h tokens token deadline (view c)
                ≡ ok (won, view c'))
          → Ends (IsRotated p settings h sid tokens token deadline d) (Untouched d) (after won c')
      checked false c' (kept, e) = kept
      checked true c' (kept, e) =
          let won =
            rotate_token_state_won p settings h sid tokens token deadline d (view c')
              (rw r.reads at e) in
          Ends-bind
            (λ (u : Unit {0}) c''.
              (c''.committed ≡ d) × (add_history h sid (view c') ≡ ok (u, view c'')))
            (IsRotated p settings h sid tokens token deadline d) (Untouched d)
            (attempt (add_history h sid)) (λ _. pure (build_response tokens none)) c'
            (attempt-Ends (add_history h sid) d c' kept)
            λ u c'' (kept', e'). record {
              was_current = won.1;
              written =
                  add_history_won h sid (view c') (view c'') e'
                  ∙ ap
                      (λ (x : Tables). record x {
                        refresh_history =
                            record { token_hash = h; session_id = sid } ∷ x.refresh_history;
                      })
                      won.0;
              answered = refl;
            }

  -- The payload that a rotation signs.
  abbrev pub rotation_payload : Identity → Text → AccessTokenPayload
  rotation_payload identity jti =
      create_access_token_payload identity.user.public_id identity.organization.public_id
        settings.access_token_audience family.session.client_id family.session.scope jti

  pub rotate_refresh_family-Ends :
      (deadline : ℕ) (identity : Identity) (draws : RefreshDraws) (c : Connection Tables)
      → Reads d c
      → Ends
          (λ response c'.
            (tokens : IssuedTokens) × (create_issued_tokens p settings
                (rotation_payload identity draws.access_jti)
                true
                (some deadline)
                draws.issued_at
                draws.refresh_token
              ≡ ok tokens)
            × IsRotated p settings h family.token_state.session_id tokens draws.refresh_token
                deadline d response c')
          (Untouched d)
          (rotate_refresh_family p settings h deadline family identity draws c)
  unfolding rotate_refresh_family
  rotate_refresh_family-Ends deadline identity draws c r = issued _ refl
    where
      Goal : TokenResponse → Connection Tables → Type 0
      Goal response c' =
          (tokens : IssuedTokens) × (create_issued_tokens p settings
              (rotation_payload identity draws.access_jti) true (some deadline) draws.issued_at
              draws.refresh_token
            ≡ ok tokens)
          × IsRotated p settings h family.token_state.session_id tokens draws.refresh_token deadline
              d response c'

      issued :
          (o : Outcome Error IssuedTokens)
          → create_issued_tokens p settings
              (rotation_payload identity draws.access_jti)
              true
              (some deadline)
              draws.issued_at
              draws.refresh_token
            ≡ o
          → Ends Goal (Untouched d) (
              (or_raise_outcome o >>= λ tokens.
              rotate_with p settings h family tokens tokens.refresh_token tokens.refresh_expires_at)
                c)
      issued (err x) e = r.committed
      issued (ok tokens) e =
          let (token_is, expiry_is) = rotation_token_fields p settings _ deadline _ _ tokens e in
          let run =
            λ (t : Option Text) (x : Option ℕ). rotate_with p settings h family tokens t x c in
          subst (λ t. Ends Goal (Untouched d) (run t tokens.refresh_expires_at)) (sym token_is)
            (subst (λ x. Ends Goal (Untouched d) (run (some draws.refresh_token) x)) (sym expiry_is)
              (Ends-map _ Goal (Untouched d) (Untouched d)
                (rotate_with p settings h family tokens (some draws.refresh_token) (some deadline)
                  c)
                (λ response c' w. (tokens, e, w)) (λ x c' k. k)
                (rotate_with-Ends tokens draws.refresh_token deadline c r)))
