-- ===== src/Oauth2/Refresh/SingleUse.antt =====
-- What a refresh request answers and commits, and what a second one with the same token does.
use zero_auth_lite.Prelude.{
  ℕ, ◌≡◌, ◌≢◌, ◌∙◌, sym, ap, subst, refl, true, false, Option, none, some, List, [], ◌∷◌, arith,
  Text, text_eq, text_eq_refl, text_eq_iff, ◌==◌, is_not_null, inl, inr, Bool-cases,
}
use zero_auth_lite.Table.{find_where, update_where}
use zero_auth_lite.Table.Keyed.{row, row-update_where}
use zero_auth_lite.Database.{Outcome, ok, err, Connection, view, fresh, request}
use zero_auth_lite.Database.Laws.{Ends-ok, Ends-err}
use zero_auth_lite.Oauth2.Errors.{Error, protocol, invalid_grant, OAuth2GrantType}
use zero_auth_lite.Oauth2.Tables.{Tables, TokenState}
use zero_auth_lite.Oauth2.Settings.{OAuth2Settings, Platform, is_grant_enabled, hash_oauth2_token}
use zero_auth_lite.Oauth2.Clients.{ClientAuth}
use zero_auth_lite.Oauth2.Issuance.{IssuedTokens, TokenResponse}
use zero_auth_lite.Oauth2.Refresh.{
  TokenFamily, RefreshDraws, RefreshTokenGrantRequest, refresh_hash_of, family_row,
  has_refresh_hash, is_current_pair, rotated_state, session_row, handle_refresh_token_grant,
}
use zero_auth_lite.Oauth2.Refresh.Rotation.{rotated_tables}
use zero_auth_lite.Oauth2.Refresh.Handler.{IsRefreshed, Failed, handle-Ends}
use zero_auth_lite.Oauth2.Refresh.Reuse.{IsRevoked, refused_unknown}
use zero_auth_lite.Oauth2.Refresh.Spent.{
  IsSpent, spent_family_row, revoke_reused-IsSpent, expire-IsSpent, rotated-IsSpent,
  spent-IsRevoked,
}

module _ (p : Platform) (settings : OAuth2Settings) (req : RefreshTokenGrantRequest)
    (auth : Option ClientAuth) (draws : RefreshDraws) (d : Tables) where
  -- A refresh that answers with tokens has established all of `IsRefreshed`: the token's hash is
  -- that of a live token state, before its deadline; the caller's client is stored unchanged and
  -- within its policy; the user's identity is eligible and its organization allowed; the tokens are
  -- issued up to the same deadline; and what is committed are the tables with the state rotated and
  -- the old hash in the history.
  pub refresh_establishes :
      (response : TokenResponse) (d' : Tables)
      → request (handle_refresh_token_grant p settings req auth draws) d ≡ (ok response, d')
      → (c : Connection Tables) × IsRefreshed p settings req draws d auth response c × (d' ≡ view c)
  refresh_establishes response d' e =
      let (c, h, k) =
        Ends-ok _ _ (handle_refresh_token_grant p settings req auth draws (fresh d)) response
          (handle-Ends p settings req draws d auth) (ap (λ r. r.0) e) in
      (c, h, sym (ap (λ r. r.1) e) ∙ k)

  -- A refresh that raises leaves the tables as they were, but in two cases, both `invalid_grant`:
  -- no live state has the token's hash, and the reused family is revoked; or the state's deadline
  -- has passed, and the expired family is removed.
  pub refresh_failure_confined :
      (e : Error) (d' : Tables)
      → request (handle_refresh_token_grant p settings req auth draws) d ≡ (err e, d')
      → (c : Connection Tables) × Failed p settings req draws d e c × (d' ≡ c.committed)
  refresh_failure_confined x d' e =
      let (c, h, k) =
        Ends-err _ _ (handle_refresh_token_grant p settings req auth draws (fresh d)) x
          (handle-Ends p settings req draws d auth) (ap (λ r. r.0) e) in
      (c, h, sym (ap (λ r. r.1) e) ∙ k)

-- The unique constraint on the refresh hashes.
abbrev pub UniqueRefreshHashes : List TokenState → Type 0
UniqueRefreshHashes [] = Unit
UniqueRefreshHashes (t ∷ ts) =
    ((h : Text) → has_refresh_hash h t ≡ true → find_where (has_refresh_hash h) ts ≡ none)
    × UniqueRefreshHashes ts

module _ (p : Platform) (settings : OAuth2Settings) (sid : ℕ) (h : Text) (tokens : IssuedTokens)
    (token : Text) (deadline : ℕ) where
  abbrev rotate : List TokenState → List TokenState
  rotate = update_where (is_current_pair sid h) (rotated_state p settings tokens token deadline)

  still_absent :
      (ts : List TokenState)
      → find_where (has_refresh_hash h) ts ≡ none
      → find_where (has_refresh_hash h) (rotate ts) ≡ none
  still_absent [] e = refl
  still_absent (t ∷ ts) e = ground (arith, still_absent ts)

  rotated_out :
      (ts : List TokenState) (t : TokenState)
      → UniqueRefreshHashes ts
      → has_refresh_hash h (rotated_state p settings tokens token deadline t) ≡ false
      → find_where (has_refresh_hash h) ts ≡ some t
      → t.session_id ≡ sid
      → find_where (has_refresh_hash h) (rotate ts) ≡ none
  rotated_out [] t u new e s = absurd (cc)
  rotated_out (x ∷ ts) t u new e s = elim (Bool-cases (has_refresh_hash h x)) [
    | inl has ↦ let absent = still_absent ts (u.0 h has) in ground (arith)
    | inr has_not ↦ let rest = rotated_out ts t u.1 new in ground (arith)
  ]

  still_live :
      (ts : List TokenState)
      → is_not_null (find_where (is_current_pair sid h) ts) ≡ true
      → (t : TokenState) × (row (λ (x : TokenState). x.session_id) sid ts ≡ some t)
  still_live [] e = absurd (cc)
  still_live (x ∷ ts) e = elim (Bool-cases (x.session_id == sid)) [
    | inl same ↦ (x, ground arith)
    | inr other ↦ let (t, found) = still_live ts (ground arith) in (t, ground arith)
  ]

module _ (p : Platform) (settings : OAuth2Settings) (h : Text) (family : TokenFamily)
    (tokens : IssuedTokens) (token : Text) (deadline : ℕ) (d : Tables) where
  family_state :
      family_row h d ≡ some family
      → (find_where (has_refresh_hash h) d.token_states ≡ some family.token_state)
        × (session_row family.token_state.session_id d ≡ some family.session)
  family_state current = ground arith

  abbrev after : Tables
  after = rotated_tables p settings h family.token_state.session_id tokens token deadline d

  -- After a rotation the old hash is spent.
  rotated_IsSpent :
      UniqueRefreshHashes d.token_states
      → hash_oauth2_token p token settings.token_hash_secret ≢ h
      → family_row h d ≡ some family
      → is_not_null (find_where (is_current_pair family.token_state.session_id h) d.token_states)
        ≡ true
      → IsSpent h family.token_state.session_id after
  rotated_IsSpent u new current won =
      let (found, stored) = family_state current in
      let sid = family.token_state.session_id in
      let (t, live) = still_live p settings sid h tokens token deadline d.token_states won in
      let out =
        row-update_where (λ (x : TokenState). x.session_id) sid (is_current_pair sid h)
          (rotated_state p settings tokens token deadline) d.token_states (λ x. refl) in
      record {
        absent =
            rotated_out p settings sid h tokens token deadline d.token_states family.token_state u
              (elim (Bool-cases
                (text_eq (hash_oauth2_token p token settings.token_hash_secret) h)) [
                  | inl t ↦ absurd (new ((text_eq_iff _ _).0 t))
                  | inr f ↦ f
                ])
              found refl;
        entry = record { token_hash = h; session_id = sid };
        in_history = rw (text_eq_refl h) refl;
        of_session = refl;
        session = family.session;
        stored = stored;
        over = λ gone. let no = rw live at (sym out ∙ gone) in absurd (cc);
      }

-- Further refresh requests after a token was rotated away, by whatever callers, with whatever tokens
-- and scopes, in any number; each draws a new token whose hash is not that of the old one.
pub data Later (p : Platform) (settings : OAuth2Settings) (h : Text) (d : Tables)
    : Tables → Type 0 where
  here : Later p settings h d d
  next :
      {d' : Tables} (req : RefreshTokenGrantRequest) (auth : Option ClientAuth)
      (draws : RefreshDraws)
      → Later p settings h d d'
      → hash_oauth2_token p draws.refresh_token settings.token_hash_secret ≢ h
      → Later p settings h d (request (handle_refresh_token_grant p settings req auth draws) d').1

module _ (p : Platform) (settings : OAuth2Settings) (h : Text) (sid : ℕ) where
  Failed-IsSpent :
      (req : RefreshTokenGrantRequest) (draws : RefreshDraws) (d : Tables) (e : Error)
      (c : Connection Tables)
      → IsSpent h sid d
      → Failed p settings req draws d e c
      → IsSpent h sid c.committed
  Failed-IsSpent req draws d e c u (Failed.untouched k) = subst (IsSpent h sid) (sym k) u
  Failed-IsSpent req draws d e c u (Failed.reused _ _ k) =
      subst (IsSpent h sid) (sym k)
        (revoke_reused-IsSpent h sid (refresh_hash_of p settings req) draws.reused_at d u)
  Failed-IsSpent req draws d e c u (Failed.expired family _ _ _ k) = subst (IsSpent h sid) (sym k) (
      expire-IsSpent h sid family.token_state.session_id draws.checked_at
        (refresh_hash_of p settings req) d u)

  request-IsSpent :
      (req : RefreshTokenGrantRequest) (auth : Option ClientAuth) (draws : RefreshDraws)
      (d : Tables)
      → hash_oauth2_token p draws.refresh_token settings.token_hash_secret ≢ h
      → IsSpent h sid d
      → IsSpent h sid (request (handle_refresh_token_grant p settings req auth draws) d).1
  request-IsSpent req auth draws d new u =
      outcome (request (handle_refresh_token_grant p settings req auth draws) d) refl
    where
      outcome :
          (r : Outcome Error TokenResponse × Tables)
          → request (handle_refresh_token_grant p settings req auth draws) d ≡ r
          → IsSpent h sid r.1
      outcome (ok response, d') e =
          let (c, r, at_end) = refresh_establishes p settings req auth draws d response d' e in
          subst (IsSpent h sid) (sym (at_end ∙ r.rotated.written)) (
            rotated-IsSpent h sid p settings (refresh_hash_of p settings req)
              r.family.token_state.session_id r.tokens draws.refresh_token r.deadline d r.family new
              r.current u)
      outcome (err x, d') e =
          let (c, f, at_end) = refresh_failure_confined p settings req auth draws d x d' e in
          subst (IsSpent h sid) (sym at_end) (Failed-IsSpent req draws d x c u f)

  Later-IsSpent : {d d' : Tables} → IsSpent h sid d → Later p settings h d d' → IsSpent h sid d'
  Later-IsSpent u here = u
  Later-IsSpent u (next {d' = between} req auth draws later new) =
      request-IsSpent req auth draws between new (Later-IsSpent u later)

-- A refresh token is good for one refresh. With the refresh grant enabled, unique refresh hashes and a
-- new refresh token whose hash differs from the old one: after a refresh that answered with tokens,
-- and after any number of further refresh requests, by whatever callers and with whatever tokens,
-- none of which draws a token of the old hash, a request with the old token, by whatever caller and
-- for whatever scope, answers `invalid_grant`; and it leaves the family, whose session the first
-- request found, without token state and with its session ended.
pub refresh_token_single_use :
    (p : Platform) (settings : OAuth2Settings) (req req' : RefreshTokenGrantRequest)
    (auth auth' : Option ClientAuth) (draws draws' : RefreshDraws) (d d' d'' : Tables)
    (response : TokenResponse)
    → UniqueRefreshHashes d.token_states
    → is_grant_enabled settings OAuth2GrantType.refresh_token ≡ true
    → hash_oauth2_token p draws.refresh_token settings.token_hash_secret
      ≢ refresh_hash_of p settings req
    → request (handle_refresh_token_grant p settings req auth draws) d ≡ (ok response, d')
    → Later p settings (refresh_hash_of p settings req) d' d''
    → req'.refresh_token ≡ req.refresh_token
    → (family : TokenFamily) × (family_row (refresh_hash_of p settings req) d ≡ some family)
      × (let (outcome, end) =
            request (handle_refresh_token_grant p settings req' auth' draws') d'' in
          (outcome ≡ err (protocol invalid_grant)) × IsRevoked family.token_state.session_id end)
refresh_token_single_use p settings req req' auth auth' draws draws' d d' d'' response u enabled new
      e later same =
    let (c, r, at_end) = refresh_establishes p settings req auth draws d response d' e in
    let h = refresh_hash_of p settings req in
    let sid = r.family.token_state.session_id in
    let spent =
      Later-IsSpent p settings h sid
        (subst (IsSpent h sid) (sym (at_end ∙ r.rotated.written)) (
          rotated_IsSpent p settings h r.family r.tokens draws.refresh_token r.deadline d u new
            r.current r.rotated.was_current))
        later in
    let presented : refresh_hash_of p settings req' ≡ h =
      ap (λ t. hash_oauth2_token p t settings.token_hash_secret) same in
    let answer =
      refused_unknown p settings req' auth' draws' d'' enabled
        (subst (λ x. family_row x d'' ≡ none) (sym presented) (spent_family_row h sid d'' spent)) in
    (
      r.family,
      r.current,
      rw (answer, presented) (refl, spent-IsRevoked h sid draws'.reused_at d'' spent),
    )
