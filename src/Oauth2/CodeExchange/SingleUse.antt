-- ===== src/Oauth2/CodeExchange/SingleUse.antt =====
-- An authorization code is exchanged at most once, and a failed exchange leaves it usable.
use zero_auth_lite.Prelude.{
  ℕ, ◌≡◌, ◌≢◌, ◌∙◌, sym, ap, refl, subst, arith, true, Option, some, List, [], ◌∷◌, Text, is_null,
  is_not_null,
}
use zero_auth_lite.Table.{find_where, update_where}
use zero_auth_lite.Database.{ok, err, Connection, view, fresh, request, ◌>>=◌, pure}
use zero_auth_lite.Database.Laws.{Ends, Ends-bind, Ends-ok, Ends-err}
use zero_auth_lite.Oauth2.Errors.{Error}
use zero_auth_lite.Oauth2.Tables.{Tables, Flow, OAuth2Client, AuthorizationCode}
use zero_auth_lite.Oauth2.Flows.{Untouched}
use zero_auth_lite.Oauth2.Settings.{OAuth2Settings, Platform}
use zero_auth_lite.Oauth2.Clients.{ClientAuth}
use zero_auth_lite.Oauth2.Identity.{Identity}
use zero_auth_lite.Oauth2.Issuance.{IssuedTokens, TokenResponse, issue_new_session, build_response}
use zero_auth_lite.Oauth2.Issuance.Sessions.{IsIssued, issue_new_session-Ends}
use zero_auth_lite.Oauth2.CodeExchange.{
  AuthorizationCodeGrantRequest, CodeDraws, hash_authorization_code, has_code_hash, code_row,
  validate_authorization_code_client, is_redeemable, load_authorization_code, is_unused, used,
  mark_code_used, consume_authorization_code, load_authorization_code_identity, create_id_token,
  code_session, issue_authorization_code_tokens, exchange_code, handle_authorization_code_grant,
}
use zero_auth_lite.Oauth2.CodeExchange.Steps.{
  IsAllowed, validate_client-Ends, IsChecked, load_code-Ends, consume_code-Ends, IsAdmitted,
  load_code_identity-Ends,
}

module _ (p : Platform) (settings : OAuth2Settings) (req : AuthorizationCodeGrantRequest)
    (draws : CodeDraws) (d : Tables) where
  abbrev h : Text
  h = hash_authorization_code p settings req.code

  abbrev marked : Tables
  marked = (mark_code_used h draws.used_at d).1

  -- Everything that an exchange that answers with tokens has established, before its commit.
  pub record IsExchanged (auth : Option ClientAuth) (response : TokenResponse)
      (c : Connection Tables) : Type 0 where
    pub client : OAuth2Client
    pub authorization_code : AuthorizationCode
    pub identity : Identity
    pub tokens : IssuedTokens
    pub session_id : ℕ
    pub permitted : IsAllowed settings auth client
    pub checked : IsChecked p settings req client draws.checked_at d authorization_code
    pub consumed : is_not_null (find_where (is_unused h) d.authorization_codes) ≡ true
    pub admitted : IsAdmitted authorization_code client marked identity
    pub issued :
        IsIssued p settings
          (code_session settings client authorization_code identity draws.access_jti)
          draws.issuance
          marked
          tokens
          session_id
          (view c)
    pub answered :
        response
        ≡ build_response tokens (
            create_id_token p settings authorization_code client.client_id identity.user
              draws.id_token_at)

  issue_code-Ends :
      (auth : Option ClientAuth) (client : OAuth2Client) (a : AuthorizationCode)
      (identity : Identity) (c : Connection Tables)
      → IsAllowed settings auth client
      → IsChecked p settings req client draws.checked_at d a
      → is_not_null (find_where (is_unused h) d.authorization_codes) ≡ true
      → c.committed ≡ d
      → view c ≡ marked
      → IsAdmitted a client (view c) identity
      → Ends
          (IsExchanged auth)
          (Untouched d)
          (issue_authorization_code_tokens p settings client a identity draws c)
  unfolding issue_authorization_code_tokens
  issue_code-Ends auth client a identity c allowed checked consumed kept at_marked admitted =
      Ends-bind
        (λ r c'.
          (c'.committed ≡ d)
          × IsIssued p settings (code_session settings client a identity draws.access_jti)
              draws.issuance (view c) r.0 r.1 (view c'))
        (IsExchanged auth) (Untouched d)
        (issue_new_session p settings (code_session settings client a identity draws.access_jti)
          draws.issuance)
        answer c
        (issue_new_session-Ends p settings
          (code_session settings client a identity draws.access_jti) draws.issuance d c kept)
        λ (tokens, id) c' (kept', i). record {
          client = client;
          authorization_code = a;
          identity = identity;
          tokens = tokens;
          session_id = id;
          permitted = allowed;
          checked = checked;
          consumed = consumed;
          admitted = subst (λ x. IsAdmitted a client x identity) at_marked admitted;
          issued =
              subst
                (λ x.
                  IsIssued p settings (code_session settings client a identity draws.access_jti)
                    draws.issuance x tokens id (view c'))
                at_marked i;
          answered = refl;
        }
    where
      answer : IssuedTokens × ℕ → Flow TokenResponse
      answer (tokens, id) = pure (
          build_response tokens
            (create_id_token p settings a client.client_id identity.user draws.id_token_at))

  from_identity : OAuth2Client → AuthorizationCode → Flow TokenResponse
  from_identity client a = load_authorization_code_identity client a >>= λ identity.
      issue_authorization_code_tokens p settings client a identity draws

  exchange_code-Ends :
      (auth : Option ClientAuth) (client : OAuth2Client) (a : AuthorizationCode)
      → IsAllowed settings auth client
      → IsChecked p settings req client draws.checked_at d a
      → Ends (IsExchanged auth) (Untouched d) (exchange_code p settings h client draws a (fresh d))
  unfolding from_identity
  exchange_code-Ends auth client a allowed checked =
      Ends-bind
        (λ (u : Unit {0}) c.
          (c.committed ≡ d)
          × (is_not_null (find_where (is_unused h) d.authorization_codes) ≡ true)
          × (view c ≡ marked))
        (IsExchanged auth) (Untouched d) (consume_authorization_code h draws.used_at)
        (λ _. from_identity client a) (fresh d) (consume_code-Ends h draws.used_at d)
        λ _ c (kept, consumed, at_marked).
          Ends-bind (λ identity c'. (c' ≡ c) × IsAdmitted a client (view c) identity)
            (IsExchanged auth) (Untouched d) (load_authorization_code_identity client a)
            (λ identity. issue_authorization_code_tokens p settings client a identity draws) c
            (load_code_identity-Ends a client d c kept)
            λ identity c' (same, admitted). rw same (
              issue_code-Ends auth client a identity c allowed checked consumed kept at_marked
                admitted)

  handle_code-Ends :
      (auth : Option ClientAuth)
      → Ends
          (IsExchanged auth)
          (Untouched d)
          (handle_authorization_code_grant p settings req auth draws (fresh d))
  unfolding handle_authorization_code_grant
  handle_code-Ends auth =
      Ends-bind (λ client c. (c ≡ fresh d) × IsAllowed settings auth client) (IsExchanged auth)
        (Untouched d) (validate_authorization_code_client auth settings) from_client (fresh d)
        (validate_client-Ends settings auth d)
        λ client c (same, allowed). rw same (
          Ends-bind (λ a c'. (c' ≡ fresh d) × IsChecked p settings req client draws.checked_at d a)
            (IsExchanged auth) (Untouched d)
            (load_authorization_code p settings req client draws.checked_at)
            (exchange_code p settings h client draws) (fresh d)
            (load_code-Ends p settings req client draws.checked_at d)
            λ a c' (same', checked). rw same' (exchange_code-Ends auth client a allowed checked))
    where
      from_client : OAuth2Client → Flow TokenResponse
      from_client client =
          load_authorization_code p settings req client draws.checked_at
          >>= exchange_code p settings h client draws

  -- An exchange that answers with tokens has established all of `IsExchanged`: the caller's client is
  -- active and may use the grant; the code is stored, unused, in time, of that client and redirect
  -- address, within its scope, and its challenge is met by the verifier; the user is eligible and
  -- the organization allowed; the code is marked as used, and a session is issued with its tokens.
  pub code_exchange_establishes :
      (auth : Option ClientAuth) (response : TokenResponse) (d' : Tables)
      → request (handle_authorization_code_grant p settings req auth draws) d ≡ (ok response, d')
      → (c : Connection Tables) × IsExchanged auth response c × (d' ≡ view c)
  code_exchange_establishes auth response d' e =
      let (c, x, k) =
        Ends-ok _ _ (handle_authorization_code_grant p settings req auth draws (fresh d)) response
          (handle_code-Ends auth) (ap (λ r. r.0) e) in
      (c, x, sym (ap (λ r. r.1) e) ∙ k)

  -- An exchange that raises changes nothing, though it may have marked the code as used before: the
  -- mark is rolled back with the request.
  pub code_exchange_failure_changes_nothing :
      (auth : Option ClientAuth) (x : Error) (d' : Tables)
      → request (handle_authorization_code_grant p settings req auth draws) d ≡ (err x, d')
      → d' ≡ d
  code_exchange_failure_changes_nothing auth x d' e =
      let (c, kept, k) =
        Ends-err _ _ (handle_authorization_code_grant p settings req auth draws (fresh d)) x
          (handle_code-Ends auth) (ap (λ r. r.0) e) in
      sym (ap (λ r. r.1) e) ∙ k ∙ kept

marked_row :
    (h : Text) (now : ℕ) (rows : List AuthorizationCode) (a : AuthorizationCode)
    → find_where (has_code_hash h) rows ≡ some a
    → is_null a.used_at ≡ true
    → find_where (has_code_hash h) (update_where (is_unused h) (used now) rows) ≡ some (used now a)
marked_row h now [] a e unused = absurd (cc)
marked_row h now (x ∷ rows) a e unused = ground (arith, marked_row h now rows a)

-- An authorization code is exchanged once: after an exchange that answered with tokens, no further
-- request with the code answers with tokens, by whatever caller and with whatever redirect address
-- and verifier, as long as the table of codes is as the first request left it.
pub authorization_code_single_use :
    (p : Platform) (settings : OAuth2Settings) (req req' : AuthorizationCodeGrantRequest)
    (auth auth' : Option ClientAuth) (draws draws' : CodeDraws) (d d' d'' : Tables)
    (response response' : TokenResponse)
    → req'.code ≡ req.code
    → request (handle_authorization_code_grant p settings req auth draws) d ≡ (ok response, d')
    → d''.authorization_codes ≡ d'.authorization_codes
    → (request (handle_authorization_code_grant p settings req' auth' draws') d'').0 ≢ ok response'
authorization_code_single_use p settings req req' auth auth' draws draws' d d' d'' response
      response' same e kept e' =
    let (c, x, at_end) = code_exchange_establishes p settings req draws d auth response d' e in
    let (c', x', at_end') = code_exchange_establishes p settings req' draws' d'' auth' response' _ (
      ap (λ o. (o, (request (handle_authorization_code_grant p settings req' auth' draws') d'').1))
        e') in
    let h = hash_authorization_code p settings req.code in
    let row =
      ap (λ rows. find_where (has_code_hash h) rows)
        (kept ∙ ap (λ (t : Tables). t.authorization_codes) (at_end ∙ x.issued.inserted))
      ∙ marked_row h draws.used_at d.authorization_codes x.authorization_code x.checked.stored
          (unused req x.client draws.checked_at x.authorization_code x.checked.redeemable) in
    let stored' =
      subst
        (λ code.
          code_row (hash_authorization_code p settings code) d'' ≡ some x'.authorization_code)
        same x'.checked.stored in
    let unused' =
      unused req' x'.client draws'.checked_at x'.authorization_code x'.checked.redeemable in
    spent x.authorization_code x'.authorization_code (sym row ∙ stored') unused'
  where
    unused :
        (req : AuthorizationCodeGrantRequest) (client : OAuth2Client) (now : ℕ)
        (a : AuthorizationCode)
        → is_redeemable req client now a ≡ true
        → is_null a.used_at ≡ true
    unused req client now a e = ground arith

    spent :
        (a b : AuthorizationCode)
        → some (used draws.used_at a) ≡ some b
        → ¬ (is_null b.used_at ≡ true)
    spent a b e null = absurd (ground arith)
