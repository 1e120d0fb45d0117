-- ===== src/Oauth2/Refresh/Handler.antt =====
-- The whole refresh grant.
use zero_auth_lite.Prelude.{
  ℕ, ◌<◌, ◌≡◌, refl, true, not, Option, none, some, Text, leb, is_not_null, holds, inl, inr,
  Bool-cases,
}
use zero_auth_lite.Database.{ok, Connection, fresh, ◌>>=◌, ◌>>◌, raise_if}
use zero_auth_lite.Database.Laws.{Ends, Ends-bind, Ends-map, Ends-raise_if}
use zero_auth_lite.Oauth2.Errors.{
  Error, protocol, invalid_grant, unsupported_grant_type, OAuth2GrantType,
}
use zero_auth_lite.Oauth2.Tables.{Tables, Flow, OAuth2Client}
use zero_auth_lite.Oauth2.Settings.{OAuth2Settings, Platform, is_grant_enabled}
use zero_auth_lite.Oauth2.Clients.{ClientAuth, lock_and_reload_token_client}
use zero_auth_lite.Oauth2.Identity.{Identity}
use zero_auth_lite.Oauth2.Issuance.{IssuedTokens, TokenResponse, create_issued_tokens}
use zero_auth_lite.Oauth2.Refresh.{
  TokenFamily, RefreshDraws, RefreshTokenGrantRequest, refresh_hash_of, family_row,
  load_refresh_family, require_unexpired_refresh_family, validate_refresh_client,
  load_refresh_identity, rotate_refresh_family, revoke_reused_refresh_family, expire_refresh_family,
  handle_refresh_token_grant,
}
use zero_auth_lite.Oauth2.Flows.{Untouched, Reads}
use zero_auth_lite.Oauth2.Refresh.Steps.{
  IsValidated, IsAdmitted, load_refresh_family-Ends, require_unexpired-Ends,
  validate_refresh_client-Ends, load_refresh_identity-Ends,
}
use zero_auth_lite.Oauth2.Refresh.Rotation.{IsRotated, rotation_payload, rotate_refresh_family-Ends}

module _ (p : Platform) (settings : OAuth2Settings) (req : RefreshTokenGrantRequest)
    (draws : RefreshDraws) (d : Tables) where
  abbrev pub hash : Text
  hash = refresh_hash_of p settings req

  -- Everything that a successful refresh has established, before its commit.
  pub record IsRefreshed (auth : Option ClientAuth) (response : TokenResponse)
      (c : Connection Tables) : Type 0 where
    pub family : TokenFamily
    pub deadline : ℕ
    pub caller : ClientAuth
    pub client : OAuth2Client
    pub identity : Identity
    pub tokens : IssuedTokens
    pub current : family_row hash d ≡ some family
    pub unexpired : family.token_state.refresh_expires_at ≡ some deadline
    pub in_time : draws.checked_at < deadline
    pub authenticated : auth ≡ some caller
    pub validated : IsValidated settings caller family d client
    pub admitted : IsAdmitted family client d identity
    pub issued :
        create_issued_tokens p settings
          (rotation_payload p settings hash family d identity draws.access_jti)
          true
          (some deadline)
          draws.issued_at
          draws.refresh_token
        ≡ ok tokens
    pub rotated :
        IsRotated p settings hash family.token_state.session_id tokens draws.refresh_token deadline
          d response c

  -- What a refresh that raises leaves committed: the tables as they were, or those after the
  -- revocation of a reused family, or those after the removal of an expired one.
  pub data Failed (e : Error) (c : Connection Tables) : Type 0 where
    untouched : c.committed ≡ d → Failed e c
    reused :
        e ≡ protocol invalid_grant
        → family_row hash d ≡ none
        → c.committed ≡ revoke_reused_refresh_family hash draws.reused_at d
        → Failed e c
    expired :
        (family : TokenFamily)
        → e ≡ protocol invalid_grant
        → family_row hash d ≡ some family
        → holds (λ t. leb t draws.checked_at) family.token_state.refresh_expires_at ≡ true
        → c.committed ≡ expire_refresh_family family.token_state.session_id hash draws.checked_at d
        → Failed e c

  -- The handler from the identity on.
  from_identity-Ends :
      (auth : ClientAuth) (family : TokenFamily) (deadline : ℕ) (client : OAuth2Client)
      (c : Connection Tables)
      → family_row hash d ≡ some family
      → family.token_state.refresh_expires_at ≡ some deadline
      → draws.checked_at < deadline
      → Reads d c
      → IsValidated settings auth family d client
      → Ends (IsRefreshed (some auth)) Failed (
          (load_refresh_identity client family >>= λ identity.
          rotate_refresh_family p settings hash deadline family identity draws)
            c)
  from_identity-Ends auth family deadline client c current unexpired in_time r v =
      Ends-bind (λ identity c'. Reads d c' × IsAdmitted family client d identity)
        (IsRefreshed (some auth)) Failed (load_refresh_identity client family)
        (λ identity. rotate_refresh_family p settings hash deadline family identity draws) c
        (Ends-map _ _ (Untouched d) Failed (load_refresh_identity client family c) (λ _ _ h. h)
          (λ _ _ k. untouched k) (load_refresh_identity-Ends family client d c r))
        λ identity c' (r', a).
          Ends-map _ (IsRefreshed (some auth)) (Untouched d) Failed
            (rotate_refresh_family p settings hash deadline family identity draws c')
            (λ response c'' (tokens, e, w). record {
              family = family;
              deadline = deadline;
              caller = auth;
              client = client;
              identity = identity;
              tokens = tokens;
              current = current;
              unexpired = unexpired;
              in_time = in_time;
              authenticated = refl;
              validated = v;
              admitted = a;
              issued = e;
              rotated = w;
            })
            (λ _ _ k. untouched k)
            (rotate_refresh_family-Ends p settings hash family d deadline identity draws c' r')

  -- The handler from the client on.
  from_client-Ends :
      (auth : Option ClientAuth) (family : TokenFamily) (deadline : ℕ)
      → family_row hash d ≡ some family
      → family.token_state.refresh_expires_at ≡ some deadline
      → draws.checked_at < deadline
      → Ends (IsRefreshed auth) Failed (
          (validate_refresh_client settings auth family >>= λ client.
          load_refresh_identity client family >>= λ identity.
          rotate_refresh_family p settings hash deadline family identity draws)
            (fresh d))
  unfolding validate_refresh_client lock_and_reload_token_client
  from_client-Ends none family deadline current unexpired in_time = untouched refl
  from_client-Ends (some auth) family deadline current unexpired in_time =
      Ends-bind (λ client c. Reads d c × IsValidated settings auth family d client)
        (IsRefreshed (some auth)) Failed (validate_refresh_client settings (some auth) family)
        (λ client. load_refresh_identity client family >>= λ identity.
          rotate_refresh_family p settings hash deadline family identity draws)
        (fresh d)
        (Ends-map _ _ (Untouched d) Failed
          (validate_refresh_client settings (some auth) family (fresh d)) (λ _ _ h. h)
          (λ _ _ k. untouched k) (validate_refresh_client-Ends settings auth family d))
        λ client c (r, v).
          from_identity-Ends auth family deadline client c current unexpired in_time r v

  -- The handler behind the deadline check.
  from_deadline-Ends :
      (auth : Option ClientAuth) (family : TokenFamily)
      → family_row hash d ≡ some family
      → Ends (IsRefreshed auth) Failed (
          (require_unexpired_refresh_family family hash draws.checked_at >>= λ deadline.
          validate_refresh_client settings auth family >>= λ client.
          load_refresh_identity client family >>= λ identity.
          rotate_refresh_family p settings hash deadline family identity draws)
            (fresh d))
  from_deadline-Ends auth family current =
      Ends-bind
        (λ deadline c.
          (c ≡ fresh d)
          × (family.token_state.refresh_expires_at ≡ some deadline)
          × (draws.checked_at < deadline))
        (IsRefreshed auth) Failed (require_unexpired_refresh_family family hash draws.checked_at)
        (λ deadline. validate_refresh_client settings auth family >>= λ client.
          load_refresh_identity client family >>= λ identity.
          rotate_refresh_family p settings hash deadline family identity draws)
        (fresh d)
        (Ends-map _ _ _ Failed
          (require_unexpired_refresh_family family hash draws.checked_at (fresh d)) (λ _ _ h. h)
          (λ e c (is_grant, left). elim left [
            | inl k ↦ untouched k
            | inr (k, late) ↦ expired family is_grant current late k
          ])
          (require_unexpired-Ends family hash draws.checked_at d))
        λ deadline c (at_start, unexpired, in_time).
          rw at_start (from_client-Ends auth family deadline current unexpired in_time)

  scoped-Ends :
      (auth : Option ClientAuth) (family : TokenFamily)
      → family_row hash d ≡ some family
      → Ends (IsRefreshed auth) Failed (
          (raise_if (is_not_null req.scope) (protocol invalid_grant)
              >> (require_unexpired_refresh_family family hash draws.checked_at >>= λ deadline.
                  validate_refresh_client settings auth family >>= λ client.
                  load_refresh_identity client family >>= λ identity.
                  rotate_refresh_family p settings hash deadline family identity draws))
            (fresh d))
  scoped-Ends auth family current = elim (Bool-cases (is_not_null req.scope)) [
    | inl t ↦ rw t (untouched refl)
    | inr f ↦ rw f (from_deadline-Ends auth family current)
  ]

  -- A refresh establishes all of `IsRefreshed`, or raises and leaves one of three states committed.
  pub handle-Ends :
      (auth : Option ClientAuth)
      → Ends
          (IsRefreshed auth)
          Failed
          (handle_refresh_token_grant p settings req auth draws (fresh d))
  unfolding handle_refresh_token_grant
  handle-Ends auth =
      Ends-raise_if (IsRefreshed auth) Failed
        (not (is_grant_enabled settings OAuth2GrantType.refresh_token))
        (protocol unsupported_grant_type) (load_refresh_family hash draws.reused_at >>= loaded)
        (fresh d) (λ _. untouched refl)
        λ _.
          Ends-bind (λ family c. (c ≡ fresh d) × (family_row hash d ≡ some family))
            (IsRefreshed auth) Failed (load_refresh_family hash draws.reused_at) loaded (fresh d)
            (Ends-map _ _ _ Failed (load_refresh_family hash draws.reused_at (fresh d)) (λ _ _ h. h)
              (λ e c (is_grant, absent, k). reused is_grant absent k)
              (load_refresh_family-Ends hash draws.reused_at d))
            λ family c (at_start, current). rw at_start (scoped-Ends auth family current)
    where
      loaded : TokenFamily → Flow TokenResponse
      loaded family =
          raise_if (is_not_null req.scope) (protocol invalid_grant)
          >> (require_unexpired_refresh_family family hash draws.checked_at >>= λ deadline.
              validate_refresh_client settings auth family >>= λ client.
              load_refresh_identity client family >>= λ identity.
              rotate_refresh_family p settings hash deadline family identity draws)
