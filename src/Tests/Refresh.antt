-- ===== src/Tests/Refresh.antt =====
-- A refresh, a replay of its token, and failures.
use zero_auth_lite.Prelude.{
  Text, ◌+◌, ◌≤◌, ◌<◌, ◌≡◌, ◌≢◌, refl, arith, true, false, none, some, ◌∷◌, text, text_eq,
  text_eq_iff, seconds,
}
use zero_auth_lite.Database.{Outcome, ok, err, Connection, view, request}
use zero_auth_lite.Oauth2.Errors.{Error, protocol, invalid_grant, value_error}
use zero_auth_lite.Oauth2.Tables.{Tables}
use zero_auth_lite.Oauth2.Settings.{AccessTokenPayload, hash_oauth2_token}
use zero_auth_lite.Oauth2.Scopes.{
  is_space, split, parts, close_word, is_member, are_members, validate_requested_scope,
  scope_includes_openid, validate_oidc_scope_enabled,
}
use zero_auth_lite.Oauth2.Clients.{
  is_unchanged, lock_and_reload_token_client, organization_assignment_count_is_valid,
  client_allows_user_organization,
}
use zero_auth_lite.Oauth2.Identity.{load_eligible_oauth2_user_identity}
use zero_auth_lite.Oauth2.Issuance.{
  IssuedTokens, TokenResponse, create_access_token_payload, create_issued_tokens,
}
use zero_auth_lite.Oauth2.Issuance.Lifetimes.{
  NotBefore, IsRefreshExpiry, create_issued_tokens_lifetimes, create_issued_tokens_near_deadline,
}
use zero_auth_lite.Oauth2.Refresh.{
  TokenFamily, RefreshDraws, RefreshTokenGrantRequest, refresh_hash_of, family_row,
  rotate_token_state, load_refresh_family, require_unexpired_refresh_family,
  validate_refresh_client, load_refresh_identity, rotate_refresh_family,
  revoke_reused_refresh_family, expire_refresh_family, handle_refresh_token_grant,
}
use zero_auth_lite.Oauth2.Refresh.Handler.{IsRefreshed, Failed}
use zero_auth_lite.Oauth2.Refresh.Reuse.{IsReused, IsRevoked, reuse_revokes_family}
use zero_auth_lite.Oauth2.Refresh.SingleUse.{
  UniqueRefreshHashes, refresh_establishes, refresh_failure_confined, refresh_token_single_use,
  here, next,
}
use zero_auth_lite.Tests.Store.{platform, settings, app_auth, session, token_state, store}

abbrev old_token : RefreshTokenGrantRequest
old_token = record { refresh_token = text "r0"; scope = none }

abbrev draws : RefreshDraws
draws = record {
  reused_at = 1000;
  checked_at = 1001;
  issued_at = 1002;
  access_jti = text "j1";
  refresh_token = text "r1";
}

abbrev refreshed : Outcome Error TokenResponse × Tables
refreshed =
    request (handle_refresh_token_grant platform settings old_token (some app_auth) draws) store

abbrev response : TokenResponse
response = record {
  access_token = text "j1";
  refresh_token = some (text "r1");
  id_token = none;
  expires_in = 900;
}

refreshed_is :
    request (handle_refresh_token_grant platform settings old_token (some app_auth) draws) store
    ≡ (ok response, refreshed.1)
unfolding text_eq is_space split parts close_word is_member are_members validate_requested_scope
    scope_includes_openid validate_oidc_scope_enabled is_unchanged lock_and_reload_token_client
    organization_assignment_count_is_valid client_allows_user_organization
    load_eligible_oauth2_user_identity create_access_token_payload create_issued_tokens
    rotate_token_state load_refresh_family require_unexpired_refresh_family validate_refresh_client
    load_refresh_identity rotate_refresh_family revoke_reused_refresh_family expire_refresh_family
    handle_refresh_token_grant
refreshed_is = refl

one_hash : UniqueRefreshHashes store.token_states
one_hash = (λ h e. refl, tt)

other_hash :
    (token : Text)
    → text_eq token (text "r0") ≡ false
    → hash_oauth2_token platform token settings.token_hash_secret
      ≢ refresh_hash_of platform settings old_token
unfolding text_eq
other_hash token differs e =
    let same = (text_eq_iff (35 ∷ token) (35 ∷ text "r0")).1 e in absurd (cc)

new_hash_differs :
    hash_oauth2_token platform draws.refresh_token settings.token_hash_secret
    ≢ refresh_hash_of platform settings old_token
unfolding text_eq
new_hash_differs = other_hash (text "r1") refl

-- The client goes on with its new token, before somebody presents the old one for a smaller scope.
abbrev new_token : RefreshTokenGrantRequest
new_token = record { refresh_token = text "r1"; scope = none }

abbrev later_draws : RefreshDraws
later_draws = record draws { access_jti = text "j2"; refresh_token = text "r2" }

later_hash_differs :
    hash_oauth2_token platform later_draws.refresh_token settings.token_hash_secret
    ≢ refresh_hash_of platform settings old_token
unfolding text_eq
later_hash_differs = other_hash (text "r2") refl

abbrev stolen_token : RefreshTokenGrantRequest
stolen_token = record { refresh_token = text "r0"; scope = some (text "openid") }

abbrev refreshed_again : Tables
refreshed_again =
    (request (handle_refresh_token_grant platform settings new_token (some app_auth) later_draws)
      refreshed.1).1

refresh_token_single_use_example :
    (family : TokenFamily) × (family_row (refresh_hash_of platform settings old_token) store
      ≡ some family)
    × (let (outcome, end) =
          request
            (handle_refresh_token_grant platform settings stolen_token none draws)
            refreshed_again in
        (outcome ≡ err (protocol invalid_grant)) × IsRevoked family.token_state.session_id end)
refresh_token_single_use_example =
    refresh_token_single_use platform settings old_token stolen_token (some app_auth) none draws
      draws store refreshed.1 refreshed_again response one_hash refl new_hash_differs refreshed_is
      (next new_token (some app_auth) later_draws here later_hash_differs) refl

refresh_establishes_example :
    (c : Connection Tables) × IsRefreshed platform settings old_token draws store
      (some app_auth)
      response
      c
    × (refreshed.1 ≡ view c)
refresh_establishes_example =
    refresh_establishes platform settings old_token (some app_auth) draws store response refreshed.1
      refreshed_is

-- A token that was never issued.
abbrev unknown_token : RefreshTokenGrantRequest
unknown_token = record { refresh_token = text "zz"; scope = none }

unknown_is :
    request (handle_refresh_token_grant platform settings unknown_token (some app_auth) draws) store
    ≡ (err (protocol invalid_grant), store)
unfolding text_eq is_space split parts close_word is_member are_members validate_requested_scope
    scope_includes_openid validate_oidc_scope_enabled is_unchanged lock_and_reload_token_client
    organization_assignment_count_is_valid client_allows_user_organization
    load_eligible_oauth2_user_identity create_access_token_payload create_issued_tokens
    rotate_token_state load_refresh_family require_unexpired_refresh_family validate_refresh_client
    load_refresh_identity rotate_refresh_family revoke_reused_refresh_family expire_refresh_family
    handle_refresh_token_grant
unknown_is = refl

refresh_failure_confined_example :
    (c : Connection Tables) × Failed platform settings unknown_token draws store
      (protocol invalid_grant)
      c
    × (store ≡ c.committed)
refresh_failure_confined_example =
    refresh_failure_confined platform settings unknown_token (some app_auth) draws store
      (protocol invalid_grant) store unknown_is

-- The token that was rotated away: its family is found through the history.
replayed : IsReused (refresh_hash_of platform settings old_token) 1 refreshed.1
unfolding text_eq is_space split parts close_word is_member are_members validate_requested_scope
    scope_includes_openid validate_oidc_scope_enabled is_unchanged lock_and_reload_token_client
    organization_assignment_count_is_valid client_allows_user_organization
    load_eligible_oauth2_user_identity create_access_token_payload create_issued_tokens
    rotate_token_state load_refresh_family require_unexpired_refresh_family validate_refresh_client
    load_refresh_identity rotate_refresh_family revoke_reused_refresh_family expire_refresh_family
    handle_refresh_token_grant
replayed = record {
  entry = record { token_hash = 35 ∷ text "r0"; session_id = 1 };
  state = record token_state {
    access_token_hash = 35 ∷ text "j1";
    access_jti = text "j1";
    refresh_token_hash = some (35 ∷ text "r1");
    access_expires_at = 900001002;
  };
  session = session;
  in_history = refl;
  of_session = refl;
  live = refl;
  stored = refl;
}

rotated_away : family_row (refresh_hash_of platform settings old_token) refreshed.1 ≡ none
unfolding text_eq is_space split parts close_word is_member are_members validate_requested_scope
    scope_includes_openid validate_oidc_scope_enabled is_unchanged lock_and_reload_token_client
    organization_assignment_count_is_valid client_allows_user_organization
    load_eligible_oauth2_user_identity create_access_token_payload create_issued_tokens
    rotate_token_state load_refresh_family require_unexpired_refresh_family validate_refresh_client
    load_refresh_identity rotate_refresh_family revoke_reused_refresh_family expire_refresh_family
    handle_refresh_token_grant
rotated_away = refl

reuse_revokes_family_example :
    let (outcome, d') =
      request (handle_refresh_token_grant platform settings old_token none draws) refreshed.1 in
    (outcome ≡ err (protocol invalid_grant)) × IsRevoked 1 d'
reuse_revokes_family_example =
    reuse_revokes_family platform settings old_token none draws 1 refreshed.1 refl rotated_away
      replayed

abbrev payload : AccessTokenPayload
payload = record {
  subject = text "p";
  organization = some (text "o");
  audience = text "a";
  access_jti = text "j1";
  client_id = text "c";
  scope = text "r";
  principal_type = none;
}

abbrev tokens : IssuedTokens
tokens = record {
  access_token = text "j1";
  refresh_token = some (text "r1");
  access_jti = text "j1";
  access_token_lifetime_seconds = 900;
  access_expires_at = 900001002;
  refresh_expires_at = some 9000000000;
}

tokens_are :
    create_issued_tokens platform settings payload true (some 9000000000) 1002 (text "r1")
    ≡ ok tokens
unfolding create_issued_tokens
tokens_are = refl

create_issued_tokens_lifetimes_example :
    (1 ≤ tokens.access_token_lifetime_seconds)
    × (1002 + seconds tokens.access_token_lifetime_seconds ≤ tokens.access_expires_at)
    × (tokens.access_expires_at ≤ 1002 + seconds settings.access_token_lifetime_seconds)
    × NotBefore tokens.access_expires_at tokens.refresh_expires_at
    × IsRefreshExpiry settings true (some 9000000000) 1002 tokens.refresh_expires_at
create_issued_tokens_lifetimes_example =
    create_issued_tokens_lifetimes platform settings payload true (some 9000000000) 1002 (text "r1")
      tokens tokens_are

create_issued_tokens_near_deadline_example :
    (2000000 < 1500000 + seconds 1
      → create_issued_tokens platform settings payload true (some 2000000) 1500000 (text "r1")
        ≡ err value_error)
    × (1500000 + seconds 1 ≤ 2000000
        → (tokens : IssuedTokens) × (create_issued_tokens platform settings payload true
              (some 2000000)
              1500000
              (text "r1")
            ≡ ok tokens)
          × (tokens.refresh_token ≡ some (text "r1"))
          × (tokens.refresh_expires_at ≡ some 2000000))
create_issued_tokens_near_deadline_example =
    create_issued_tokens_near_deadline platform settings payload 2000000 1500000 (text "r1")
      (omega arith)
