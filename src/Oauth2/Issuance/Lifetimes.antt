-- ===== src/Oauth2/Issuance/Lifetimes.antt =====
-- The lifetimes that `create_issued_tokens` of `app/oauth2/tokens/access.py` gives.
use zero_auth_lite.Prelude.{
  ℕ, ◌+◌, ◌≤◌, ◌<◌, ◌*◌, ◌≡◌, refl, Bool, true, false, Option, none, some, arith, Text, seconds,
}
use zero_auth_lite.Database.{ok, err}
use zero_auth_lite.Oauth2.Errors.{value_error}
use zero_auth_lite.Oauth2.Settings.{OAuth2Settings, Platform, AccessTokenPayload}
use zero_auth_lite.Oauth2.Issuance.{
  IssuedTokens, create_issued_tokens, access_expiry, whole_seconds,
}

-- An optional deadline is not before a time.
abbrev pub NotBefore : ℕ → Option ℕ → Type 0
NotBefore t none = Unit {0}
NotBefore t (some deadline) = t ≤ deadline

-- What the expiry of a refresh token is to be: none where no refresh token is asked for, the
-- deadline of the family where one is given, and else the configured lifetime from now.
abbrev pub IsRefreshExpiry : OAuth2Settings → Bool → Option ℕ → ℕ → Option ℕ → Type 0
IsRefreshExpiry s false deadline now expiry = expiry ≡ none
IsRefreshExpiry s true (some t) now expiry = expiry ≡ some t
IsRefreshExpiry s true none now expiry =
    expiry ≡ some (now + s.refresh_token_lifetime_seconds * 1000000)

-- Tokens that are issued live for at least a second, no longer than the setting allows, never
-- beyond the refresh expiry, and are announced for no longer than they live. The refresh expiry is
-- the requested deadline, or the configured lifetime from now where none is requested, and is absent
-- where no refresh token is asked for.
pub create_issued_tokens_lifetimes :
    (p : Platform) (s : OAuth2Settings) (payload : AccessTokenPayload) (include : Bool)
    (deadline : Option ℕ) (now : ℕ) (fresh_token : Text) (tokens : IssuedTokens)
    → create_issued_tokens p s payload include deadline now fresh_token ≡ ok tokens
    → (1 ≤ tokens.access_token_lifetime_seconds)
      × (now + seconds tokens.access_token_lifetime_seconds ≤ tokens.access_expires_at)
      × (tokens.access_expires_at ≤ now + seconds s.access_token_lifetime_seconds)
      × NotBefore tokens.access_expires_at tokens.refresh_expires_at
      × IsRefreshExpiry s include deadline now tokens.refresh_expires_at
unfolding create_issued_tokens
create_issued_tokens_lifetimes p s payload false deadline now fresh_token tokens h = ground arith
create_issued_tokens_lifetimes p s payload true none now fresh_token tokens h = ground arith
create_issued_tokens_lifetimes p s payload true (some t) now fresh_token tokens h = ground arith

-- With a positive access lifetime, a rotation raises exactly when less than a whole second is left
-- before the family's deadline.
pub create_issued_tokens_near_deadline :
    (p : Platform) (s : OAuth2Settings) (payload : AccessTokenPayload) (deadline now : ℕ)
    (fresh_token : Text)
    → 1 ≤ s.access_token_lifetime_seconds
    → (deadline < now + seconds 1
        → create_issued_tokens p s payload true (some deadline) now fresh_token ≡ err value_error)
      × (now + seconds 1 ≤ deadline
          → (tokens : IssuedTokens) × (create_issued_tokens p s payload true
                (some deadline)
                now
                fresh_token
              ≡ ok tokens)
            × (tokens.refresh_token ≡ some fresh_token)
            × (tokens.refresh_expires_at ≡ some deadline))
unfolding create_issued_tokens
create_issued_tokens_near_deadline p s payload deadline now fresh_token positive = (
  λ late. ground arith,
  λ early. (
    record {
      access_token = p.sign_access_token s payload now (access_expiry s (some deadline) now);
      refresh_token = some fresh_token;
      access_jti = payload.access_jti;
      access_token_lifetime_seconds = whole_seconds now (access_expiry s (some deadline) now);
      access_expires_at = access_expiry s (some deadline) now;
      refresh_expires_at = some deadline;
    },
    ground arith,
    refl,
    refl,
  ),
)
