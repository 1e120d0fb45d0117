-- ===== src/Oauth2/CodeExchange/Steps.antt =====
-- What each step of the code exchange returns, raises and leaves behind.
use zero_auth_lite.Prelude.{
  ℕ, ◌≡◌, refl, Bool, true, false, not, Option, none, some, Text, is_not_null, inl, inr, Bool-cases,
}
use zero_auth_lite.Table.{find_where}
use zero_auth_lite.Database.{ok, Connection, view, fresh, ◌>>◌, raise_if, pure}
use zero_auth_lite.Database.Laws.{Ends, Ends-bind, Ends-raise_if}
use zero_auth_lite.Oauth2.Errors.{
  OAuth2GrantType, protocol, unsupported_grant_type, invalid_client, unauthorized_client,
}
use zero_auth_lite.Oauth2.Tables.{Tables, Flow, ask, OAuth2Client, AuthorizationCode}
use zero_auth_lite.Oauth2.Flows.{Untouched, ask-Ends}
use zero_auth_lite.Oauth2.Settings.{OAuth2Settings, Platform, is_grant_enabled}
use zero_auth_lite.Oauth2.Clients.{ClientAuth, client_allows_grant, client_allows_user_organization}
use zero_auth_lite.Oauth2.Identity.{Identity, load_eligible_oauth2_user_identity}
use zero_auth_lite.Oauth2.CodeExchange.{
  AuthorizationCodeGrantRequest, hash_authorization_code, code_row,
  validate_authorization_code_client, is_redeemable, is_in_scope, is_proven, check_code,
  load_authorization_code, is_unused, mark_code_used, consume_authorization_code,
  admit_code_identity, load_authorization_code_identity,
}

-- The client of the caller, which is active and may use the grant.
pub record IsAllowed (settings : OAuth2Settings) (auth : Option ClientAuth) (client : OAuth2Client)
    : Type 0 where
  pub caller : ClientAuth
  pub authenticated : auth ≡ some caller
  pub of_caller : client ≡ caller.client
  pub enabled : is_grant_enabled settings OAuth2GrantType.authorization_code ≡ true
  pub active : client.is_active ≡ true
  pub grant : client_allows_grant client OAuth2GrantType.authorization_code ≡ true

pub validate_client-Ends :
    (settings : OAuth2Settings) (auth : Option ClientAuth) (d : Tables)
    → Ends
        (λ client c. (c ≡ fresh d) × IsAllowed settings auth client)
        (Untouched d)
        (validate_authorization_code_client auth settings (fresh d))
unfolding validate_authorization_code_client
validate_client-Ends settings none d = refl
validate_client-Ends settings (some caller) d =
    Ends-raise_if Found (Untouched d)
      (not (is_grant_enabled settings OAuth2GrantType.authorization_code))
      (protocol unsupported_grant_type) past_grant (fresh d) (λ _. refl)
      λ on.
        Ends-raise_if Found (Untouched d) (not caller.client.is_active) (protocol invalid_client)
          past_active (fresh d) (λ _. refl)
          λ active.
            Ends-raise_if Found (Untouched d)
              (not (client_allows_grant caller.client OAuth2GrantType.authorization_code))
              (protocol unauthorized_client) (pure caller.client) (fresh d) (λ _. refl)
              λ grant. (
                refl,
                record {
                  caller = caller;
                  authenticated = refl;
                  of_caller = refl;
                  enabled = not_false _ on;
                  active = not_false _ active;
                  grant = not_false _ grant;
                },
              )
  where
    Found : OAuth2Client → Connection Tables → Type 0
    Found client c = (c ≡ fresh d) × IsAllowed settings (some caller) client

    past_active : Flow OAuth2Client
    past_active =
        raise_if (not (client_allows_grant caller.client OAuth2GrantType.authorization_code))
          (protocol unauthorized_client)
        >> pure caller.client

    past_grant : Flow OAuth2Client
    past_grant = raise_if (not caller.client.is_active) (protocol invalid_client) >> past_active

    not_false : (b : Bool) → not b ≡ false → b ≡ true
    not_false true e = refl
    not_false false e = absurd (cc)

-- The code is stored, unused and in time, of the client and the redirect address, within the
-- client's scope, and its challenge is met by the verifier.
pub record IsChecked (p : Platform) (settings : OAuth2Settings)
    (req : AuthorizationCodeGrantRequest) (client : OAuth2Client) (now : ℕ) (d : Tables)
    (a : AuthorizationCode) : Type 0 where
  pub stored : code_row (hash_authorization_code p settings req.code) d ≡ some a
  pub redeemable : is_redeemable req client now a ≡ true
  pub in_scope : is_in_scope settings client a ≡ true
  pub proven : is_proven p req a ≡ true

module _ (p : Platform) (settings : OAuth2Settings) (req : AuthorizationCodeGrantRequest)
    (client : OAuth2Client) (now : ℕ) (d : Tables) where
  check_code-Ends :
      (row : Option AuthorizationCode)
      → code_row (hash_authorization_code p settings req.code) d ≡ row
      → Ends
          (λ a c. (c ≡ fresh d) × IsChecked p settings req client now d a)
          (Untouched d)
          (check_code p settings req client now row (fresh d))
  check_code-Ends none e = refl
  check_code-Ends (some a) e = elim (Bool-cases (is_redeemable req client now a)) [
    | inr unfit ↦ rw (unfit, raise_if) refl
    | inl fit ↦ elim (Bool-cases (is_in_scope settings client a)) [
      | inr beyond ↦ rw (fit, beyond, raise_if) refl
      | inl within ↦ elim (Bool-cases (is_proven p req a)) [
        | inr unproven ↦ rw (fit, within, unproven, raise_if) refl
        | inl proven ↦
            rw (fit, within, proven, raise_if)
              (refl, record { stored = e; redeemable = fit; in_scope = within; proven = proven })
      ]
    ]
  ]

  pub load_code-Ends :
      Ends
        (λ a c. (c ≡ fresh d) × IsChecked p settings req client now d a)
        (Untouched d)
        (load_authorization_code p settings req client now (fresh d))
  unfolding load_authorization_code
  load_code-Ends = check_code-Ends (code_row (hash_authorization_code p settings req.code) d) refl

pub consume_code-Ends :
    (h : Text) (now : ℕ) (d : Tables)
    → Ends
        (λ (u : Unit {0}) c.
          (c.committed ≡ d)
          × (is_not_null (find_where (is_unused h) d.authorization_codes) ≡ true)
          × (view c ≡ (mark_code_used h now d).1))
        (Untouched d)
        (consume_authorization_code h now (fresh d))
unfolding consume_authorization_code
consume_code-Ends h now d =
    elim (Bool-cases (is_not_null (find_where (is_unused h) d.authorization_codes))) [
      | inl t ↦ rw (t, raise_if) (refl, t, refl)
      | inr f ↦ rw (f, raise_if) refl
    ]

-- The identity is the loader's for the user of the code, in an organization that the client allows.
pub record IsAdmitted (a : AuthorizationCode) (client : OAuth2Client) (d : Tables)
    (identity : Identity) : Type 0 where
  pub loaded :
      load_eligible_oauth2_user_identity (some a.user_id) (some a.organization_id) d
      ≡ ok (some identity)
  pub allowed : client_allows_user_organization client a.organization_id d ≡ true

admit_code_identity-Ends :
    (a : AuthorizationCode) (client : OAuth2Client) (d : Tables) (c : Connection Tables)
    (found : Option Identity)
    → c.committed ≡ d
    → load_eligible_oauth2_user_identity (some a.user_id) (some a.organization_id) (view c)
      ≡ ok found
    → Ends
        (λ identity c'. (c' ≡ c) × IsAdmitted a client (view c) identity)
        (Untouched d)
        (admit_code_identity client a found c)
admit_code_identity-Ends a client d c none kept l = kept
admit_code_identity-Ends a client d c (some identity) kept l =
    elim (Bool-cases (client_allows_user_organization client a.organization_id (view c))) [
      | inl t ↦ rw (t, raise_if) (refl, record { loaded = l; allowed = t })
      | inr f ↦ rw (f, raise_if) kept
    ]

pub load_code_identity-Ends :
    (a : AuthorizationCode) (client : OAuth2Client) (d : Tables) (c : Connection Tables)
    → c.committed ≡ d
    → Ends
        (λ identity c'. (c' ≡ c) × IsAdmitted a client (view c) identity)
        (Untouched d)
        (load_authorization_code_identity client a c)
unfolding load_authorization_code_identity
load_code_identity-Ends a client d c kept =
    Ends-bind
      (λ found c'.
        (c' ≡ c)
        × (load_eligible_oauth2_user_identity (some a.user_id) (some a.organization_id) (view c)
            ≡ ok found))
      (λ identity c'. (c' ≡ c) × IsAdmitted a client (view c) identity) (Untouched d)
      (ask (load_eligible_oauth2_user_identity (some a.user_id) (some a.organization_id)))
      (admit_code_identity client a) c
      (ask-Ends (load_eligible_oauth2_user_identity (some a.user_id) (some a.organization_id)) d c
        kept)
      λ found c' (same, l). rw same (admit_code_identity-Ends a client d c found kept l)
