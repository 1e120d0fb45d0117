-- ===== src/Oauth2/Interactions.antt =====
-- `app/oauth2/authorization/interaction.py`: the consent of a signed-in user to an authorization
-- transaction. The request service of `app/oauth2/authorization/request.py` is a record of
-- operations on a state of its own.
pub mod Transactions
pub mod Histories
pub mod SingleUse
use zero_auth_lite.Prelude.{
  Bool, true, false, not, ◌&&◌, Option, none, some, List, Text, ℕ, if◌then◌else◌,
}
use zero_auth_lite.Database.{Outcome, ok, err}
use Transactions.{AuthorizationTransaction, consume, bind_to_user}

pub record InteractiveUser : Type 0 where
  pub user_id : ℕ
  pub organization_id : ℕ

pub record AuthorizationRequestInput : Type 0 where
  pub response_type : Text
  pub client_id : Text
  pub redirect_uri : Text
  pub scope : Option Text
  pub state : Option Text
  pub nonce : Option Text
  pub code_challenge : Text
  pub code_challenge_method : Text

pub record AuthorizationRedirect : Type 0 where
  pub url : Text
  pub status_code : ℕ

pub data AuthorizationResult : Type 0 where
  redirect : AuthorizationRedirect → AuthorizationResult
  consent_page : Text → Text → AuthorizationResult

pub data Validation (V : Type 0) : Type 0 where
  redirected : AuthorizationRedirect → Validation V
  validated : V → Validation V

-- A `ValueError`, which the interaction handles, or another exception.
pub data ServiceError : Type 0 where
  value_error other_error : ServiceError

-- What the interaction uses of the request service, and the hash of a transaction's handle. `V` is a
-- validated request and `S` what the service writes.
pub record AuthorizationService (S V : Type 0) : Type 0 where
  pub transaction_hash : Text → Text
  pub validate_request : AuthorizationRequestInput → S → Outcome ServiceError (Validation V)
  pub requires_consent : V → Bool
  pub authorize_validated : InteractiveUser → V → S → Outcome ServiceError AuthorizationResult × S
  pub authorize_code :
      InteractiveUser
      → AuthorizationRequestInput
      → Text
      → S
      → Outcome ServiceError AuthorizationResult × S

abbrev pub Transactions : Type 0
Transactions = List AuthorizationTransaction

-- The answer of an interaction, with the transactions and the service's state after it.
abbrev pub Answer : Type 0 → Type 0 → Type 0
Answer S A = Outcome ServiceError (Option A) × (Transactions × S)

abbrev pub request_input : AuthorizationTransaction → AuthorizationRequestInput
request_input t = record {
  response_type = t.response_type;
  client_id = t.client_id;
  redirect_uri = t.redirect_uri;
  scope = t.scope;
  state = t.state;
  nonce = t.nonce;
  code_challenge = t.code_challenge;
  code_challenge_method = t.code_challenge_method;
}

abbrev pub as_redirect : AuthorizationResult → Option AuthorizationRedirect
as_redirect (redirect r) = some r
as_redirect (consent_page name scope) = none

module _ {S : Type 0} where
  -- The answer, unless the transaction cannot be consumed.
  abbrev pub if_consumed :
      {A : Type 0} → Option AuthorizationTransaction × Transactions → A → S → Answer S A
  if_consumed (none, rows) a d = (ok none, (rows, d))
  if_consumed (some t, rows) a d = (ok (some a), (rows, d))

  -- A redirection of a client that asks for consent consumes the transaction.
  abbrev pub authorized :
      Text
      → InteractiveUser
      → ℕ
      → Bool
      → Transactions
      → Outcome ServiceError AuthorizationResult × S
      → Answer S AuthorizationResult
  authorized h user now consent rows (err e, d) = (err e, (rows, d))
  authorized h user now consent rows (ok (consent_page name scope), d) =
      (ok (some (consent_page name scope)), (rows, d))
  authorized h user now true rows (ok (redirect r), d) =
      if_consumed (consume h user.user_id user.organization_id now rows) (redirect r) d
  authorized h user now false rows (ok (redirect r), d) = (ok (some (redirect r)), (rows, d))

  abbrev pub decided :
      Transactions → Outcome ServiceError AuthorizationResult × S → Answer S AuthorizationRedirect
  decided rows (ok r, d) = (ok (as_redirect r), (rows, d))
  decided rows (err value_error, d) = (ok none, (rows, d))
  decided rows (err other_error, d) = (err other_error, (rows, d))

module _ {S V : Type 0} where
  -- Without consent the transaction is consumed before the authorization.
  abbrev pub authorize_consumed :
      AuthorizationService S V
      → InteractiveUser
      → V
      → S
      → Option AuthorizationTransaction × Transactions
      → Answer S AuthorizationResult
  authorize_consumed s user v d (none, rows) = (ok none, (rows, d))
  authorize_consumed s user v d (some t, rows) =
      let (o, d') = s.authorize_validated user v d in
      elim o [ ok r ↦ (ok (some r), (rows, d')) | err e ↦ (err e, (rows, d')) ]

  abbrev pub continue_validated :
      AuthorizationService S V
      → Text
      → InteractiveUser
      → ℕ
      → Transactions
      → S
      → Outcome ServiceError (Validation V)
      → Answer S AuthorizationResult
  continue_validated s h user now rows d (err value_error) = (ok none, (rows, d))
  continue_validated s h user now rows d (err other_error) = (err other_error, (rows, d))
  continue_validated s h user now rows d (ok (redirected r)) =
      if_consumed (consume h user.user_id user.organization_id now rows) (redirect r) d
  continue_validated s h user now rows d (ok (validated v)) =
      if s.requires_consent v
      then authorized h user now true rows (s.authorize_validated user v d)
      else authorize_consumed s user v d (consume h user.user_id user.organization_id now rows)

  abbrev pub continue_bound :
      AuthorizationService S V
      → Text
      → InteractiveUser
      → ℕ
      → S
      → Option AuthorizationTransaction × Transactions
      → Answer S AuthorizationResult
  continue_bound s h user now d (none, rows) = (ok none, (rows, d))
  continue_bound s h user now d (some t, rows) =
      continue_validated s h user now rows d (s.validate_request (request_input t) d)

  -- The binding reads the clock first, and the consumption that may follow a second time.
  unfoldable pub continue_interaction :
      AuthorizationService S V
      → Text
      → InteractiveUser
      → ℕ
      → ℕ
      → Transactions
      → S
      → Answer S AuthorizationResult
  continue_interaction s transaction_id user bound_at now rows d =
      let h = s.transaction_hash transaction_id in
      continue_bound s h user now d (bind_to_user h user.user_id user.organization_id bound_at rows)

  abbrev pub decide_consumed :
      AuthorizationService S V
      → InteractiveUser
      → Text
      → S
      → Option AuthorizationTransaction × Transactions
      → Answer S AuthorizationRedirect
  decide_consumed s user decision d (none, rows) = (ok none, (rows, d))
  decide_consumed s user decision d (some t, rows) =
      decided rows (s.authorize_code user (request_input t) decision d)

  unfoldable pub decide :
      AuthorizationService S V
      → Text
      → Text
      → InteractiveUser
      → ℕ
      → Transactions
      → S
      → Answer S AuthorizationRedirect
  decide s transaction_id decision user now rows d =
      decide_consumed s user decision d
        (consume (s.transaction_hash transaction_id) user.user_id user.organization_id now rows)
