-- ===== src/WorkflowTokens/Service.antt =====
-- `app/workflow_tokens/service.py`. Each function takes the rows of the table to its result and the
-- rows after it; clock readings are arguments.
use zero_auth_lite.Prelude.{
  ℕ, zero, suc, ◌+◌, ◌/◌, ◌%◌, Bool, true, false, not, ◌&&◌, ◌||◌, Option, none, some, List, [],
  ◌∷◌, ◌++◌, Text, text, text_eq, leb, ltb, ◌==◌, if◌then◌else◌, seconds, is_null, is_not_null,
  holds,
}
use zero_auth_lite.Table.{find_where, update_where}
use zero_auth_lite.Database.{Outcome, ok, err}
use zero_auth_lite.Oauth2.Tables.{UserEmail, next_id}
use zero_auth_lite.WorkflowTokens.Rows.{
  WorkflowTokenPurpose, verify_email, email_change, invite, reset_password, purpose_value,
  purpose_eq, Purposes, UserWorkflowToken, PreviousDerivationSecret, WorkflowTokenSettings,
  WorkflowTokenError, invalid_workflow_token, derivation_key_error, integrity_error, TokenCrypto,
  is_unused, has_hash, used,
}

abbrev pub Rows : Type 0
Rows = List UserWorkflowToken

-- `user_email_id in (select id from user_email where user_id = ...)`
abbrev pub is_email_of : List UserEmail → ℕ → ℕ → Bool
is_email_of emails user_id user_email_id =
    is_not_null (find_where (λ e. e.id == user_email_id && e.user_id == user_id) emails)

-- `CREDENTIAL_TOKEN_PURPOSES`
abbrev pub is_credential : Purposes
is_credential invite = true
is_credential reset_password = true
is_credential _ = false

-- The update that marks the unused tokens of some addresses and purposes as used.
unfoldable pub invalidate : (ℕ → Bool) → Purposes → ℕ → Rows → Rows
invalidate addresses purposes now rows =
    update_where (λ t. addresses t.user_email_id && (purposes t.purpose && is_unused t)) (used now)
      rows

abbrev pub invalidate_active_credential_tokens : List UserEmail → ℕ → ℕ → Rows → Rows
invalidate_active_credential_tokens emails user_id now rows =
    invalidate (is_email_of emails user_id) is_credential now rows

abbrev pub invalidate_all_active_workflow_tokens : List UserEmail → ℕ → ℕ → Rows → Rows
invalidate_all_active_workflow_tokens emails user_id now rows =
    invalidate (is_email_of emails user_id) (λ _. true) now rows

-- The token update of `retire_email`.
abbrev pub retire_email_tokens : ℕ → ℕ → Rows → Rows
retire_email_tokens user_email_id now rows =
    invalidate (λ e. e == user_email_id) (λ _. true) now rows

pub record WorkflowTokenCreate : Type 0 where
  pub user_email_id : ℕ
  pub purpose : WorkflowTokenPurpose
  pub token_hash : Text
  pub expires_at : ℕ
  pub source_event_id : Text
  pub source_event_occurred_at : ℕ
  pub derivation_key_id : Text

abbrev pub new_row : WorkflowTokenCreate → ℕ → UserWorkflowToken
new_row new id = record {
  id = id;
  user_email_id = new.user_email_id;
  purpose = new.purpose;
  token_hash = new.token_hash;
  source_event_id = some new.source_event_id;
  source_event_occurred_at = some new.source_event_occurred_at;
  derivation_key_id = some new.derivation_key_id;
  expires_at = new.expires_at;
  used_at = none;
}

abbrev pub is_of_event : Text → UserWorkflowToken → Bool
is_of_event event_id t = holds (λ e. text_eq e event_id) t.source_event_id

-- A value of a unique column is taken.
abbrev pub is_taken : WorkflowTokenCreate → UserWorkflowToken → Bool
is_taken new t = has_hash new.token_hash t || is_of_event new.source_event_id t

-- `_replace_active`: the key of the new row and the rows.
unfoldable pub replace_active :
    WorkflowTokenCreate → ℕ → Rows → Outcome WorkflowTokenError (ℕ × Rows)
unfolding invalidate
replace_active new now rows =
    let id = next_id (λ (t : UserWorkflowToken). t.id) rows in
    if is_not_null (find_where (is_taken new) rows)
    then err integrity_error
    else ok (
      id,
      new_row new id
          ∷ invalidate (λ e. e == new.user_email_id) (λ p. purpose_eq p new.purpose) now rows,
    )

-- `str` of a number. A number is fuel enough for its own digits.
unfoldable pub digits : ℕ → ℕ → Text
digits zero n = []
digits (suc fuel) n =
    let front = digits fuel (n / 10) in (if ltb n 10 then [] else front) ++ (48 + n % 10) ∷ []

unfoldable pub decimal : ℕ → Text
unfolding digits
decimal n = digits (suc n) n

abbrev pub derivation_secret_for : WorkflowTokenSettings → Text → Option Text
derivation_secret_for settings key_id =
    if text_eq key_id settings.derivation_key_id
    then some settings.derivation_secret
    else elim (find_where (λ (s : PreviousDerivationSecret). text_eq s.key_id key_id)
        settings.previous_derivation_secrets) [ none ↦ none | some s ↦ some s.secret ]

-- None where the source raises `WorkflowTokenDerivationKeyError`.
unfoldable pub token_for_event :
    TokenCrypto → WorkflowTokenSettings → Text → ℕ → WorkflowTokenPurpose → Text → Option Text
token_for_event c settings event_id user_email_id purpose key_id =
    elim (derivation_secret_for settings key_id) [
      | none ↦ none
      | some secret ↦ some (
          c.hmac_base64url secret
            (event_id ++ text ":" ++ decimal user_email_id ++ text ":" ++ purpose_value purpose))
    ]

abbrev pub ttl_for_purpose : WorkflowTokenSettings → WorkflowTokenPurpose → ℕ
ttl_for_purpose settings verify_email = settings.verify_token_ttl_seconds
ttl_for_purpose settings email_change = settings.verify_token_ttl_seconds
ttl_for_purpose settings invite = settings.invite_token_ttl_seconds
ttl_for_purpose settings reset_password = settings.reset_token_ttl_seconds

-- The arguments of `issue_token_for_event`.
pub record EventToken : Type 0 where
  pub event_id : Text
  pub event_occurred_at : ℕ
  pub user_email_id : ℕ
  pub purpose : WorkflowTokenPurpose

-- The clock readings of one call, in the order of their use.
pub record IssueTimes : Type 0 where
  pub checked_at : ℕ
  pub renewed_at : ℕ
  pub created_at : ℕ
  pub replaced_at : ℕ

abbrev pub renewed : ℕ → UserWorkflowToken → UserWorkflowToken
renewed expires_at t = record t { expires_at = expires_at }

abbrev pub is_renewable : Text → UserWorkflowToken → Bool
is_renewable event_id t = is_of_event event_id t && is_unused t

unfoldable pub renew : Text → ℕ → Rows → Rows
renew event_id expires_at rows = update_where (is_renewable event_id) (renewed expires_at) rows

abbrev pub Issue : Type 0
Issue = Outcome WorkflowTokenError (Option Text × Rows)

-- An expired token is renewed, unless the update finds no row.
abbrev pub return_existing :
    WorkflowTokenSettings → EventToken → IssueTimes → Text → UserWorkflowToken → Rows → Issue
return_existing settings event times token existing rows =
    if leb existing.expires_at times.checked_at
    then ok (
      if is_null (find_where (is_renewable event.event_id) rows) then none else some token,
      renew event.event_id (times.renewed_at + seconds (ttl_for_purpose settings event.purpose))
          rows,
    )
    else ok (some token, rows)

abbrev pub check_existing :
    TokenCrypto
    → WorkflowTokenSettings
    → EventToken
    → IssueTimes
    → UserWorkflowToken
    → Text
    → Rows
    → Issue
check_existing c settings event times existing key_id rows =
    elim (token_for_event c settings event.event_id event.user_email_id event.purpose key_id) [
      | none ↦ err derivation_key_error
      | some token ↦
          if not (text_eq (c.sha256 token) existing.token_hash)
          then err derivation_key_error
          else return_existing settings event times token existing rows
    ]

abbrev pub issue_existing :
    TokenCrypto → WorkflowTokenSettings → EventToken → IssueTimes → UserWorkflowToken → Rows → Issue
issue_existing c settings event times existing rows =
    if not (existing.user_email_id == event.user_email_id)
      || not (purpose_eq existing.purpose event.purpose)
    then err invalid_workflow_token
    else if is_not_null existing.used_at
    then ok (none, rows)
    else elim existing.derivation_key_id [
      | none ↦ err derivation_key_error
      | some key_id ↦ check_existing c settings event times existing key_id rows
    ]

-- `a < b` on texts, as SQLite compares them.
unfoldable pub text_lt : Text → Text → Bool
text_lt [] [] = false
text_lt [] (b ∷ t) = true
text_lt (a ∷ s) [] = false
text_lt (a ∷ s) (b ∷ t) = ltb a b || (a == b && text_lt s t)

-- The test of `newer_exists`; a comparison with NULL keeps no row.
abbrev pub is_newer : EventToken → UserWorkflowToken → Bool
is_newer event t =
    t.user_email_id == event.user_email_id
    && (purpose_eq t.purpose event.purpose
        && holds
            (λ at.
              ltb event.event_occurred_at at
              || (at == event.event_occurred_at
                  && holds (λ e. text_lt event.event_id e) t.source_event_id))
            t.source_event_occurred_at)

abbrev pub event_data :
    TokenCrypto → WorkflowTokenSettings → EventToken → ℕ → Text → WorkflowTokenCreate
event_data c settings event created_at token = record {
  user_email_id = event.user_email_id;
  purpose = event.purpose;
  token_hash = c.sha256 token;
  expires_at = created_at + seconds (ttl_for_purpose settings event.purpose);
  source_event_id = event.event_id;
  source_event_occurred_at = event.event_occurred_at;
  derivation_key_id = settings.derivation_key_id;
}

abbrev pub insert_new : WorkflowTokenCreate → ℕ → Text → Rows → Issue
insert_new new replaced_at token rows = elim (replace_active new replaced_at rows) [
  | err e ↦ err e
  | ok (id, rows') ↦ ok (some token, rows')
]

abbrev pub issue_new : TokenCrypto → WorkflowTokenSettings → EventToken → IssueTimes → Rows → Issue
issue_new c settings event times rows =
    elim (token_for_event c settings event.event_id event.user_email_id event.purpose
      settings.derivation_key_id) [
        | none ↦ err derivation_key_error
        | some token ↦
            if is_not_null (find_where (is_newer event) rows)
            then ok (none, rows)
            else insert_new (event_data c settings event times.created_at token) times.replaced_at
                token rows
      ]

unfoldable pub issue_token_for_event :
    TokenCrypto → WorkflowTokenSettings → EventToken → IssueTimes → Rows → Issue
issue_token_for_event c settings event times rows =
    elim (find_where (is_of_event event.event_id) rows) [
      | some existing ↦ issue_existing c settings event times existing rows
      | none ↦ issue_new c settings event times rows
    ]

-- The conditions of `consume_token` and `read_valid_token`.
abbrev pub is_valid_token : Text → Purposes → ℕ → UserWorkflowToken → Bool
is_valid_token h purposes now t =
    has_hash h t && (purposes t.purpose && (is_unused t && not (leb t.expires_at now)))

-- `token` comes as its SHA-256.
unfoldable pub consume_token :
    Text → Purposes → ℕ → Rows → Outcome WorkflowTokenError (UserWorkflowToken × Rows)
consume_token h purposes now rows = elim (find_where (is_valid_token h purposes now) rows) [
  | none ↦ err invalid_workflow_token
  | some t ↦ ok (used now t, update_where (is_valid_token h purposes now) (used now) rows)
]

unfoldable pub read_valid_token :
    Text → Purposes → ℕ → Rows → Outcome WorkflowTokenError UserWorkflowToken
read_valid_token h purposes now rows = elim (find_where (is_valid_token h purposes now) rows) [
  | none ↦ err invalid_workflow_token
  | some t ↦ ok t
]
