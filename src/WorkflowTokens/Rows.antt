-- ===== src/WorkflowTokens/Rows.antt =====
-- `app/db/models/workflow_token.py`, `app/workflow_tokens/enums.py`, `app/workflow_tokens/settings.py`
-- and `app/workflow_tokens/errors.py`.
use zero_auth_lite.Prelude.{ℕ, Bool, ◌&&◌, Option, some, List, Text, text, text_eq, ◌==◌, is_null}

pub data WorkflowTokenPurpose : Type 0 where
  verify_email email_change invite reset_password : WorkflowTokenPurpose

-- `WorkflowTokenPurpose.value`
abbrev pub purpose_value : WorkflowTokenPurpose → Text
purpose_value verify_email = text "verify_email"
purpose_value email_change = text "email_change"
purpose_value invite = text "invite"
purpose_value reset_password = text "reset_password"

abbrev rank : WorkflowTokenPurpose → ℕ
rank verify_email = 0
rank email_change = 1
rank invite = 2
rank reset_password = 3

abbrev pub purpose_eq : WorkflowTokenPurpose → WorkflowTokenPurpose → Bool
purpose_eq p q = rank p == rank q

-- A frozen set of purposes.
abbrev pub Purposes : Type 0
Purposes = WorkflowTokenPurpose → Bool

pub record UserWorkflowToken : Type 0 where
  pub id : ℕ
  pub user_email_id : ℕ
  pub purpose : WorkflowTokenPurpose
  pub token_hash : Text
  pub source_event_id : Option Text
  pub source_event_occurred_at : Option ℕ
  pub derivation_key_id : Option Text
  pub expires_at : ℕ
  pub used_at : Option ℕ

pub record PreviousDerivationSecret : Type 0 where
  pub key_id : Text
  pub secret : Text

pub record WorkflowTokenSettings : Type 0 where
  pub derivation_key_id : Text
  pub derivation_secret : Text
  pub previous_derivation_secrets : List PreviousDerivationSecret
  pub verify_token_ttl_seconds : ℕ
  pub invite_token_ttl_seconds : ℕ
  pub reset_token_ttl_seconds : ℕ

pub data WorkflowTokenError : Type 0 where
  invalid_workflow_token derivation_key_error integrity_error : WorkflowTokenError

-- The hexadecimal SHA-256 of a text, and the unpadded base64url of its HMAC-SHA-256 under a key.
pub record TokenCrypto : Type 0 where
  pub sha256 : Text → Text
  pub hmac_base64url : Text → Text → Text

abbrev pub is_unused : UserWorkflowToken → Bool
is_unused t = is_null t.used_at

abbrev pub has_hash : Text → UserWorkflowToken → Bool
has_hash h t = text_eq t.token_hash h

-- An unused token of an address and a purpose.
abbrev pub is_active : ℕ → WorkflowTokenPurpose → UserWorkflowToken → Bool
is_active user_email_id purpose t =
    t.user_email_id == user_email_id && (purpose_eq t.purpose purpose && is_unused t)

-- `used_at = now`
abbrev pub used : ℕ → UserWorkflowToken → UserWorkflowToken
used now t = record t { used_at = some now }
