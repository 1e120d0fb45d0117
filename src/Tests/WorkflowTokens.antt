-- ===== src/Tests/WorkflowTokens.antt =====
-- A token for an invitation, issued, consumed and asked for again.
use zero_auth_lite.Prelude.{
  ◌≡◌, refl, ◌≤◌, ◌⊎◌, none, some, List, [], ◌∷◌, ◌++◌, Text, text, text_eq,
}
use zero_auth_lite.Database.{ok, err}
use zero_auth_lite.WorkflowTokens.Rows.{
  invite, UserWorkflowToken, WorkflowTokenSettings, invalid_workflow_token, TokenCrypto, used,
}
use zero_auth_lite.WorkflowTokens.Service.{
  Rows, is_credential, EventToken, IssueTimes, digits, decimal, token_for_event, renew, text_lt,
  invalidate, replace_active, issue_token_for_event, consume_token, read_valid_token,
}
use zero_auth_lite.WorkflowTokens.Slots.{IsTokenTable}
use zero_auth_lite.WorkflowTokens.Issued.{IsIssued}
use zero_auth_lite.WorkflowTokens.Requests.{
  Request, issues, consumes, retires, serve, here, next, Run-IsTokenTable,
}
use zero_auth_lite.WorkflowTokens.SingleUse.{
  consume_token-issue_token_for_event, consume_token_once,
}
use zero_auth_lite.WorkflowTokens.Refinement.{slots, run, History, run-History}

abbrev crypto : TokenCrypto
crypto = record { sha256 = λ t. 35 ∷ t; hmac_base64url = λ k t. k ++ t }

abbrev settings : WorkflowTokenSettings
settings = record {
  derivation_key_id = text "k";
  derivation_secret = text "s";
  previous_derivation_secrets = [];
  verify_token_ttl_seconds = 60;
  invite_token_ttl_seconds = 60;
  reset_token_ttl_seconds = 60;
}

abbrev invitation : EventToken
invitation = record {
  event_id = text "e";
  event_occurred_at = 5;
  user_email_id = 7;
  purpose = invite;
}

abbrev times : IssueTimes
times = record { checked_at = 10; renewed_at = 11; created_at = 12; replaced_at = 13 }

abbrev token : Text
token = text "se:7:invite"

abbrev row : UserWorkflowToken
row = record {
  id = 1;
  user_email_id = 7;
  purpose = invite;
  token_hash = 35 ∷ token;
  source_event_id = some (text "e");
  source_event_occurred_at = some 5;
  derivation_key_id = some (text "k");
  expires_at = 60000012;
  used_at = none;
}

issued_row : issue_token_for_event crypto settings invitation times [] ≡ ok (some token, row ∷ [])
unfolding issue_token_for_event token_for_event replace_active invalidate decimal digits text_eq
    text_lt
issued_row = refl

-- Asked for again, the call returns the same token and writes nothing.
issued_again :
    issue_token_for_event crypto settings invitation times (row ∷ []) ≡ ok (some token, row ∷ [])
unfolding issue_token_for_event token_for_event replace_active invalidate decimal digits text_eq
    text_lt
issued_again = refl

-- An expired token is renewed.
issued_late :
    issue_token_for_event crypto settings invitation
      (record { checked_at = 70000000; renewed_at = 70000001; created_at = 0; replaced_at = 0 })
      (row ∷ [])
    ≡ ok (some token, (record row { expires_at = 130000001 }) ∷ [])
unfolding issue_token_for_event token_for_event replace_active invalidate decimal digits text_eq
    text_lt renew
issued_late = refl

-- A later event for the same address and purpose leaves no token to an earlier one.
issued_outdated :
    issue_token_for_event crypto settings
      (record invitation { event_id = text "d" })
      times
      (row ∷ [])
    ≡ ok (none, row ∷ [])
unfolding issue_token_for_event token_for_event replace_active invalidate decimal digits text_eq
    text_lt
issued_outdated = refl

decimal_1203 : decimal 1203 ≡ text "1203"
unfolding decimal digits
decimal_1203 = refl

table : IsTokenTable (row ∷ [])
table = record {
  unique_hashes = (refl, tt);
  unique_events = (λ event e. refl, tt);
  one_active = (λ live. refl, tt);
}

no_rows : IsTokenTable []
no_rows = record { unique_hashes = tt; unique_events = tt; one_active = tt }

consumed :
    consume_token (35 ∷ token) is_credential 20 (row ∷ []) ≡ ok (used 20 row, used 20 row ∷ [])
unfolding consume_token text_eq
consumed = refl

consume_token-issue_token_for_event_example :
    (t : UserWorkflowToken) × IsIssued crypto settings invitation times token t
    × (((rows : Rows) × (consume_token (35 ∷ token) is_credential 20 (row ∷ [])
            ≡ ok (used 20 t, rows)))
        ⊎ (t.expires_at ≤ 20))
consume_token-issue_token_for_event_example =
    consume_token-issue_token_for_event crypto settings invitation times [] (row ∷ []) token
      is_credential 20 no_rows issued_row refl

consume_token_once_example :
    (consume_token
        (35 ∷ token)
        is_credential
        30
        (serve crypto settings (issues invitation times) (used 20 row ∷ [])).1
      ≡ err invalid_workflow_token)
    × (read_valid_token
          (35 ∷ token)
          is_credential
          30
          (serve crypto settings (issues invitation times) (used 20 row ∷ [])).1
        ≡ err invalid_workflow_token)
consume_token_once_example =
    consume_token_once crypto settings (35 ∷ token) is_credential is_credential 20 30 (row ∷ [])
      (used 20 row ∷ []) (serve crypto settings (issues invitation times) (used 20 row ∷ [])).1
      (used 20 row) table consumed (next (issues invitation times) here)

Run-IsTokenTable_example : IsTokenTable (serve crypto settings (retires 7 20) (row ∷ [])).1
Run-IsTokenTable_example = Run-IsTokenTable crypto settings table (next (retires 7 20) here)

abbrev requests : List Request
requests = issues invitation times ∷ consumes (35 ∷ token) is_credential 20 ∷ []

run-History_example :
    History crypto settings
      (slots [])
      requests
      (run crypto settings requests []).0
      (slots (run crypto settings requests []).1)
run-History_example = run-History crypto settings requests [] no_rows
