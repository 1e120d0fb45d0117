-- ===== src/WorkflowTokens/Requests.antt =====
-- Any interleaving of requests that act on the tokens of `app/workflow_tokens/service.py`, each in
-- its own transaction. A request that raises is rolled back.
use zero_auth_lite.Prelude.{
  ℕ, sym, subst, true, Option, none, some, List, Text, ◌==◌, Option-cases, inl, inr,
}
use zero_auth_lite.Table.{find_where}
use zero_auth_lite.Database.{Outcome, ok, err}
use zero_auth_lite.Oauth2.Tables.{UserEmail}
use zero_auth_lite.WorkflowTokens.Rows.{
  Purposes, UserWorkflowToken, WorkflowTokenSettings, WorkflowTokenError, TokenCrypto, used,
}
use zero_auth_lite.WorkflowTokens.Service.{
  Rows, is_email_of, is_credential, invalidate_active_credential_tokens,
  invalidate_all_active_workflow_tokens, retire_email_tokens, EventToken, IssueTimes,
  issue_token_for_event, is_valid_token, consume_token, read_valid_token, Issue,
}
use zero_auth_lite.WorkflowTokens.Slots.{IsTokenTable, used-IsTokenWrite, update_where-IsTokenTable}
use zero_auth_lite.WorkflowTokens.Effects.{invalidate-IsTokenTable}
use zero_auth_lite.WorkflowTokens.Issued.{Issues, issue_token_for_event-Issues}

pub data Request : Type 0 where
  issues : EventToken → IssueTimes → Request
  consumes reads : Text → Purposes → ℕ → Request
  invalidates_credentials invalidates_all : List UserEmail → ℕ → ℕ → Request
  retires : ℕ → ℕ → Request

pub data Answer : Type 0 where
  issued : Option Text → Answer
  found : UserWorkflowToken → Answer
  done : Answer
  refused : WorkflowTokenError → Answer

abbrev pub answer_issue : Issue → Rows → Answer × Rows
answer_issue (ok (token, rows')) rows = (issued token, rows')
answer_issue (err e) rows = (refused e, rows)

abbrev pub answer_consume :
    Outcome WorkflowTokenError (UserWorkflowToken × Rows) → Rows → Answer × Rows
answer_consume (ok (t, rows')) rows = (found t, rows')
answer_consume (err e) rows = (refused e, rows)

abbrev pub answer_read : Outcome WorkflowTokenError UserWorkflowToken → Answer
answer_read (ok t) = found t
answer_read (err e) = refused e

pub consume_token-IsTokenTable :
    (h : Text) (purposes : Purposes) (now : ℕ) (rows : Rows)
    → IsTokenTable rows
    → IsTokenTable (answer_consume (consume_token h purposes now rows) rows).1
unfolding consume_token
consume_token-IsTokenTable h purposes now rows v =
    elim (Option-cases (find_where (is_valid_token h purposes now) rows)) [
      | inl e ↦ rw (e, consume_token) v
      | inr (t, e) ↦
          rw (e, consume_token)
            (update_where-IsTokenTable _ (used now) (used-IsTokenWrite now) rows v)
    ]

module _ (c : TokenCrypto) (settings : WorkflowTokenSettings) where
  unfoldable pub serve : Request → Rows → Answer × Rows
  serve (issues event times) rows =
      answer_issue (issue_token_for_event c settings event times rows) rows
  serve (consumes h purposes now) rows = answer_consume (consume_token h purposes now rows) rows
  serve (reads h purposes now) rows = (answer_read (read_valid_token h purposes now rows), rows)
  serve (invalidates_credentials emails user_id now) rows =
      (done, invalidate_active_credential_tokens emails user_id now rows)
  serve (invalidates_all emails user_id now) rows =
      (done, invalidate_all_active_workflow_tokens emails user_id now rows)
  serve (retires user_email_id now) rows = (done, retire_email_tokens user_email_id now rows)

  -- The rows after any requests.
  pub data Run (rows : Rows) : Rows → Type 0 where
    here : Run rows rows
    next : {rows' : Rows} (r : Request) → Run rows rows' → Run rows (serve r rows').1

  answer_issue-IsTokenTable :
      (event : EventToken) (times : IssueTimes) (rows : Rows) (o : Issue)
      → Issues c settings event times rows o
      → IsTokenTable rows
      → IsTokenTable (answer_issue o rows).1
  answer_issue-IsTokenTable event times rows (ok (none, rows')) h v = subst IsTokenTable (sym h) v
  answer_issue-IsTokenTable event times rows (ok (some token, rows')) h v = h.0
  answer_issue-IsTokenTable event times rows (err e) h v = v

  pub serve-IsTokenTable :
      (r : Request) (rows : Rows) → IsTokenTable rows → IsTokenTable (serve r rows).1
  unfolding serve
  serve-IsTokenTable (issues event times) rows v =
      answer_issue-IsTokenTable event times rows (issue_token_for_event c settings event times rows)
        (issue_token_for_event-Issues c settings event times rows v) v
  serve-IsTokenTable (consumes h purposes now) rows v =
      consume_token-IsTokenTable h purposes now rows v
  serve-IsTokenTable (reads h purposes now) rows v = v
  serve-IsTokenTable (invalidates_credentials emails user_id now) rows v =
      invalidate-IsTokenTable (is_email_of emails user_id) is_credential now rows v
  serve-IsTokenTable (invalidates_all emails user_id now) rows v =
      invalidate-IsTokenTable (is_email_of emails user_id) (λ _. true) now rows v
  serve-IsTokenTable (retires user_email_id now) rows v =
      invalidate-IsTokenTable (λ e. e == user_email_id) (λ _. true) now rows v

  -- Whatever requests are served, in any order, the table keeps its hashes and its events unique
  -- and at most one unused token for an address and a purpose.
  pub Run-IsTokenTable :
      {rows rows' : Rows} → IsTokenTable rows → Run rows rows' → IsTokenTable rows'
  Run-IsTokenTable v here = v
  Run-IsTokenTable v (next {rows' = between} r run) =
      serve-IsTokenTable r between (Run-IsTokenTable v run)
