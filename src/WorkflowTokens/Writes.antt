-- ===== src/WorkflowTokens/Writes.antt =====
-- The rows that `issue_token_for_event` of `app/workflow_tokens/service.py` leaves: those before it,
-- those renewed, or those with a new row.
use zero_auth_lite.Prelude.{
  ℕ, ◌≡◌, refl, not, ◌||◌, none, Text, text_eq, ◌==◌, leb, Bool-cases, Option-cases, ◌⊎◌, inl, inr,
  is_not_null,
}
use zero_auth_lite.Table.{find_where}
use zero_auth_lite.Database.{ok, err}
use zero_auth_lite.WorkflowTokens.Rows.{
  purpose_eq, UserWorkflowToken, WorkflowTokenSettings, TokenCrypto,
}
use zero_auth_lite.WorkflowTokens.Service.{
  Rows, is_of_event, WorkflowTokenCreate, is_taken, replace_active, EventToken, IssueTimes, Issue,
  token_for_event, renew, return_existing, check_existing, issue_existing, is_newer, insert_new,
  issue_new, issue_token_for_event,
}
use zero_auth_lite.WorkflowTokens.Effects.{replaced}

abbrev pub Writes : Text → Rows → Issue → Type 0
Writes event_id rows (err e) = Unit
Writes event_id rows (ok (token, rows')) =
    (rows' ≡ rows)
    ⊎ ((at : ℕ) × (rows' ≡ renew event_id at rows))
    ⊎ ((new : WorkflowTokenCreate) × (id : ℕ) × (now : ℕ) × (find_where (is_taken new) rows ≡ none)
        × (rows' ≡ replaced new id now rows))

module _ (c : TokenCrypto) (settings : WorkflowTokenSettings) (event : EventToken)
    (times : IssueTimes) (rows : Rows) where
  return_existing-Writes :
      (token : Text) (existing : UserWorkflowToken)
      → Writes event.event_id rows (return_existing settings event times token existing rows)
  return_existing-Writes token existing =
      elim (Bool-cases (leb existing.expires_at times.checked_at)) [
        | inl late ↦ rw (late, return_existing) (inr (inl (_, refl)))
        | inr early ↦ rw (early, return_existing) (inl refl)
      ]

  check_existing-Writes :
      (existing : UserWorkflowToken) (key_id : Text)
      → Writes event.event_id rows (check_existing c settings event times existing key_id rows)
  check_existing-Writes existing key_id =
      elim (Option-cases
        (token_for_event c settings event.event_id event.user_email_id event.purpose key_id)) [
          | inl e ↦ rw (e, check_existing) tt
          | inr (token, e) ↦ elim (Bool-cases (text_eq (c.sha256 token) existing.token_hash)) [
            | inl same ↦ rw (e, same, check_existing) (return_existing-Writes token existing)
            | inr other ↦ rw (e, other, check_existing) tt
          ]
        ]

  issue_existing-Writes :
      (existing : UserWorkflowToken)
      → Writes event.event_id rows (issue_existing c settings event times existing rows)
  issue_existing-Writes existing =
      elim (Bool-cases (
        not (existing.user_email_id == event.user_email_id)
        || not (purpose_eq existing.purpose event.purpose))) [
          | inl foreign ↦ rw (foreign, issue_existing) tt
          | inr own ↦ elim (Bool-cases (is_not_null existing.used_at)) [
            | inl spent ↦ rw (own, spent, issue_existing) (inl refl)
            | inr live ↦ elim (Option-cases existing.derivation_key_id) [
              | inl e ↦ rw (own, live, e, issue_existing) tt
              | inr (key_id, e) ↦
                  rw (own, live, e, issue_existing) (check_existing-Writes existing key_id)
            ]
          ]
        ]

  insert_new-Writes :
      (new : WorkflowTokenCreate) (token : Text)
      → Writes event.event_id rows (insert_new new times.replaced_at token rows)
  unfolding replace_active
  insert_new-Writes new token = elim (Option-cases (find_where (is_taken new) rows)) [
    | inl free ↦
        rw (free, insert_new, replace_active) (inr (inr (new, _, times.replaced_at, free, refl)))
    | inr (t, taken) ↦ rw (taken, insert_new, replace_active) tt
  ]

  issue_new-Writes : Writes event.event_id rows (issue_new c settings event times rows)
  issue_new-Writes =
      elim (Option-cases (
        token_for_event c settings event.event_id event.user_email_id event.purpose
          settings.derivation_key_id)) [
            | inl e ↦ rw (e, issue_new) tt
            | inr (token, e) ↦ elim (Bool-cases (is_not_null (find_where (is_newer event) rows))) [
              | inl newer ↦ rw (e, newer, issue_new) (inl refl)
              | inr newest ↦ rw (e, newest, issue_new) (insert_new-Writes _ token)
            ]
          ]

  pub issue_token_for_event-Writes :
      Writes event.event_id rows (issue_token_for_event c settings event times rows)
  unfolding issue_token_for_event
  issue_token_for_event-Writes =
      elim (Option-cases (find_where (is_of_event event.event_id) rows)) [
        | inl absent ↦ rw (absent, issue_token_for_event) issue_new-Writes
        | inr (existing, stored) ↦
            rw (stored, issue_token_for_event) (issue_existing-Writes existing)
      ]
