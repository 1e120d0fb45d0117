-- ===== src/WorkflowTokens/SingleUse.antt =====
-- `consume_token` of `app/workflow_tokens/service.py` after an issue, and after a consumption.
use zero_auth_lite.Prelude.{
  ℕ, ◌≡◌, refl, sym, ap, ◌∙◌, subst, Bool, true, false, ◌≤◌, none, some, arith, Text, text_eq,
  text_eq_sound, ◌==◌, leb, if◌then◌else◌, Bool-cases, Option-cases, ◌⊎◌, inl, inr,
}
use zero_auth_lite.Table.{find_where, update_where, find_where-holds}
use zero_auth_lite.Database.{ok, err}
use zero_auth_lite.WorkflowTokens.Rows.{
  purpose_eq, Purposes, UserWorkflowToken, WorkflowTokenSettings, invalid_workflow_token,
  TokenCrypto, is_unused, has_hash, used,
}
use zero_auth_lite.WorkflowTokens.Service.{
  Rows, is_email_of, is_credential, invalidate, WorkflowTokenCreate, is_taken, renew, renewed,
  is_renewable, EventToken, IssueTimes, issue_token_for_event, is_valid_token, consume_token,
  read_valid_token, Issue,
}
use zero_auth_lite.WorkflowTokens.Slots.{
  slot, IsTokenTable, IsTokenWrite, used-IsTokenWrite, renewed-IsTokenWrite, hash-update_where,
}
use zero_auth_lite.WorkflowTokens.Effects.{is_active_place, is_taken-none, replaced}
use zero_auth_lite.WorkflowTokens.Issued.{Issues, IsIssued, issue_token_for_event-Issues}
use zero_auth_lite.WorkflowTokens.Writes.{Writes, issue_token_for_event-Writes}
use zero_auth_lite.WorkflowTokens.Requests.{
  Request, issues, consumes, reads, invalidates_credentials, invalidates_all, retires, answer_issue,
  answer_consume, serve, Run, here, next, Run-IsTokenTable, consume_token-IsTokenTable,
}
use zero_auth_lite.WorkflowTokens.Searches.{find_where-hash, find_where-hash_row}

consume_token-found :
    (h : Text) (purposes : Purposes) (now : ℕ) (rows : Rows) (t : UserWorkflowToken)
    → find_where (is_valid_token h purposes now) rows ≡ some t
    → consume_token h purposes now rows
      ≡ ok (used now t, update_where (is_valid_token h purposes now) (used now) rows)
unfolding consume_token
consume_token-found h purposes now rows t e = rw (e, consume_token) refl

-- In a table with unique hashes and events and one active token for an address and a purpose, an
-- issue that returns a token leaves a row of the event for its address and purpose, unexpired when
-- the call looked or with an expiry the call has set; until that expiry a consumption of the
-- token's hash for purposes that include the event's returns the row.
pub consume_token-issue_token_for_event :
    (c : TokenCrypto) (settings : WorkflowTokenSettings) (event : EventToken) (times : IssueTimes)
    (rows rows' : Rows) (token : Text) (purposes : Purposes) (now : ℕ)
    → IsTokenTable rows
    → issue_token_for_event c settings event times rows ≡ ok (some token, rows')
    → purposes event.purpose ≡ true
    → (t : UserWorkflowToken) × IsIssued c settings event times token t
      × (((rows'' : Rows) × (consume_token (c.sha256 token) purposes now rows'
              ≡ ok (used now t, rows'')))
          ⊎ (t.expires_at ≤ now))
consume_token-issue_token_for_event c settings event times rows rows' token purposes now v is
      allowed =
    let (v', (t, stored, issued), other) =
      subst (Issues c settings event times rows) is
        (issue_token_for_event-Issues c settings event times rows v) in
    (t, issued, consumable rows' token t v' stored issued)
  where
    consumable :
        (rows' : Rows) (token : Text) (t : UserWorkflowToken)
        → IsTokenTable rows'
        → slot event.user_email_id event.purpose rows' ≡ some t
        → IsIssued c settings event times token t
        → ((rows'' : Rows) × (consume_token (c.sha256 token) purposes now rows'
              ≡ ok (used now t, rows'')))
          ⊎ (t.expires_at ≤ now)
    consumable rows' token t v' stored issued = elim (Bool-cases (leb t.expires_at now)) [
      | inl late ↦ inr (ground arith)
      | inr early ↦
          let live =
            (is_active_place event.user_email_id event.purpose t
              (find_where-holds _ rows' t stored)).2 in
          inl (
            _,
            consume_token-found (c.sha256 token) purposes now rows' t (
                find_where-hash (c.sha256 token) _ _ rows' t v'.unique_hashes stored issued.hashed
                ∙ rw (issued.of_purpose, allowed, live, early) refl),
          )
    ]

-- The row of a hash is a used one.
abbrev pub Spent : Text → Rows → Type 0
Spent h rows =
    (t : UserWorkflowToken) × (find_where (has_hash h) rows ≡ some t) × (is_unused t ≡ false)

is_unused-write :
    (f : UserWorkflowToken → UserWorkflowToken) (w : IsTokenWrite f) (b : Bool)
    (t : UserWorkflowToken)
    → is_unused t ≡ false
    → is_unused (if b then f t else t) ≡ false
is_unused-write f w true t spent = elim (Bool-cases (is_unused (f t))) [
  | inl revived ↦ let live = w.no_revival t revived in absurd (cc)
  | inr stays ↦ stays
]
is_unused-write f w false t spent = spent

update_where-Spent :
    (h : Text) (q : UserWorkflowToken → Bool) (f : UserWorkflowToken → UserWorkflowToken)
    (w : IsTokenWrite f) (rows : Rows)
    → Spent h rows
    → Spent h (update_where q f rows)
update_where-Spent h q f w rows (t, stored, spent) = (
  if q t then f t else t,
  hash-update_where q f w h rows ∙ rw stored refl,
  is_unused-write f w (q t) t spent,
)

invalidate-Spent :
    (h : Text) (addresses : ℕ → Bool) (purposes : Purposes) (now : ℕ) (rows : Rows)
    → Spent h rows
    → Spent h (invalidate addresses purposes now rows)
unfolding invalidate
invalidate-Spent h addresses purposes now rows =
    update_where-Spent h _ (used now) (used-IsTokenWrite now) rows

-- A row with the hash would have refused the insertion.
replaced-Spent :
    (h : Text) (new : WorkflowTokenCreate) (id now : ℕ) (rows : Rows)
    → find_where (is_taken new) rows ≡ none
    → Spent h rows
    → Spent h (replaced new id now rows)
replaced-Spent h new id now rows free (t, stored, spent) =
    elim (Bool-cases (text_eq new.token_hash h)) [
      | inl same ↦
          let absent =
            subst (λ k. find_where (has_hash k) rows ≡ none) (text_eq_sound new.token_hash h same)
              (is_taken-none new rows free).0 in
          absurd (cc)
      | inr different ↦ rw different (
          invalidate-Spent h (λ e. e == new.user_email_id) (λ p. purpose_eq p new.purpose) now rows
            (t, stored, spent))
    ]

module _ (c : TokenCrypto) (settings : WorkflowTokenSettings) (h : Text) where
  answer_issue-Spent :
      (event_id : Text) (rows : Rows) (o : Issue)
      → Writes event_id rows o
      → Spent h rows
      → Spent h (answer_issue o rows).1
  unfolding renew
  answer_issue-Spent event_id rows (err e) w s = s
  answer_issue-Spent event_id rows (ok (token, rows')) (inl e) s = subst (Spent h) (sym e) s
  answer_issue-Spent event_id rows (ok (token, rows')) (inr (inl (at, e))) s =
      subst (Spent h) (sym e)
        (update_where-Spent h (is_renewable event_id) (renewed at) (renewed-IsTokenWrite at) rows s)
  answer_issue-Spent event_id rows (ok (token, rows')) (inr (inr (new, id, now, free, e))) s =
      subst (Spent h) (sym e) (replaced-Spent h new id now rows free s)

  answer_consume-Spent :
      (k : Text) (purposes : Purposes) (now : ℕ) (rows : Rows)
      → Spent h rows
      → Spent h (answer_consume (consume_token k purposes now rows) rows).1
  unfolding consume_token
  answer_consume-Spent k purposes now rows s =
      elim (Option-cases (find_where (is_valid_token k purposes now) rows)) [
        | inl e ↦ rw (e, consume_token) s
        | inr (t, e) ↦
            rw (e, consume_token) (update_where-Spent h _ (used now) (used-IsTokenWrite now) rows s)
      ]

  serve-Spent : (r : Request) (rows : Rows) → Spent h rows → Spent h (serve c settings r rows).1
  unfolding serve
  serve-Spent (issues event times) rows s =
      answer_issue-Spent event.event_id rows (issue_token_for_event c settings event times rows)
        (issue_token_for_event-Writes c settings event times rows) s
  serve-Spent (consumes k purposes now) rows s = answer_consume-Spent k purposes now rows s
  serve-Spent (reads k purposes now) rows s = s
  serve-Spent (invalidates_credentials emails user_id now) rows s =
      invalidate-Spent h (is_email_of emails user_id) is_credential now rows s
  serve-Spent (invalidates_all emails user_id now) rows s =
      invalidate-Spent h (is_email_of emails user_id) (λ _. true) now rows s
  serve-Spent (retires user_email_id now) rows s =
      invalidate-Spent h (λ e. e == user_email_id) (λ _. true) now rows s

  Run-Spent : {rows rows' : Rows} → Spent h rows → Run c settings rows rows' → Spent h rows'
  Run-Spent s here = s
  Run-Spent s (next {rows' = between} r run) = serve-Spent r between (Run-Spent s run)

-- A consumption that returns has found a valid token, and has used it.
consume_token-ok :
    (h : Text) (purposes : Purposes) (now : ℕ) (rows rows' : Rows) (t : UserWorkflowToken)
    → consume_token h purposes now rows ≡ ok (t, rows')
    → (r : UserWorkflowToken) × (find_where (is_valid_token h purposes now) rows ≡ some r)
      × (update_where (is_valid_token h purposes now) (used now) rows ≡ rows')
unfolding consume_token
consume_token-ok h purposes now rows rows' t is =
    elim (Option-cases (find_where (is_valid_token h purposes now) rows)) [
      | inl e ↦ let no = rw (e, consume_token) at is in absurd (cc)
      | inr (r, e) ↦ (r, e, ap (λ o. (answer_consume o rows).1) (rw (e, consume_token) at is))
    ]

-- A consumption leaves the row of the hash used.
consume_token-Spent :
    (h : Text) (purposes : Purposes) (now : ℕ) (rows rows' : Rows) (t : UserWorkflowToken)
    → IsTokenTable rows
    → consume_token h purposes now rows ≡ ok (t, rows')
    → Spent h rows'
consume_token-Spent h purposes now rows rows' t v is =
    let (r, valid, write) = consume_token-ok h purposes now rows rows' t is in
    let passes = find_where-holds (is_valid_token h purposes now) rows r valid in
    let stored =
      find_where-hash_row h (is_valid_token h purposes now) rows r v.unique_hashes valid
        (text_eq_sound r.token_hash h (ground arith)) in
    (
      used now r,
      subst (λ rs. find_where (has_hash h) rs ≡ some (used now r)) write
          (hash-update_where _ (used now) (used-IsTokenWrite now) h rows
            ∙ rw (stored, passes) refl),
      refl,
    )

-- No search for a valid token finds a used one.
is_valid_token-Spent :
    (h : Text) (purposes : Purposes) (now : ℕ) (rows : Rows)
    → IsTokenTable rows
    → Spent h rows
    → find_where (is_valid_token h purposes now) rows ≡ none
is_valid_token-Spent h purposes now rows v (t, stored, spent) =
    find_where-hash h _ (has_hash h) rows t v.unique_hashes stored
      (text_eq_sound t.token_hash h (find_where-holds _ rows t stored))
    ∙ rw spent (ground arith)

consumed-IsTokenTable :
    (h : Text) (purposes : Purposes) (now : ℕ) (rows rows' : Rows) (t : UserWorkflowToken)
    → IsTokenTable rows
    → consume_token h purposes now rows ≡ ok (t, rows')
    → IsTokenTable rows'
consumed-IsTokenTable h purposes now rows rows' t v is =
    subst (λ o. IsTokenTable (answer_consume o rows).1) is
      (consume_token-IsTokenTable h purposes now rows v)

-- In a table with unique hashes and events and one active token for an address and a purpose, after
-- a consumption that returns a token, whatever issues, consumptions, reads and invalidations
-- follow, a consumption or a read of the same hash, for any purposes at any time, answers that the
-- token is invalid.
pub consume_token_once :
    (c : TokenCrypto) (settings : WorkflowTokenSettings) (h : Text) (purposes later : Purposes)
    (now then_at : ℕ) (rows after last : Rows) (t : UserWorkflowToken)
    → IsTokenTable rows
    → consume_token h purposes now rows ≡ ok (t, after)
    → Run c settings after last
    → (consume_token h later then_at last ≡ err invalid_workflow_token)
      × (read_valid_token h later then_at last ≡ err invalid_workflow_token)
unfolding consume_token read_valid_token
consume_token_once c settings h purposes later now then_at rows after last t v won run =
    let missed =
      is_valid_token-Spent h later then_at last
        (Run-IsTokenTable c settings (consumed-IsTokenTable h purposes now rows after t v won) run)
        (Run-Spent c settings h (consume_token-Spent h purposes now rows after t v won) run) in
    (rw (missed, consume_token) refl, rw (missed, read_valid_token) refl)
