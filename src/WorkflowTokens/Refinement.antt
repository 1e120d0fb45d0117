-- ===== src/WorkflowTokens/Refinement.antt =====
-- The contract of `app/workflow_tokens/service.py`: for each address and purpose one slot, which
-- holds the active token or nothing.
use zero_auth_lite.Prelude.{
  ℕ, ◌≡◌, refl, ap, Bool, true, false, ◌&&◌, Option, none, some, List, [], ◌∷◌, arith, Text, ◌==◌,
  if◌then◌else◌, Option-cases, inl, inr,
}
use zero_auth_lite.Table.{passing, passing-find_where, dropped, find_where, find_where-holds}
use zero_auth_lite.Database.{ok, err}
use zero_auth_lite.WorkflowTokens.Rows.{
  WorkflowTokenPurpose, purpose_eq, Purposes, UserWorkflowToken, WorkflowTokenSettings, TokenCrypto,
  is_active, used,
}
use zero_auth_lite.WorkflowTokens.Service.{
  Rows, is_email_of, is_credential, EventToken, IssueTimes, issue_token_for_event, is_valid_token,
  consume_token, read_valid_token, Issue,
}
use zero_auth_lite.WorkflowTokens.Slots.{slot, IsTokenTable}
use zero_auth_lite.WorkflowTokens.Effects.{slot-find_where, slot-invalidate, slot-used}
use zero_auth_lite.WorkflowTokens.Issued.{Issues, IsIssued, issue_token_for_event-Issues}
use zero_auth_lite.WorkflowTokens.Requests.{
  Request, issues, consumes, reads, invalidates_credentials, invalidates_all, retires, Answer,
  issued, found, done, refused, answer_issue, answer_consume, answer_read, serve,
  serve-IsTokenTable,
}

abbrev pub Slots : Type 0
Slots = ℕ → WorkflowTokenPurpose → Option UserWorkflowToken

abbrev pub slots : Rows → Slots
slots rows e p = slot e p rows

-- Each slot of some addresses and purposes emptied.
abbrev pub cleared : (ℕ → Bool) → Purposes → Slots → Slots
cleared addresses purposes s e p = if addresses e && purposes p then none else s e p

-- Each slot whose token passes emptied.
abbrev pub taken : (UserWorkflowToken → Bool) → Slots → Slots
taken q s e p = dropped q (s e p)

-- The slot of an event holds its token, and the others are as they were.
abbrev pub Placed :
    TokenCrypto → WorkflowTokenSettings → EventToken → IssueTimes → Text → Slots → Slots → Type 0
Placed c settings event times token s s' =
    ((t : UserWorkflowToken) × (s' event.user_email_id event.purpose ≡ some t)
      × IsIssued c settings event times token t)
    × ((e : ℕ) (p : WorkflowTokenPurpose)
        → (e == event.user_email_id && purpose_eq p event.purpose) ≡ false
        → s' e p ≡ s e p)

-- The slot of a token that was found valid.
abbrev pub Holds : (UserWorkflowToken → Bool) → UserWorkflowToken → Slots → Type 0
Holds q t s = (s t.user_email_id t.purpose ≡ some t) × (q t ≡ true)

-- No slot holds a token that passes.
abbrev pub Lacks : (UserWorkflowToken → Bool) → Slots → Type 0
Lacks q s = (e : ℕ) (p : WorkflowTokenPurpose) → passing q (s e p) ≡ none

-- What a request and its answer promise of the slots before and after it.
abbrev pub Promises :
    TokenCrypto → WorkflowTokenSettings → Request → Answer → Slots → Slots → Type 0
Promises c settings (issues event times) (issued (some token)) s s' =
    Placed c settings event times token s s'
Promises c settings (consumes h purposes now) (found t) s s' =
    ((r : UserWorkflowToken) × Holds (is_valid_token h purposes now) r s × (t ≡ used now r))
    × (s' ≡ taken (is_valid_token h purposes now) s)
Promises c settings (consumes h purposes now) (refused e) s s' =
    Lacks (is_valid_token h purposes now) s × (s' ≡ s)
Promises c settings (reads h purposes now) (found t) s s' =
    Holds (is_valid_token h purposes now) t s × (s' ≡ s)
Promises c settings (reads h purposes now) (refused e) s s' =
    Lacks (is_valid_token h purposes now) s × (s' ≡ s)
Promises c settings (invalidates_credentials emails user_id now) done s s' =
    s' ≡ cleared (is_email_of emails user_id) is_credential s
Promises c settings (invalidates_all emails user_id now) done s s' =
    s' ≡ cleared (is_email_of emails user_id) (λ _. true) s
Promises c settings (retires user_email_id now) done s s' =
    s' ≡ cleared (λ e. e == user_email_id) (λ _. true) s
Promises c settings (issues event times) (issued none) s s' = s' ≡ s
Promises c settings (issues event times) (refused e) s s' = s' ≡ s
Promises c settings _ _ s s' = ⊥

slots-Lacks :
    (q : UserWorkflowToken → Bool) (rows : Rows) → find_where q rows ≡ none → Lacks q (slots rows)
slots-Lacks q rows absent e p = passing-find_where q (is_active e p) rows absent

slots-Holds :
    (h : Text) (purposes : Purposes) (now : ℕ) (rows : Rows) (t : UserWorkflowToken)
    → IsTokenTable rows
    → find_where (is_valid_token h purposes now) rows ≡ some t
    → Holds (is_valid_token h purposes now) t (slots rows)
slots-Holds h purposes now rows t v valid =
    let passes = find_where-holds (is_valid_token h purposes now) rows t valid in
    (slot-find_where _ rows t v.one_active valid (ground arith), passes)

module _ (c : TokenCrypto) (settings : WorkflowTokenSettings) where
  answer_issue-Promises :
      (event : EventToken) (times : IssueTimes) (rows : Rows) (o : Issue)
      → Issues c settings event times rows o
      → Promises c settings
          (issues event times)
          (answer_issue o rows).0
          (slots rows)
          (slots (answer_issue o rows).1)
  answer_issue-Promises event times rows (err e) h = refl
  answer_issue-Promises event times rows (ok (none, rows')) h = ap slots h
  answer_issue-Promises event times rows (ok (some token, rows')) h = (h.1, h.2)

  answer_consume-Promises :
      (h : Text) (purposes : Purposes) (now : ℕ) (rows : Rows)
      → IsTokenTable rows
      → Promises c settings
          (consumes h purposes now)
          (answer_consume (consume_token h purposes now rows) rows).0
          (slots rows)
          (slots (answer_consume (consume_token h purposes now rows) rows).1)
  unfolding consume_token
  answer_consume-Promises h purposes now rows v =
      elim (Option-cases (find_where (is_valid_token h purposes now) rows)) [
        | inl e ↦ rw (e, consume_token) (slots-Lacks _ rows e, refl)
        | inr (t, e) ↦
            rw (e, consume_token)
              (
                (t, slots-Holds h purposes now rows t v e, refl),
                λ i a p. slot-used a p (is_valid_token h purposes now) now rows v.one_active i,
              )
      ]

  answer_read-Promises :
      (h : Text) (purposes : Purposes) (now : ℕ) (rows : Rows)
      → IsTokenTable rows
      → Promises c settings
          (reads h purposes now)
          (answer_read (read_valid_token h purposes now rows))
          (slots rows)
          (slots rows)
  unfolding read_valid_token
  answer_read-Promises h purposes now rows v =
      elim (Option-cases (find_where (is_valid_token h purposes now) rows)) [
        | inl e ↦ rw (e, read_valid_token) (slots-Lacks _ rows e, refl)
        | inr (t, e) ↦ rw (e, read_valid_token) (slots-Holds h purposes now rows t v e, refl)
      ]

  serve-Promises :
      (r : Request) (rows : Rows)
      → IsTokenTable rows
      → Promises c settings r
          (serve c settings r rows).0
          (slots rows)
          (slots (serve c settings r rows).1)
  unfolding serve
  serve-Promises (issues event times) rows v =
      answer_issue-Promises event times rows (issue_token_for_event c settings event times rows)
        (issue_token_for_event-Issues c settings event times rows v)
  serve-Promises (consumes h purposes now) rows v = answer_consume-Promises h purposes now rows v
  serve-Promises (reads h purposes now) rows v = answer_read-Promises h purposes now rows v
  serve-Promises (invalidates_credentials emails user_id now) rows v =
      λ i e p. slot-invalidate e p (is_email_of emails user_id) is_credential now rows i
  serve-Promises (invalidates_all emails user_id now) rows v =
      λ i e p. slot-invalidate e p (is_email_of emails user_id) (λ _. true) now rows i
  serve-Promises (retires user_email_id now) rows v =
      λ i e p. slot-invalidate e p (λ e. e == user_email_id) (λ _. true) now rows i

  -- Requests in order, with their answers, and the rows after them.
  unfoldable pub run : List Request → Rows → List Answer × Rows
  run [] rows = ([], rows)
  run (r ∷ rs) rows =
      let (a, between) = serve c settings r rows in
      let (answers, rows') = run rs between in (a ∷ answers, rows')

  -- A history of the slots in which every request keeps its promise.
  pub data History : Slots → List Request → List Answer → Slots → Type 0 where
    start : {s : Slots} → History s [] [] s
    step :
        {s s' s'' : Slots} {rs : List Request} {answers : List Answer} (r : Request) (a : Answer)
        → Promises c settings r a s s'
        → History s' rs answers s''
        → History s (r ∷ rs) (a ∷ answers) s''

  -- From a table with unique hashes and events and one active token for an address and a purpose,
  -- the answers to any requests, and the active tokens before and after them, are a history in
  -- which every answer keeps the promise of its request.
  pub run-History :
      (rs : List Request) (rows : Rows)
      → IsTokenTable rows
      → History (slots rows) rs (run rs rows).0 (slots (run rs rows).1)
  unfolding run
  run-History [] rows v = start
  run-History (r ∷ rs) rows v =
      step r (serve c settings r rows).0 (serve-Promises r rows v)
        (run-History rs (serve c settings r rows).1 (serve-IsTokenTable c settings r rows v))
