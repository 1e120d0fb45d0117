-- ===== src/WorkflowTokens/Issued.antt =====
-- What `issue_token_for_event` of `app/workflow_tokens/service.py` leaves behind on each branch.
use zero_auth_lite.Prelude.{
  ℕ, ◌≡◌, refl, sym, ap, ◌∙◌, subst, true, false, not, ◌&&◌, ◌||◌, ◌<◌, none, some, arith, Text,
  text_eq, text_eq_sound, ◌==◌, leb, seconds, is_not_null, Bool-cases, Option-cases, ◌⊎◌, inl, inr,
  ◌+◌,
}
use zero_auth_lite.Table.{find_where, find_where-holds, find_where-narrowed}
use zero_auth_lite.Database.{ok, err}
use zero_auth_lite.Oauth2.Tables.{next_id}
use zero_auth_lite.WorkflowTokens.Rows.{
  WorkflowTokenPurpose, purpose_eq, UserWorkflowToken, WorkflowTokenSettings, TokenCrypto,
  is_unused,
}
use zero_auth_lite.WorkflowTokens.Service.{
  Rows, is_of_event, renewed, new_row, is_taken, replace_active, EventToken, IssueTimes, Issue,
  ttl_for_purpose, token_for_event, is_renewable, renew, return_existing, check_existing,
  issue_existing, event_data, is_newer, insert_new, issue_new, issue_token_for_event,
}
use zero_auth_lite.WorkflowTokens.Slots.{
  purpose_eq_sound, slot, IsTokenTable, renewed-IsTokenWrite, update_where-IsTokenTable,
}
use zero_auth_lite.WorkflowTokens.Effects.{
  slot-find_where, slot-renewed, slot-replaced, replaced-IsTokenTable, replaced, is_active_place,
  purpose_eq_refl,
}
use zero_auth_lite.WorkflowTokens.Searches.{is_of_event_id, find_where-event}

-- A row of the event, for its address and purpose, with the hash of the token, that had not
-- expired when the call looked, or whose expiry the call has set.
pub record IsIssued (c : TokenCrypto) (settings : WorkflowTokenSettings) (event : EventToken)
    (times : IssueTimes) (token : Text) (t : UserWorkflowToken) : Type 0 where
  pub hashed : t.token_hash ≡ c.sha256 token
  pub of_event : t.source_event_id ≡ some event.event_id
  pub of_email : t.user_email_id ≡ event.user_email_id
  pub of_purpose : t.purpose ≡ event.purpose
  pub expiry :
      (times.checked_at < t.expires_at)
      ⊎ (t.expires_at ≡ times.renewed_at + seconds (ttl_for_purpose settings event.purpose))
      ⊎ (t.expires_at ≡ times.created_at + seconds (ttl_for_purpose settings event.purpose))

abbrev pub Elsewhere : EventToken → Rows → Rows → Type 0
Elsewhere event before after =
    (e : ℕ) (p : WorkflowTokenPurpose)
    → (e == event.user_email_id && purpose_eq p event.purpose) ≡ false
    → slot e p after ≡ slot e p before

-- The contract of the call on each kind of answer.
abbrev pub Issues :
    TokenCrypto → WorkflowTokenSettings → EventToken → IssueTimes → Rows → Issue → Type 0
Issues c settings event times rows (err e) = Unit
Issues c settings event times rows (ok (none, rows')) = rows' ≡ rows
Issues c settings event times rows (ok (some token, rows')) =
    IsTokenTable rows'
    × ((t : UserWorkflowToken) × (slot event.user_email_id event.purpose rows' ≡ some t)
        × IsIssued c settings event times token t)
    × Elsewhere event rows rows'

module _ (c : TokenCrypto) (settings : WorkflowTokenSettings) (event : EventToken)
    (times : IssueTimes) (rows : Rows) (v : IsTokenTable rows) where
  -- The token of the event that the table holds, when it may be returned.
  record IsHeld (existing : UserWorkflowToken) : Type 0 where
    stored : find_where (is_of_event event.event_id) rows ≡ some existing
    of_email : existing.user_email_id ≡ event.user_email_id
    of_purpose : existing.purpose ≡ event.purpose
    live : is_unused existing ≡ true

  slot_held :
      (existing : UserWorkflowToken)
      → IsHeld existing
      → slot event.user_email_id event.purpose rows ≡ some existing
  slot_held existing h =
      subst (λ e. slot e event.purpose rows ≡ some existing) h.of_email
        (subst (λ p. slot existing.user_email_id p rows ≡ some existing) h.of_purpose
          (slot-find_where _ rows existing v.one_active h.stored h.live))

  event_held :
      (existing : UserWorkflowToken)
      → IsHeld existing
      → existing.source_event_id ≡ some event.event_id
  event_held existing h =
      is_of_event_id event.event_id existing (find_where-holds _ rows existing h.stored)

  renewable_held :
      (existing : UserWorkflowToken) → IsHeld existing → is_renewable event.event_id existing ≡ true
  renewable_held existing h = rw (find_where-holds _ rows existing h.stored, h.live) refl

  other_slot :
      (existing : UserWorkflowToken) (e : ℕ) (p : WorkflowTokenPurpose) (t : UserWorkflowToken)
      → IsHeld existing
      → (e == event.user_email_id && purpose_eq p event.purpose) ≡ false
      → slot e p rows ≡ some t
      → is_of_event event.event_id t ≡ true
      → ⊥
  other_slot existing e p t h other stored same =
      let found = find_where-event event.event_id _ rows t v.unique_events stored same in
      let (at, for, live) = is_active_place e p t (find_where-holds _ rows t stored) in
      let one : existing ≡ t = ground (arith, h.stored, found) in
      let email : e ≡ event.user_email_id =
        sym at ∙ sym (ap (λ y. y.user_email_id) one) ∙ h.of_email in
      let purpose : p ≡ event.purpose = sym for ∙ sym (ap (λ y. y.purpose) one) ∙ h.of_purpose in
      let hit : (e == event.user_email_id && purpose_eq p event.purpose) ≡ true =
        rw (email, purpose, purpose_eq_refl event.purpose) (ground arith) in
      absurd (cc)

  renewed-Elsewhere :
      (existing : UserWorkflowToken) (at : ℕ)
      → IsHeld existing
      → Elsewhere event rows (renew event.event_id at rows)
  unfolding renew
  renewed-Elsewhere existing at h e p other =
      slot-renewed e p (is_renewable event.event_id) at rows ∙ elim (Option-cases (slot e p rows)) [
        | inl absent ↦ rw absent refl
        | inr (t, stored) ↦ elim (Bool-cases (is_of_event event.event_id t)) [
          | inl same ↦ absurd (other_slot existing e p t h other stored same)
          | inr different ↦ rw (stored, different) refl
        ]
      ]

  renewed-Issues :
      (token : Text) (existing : UserWorkflowToken) (at : ℕ)
      → IsHeld existing
      → existing.token_hash ≡ c.sha256 token
      → at ≡ times.renewed_at + seconds (ttl_for_purpose settings event.purpose)
      → Issues c settings event times rows (ok (some token, renew event.event_id at rows))
  unfolding renew
  renewed-Issues token existing at h hashed later = (
    update_where-IsTokenTable _ (renewed at) (renewed-IsTokenWrite at) rows v,
    (
      renewed at existing,
      slot-renewed event.user_email_id event.purpose _ at rows
          ∙ rw (slot_held existing h, renewable_held existing h) refl,
      record {
        hashed = hashed;
        of_event = event_held existing h;
        of_email = h.of_email;
        of_purpose = h.of_purpose;
        expiry = inr (inl later);
      },
    ),
    renewed-Elsewhere existing at h,
  )

  return_existing-Issues :
      (token : Text) (existing : UserWorkflowToken)
      → IsHeld existing
      → existing.token_hash ≡ c.sha256 token
      → Issues c settings event times rows
          (return_existing settings event times token existing rows)
  return_existing-Issues token existing h hashed =
      elim (Bool-cases (leb existing.expires_at times.checked_at)) [
        | inl late ↦
            rw
              (
                late,
                find_where-narrowed (is_of_event event.event_id) is_unused rows existing h.stored
                    h.live,
              )
              (renewed-Issues token existing
                (times.renewed_at + seconds (ttl_for_purpose settings event.purpose)) h hashed refl)
        | inr early ↦ rw early (
          v,
          (
            existing,
            slot_held existing h,
            record {
              hashed = hashed;
              of_event = event_held existing h;
              of_email = h.of_email;
              of_purpose = h.of_purpose;
              expiry = inl (ground arith);
            },
          ),
          λ e p other. refl,
        )
      ]

  check_existing-Issues :
      (existing : UserWorkflowToken) (key_id : Text)
      → IsHeld existing
      → Issues c settings event times rows
          (check_existing c settings event times existing key_id rows)
  check_existing-Issues existing key_id h =
      elim (Option-cases
        (token_for_event c settings event.event_id event.user_email_id event.purpose key_id)) [
          | inl e ↦ rw (e, check_existing) tt
          | inr (token, e) ↦ elim (Bool-cases (text_eq (c.sha256 token) existing.token_hash)) [
            | inl same ↦
                rw (e, same, check_existing)
                  (return_existing-Issues token existing h
                    (sym (text_eq_sound (c.sha256 token) existing.token_hash same)))
            | inr other ↦ rw (e, other, check_existing) tt
          ]
        ]

  held :
      (existing : UserWorkflowToken)
      → find_where (is_of_event event.event_id) rows ≡ some existing
      → (not (existing.user_email_id == event.user_email_id)
          || not (purpose_eq existing.purpose event.purpose))
        ≡ false
      → is_not_null existing.used_at ≡ false
      → IsHeld existing
  held existing stored own live = record {
    stored = stored;
    of_email = ground arith;
    of_purpose = purpose_eq_sound existing.purpose event.purpose (ground arith);
    live = ground arith;
  }

  issue_existing-Issues :
      (existing : UserWorkflowToken)
      → find_where (is_of_event event.event_id) rows ≡ some existing
      → Issues c settings event times rows (issue_existing c settings event times existing rows)
  issue_existing-Issues existing stored =
      elim (Bool-cases (
        not (existing.user_email_id == event.user_email_id)
        || not (purpose_eq existing.purpose event.purpose))) [
          | inl foreign ↦ rw foreign tt
          | inr own ↦ elim (Bool-cases (is_not_null existing.used_at)) [
            | inl spent ↦ rw (own, spent) refl
            | inr live ↦ elim (Option-cases existing.derivation_key_id) [
              | inl e ↦ rw (own, live, e) tt
              | inr (key_id, e) ↦
                  rw (own, live, e)
                    (check_existing-Issues existing key_id (held existing stored own live))
            ]
          ]
        ]

  inserted-Issues :
      (token : Text)
      → find_where (is_taken (event_data c settings event times.created_at token)) rows ≡ none
      → Issues c settings event times rows (
          ok (
            some token,
            replaced
                (event_data c settings event times.created_at token)
                (next_id (λ (t : UserWorkflowToken). t.id) rows)
                times.replaced_at
                rows,
          ))
  inserted-Issues token free =
      let new = event_data c settings event times.created_at token in
      let id = next_id (λ (t : UserWorkflowToken). t.id) rows in
      let placed =
        λ (e : ℕ) (p : WorkflowTokenPurpose). slot-replaced e p new id times.replaced_at rows in
      (
        replaced-IsTokenTable new id times.replaced_at rows free v,
        (
          new_row new id,
          placed event.user_email_id event.purpose
              ∙ rw (purpose_eq_refl event.purpose) (ground arith),
          record {
            hashed = refl;
            of_event = refl;
            of_email = refl;
            of_purpose = refl;
            expiry = inr (inr refl);
          },
        ),
        λ e p other. placed e p ∙ rw other refl,
      )

  insert_new-Issues :
      (token : Text)
      → Issues c settings event times rows (
          insert_new
            (event_data c settings event times.created_at token)
            times.replaced_at
            token
            rows)
  unfolding replace_active
  insert_new-Issues token =
      let new = event_data c settings event times.created_at token in
      elim (Option-cases (find_where (is_taken new) rows)) [
        | inl free ↦ rw (free, insert_new, replace_active) (inserted-Issues token free)
        | inr (t, taken) ↦ rw (taken, insert_new, replace_active) tt
      ]

  issue_new-Issues :
      find_where (is_of_event event.event_id) rows ≡ none
      → Issues c settings event times rows (issue_new c settings event times rows)
  issue_new-Issues absent =
      elim (Option-cases (
        token_for_event c settings event.event_id event.user_email_id event.purpose
          settings.derivation_key_id)) [
            | inl e ↦ rw (e, issue_new) tt
            | inr (token, e) ↦ elim (Bool-cases (is_not_null (find_where (is_newer event) rows))) [
              | inl newer ↦ rw (e, newer, issue_new) refl
              | inr newest ↦ rw (e, newest, issue_new) (insert_new-Issues token)
            ]
          ]

  pub issue_token_for_event-Issues :
      Issues c settings event times rows (issue_token_for_event c settings event times rows)
  unfolding issue_token_for_event
  issue_token_for_event-Issues =
      elim (Option-cases (find_where (is_of_event event.event_id) rows)) [
        | inl absent ↦ rw (absent, issue_token_for_event) (issue_new-Issues absent)
        | inr (existing, stored) ↦
            rw (stored, issue_token_for_event) (issue_existing-Issues existing stored)
      ]
