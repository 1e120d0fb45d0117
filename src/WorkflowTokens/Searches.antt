-- ===== src/WorkflowTokens/Searches.antt =====
-- What a search by hash or by event finds in the rows of `app/db/models/workflow_token.py`.
use zero_auth_lite.Prelude.{
  ◌≡◌, refl, sym, ap, ◌∙◌, subst, Bool, true, ◌&&◌, Option, none, some, [], ◌∷◌, arith, Text,
  text_eq, text_eq_sound, text_eq_refl, if◌then◌else◌, holds, Bool-cases, Option-cases, inl, inr,
}
use zero_auth_lite.Table.{passing, find_where, find_where-narrowed}
use zero_auth_lite.WorkflowTokens.Rows.{UserWorkflowToken, has_hash}
use zero_auth_lite.WorkflowTokens.Service.{Rows, is_of_event}
use zero_auth_lite.WorkflowTokens.Slots.{UniqueHashes, UniqueEvents}

find_where-hash_absent :
    (h : Text) (p : UserWorkflowToken → Bool) (rows : Rows)
    → find_where (has_hash h) rows ≡ none
    → find_where (λ r. has_hash h r && p r) rows ≡ none
find_where-hash_absent h p [] e = refl
find_where-hash_absent h p (x ∷ rows) e = ground (arith, find_where-hash_absent h p rows)

-- With unique hashes, a search for a hash under a further test finds only what the hash finds.
pub find_where-hash :
    (h : Text) (p q : UserWorkflowToken → Bool) (rows : Rows) (t : UserWorkflowToken)
    → UniqueHashes rows
    → find_where q rows ≡ some t
    → t.token_hash ≡ h
    → find_where (λ r. has_hash h r && p r) rows ≡ passing p (some t)
find_where-hash h p q [] t u e is = cc
find_where-hash h p q (x ∷ rows) t u e is = elim (Bool-cases (q x)) [
  | inl found ↦
      let same : x ≡ t = ground arith in
      let hashed : x.token_hash ≡ h = ap (λ y. y.token_hash) same ∙ is in
      let absent =
        find_where-hash_absent h p rows
          (subst (λ k. find_where (has_hash k) rows ≡ none) hashed u.0) in
      let hit : has_hash h x ≡ true =
        subst (λ k. text_eq k h ≡ true) (sym hashed) (text_eq_refl h) in
      rw (hit, absent) (ap (λ y. if p y then some y else none) same)
  | inr missed ↦
      let later = rw missed at e in
      elim (Bool-cases (has_hash h x)) [
        | inl both ↦
            let again = find_where-hash h (λ _. true) q rows t u.1 later is in
            let absent =
              find_where-hash_absent h (λ _. true) rows
                (subst (λ k. find_where (has_hash k) rows ≡ none)
                  (text_eq_sound x.token_hash h both) u.0) in
            absurd (cc)
        | inr only ↦ rw only (find_where-hash h p q rows t u.1 later is)
      ]
]

pub find_where-hash_row :
    (h : Text) (q : UserWorkflowToken → Bool) (rows : Rows) (t : UserWorkflowToken)
    → UniqueHashes rows
    → find_where q rows ≡ some t
    → t.token_hash ≡ h
    → find_where (has_hash h) rows ≡ some t
find_where-hash_row h q rows t u e is =
    let hit = find_where-hash h (λ _. true) q rows t u e is in
    elim (Option-cases (find_where (has_hash h) rows)) [
      | inl absent ↦ let none_hit = find_where-hash_absent h (λ _. true) rows absent in absurd (cc)
      | inr (r, stored) ↦
          let row_hit = find_where-narrowed (has_hash h) (λ _. true) rows r stored refl in cc
    ]

holds-text_eq :
    (event : Text) (o : Option Text) → holds (λ e. text_eq e event) o ≡ true → o ≡ some event
holds-text_eq event none h = cc
holds-text_eq event (some e) h = ap some (text_eq_sound e event h)

pub is_of_event_id :
    (event : Text) (t : UserWorkflowToken)
    → is_of_event event t ≡ true
    → t.source_event_id ≡ some event
is_of_event_id event t h = holds-text_eq event t.source_event_id h

-- With unique events, the row of an event is the one that a search by the event finds.
pub find_where-event :
    (event : Text) (q : UserWorkflowToken → Bool) (rows : Rows) (t : UserWorkflowToken)
    → UniqueEvents rows
    → find_where q rows ≡ some t
    → is_of_event event t ≡ true
    → find_where (is_of_event event) rows ≡ some t
find_where-event event q [] t u e is = cc
find_where-event event q (x ∷ rows) t u e is = elim (Bool-cases (q x)) [
  | inl found ↦
      let same : x ≡ t = ground arith in
      rw (subst (λ y. is_of_event event y ≡ true) (sym same) is) (ap some same)
  | inr missed ↦
      let later = find_where-event event q rows t u.1 (rw missed at e) is in
      elim (Bool-cases (is_of_event event x)) [
        | inl both ↦ let absent = u.0 event (is_of_event_id event x both) in absurd (cc)
        | inr only ↦ rw only later
      ]
]
