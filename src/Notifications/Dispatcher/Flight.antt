-- ===== src/Notifications/Dispatcher/Flight.antt =====
-- An event that a worker has claimed, through a delivery of `app/notifications/dispatcher.py`.
use zero_auth_lite.Prelude.{
  ℕ, ◌+◌, ◌≡◌, refl, ap, subst, ◌∙◌, Bool, true, ◌&&◌, ◌⊎◌, inl, inr, Bool-cases, Option-cases,
  Option, none, some, List, [], ◌∷◌, Text, text_eq_refl, ◌==◌, is_null, is_not_null, arith,
}
use zero_auth_lite.Table.{find_where, find_where-holds}
use zero_auth_lite.Table.Keyed.{row-update_where, find_where-passing}
use zero_auth_lite.Database.{Outcome, ok, err}
use zero_auth_lite.Notifications.Outbox.{
  OutboxEvent, OutboxSettings, OutboxProcessingResult, IsOutbox, event, event_id,
}
use zero_auth_lite.Notifications.Lease.{
  is_live_claim, is_owned, is_claimable, claimed, claim_one, claim_each, claim_pending,
  finalize_claim, finalized, record_permanent_failure, reschedule, backed_off, heartbeat, renewed,
  renew_lease,
}
use zero_auth_lite.Notifications.Lease.Effects.{
  heartbeat-IsOutbox, claim_one-IsOutbox, reschedule-eq-update_where,
}
use zero_auth_lite.Notifications.Dispatcher.{
  DeliveryError, permanent_outbox_error, mail_template_error, unsupported_notification_event_error,
  other_error, Delivery, Turn, deliver, finish_delivery, process_claimed, settle,
}
use zero_auth_lite.Notifications.Dispatcher.Settling.{candidate_ids-cases}

module _ (i : ℕ) (w : Text) (n : ℕ) where
  -- The event with the identifier is claimed by the worker, after a number of failed attempts.
  pub record IsInFlight (rows : List OutboxEvent) : Type 0 where
    pub outbox : IsOutbox rows
    pub event_is :
        (e : OutboxEvent) × (event i rows ≡ some e)
        × (is_live_claim w e ≡ true)
        × (e.attempt_count ≡ n)

  -- It is processed, or free for the next attempt.
  abbrev pub IsSettled : List OutboxEvent → Type 0
  IsSettled rows =
      (e : OutboxEvent) × (event i rows ≡ some e)
      × ((is_not_null e.processed_at ≡ true)
          ⊎ ((e.attempt_count ≡ n + 1) × (is_null e.claimed_by ≡ true)))

  renew_lease-IsInFlight :
      (beats : List ℕ) (rows : List OutboxEvent)
      → IsInFlight rows
      → IsInFlight (renew_lease i w beats rows)
  unfolding renew_lease heartbeat
  renew_lease-IsInFlight [] rows h = h
  renew_lease-IsInFlight (now ∷ later) rows h =
      let (e, at, live, attempts) = h.event_is in
      let same = find_where-holds (λ x. x.id == i) rows e at in
      renew_lease-IsInFlight later (heartbeat i w now rows) (record {
        outbox = heartbeat-IsOutbox i w now rows h.outbox;
        event_is = (
          renewed now e,
          row-update_where event_id i _ (renewed now) rows (λ x. refl)
              ∙ rw at (rw (same, live) refl),
          live,
          attempts,
        );
      })

  finalize_claim-IsSettled :
      (result : OutboxProcessingResult) (error : Option Text) (now : ℕ) (rows : List OutboxEvent)
      → IsInFlight rows
      → IsSettled (finalize_claim i w result error now rows).0
  unfolding finalize_claim
  finalize_claim-IsSettled result error now rows h =
      let (e, at, live, attempts) = h.event_is in
      let same = find_where-holds (λ x. x.id == i) rows e at in
      (
        finalized result error now e,
        row-update_where event_id i _ (finalized result error now) rows (λ x. refl)
            ∙ rw at (rw (same, live) refl),
        inl refl,
      )

  reschedule-IsSettled :
      (s : OutboxSettings) (error : Text) (now : ℕ) (rows : List OutboxEvent)
      → IsInFlight rows
      → IsSettled (reschedule s i w error now rows)
  reschedule-IsSettled s error now rows h =
      let (e, at, live, attempts) = h.event_is in
      let same = find_where-holds (λ x. x.id == i) rows e at in
      let owned : is_owned w e ≡ true = ground arith in
      rw (reschedule-eq-update_where s i w error now rows h.outbox) (
        backed_off s error now e,
        row-update_where event_id i _ (backed_off s error now) rows (λ x. refl)
            ∙ rw at (rw (same, owned) refl),
        inr (ap (λ k. k + 1) attempts, refl),
      )

  abbrev pub Delivered : Outcome DeliveryError Bool × List OutboxEvent → Type 0
  Delivered (ok done, rows) = IsSettled rows
  Delivered (err e, rows) = IsInFlight rows

  finish_delivery-Delivered :
      (now : ℕ) (o : Outcome DeliveryError OutboxProcessingResult) (rows : List OutboxEvent)
      → IsInFlight rows
      → Delivered (finish_delivery i w now o rows)
  finish_delivery-Delivered now (err e) rows h = h
  finish_delivery-Delivered now (ok result) rows h = finalize_claim-IsSettled result none now rows h

  pub process_claimed-Delivered :
      (v : Delivery) (turn : Turn) (rows : List OutboxEvent)
      → IsInFlight rows
      → Delivered (process_claimed v i w turn rows)
  unfolding process_claimed
  process_claimed-Delivered v turn rows h =
      let (e, at, live, attempts) = h.event_is in
      let found : find_where (λ x. x.id == i && is_live_claim w x) rows ≡ some e =
        find_where-passing event_id i (is_live_claim w) rows h.outbox.unique_ids
        ∙ rw at (rw live refl) in
      rw (found, process_claimed)
        (finish_delivery-Delivered turn.finished_at (deliver v e) (renew_lease i w turn.beats rows)
          (renew_lease-IsInFlight turn.beats rows h))

  pub settle-IsSettled :
      (s : OutboxSettings) (turn : Turn) (r : Outcome DeliveryError Bool × List OutboxEvent)
      → Delivered r
      → IsSettled (settle s i w turn r).1
  unfolding record_permanent_failure
  settle-IsSettled s turn (ok done, rows) h = h
  settle-IsSettled s turn (err (permanent_outbox_error m), rows) h =
      finalize_claim-IsSettled _ _ turn.finished_at rows h
  settle-IsSettled s turn (err (mail_template_error m), rows) h =
      finalize_claim-IsSettled _ _ turn.finished_at rows h
  settle-IsSettled s turn (err (unsupported_notification_event_error m), rows) h =
      finalize_claim-IsSettled _ _ turn.finished_at rows h
  settle-IsSettled s turn (err (other_error m), rows) h =
      reschedule-IsSettled s m turn.finished_at rows h

claimed-live :
    (s : OutboxSettings) (w : Text) (now : ℕ) (e : OutboxEvent)
    → is_claimable s now e ≡ true
    → is_live_claim w (claimed w now e) ≡ true
claimed-live s w now e h = rw (text_eq_refl w) (ground arith)

-- A claim that wins an event has claimed it.
claim_one-IsInFlight :
    (s : OutboxSettings) (w : Text) (now i : ℕ) (rows : List OutboxEvent) (e : OutboxEvent)
    → IsOutbox rows
    → event i rows ≡ some e
    → is_claimable s now e ≡ true
    → IsInFlight i w e.attempt_count (claim_one s w now i rows).0
unfolding claim_one
claim_one-IsInFlight s w now i rows e v at free = record {
  outbox = claim_one-IsOutbox s w now i rows v;
  event_is = (
    claimed w now e,
    row-update_where event_id i _ (claimed w now) rows (λ x. refl)
        ∙ rw at (rw (find_where-holds (λ x. x.id == i) rows e at, free) refl),
    claimed-live s w now e free,
    refl,
  );
}

claimable_found :
    (s : OutboxSettings) (now i : ℕ) (rows : List OutboxEvent) (e x : OutboxEvent)
    → IsOutbox rows
    → event i rows ≡ some e
    → find_where (λ y. y.id == i && is_claimable s now y) rows ≡ some x
    → is_claimable s now e ≡ true
claimable_found s now i rows e x v at hit =
    let found = find_where-passing event_id i (is_claimable s now) rows v.unique_ids in
    elim (Bool-cases (is_claimable s now e)) [
      | inl t ↦ t
      | inr f ↦ let no = rw (found, at, f) at hit in absurd (cc)
    ]

-- A worker's claim of one event that returns an identifier has claimed that event.
claim_each-IsInFlight :
    (s : OutboxSettings) (w : Text) (now i j : ℕ) (rows rows' : List OutboxEvent) (e : OutboxEvent)
    → IsOutbox rows
    → event i rows ≡ some e
    → claim_each s w now (j ∷ []) rows ≡ (rows', i ∷ [])
    → IsInFlight i w e.attempt_count rows'
unfolding claim_each claim_one
claim_each-IsInFlight s w now i j rows rows' e v at won =
    elim (Option-cases (find_where (λ x. x.id == j && is_claimable s now x) rows)) [
      | inl lost ↦
          let no =
            ap (λ (r : List OutboxEvent × List ℕ). r.1) (rw (claim_each, claim_one, lost) at won) in
          absurd (cc)
      | inr (x, found) ↦
          let is = rw (claim_each, claim_one, found) at won in
          let same : j ≡ i =
            ap (λ (r : List OutboxEvent × List ℕ). elim r.1 [ [] ↦ i | k ∷ _ ↦ k ]) is in
          let after : (claim_one s w now i rows).0 ≡ rows' =
            subst (λ k. (claim_one s w now k rows).0 ≡ rows') same
              (ap (λ (r : List OutboxEvent × List ℕ). r.0) is) in
          let hit =
            subst (λ k. find_where (λ x. x.id == k && is_claimable s now x) rows ≡ some x) same
              found in
          subst (IsInFlight i w e.attempt_count) after
            (claim_one-IsInFlight s w now i rows e v at (claimable_found s now i rows e x v at hit))
    ]

pub claim_pending-IsInFlight :
    (s : OutboxSettings) (w : Text) (now i : ℕ) (rows rows' : List OutboxEvent) (e : OutboxEvent)
    → IsOutbox rows
    → event i rows ≡ some e
    → claim_pending s w now (some 1) rows ≡ (rows', i ∷ [])
    → IsInFlight i w e.attempt_count rows'
unfolding claim_pending claim_each
claim_pending-IsInFlight s w now i rows rows' e v at won = elim (candidate_ids-cases s now rows) [
  | inl nobody ↦
      let no = ap (λ (r : List OutboxEvent × List ℕ). r.1) (rw (claim_pending, nobody) at won) in
      absurd (cc)
  | inr (j, one) ↦
      claim_each-IsInFlight s w now i j rows rows' e v at (rw (claim_pending, one) at won)
]
