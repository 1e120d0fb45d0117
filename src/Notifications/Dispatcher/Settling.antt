-- ===== src/Notifications/Dispatcher/Settling.antt =====
-- What a turn of `dispatch_pending_once` of `app/notifications/dispatcher.py` claims, and that settling
-- a delivery gives the claim up.
use zero_auth_lite.Prelude.{
  ℕ, ◌≡◌, refl, Bool, ◌&&◌, ◌⊎◌, inl, inr, Option-cases, Option, none, some, List, [], ◌∷◌, map,
  Text, ◌==◌, take,
}
use zero_auth_lite.Table.{find_where, update_where_unfound, order_by, select_where}
use zero_auth_lite.Database.{Outcome, ok, err}
use zero_auth_lite.Notifications.Outbox.{
  OutboxEvent, OutboxSettings, OutboxProcessingResult, IsOutbox, event_id,
}
use zero_auth_lite.Notifications.Lease.{
  is_live_claim, is_claimable, is_deliverable, claimed, claim_one, claim_each, candidate_ids,
  claim_pending, finalize_claim, record_permanent_failure, heartbeat, renew_lease,
}
use zero_auth_lite.Notifications.Lease.Effects.{
  claim_each-IsOutbox, heartbeat-IsOutbox, finalize_claim-IsOutbox, reschedule-IsOutbox,
}
use zero_auth_lite.Notifications.Dispatcher.{
  DeliveryError, permanent_outbox_error, mail_template_error, unsupported_notification_event_error,
  other_error, Delivery, Turn, deliver, finish_delivery, process_claimed, settle,
}
use zero_auth_lite.Notifications.Dispatcher.Claims.{
  NoClaims, OnlyClaim, finalize_claim-NoClaims, reschedule-NoClaims, absent-NoClaims,
  heartbeat-OnlyClaim, claim_one-OnlyClaim,
}

-- The worker's claims before an event is settled, and after.
pub record IsHolding (i : ℕ) (w : Text) (rows : List OutboxEvent) : Type 0 where
  pub outbox : IsOutbox rows
  pub only : OnlyClaim i w rows

pub record IsIdle (w : Text) (rows : List OutboxEvent) : Type 0 where
  pub outbox : IsOutbox rows
  pub free : NoClaims w rows

renew_lease-IsHolding :
    (i : ℕ) (w : Text) (beats : List ℕ) (rows : List OutboxEvent)
    → IsHolding i w rows
    → IsHolding i w (renew_lease i w beats rows)
unfolding renew_lease
renew_lease-IsHolding i w [] rows h = h
renew_lease-IsHolding i w (now ∷ later) rows h =
    renew_lease-IsHolding i w later (heartbeat i w now rows) (record {
      outbox = heartbeat-IsOutbox i w now rows h.outbox;
      only = heartbeat-OnlyClaim i w now rows h.only;
    })

finalize_claim-IsIdle :
    (i : ℕ) (w : Text) (result : OutboxProcessingResult) (error : Option Text) (now : ℕ)
    (rows : List OutboxEvent)
    → IsHolding i w rows
    → IsIdle w (finalize_claim i w result error now rows).0
finalize_claim-IsIdle i w result error now rows h = record {
  outbox = finalize_claim-IsOutbox i w result error now rows h.outbox;
  free = finalize_claim-NoClaims i w result error now rows h.only;
}

-- After a delivery the claim is given up, or an exception is left to settle.
abbrev pub IsDelivered : ℕ → Text → Outcome DeliveryError Bool × List OutboxEvent → Type 0
IsDelivered i w (ok done, rows) = IsIdle w rows
IsDelivered i w (err e, rows) = IsHolding i w rows

finish_delivery-IsDelivered :
    (i : ℕ) (w : Text) (now : ℕ) (o : Outcome DeliveryError OutboxProcessingResult)
    (rows : List OutboxEvent)
    → IsHolding i w rows
    → IsDelivered i w (finish_delivery i w now o rows)
finish_delivery-IsDelivered i w now (err e) rows h = h
finish_delivery-IsDelivered i w now (ok result) rows h =
    finalize_claim-IsIdle i w result none now rows h

pub process_claimed-IsDelivered :
    (v : Delivery) (i : ℕ) (w : Text) (turn : Turn) (rows : List OutboxEvent)
    → IsHolding i w rows
    → IsDelivered i w (process_claimed v i w turn rows)
unfolding process_claimed
process_claimed-IsDelivered v i w turn rows h =
    elim (Option-cases (find_where (λ e. e.id == i && is_live_claim w e) rows)) [
      | inl gone ↦
          rw (gone, process_claimed)
            (record { outbox = h.outbox; free = absent-NoClaims i w rows gone h.only })
      | inr (row, found) ↦
          rw (found, process_claimed)
            (finish_delivery-IsDelivered i w turn.finished_at (deliver v row)
              (renew_lease i w turn.beats rows) (renew_lease-IsHolding i w turn.beats rows h))
    ]

pub settle-IsIdle :
    (s : OutboxSettings) (i : ℕ) (w : Text) (turn : Turn)
    (r : Outcome DeliveryError Bool × List OutboxEvent)
    → IsDelivered i w r
    → IsIdle w (settle s i w turn r).1
unfolding record_permanent_failure
settle-IsIdle s i w turn (ok done, rows) h = h
settle-IsIdle s i w turn (err (permanent_outbox_error m), rows) h =
    finalize_claim-IsIdle i w _ _ turn.finished_at rows h
settle-IsIdle s i w turn (err (mail_template_error m), rows) h =
    finalize_claim-IsIdle i w _ _ turn.finished_at rows h
settle-IsIdle s i w turn (err (unsupported_notification_event_error m), rows) h =
    finalize_claim-IsIdle i w _ _ turn.finished_at rows h
settle-IsIdle s i w turn (err (other_error m), rows) h = record {
  outbox = reschedule-IsOutbox s i w m turn.finished_at rows h.outbox;
  free = reschedule-NoClaims i w s m turn.finished_at rows h.outbox h.only;
}

-- With a limit of one there is at most one candidate.
pub candidate_ids-cases :
    (s : OutboxSettings) (now : ℕ) (rows : List OutboxEvent)
    → (candidate_ids s now (some 1) rows ≡ [])
      ⊎ ((i : ℕ) × (candidate_ids s now (some 1) rows ≡ i ∷ []))
unfolding candidate_ids take
candidate_ids-cases s now rows =
    first (order_by event_id (select_where (is_deliverable s now) rows))
  where
    first :
        (es : List OutboxEvent)
        → (map event_id (take 1 es) ≡ []) ⊎ ((i : ℕ) × (map event_id (take 1 es) ≡ i ∷ []))
    first [] = inl refl
    first (e ∷ es) = inr (e.id, refl)

-- A claim of at most one event wins none and changes nothing, or wins one.
abbrev pub IsClaimed : Text → List OutboxEvent → List OutboxEvent × List ℕ → Type 0
IsClaimed w rows (rows', []) = rows' ≡ rows
IsClaimed w rows (rows', i ∷ ids) = IsHolding i w rows'

claim_each-IsClaimed :
    (s : OutboxSettings) (w : Text) (now i : ℕ) (rows : List OutboxEvent)
    → IsIdle w rows
    → IsClaimed w rows (claim_each s w now (i ∷ []) rows)
unfolding claim_each claim_one
claim_each-IsClaimed s w now i rows h =
    elim (Option-cases (find_where (λ e. e.id == i && is_claimable s now e) rows)) [
      | inl lost ↦
          rw (lost, claim_each, claim_one) (update_where_unfound _ (claimed w now) rows lost)
      | inr (e, won) ↦
          rw (won, claim_each, claim_one)
            (record {
              outbox = claim_each-IsOutbox s w now (i ∷ []) rows h.outbox;
              only = claim_one-OnlyClaim i w s now rows h.free;
            })
    ]

pub claim_pending-IsClaimed :
    (s : OutboxSettings) (w : Text) (now : ℕ) (rows : List OutboxEvent)
    → IsIdle w rows
    → IsClaimed w rows (claim_pending s w now (some 1) rows)
unfolding claim_pending claim_each
claim_pending-IsClaimed s w now rows h = elim (candidate_ids-cases s now rows) [
  | inl e ↦ rw (claim_pending, e) refl
  | inr (i, e) ↦ rw (claim_pending, e) (claim_each-IsClaimed s w now i rows h)
]
