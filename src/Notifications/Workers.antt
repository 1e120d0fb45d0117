-- ===== src/Notifications/Workers.antt =====
-- Any number of workers of `app/notifications` on one outbox: each statement of
-- `app/notifications/lease.py` and the clean-up of `app/notifications/dispatcher.py` is one step,
-- taken by a worker at a time, and a run is any interleaving. All workers have one configuration.
pub mod Removal
pub mod Finality
pub mod Exclusion
use zero_auth_lite.Prelude.{ℕ, Option, List, Text}
use zero_auth_lite.Notifications.Outbox.{
  OutboxEvent, OutboxSettings, OutboxProcessingResult, IsOutbox,
}
use zero_auth_lite.Notifications.Lease.{
  claim_pending, reschedule, finalize_claim, heartbeat, cleanup_processed_events, candidate_ids,
}
use zero_auth_lite.Notifications.Lease.Effects.{
  claim_each-IsOutbox, heartbeat-IsOutbox, finalize_claim-IsOutbox, reschedule-IsOutbox,
  cleanup_processed_events-IsOutbox,
}

-- What a worker may do at a time.
pub data Action : Type 0 where
  claims : Option ℕ → Action
  renews : ℕ → Action
  finalizes : ℕ → OutboxProcessingResult → Option Text → Action
  reschedules : ℕ → Text → Action
  cleans : Action

-- The rows after an action.
pub act : OutboxSettings → Text → ℕ → Action → List OutboxEvent → List OutboxEvent
act s w now (claims limit) rows = (claim_pending s w now limit rows).0
act s w now (renews i) rows = heartbeat i w now rows
act s w now (finalizes i result error) rows = (finalize_claim i w result error now rows).0
act s w now (reschedules i error) rows = reschedule s i w error now rows
act s w now cleans rows = cleanup_processed_events s now rows

-- An interleaving of actions, each by a worker at a time of which `P` holds.
pub data Run (s : OutboxSettings) (P : Text → ℕ → Type 0) (rows : List OutboxEvent)
    : List OutboxEvent → Type 0 where
  here : Run s P rows rows
  next :
      {rows' : List OutboxEvent} (w : Text) (now : ℕ) (a : Action)
      → Run s P rows rows'
      → P w now
      → Run s P rows (act s w now a rows')

pub claim_pending-IsOutbox :
    (s : OutboxSettings) (w : Text) (now : ℕ) (limit : Option ℕ) (rows : List OutboxEvent)
    → IsOutbox rows
    → IsOutbox (claim_pending s w now limit rows).0
unfolding claim_pending
claim_pending-IsOutbox s w now limit rows =
    claim_each-IsOutbox s w now (candidate_ids s now limit rows) rows

pub act-IsOutbox :
    (s : OutboxSettings) (w : Text) (now : ℕ) (a : Action) (rows : List OutboxEvent)
    → IsOutbox rows
    → IsOutbox (act s w now a rows)
unfolding act
act-IsOutbox s w now (claims limit) rows = claim_pending-IsOutbox s w now limit rows
act-IsOutbox s w now (renews i) rows = heartbeat-IsOutbox i w now rows
act-IsOutbox s w now (finalizes i result error) rows =
    finalize_claim-IsOutbox i w result error now rows
act-IsOutbox s w now (reschedules i error) rows = reschedule-IsOutbox s i w error now rows
act-IsOutbox s w now cleans rows = cleanup_processed_events-IsOutbox s now rows

-- Every interleaving of worker transactions keeps identifiers unique and the three check
-- constraints of the table on every row, so that no statement of a worker is refused by them.
pub Run-IsOutbox :
    {s : OutboxSettings} {P : Text → ℕ → Type 0} {rows rows' : List OutboxEvent}
    → IsOutbox rows
    → Run s P rows rows'
    → IsOutbox rows'
Run-IsOutbox v here = v
Run-IsOutbox {s = s} v (next {rows' = between} w now a run p) =
    act-IsOutbox s w now a between (Run-IsOutbox v run)
