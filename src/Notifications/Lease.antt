-- ===== src/Notifications/Lease.antt =====
-- `app/notifications/lease.py`, and `cleanup_processed_events` of `app/notifications/dispatcher.py`:
-- each function is the transaction of its name, from the rows to the rows. Times are microseconds;
-- `claimed_at <= now - lease` is written `claimed_at + lease <= now`.
pub mod Effects
use zero_auth_lite.Prelude.{
  ℕ, ◌+◌, Bool, true, false, ◌&&◌, ◌||◌, Option, none, some, List, [], ◌∷◌, map, Text, text_eq, leb,
  ◌==◌, if◌then◌else◌, seconds, is_null, is_not_null, holds, take,
}
use zero_auth_lite.Table.{select_where, find_where, update_where, delete_where, order_by}
use zero_auth_lite.Notifications.Outbox.{
  OutboxEvent, OutboxSettings, OutboxProcessingResult, failed_permanent, event_id,
}
use zero_auth_lite.Notifications.Retry.{retry_delay_seconds}

abbrev pub last_error_length : ℕ
last_error_length = 2000

-- The claim is absent or its lease has run out.
abbrev pub is_lapsed : OutboxSettings → ℕ → OutboxEvent → Bool
is_lapsed settings now e =
    is_null e.claimed_at || holds (λ c. leb (c + seconds settings.lease_seconds) now) e.claimed_at

-- The test of the select in `_claim_pending`.
abbrev pub is_deliverable : OutboxSettings → ℕ → OutboxEvent → Bool
is_deliverable settings now e =
    is_null e.processed_at && (leb e.available_at now && is_lapsed settings now e)

-- The test of its update, without the identifier.
abbrev pub is_claimable : OutboxSettings → ℕ → OutboxEvent → Bool
is_claimable settings now e = is_null e.processed_at && is_lapsed settings now e

abbrev pub is_owned : Text → OutboxEvent → Bool
is_owned worker_id e = holds (λ w. text_eq w worker_id) e.claimed_by

-- The test of `_renew_lease`, `_finalize_claim` and `_claimed_correlation_id`.
abbrev pub is_live_claim : Text → OutboxEvent → Bool
is_live_claim worker_id e = is_owned worker_id e && is_null e.processed_at

abbrev pub claimed : Text → ℕ → OutboxEvent → OutboxEvent
claimed worker_id now e = record e { claimed_at = some now; claimed_by = some worker_id }

-- One compare-and-set of the loop: the rows, and whether an identifier came back.
unfoldable pub claim_one :
    OutboxSettings → Text → ℕ → ℕ → List OutboxEvent → List OutboxEvent × Bool
claim_one settings worker_id now i rows = (
  update_where (λ e. e.id == i && is_claimable settings now e) (claimed worker_id now) rows,
  is_not_null (find_where (λ e. e.id == i && is_claimable settings now e) rows),
)

unfoldable pub claim_each :
    OutboxSettings → Text → ℕ → List ℕ → List OutboxEvent → List OutboxEvent × List ℕ
claim_each settings worker_id now [] rows = (rows, [])
claim_each settings worker_id now (i ∷ candidates) rows =
    let (rows', won) = claim_one settings worker_id now i rows in
    let (rows'', ids) = claim_each settings worker_id now candidates rows' in
    (rows'', if won then i ∷ ids else ids)

-- `limit or settings.batch_size`: a limit of 0 counts as none.
abbrev limit_or_batch : OutboxSettings → Option ℕ → ℕ
limit_or_batch settings none = settings.batch_size
limit_or_batch settings (some n) = if n == 0 then settings.batch_size else n

unfoldable pub candidate_ids : OutboxSettings → ℕ → Option ℕ → List OutboxEvent → List ℕ
candidate_ids settings now limit rows = map event_id (
    take (limit_or_batch settings limit)
      (order_by event_id (select_where (is_deliverable settings now) rows)))

unfoldable pub claim_pending :
    OutboxSettings → Text → ℕ → Option ℕ → List OutboxEvent → List OutboxEvent × List ℕ
claim_pending settings worker_id now limit rows =
    claim_each settings worker_id now (candidate_ids settings now limit rows) rows

abbrev correlation_of : Option OutboxEvent → Option Text
correlation_of none = none
correlation_of (some e) = e.correlation_id

pub claimed_correlation_id : ℕ → Text → List OutboxEvent → Option Text
claimed_correlation_id i worker_id rows =
    correlation_of (find_where (λ e. e.id == i && is_live_claim worker_id e) rows)

-- The assignments of `_reschedule` to the loaded row.
abbrev pub backed_off : OutboxSettings → Text → ℕ → OutboxEvent → OutboxEvent
backed_off settings error now e =
    let attempt_count = e.attempt_count + 1 in
    record e {
      attempt_count = attempt_count;
      available_at = now + seconds (retry_delay_seconds attempt_count settings.retry_max_seconds);
      claimed_at = none;
      claimed_by = none;
      last_error = some (take last_error_length error);
    }

unfoldable pub reschedule :
    OutboxSettings → ℕ → Text → Text → ℕ → List OutboxEvent → List OutboxEvent
reschedule settings i worker_id error now rows =
    elim (find_where (λ e. e.id == i && is_owned worker_id e) rows) [
      | none ↦ rows
      | some loaded ↦ update_where (λ e. e.id == loaded.id) (backed_off settings error now) rows
    ]

abbrev pub finalized : OutboxProcessingResult → Option Text → ℕ → OutboxEvent → OutboxEvent
finalized result last_error now e = record e {
  claimed_at = none;
  claimed_by = none;
  last_error = last_error;
  processing_result = some result;
  processed_at = some now;
}

-- The rows, and whether an identifier came back.
unfoldable pub finalize_claim :
    ℕ → Text → OutboxProcessingResult → Option Text → ℕ → List OutboxEvent → List OutboxEvent × Bool
finalize_claim i worker_id result last_error now rows = (
  update_where (λ e. e.id == i && is_live_claim worker_id e) (finalized result last_error now) rows,
  is_not_null (find_where (λ e. e.id == i && is_live_claim worker_id e) rows),
)

unfoldable pub record_permanent_failure :
    ℕ → Text → Text → ℕ → List OutboxEvent → List OutboxEvent × Bool
record_permanent_failure i worker_id error now =
    finalize_claim i worker_id failed_permanent (some (take last_error_length error)) now

abbrev pub renewed : ℕ → OutboxEvent → OutboxEvent
renewed now e = record e { claimed_at = some now }

-- One heartbeat of `_renew_lease`.
unfoldable pub heartbeat : ℕ → Text → ℕ → List OutboxEvent → List OutboxEvent
heartbeat i worker_id now = update_where (λ e. e.id == i && is_live_claim worker_id e) (renewed now)

-- The loop of `_renew_lease`: a heartbeat at each time the wait runs out, until the stop.
unfoldable pub renew_lease : ℕ → Text → List ℕ → List OutboxEvent → List OutboxEvent
renew_lease i worker_id [] rows = rows
renew_lease i worker_id (now ∷ later) rows =
    renew_lease i worker_id later (heartbeat i worker_id now rows)

-- `processed_at <= cutoff`, with the cutoff `now - retention`.
abbrev pub is_expired : OutboxSettings → ℕ → OutboxEvent → Bool
is_expired settings now e =
    holds (λ p. leb (p + seconds settings.retention_seconds) now) e.processed_at

abbrev pub is_among : List ℕ → ℕ → Bool
is_among [] i = false
is_among (j ∷ js) i = (i == j) || is_among js i

unfoldable pub expired_ids : OutboxSettings → ℕ → List OutboxEvent → List ℕ
expired_ids settings now rows = map event_id (
    take settings.cleanup_batch_size
      (order_by event_id (select_where (is_expired settings now) rows)))

-- The rows that stay; the source also returns how many went.
unfoldable pub cleanup_processed_events : OutboxSettings → ℕ → List OutboxEvent → List OutboxEvent
cleanup_processed_events settings now rows =
    delete_where (λ e. is_among (expired_ids settings now rows) e.id) rows
