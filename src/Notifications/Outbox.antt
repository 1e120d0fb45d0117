-- ===== src/Notifications/Outbox.antt =====
-- `app/db/models/notification_outbox.py`, `app/notifications/settings.py` and
-- `app/notifications/specs.py`: an event row, its check constraints and the settings.
use zero_auth_lite.Prelude.{ℕ, Option, none, some, List, Text, All}
use zero_auth_lite.Table.Keyed

pub data OutboxProcessingResult : Type 0 where
  delivered discarded_email_disabled discarded_target_unavailable failed_permanent :
      OutboxProcessingResult

pub record OutboxEvent : Type 0 where
  pub id : ℕ
  pub event_type : Text
  pub correlation_id : Option Text
  pub payload : Text
  pub available_at : ℕ
  pub attempt_count : ℕ
  pub claimed_at : Option ℕ
  pub claimed_by : Option Text
  pub last_error : Option Text
  pub processing_result : Option OutboxProcessingResult
  pub processed_at : Option ℕ

pub record OutboxSettings : Type 0 where
  pub batch_size : ℕ
  pub lease_seconds : ℕ
  pub retry_max_seconds : ℕ
  pub retention_seconds : ℕ
  pub cleanup_batch_size : ℕ

-- The constraint `claim_pair`.
abbrev ClaimPair : Option ℕ → Option Text → Type 0
ClaimPair none none = Unit
ClaimPair (some _) (some _) = Unit
ClaimPair _ _ = ⊥

-- The constraint `processing_pair`.
abbrev ProcessingPair : Option ℕ → Option OutboxProcessingResult → Type 0
ProcessingPair none none = Unit
ProcessingPair (some _) (some _) = Unit
ProcessingPair _ _ = ⊥

-- The constraint `processed_unclaimed`.
abbrev ProcessedUnclaimed : Option ℕ → Option ℕ → Option Text → Type 0
ProcessedUnclaimed none _ _ = Unit
ProcessedUnclaimed (some _) none none = Unit
ProcessedUnclaimed (some _) _ _ = ⊥

-- The check constraints of `notification_outbox`.
pub record IsValid (e : OutboxEvent) : Type 0 where
  pub claim_pair : ClaimPair e.claimed_at e.claimed_by
  pub processing_pair : ProcessingPair e.processed_at e.processing_result
  pub processed_unclaimed : ProcessedUnclaimed e.processed_at e.claimed_at e.claimed_by

abbrev pub event_id : OutboxEvent → ℕ
event_id e = e.id

-- The event with an identifier.
abbrev pub event : ℕ → List OutboxEvent → Option OutboxEvent
event = Keyed.row event_id

-- A table that meets its constraints.
pub record IsOutbox (rows : List OutboxEvent) : Type 0 where
  pub unique_ids : Keyed.UniqueKeys event_id rows
  pub valid : All IsValid rows
