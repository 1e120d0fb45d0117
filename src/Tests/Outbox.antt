-- ===== src/Tests/Outbox.antt =====
-- The notification outbox with two workers.
use zero_auth_lite.Prelude.{
  ℕ, ◌≡◌, refl, arith, true, false, none, some, List, [], ◌∷◌, Text, text, ◌⊎◌, text_eq,
  text_eq_iff, take, ◌≢◌,
}
use zero_auth_lite.Notifications.Outbox.{OutboxEvent, OutboxSettings, delivered, IsOutbox, event}
use zero_auth_lite.Notifications.Retry.{
  bit_length, retry_delay_seconds, capped_power, retry_delay_seconds-eq-capped_power,
}
use zero_auth_lite.Notifications.Lease.{
  claim_one, claim_each, claim_pending, candidate_ids, finalize_claim, finalized, claimed,
}
use zero_auth_lite.Notifications.Workers.{
  claims, finalizes, cleans, act, Run, here, next, Run-IsOutbox,
}
use zero_auth_lite.Notifications.Workers.Removal.{IsRemoved}
use zero_auth_lite.Notifications.Workers.Finality.{Run-final, finalize_claim_once}
use zero_auth_lite.Notifications.Workers.Exclusion.{Holds, claim_pending-exclusive}

abbrev pub settings : OutboxSettings
settings = record {
  batch_size = 10;
  lease_seconds = 60;
  retry_max_seconds = 300;
  retention_seconds = 3600;
  cleanup_batch_size = 100;
}

abbrev pub waiting : ℕ → OutboxEvent
waiting i = record {
  id = i;
  event_type = text "user.verify_email";
  correlation_id = none;
  payload = text "{}";
  available_at = 5;
  attempt_count = 0;
  claimed_at = none;
  claimed_by = none;
  last_error = none;
  processing_result = none;
  processed_at = none;
}

abbrev pub ann : Text
ann = text "ann"

abbrev bob : Text
bob = text "bob"

bob-ne-ann : bob ≢ ann
unfolding text_eq
bob-ne-ann e = true-ne-false ((text_eq_iff bob ann).1 e)
  where
    true-ne-false : ¬ (false ≡ true)
    true-ne-false e = absurd (cc)

abbrev pub two_events : List OutboxEvent
two_events = waiting 1 ∷ waiting 2 ∷ []

pub two_events-IsOutbox : IsOutbox two_events
two_events-IsOutbox = record {
  unique_ids = (refl, (refl, tt));
  valid = (
    record { claim_pair = tt; processing_pair = tt; processed_unclaimed = tt },
    (record { claim_pair = tt; processing_pair = tt; processed_unclaimed = tt }, tt),
  );
}

claims_in_order : (claim_pending settings ann 10 none two_events).1 ≡ 1 ∷ 2 ∷ []
unfolding claim_pending claim_each claim_one candidate_ids take
claims_in_order = refl

abbrev taken : List OutboxEvent
taken = claimed ann 10 (waiting 1) ∷ waiting 2 ∷ []

taken-IsOutbox : IsOutbox taken
taken-IsOutbox = record {
  unique_ids = (refl, (refl, tt));
  valid = (
    record { claim_pair = tt; processing_pair = tt; processed_unclaimed = tt },
    (record { claim_pair = tt; processing_pair = tt; processed_unclaimed = tt }, tt),
  );
}

abbrev done : OutboxEvent
done = finalized delivered none 20 (claimed ann 10 (waiting 1))

finalized_run : (finalize_claim 1 ann delivered none 20 taken) ≡ (done ∷ waiting 2 ∷ [], true)
unfolding finalize_claim text_eq
finalized_run = refl

abbrev delivered_rows : List OutboxEvent
delivered_rows = done ∷ waiting 2 ∷ []

delivered_rows-IsOutbox : IsOutbox delivered_rows
delivered_rows-IsOutbox = record {
  unique_ids = (refl, (refl, tt));
  valid = (
    record { claim_pair = tt; processing_pair = tt; processed_unclaimed = tt },
    (record { claim_pair = tt; processing_pair = tt; processed_unclaimed = tt }, tt),
  );
}

abbrev Anyone : Text → ℕ → Type 0
Anyone w now = Unit

bob_tries : Run settings Anyone delivered_rows (
    act settings bob 90
      (finalizes 1 delivered none)
      (act settings bob 80 (claims none) delivered_rows))
bob_tries = next bob 90 (finalizes 1 delivered none) (next bob 80 (claims none) here tt) tt

Run-IsOutbox_example : IsOutbox (
    act settings bob 90
      (finalizes 1 delivered none)
      (act settings bob 80 (claims none) delivered_rows))
Run-IsOutbox_example = Run-IsOutbox delivered_rows-IsOutbox bob_tries

abbrev tried_rows : List OutboxEvent
tried_rows =
    act settings bob 90 (finalizes 1 delivered none)
      (act settings bob 80 (claims none) delivered_rows)

-- Two clean-ups, before and after the retention has run out, and another claim.
abbrev cleaned_rows : List OutboxEvent
cleaned_rows =
    act settings ann 4000000001 (claims none)
      (act settings bob 4000000000 cleans (act settings bob 100 cleans tried_rows))

Run-final_example :
    (event 1 cleaned_rows ≡ some done)
    ⊎ (IsRemoved 1 done settings Anyone delivered_rows cleaned_rows × (event 1 cleaned_rows ≡ none))
Run-final_example = Run-final 1 done refl delivered_rows-IsOutbox refl (
    next ann 4000000001 (claims none)
      (next bob 4000000000 cleans (next bob 100 cleans bob_tries tt) tt) tt)

finalize_claim_once_example :
    (finalize_claim 1 bob delivered none 95 (
      act settings bob 90
        (finalizes 1 delivered none)
        (act settings bob 80 (claims none) delivered_rows))).1
    ≡ false
unfolding finalize_claim text_eq
finalize_claim_once_example =
    finalize_claim_once 1 ann delivered none 20 taken _ taken-IsOutbox refl bob_tries bob delivered
      none 95

claim_pending-exclusive_example :
    Holds ann 10 1
      (act settings bob 1000 (claims none) (claim_pending settings ann 10 none two_events).0)
unfolding claim_pending claim_each claim_one candidate_ids take
claim_pending-exclusive_example =
    claim_pending-exclusive settings ann 10 none 1 two_events _ two_events-IsOutbox refl
      (next bob 1000 (claims none) here (bob-ne-ann, omega arith))

retry_delay_seconds-eq-capped_power_example : retry_delay_seconds 5 300 ≡ capped_power 5 300
retry_delay_seconds-eq-capped_power_example = retry_delay_seconds-eq-capped_power 5 300

retries_double_up_to_the_maximum :
    (retry_delay_seconds 3 300 ≡ 8) × (retry_delay_seconds 9 300 ≡ 300)
unfolding retry_delay_seconds bit_length
retries_double_up_to_the_maximum = (refl, refl)
