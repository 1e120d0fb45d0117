-- ===== src/Tests/Dispatcher.antt =====
-- A pass over two events, the second of which has no registered type.
use zero_auth_lite.Prelude.{
  ◌≡◌, ◌==◌, if◌then◌else◌, refl, true, false, none, some, List, [], ◌∷◌, Text, text, text_eq, take,
}
use zero_auth_lite.Database.{ok, err}
use zero_auth_lite.Notifications.Outbox.{OutboxEvent}
use zero_auth_lite.Notifications.Lease.{
  claimed, claim_one, claim_each, claim_pending, candidate_ids, finalize_claim,
  record_permanent_failure, heartbeat, renew_lease,
}
use zero_auth_lite.Notifications.Dispatcher.{
  other_error, Delivery, Turn, deliver, process_claimed, dispatch_turn, dispatch_turns,
  dispatch_pending_once,
}
use zero_auth_lite.Notifications.Dispatcher.Release.{PassEnds, dispatch_pending_once_settles}
use zero_auth_lite.Notifications.Dispatcher.Settling.{IsIdle}
use zero_auth_lite.Notifications.Dispatcher.Progress.{Progressed, dispatch_turn_progress}
use zero_auth_lite.Tests.Outbox.{settings, waiting, ann, two_events, two_events-IsOutbox}

abbrev delivery : Delivery
delivery = record {
  Message = Text;
  is_registered = text_eq (text "user.verify_email");
  is_payload = λ kind payload. true;
  mail_enabled = true;
  has_mail_service = true;
  build = λ e. ok (some (text "hello"));
  send_template = λ message. none;
}

-- A mail server that cannot be reached.
abbrev unreachable : Delivery
unreachable = record delivery { send_template = λ message. some (other_error (text "timeout")) }

abbrev turn : Turn
turn = record {
  is_stopped = false;
  claimed_at = 10;
  mail_service_error = none;
  beats = 20 ∷ [];
  finished_at = 30;
}

-- A pass that is given no mail service, and templates that cannot be loaded.
abbrev unequipped : Delivery
unequipped = record delivery { has_mail_service = false }

abbrev without_templates : Turn
without_templates = record turn { mail_service_error = some (other_error (text "templates")) }

abbrev events : List OutboxEvent
events = waiting 1 ∷ record (waiting 2) { event_type = text "x" } ∷ []

processed_both : (dispatch_pending_once settings delivery ann (λ k. turn) events).0 ≡ ok 2
unfolding dispatch_pending_once dispatch_turns dispatch_turn process_claimed deliver claim_pending
    claim_each claim_one candidate_ids take finalize_claim record_permanent_failure renew_lease
    heartbeat text_eq
processed_both = refl

idle : IsIdle ann two_events
unfolding text_eq
idle = record { outbox = two_events-IsOutbox; free = (refl, (refl, tt)) }

dispatch_pending_once_settles_example :
    PassEnds unreachable ann true turn 10
      (dispatch_pending_once settings unreachable ann (λ k. turn) two_events)
dispatch_pending_once_settles_example =
    dispatch_pending_once_settles settings unreachable ann (λ k. turn) two_events idle

abbrev claimed_events : List OutboxEvent
claimed_events = claimed ann 10 (waiting 1) ∷ waiting 2 ∷ []

claims_first : claim_pending settings ann 10 (some 1) two_events ≡ (claimed_events, 1 ∷ [])
unfolding claim_pending claim_each claim_one candidate_ids take
claims_first = refl

dispatch_turn_progress_example :
    Progressed unequipped 1 ann 0 false without_templates
      (dispatch_turn settings unequipped ann without_templates false two_events)
dispatch_turn_progress_example =
    dispatch_turn_progress settings unequipped ann without_templates false 1 two_events
      claimed_events (waiting 1) two_events-IsOutbox refl refl claims_first

-- The exception of `build_mail_service` leaves the first event claimed.
left_claimed :
    dispatch_pending_once settings unequipped ann (λ k. without_templates) two_events
    ≡ (err (other_error (text "templates")), claimed_events)
unfolding dispatch_pending_once dispatch_turns dispatch_turn claim_pending claim_each claim_one
    candidate_ids take
left_claimed = refl

-- Where the construction succeeds, the mail service is kept for the second event.
built_once :
    (dispatch_pending_once settings unequipped ann
      (λ k. if k == 0 then turn else without_templates)
      two_events).0
    ≡ ok 2
unfolding dispatch_pending_once dispatch_turns dispatch_turn process_claimed deliver claim_pending
    claim_each claim_one candidate_ids take finalize_claim record_permanent_failure renew_lease
    heartbeat text_eq
built_once = refl
