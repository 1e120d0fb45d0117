-- ===== src/Oauth2/Devices/Polling/Pace.antt =====
-- The pace of polling: an accepted poll keeps its distance to the last, and haste costs five seconds.
use zero_auth_lite.Prelude.{
  ℕ, ◌+◌, ◌*◌, ◌≤◌, ◌≡◌, ◌∙◌, sym, ap, refl, Bool, true, false, some, List, [], ◌∷◌, arith, Text,
  seconds, inl, inr, Bool-cases, Option-cases,
}
use zero_auth_lite.Table.{find_where, update_where}
use zero_auth_lite.Table.Keyed.{update_where-UniqueKeys}
use zero_auth_lite.Oauth2.Tables.{Tables, DeviceAuthorization}
use zero_auth_lite.Oauth2.Devices.Polling.{
  DevicePollStatus, approved, pending, slow_down, denied, expired, invalid, has_device_code,
  device_row, is_too_soon, poll_status, poll_write, evaluate_device_poll, slowed, polled,
}
use zero_auth_lite.Oauth2.Devices.Polling.Approval.{
  UniqueIds, device_id, evaluate_device_poll_found, evaluate_device_poll_status,
}

-- An update under a code changes the row of the code.
pub device_row-update_where :
    (h : Text) (f : DeviceAuthorization → DeviceAuthorization) (rows : List DeviceAuthorization)
    (a : DeviceAuthorization)
    → ((x : DeviceAuthorization) → (f x).device_code_hash ≡ x.device_code_hash)
    → find_where (has_device_code h) rows ≡ some a
    → find_where (has_device_code h) (update_where (has_device_code h) f rows) ≡ some (f a)
device_row-update_where h f [] a same e = absurd (cc)
device_row-update_where h f (x ∷ rows) a same e =
    ground (arith, same x, device_row-update_where h f rows a same)

poll_write-UniqueIds :
    (s : DevicePollStatus) (h : Text) (now : ℕ) (d : Tables)
    → UniqueIds d
    → UniqueIds (record d { device_authorizations = poll_write s h now d.device_authorizations })
poll_write-UniqueIds approved h now d u = u
poll_write-UniqueIds pending h now d u =
    update_where-UniqueKeys device_id (has_device_code h) (polled now) d.device_authorizations
      (λ x. refl) u
poll_write-UniqueIds slow_down h now d u =
    update_where-UniqueKeys device_id (has_device_code h) (slowed now) d.device_authorizations
      (λ x. refl) u
poll_write-UniqueIds denied h now d u = u
poll_write-UniqueIds expired h now d u = u
poll_write-UniqueIds invalid h now d u = u

-- A status that lets a client through the rate limit.
abbrev pub is_on_pace : DevicePollStatus → Bool
is_on_pace approved = true
is_on_pace pending = true
is_on_pace _ = false

on_pace-not-too_soon :
    (client_id : Text) (now : ℕ) (a : DeviceAuthorization)
    → is_on_pace (poll_status client_id now a) ≡ true
    → is_too_soon now a ≡ false
on_pace-not-too_soon client_id now a e = elim (Bool-cases (is_too_soon now a)) [
  | inl soon ↦ absurd (ground (arith))
  | inr calm ↦ calm
]

-- The row after a poll that was refused for its haste, and after one that found no decision.
after_slow_down :
    (h client_id : Text) (now : ℕ) (d : Tables) (a : DeviceAuthorization)
    → UniqueIds d
    → device_row h d ≡ some a
    → (evaluate_device_poll h client_id now d).0.status ≡ slow_down
    → device_row h (evaluate_device_poll h client_id now d).1 ≡ some (slowed now a)
after_slow_down h client_id now d a u found s =
    let status = sym (evaluate_device_poll_status h client_id now d a u found) ∙ s in
    rw (evaluate_device_poll_found h client_id now d a u found, status)
      (device_row-update_where h (slowed now) d.device_authorizations a (λ x. refl) found)

after_pending :
    (h client_id : Text) (now : ℕ) (d : Tables) (a : DeviceAuthorization)
    → UniqueIds d
    → device_row h d ≡ some a
    → (evaluate_device_poll h client_id now d).0.status ≡ pending
    → device_row h (evaluate_device_poll h client_id now d).1 ≡ some (polled now a)
after_pending h client_id now d a u found s =
    let status = sym (evaluate_device_poll_status h client_id now d a u found) ∙ s in
    rw (evaluate_device_poll_found h client_id now d a u found, status)
      (device_row-update_where h (polled now) d.device_authorizations a (λ x. refl) found)

pub evaluate_device_poll-UniqueIds :
    (h client_id : Text) (now : ℕ) (d : Tables)
    → UniqueIds d
    → UniqueIds (evaluate_device_poll h client_id now d).1
unfolding evaluate_device_poll
evaluate_device_poll-UniqueIds h client_id now d u = elim (Option-cases (device_row h d)) [
  | inl absent ↦ rw (absent, evaluate_device_poll) u
  | inr (a, found) ↦
      rw (evaluate_device_poll_found h client_id now d a u found)
        (poll_write-UniqueIds (poll_status client_id now a) h now d u)
]

next_is_late_enough :
    (h client_id : Text) (t2 : ℕ) (d : Tables) (a : DeviceAuthorization) (last : ℕ)
    → UniqueIds d
    → device_row h d ≡ some a
    → a.last_polled_at ≡ some last
    → is_on_pace (evaluate_device_poll h client_id t2 d).0.status ≡ true
    → last + seconds a.interval_seconds ≤ t2
next_is_late_enough h client_id t2 d a last u found polled_before e =
    let status = evaluate_device_poll_status h client_id t2 d a u found in
    let calm = on_pace-not-too_soon client_id t2 a (ap is_on_pace (sym status) ∙ e) in
    ground (arith)

-- Two polls of one device code, the second right after the first, with unique keys. If the first
-- found no decision and the second is let through (pending or approved), the second comes at least
-- the interval after the first; if the first was told to slow down, at least the interval and five
-- seconds.
pub poll_spacing :
    (h client1 client2 : Text) (t1 t2 : ℕ) (d : Tables) (a : DeviceAuthorization)
    → UniqueIds d
    → device_row h d ≡ some a
    → let (first, d') = evaluate_device_poll h client1 t1 d in
      is_on_pace (evaluate_device_poll h client2 t2 d').0.status ≡ true
      → (first.status ≡ pending → t1 + seconds a.interval_seconds ≤ t2)
        × (first.status ≡ slow_down → t1 + seconds (a.interval_seconds + 5) ≤ t2)
poll_spacing h client1 client2 t1 t2 d a u found e =
    let u' = evaluate_device_poll-UniqueIds h client1 t1 d u in
    let d' = (evaluate_device_poll h client1 t1 d).1 in
    (
      λ s.
          next_is_late_enough h client2 t2 d' (polled t1 a) t1 u'
            (after_pending h client1 t1 d a u found s) refl e,
      λ s.
          next_is_late_enough h client2 t2 d' (slowed t1 a) t1 u'
            (after_slow_down h client1 t1 d a u found s) refl e,
    )

-- Polls of one code by one client at the given times.
abbrev pub poll_each : Text → Text → List ℕ → Tables → Tables
poll_each h client_id [] d = d
poll_each h client_id (t ∷ ts) d = poll_each h client_id ts (evaluate_device_poll h client_id t d).1

-- Every one of the polls is told to slow down.
abbrev pub AllTooSoon : Text → Text → List ℕ → Tables → Type 0
AllTooSoon h client_id [] d = Unit
AllTooSoon h client_id (t ∷ ts) d =
    ((evaluate_device_poll h client_id t d).0.status ≡ slow_down)
    × AllTooSoon h client_id ts (evaluate_device_poll h client_id t d).1

abbrev pub count : List ℕ → ℕ
count [] = 0
count (t ∷ ts) = 1 + count ts

-- Each hasty poll adds five seconds to the interval: with unique keys, after any number of polls of
-- a stored code that were all told to slow down, the interval is the old one and five seconds for
-- each.
pub hasty_polls_slow_down :
    (h client_id : Text) (ts : List ℕ) (d : Tables) (a : DeviceAuthorization)
    → UniqueIds d
    → device_row h d ≡ some a
    → AllTooSoon h client_id ts d
    → (a' : DeviceAuthorization) × (device_row h (poll_each h client_id ts d) ≡ some a')
      × (a'.interval_seconds ≡ a.interval_seconds + 5 * count ts)
hasty_polls_slow_down h client_id [] d a u found all = (a, found, omega arith)
hasty_polls_slow_down h client_id (t ∷ ts) d a u found all =
    let (a', found', grown) =
      hasty_polls_slow_down h client_id ts (evaluate_device_poll h client_id t d).1 (slowed t a)
        (evaluate_device_poll-UniqueIds h client_id t d u)
        (after_slow_down h client_id t d a u found all.0) all.1 in
    (a', found', omega arith)
