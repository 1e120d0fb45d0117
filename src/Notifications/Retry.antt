-- ===== src/Notifications/Retry.antt =====
-- `_retry_delay_seconds` of `app/notifications/lease.py`.
use native.Mathlib.Nat.{pow-le-pow_right, two-pow-succ}
use zero_auth_lite.Prelude.{
  ℕ, zero, suc, ◌/◌, ◌^◌, ◌≤◌, ◌<◌, ◌≡◌, arith, leb, ◌==◌, if◌then◌else◌, inl, inr, Bool-cases,
}

-- Python's `int.bit_length`: the number is halved until it is 0. A number is fuel enough for itself.
bits : ℕ → ℕ → ℕ
bits zero n = 0
bits (suc fuel) n = let rest = bits fuel (n / 2) in if n == 0 then 0 else suc rest

unfoldable pub bit_length : ℕ → ℕ
unfolding bits
bit_length n = bits n n

min : ℕ → ℕ → ℕ
min a b = if leb a b then a else b

-- `1 << n` is `2 ^ n`.
unfoldable pub retry_delay_seconds : ℕ → ℕ → ℕ
unfolding min
retry_delay_seconds attempt_count maximum =
    if leb (bit_length maximum) attempt_count then maximum else min maximum (2 ^ attempt_count)

lt-pow-bits : (fuel n : ℕ) → n ≤ fuel → n < 2 ^ bits fuel n
unfolding bits
lt-pow-bits zero n h = omega arith
lt-pow-bits (suc fuel) n h = elim (Bool-cases (n == 0)) [
  | inl e ↦ rw e (ground arith)
  | inr e ↦ rw e (
      rw (two-pow-succ (bits fuel (n / 2))) (
        let half : n / 2 < 2 ^ bits fuel (n / 2) = lt-pow-bits fuel (n / 2) (ground arith) in
        omega arith))
]

pub lt-pow-bit_length : (n : ℕ) → n < 2 ^ bit_length n
unfolding bit_length
lt-pow-bit_length n = lt-pow-bits n n (omega arith)

-- The delay without the shortcut: the power of two, cut off at the maximum.
abbrev pub capped_power : ℕ → ℕ → ℕ
capped_power attempt_count maximum =
    if leb maximum (2 ^ attempt_count) then maximum else 2 ^ attempt_count

le-pow_of_bit_length_le : (a m : ℕ) → bit_length m ≤ a → m ≤ 2 ^ a
le-pow_of_bit_length_le a m h =
    let p : 2 ^ bit_length m ≤ 2 ^ a = pow-le-pow_right (omega arith) h in
    omega (arith, lt-pow-bit_length m)

-- The shortcut on the bit length never changes the delay: it is two to the number of attempts,
-- cut off at the maximum.
pub retry_delay_seconds-eq-capped_power : (a m : ℕ) → retry_delay_seconds a m ≡ capped_power a m
unfolding retry_delay_seconds
retry_delay_seconds-eq-capped_power a m = ground (arith, le-pow_of_bit_length_le a m)

pow_pos : (a : ℕ) → 1 ≤ 2 ^ a
pow_pos a = pow-le-pow_right {n = 2} (omega arith) {i = 0} {j = a} (omega arith)

-- With a positive maximum the delay is at least a second and at most the maximum, and one more
-- failure never shortens it.
pub retry_delay_seconds_bounds :
    (a m : ℕ)
    → 1 ≤ m
    → (1 ≤ retry_delay_seconds a m)
      × (retry_delay_seconds a m ≤ m)
      × (retry_delay_seconds a m ≤ retry_delay_seconds (suc a) m)
retry_delay_seconds_bounds a m h =
    rw (retry_delay_seconds-eq-capped_power a m, retry_delay_seconds-eq-capped_power (suc a) m)
      (ground (arith, pow_pos a, two-pow-succ a))
