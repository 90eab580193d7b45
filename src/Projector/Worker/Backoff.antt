-- ===== src/Projector/Worker/Backoff.antt =====
-- The backoff of the projector worker.
use native.Mathlib.Nat.{pow-suc, one-le-pow, pow-le-pow_right}
use hive_chameleon.Prelude.{ℕ, zero, suc, ◌+◌, ◌-◌, ◌*◌, ◌^◌, ◌≤◌, ◌≡◌, true, arith, min, max}
use hive_chameleon.Projector.Worker.{ProjectorWorkerOptions, assert_worker_options, failure_backoff}

-- The exponent of the `n`-th failure in a row.
abbrev exponent : ℕ → ℕ
exponent n = min (max (n - 1) 0) 30

mul_mono : (i a b : ℕ) → a ≤ b → i * a ≤ i * b
mul_mono i a b h = grind arith

-- A delay after a failure lies between the two configured bounds.
pub failure_backoff_bounds :
    (o : ProjectorWorkerOptions) (failures : ℕ)
    → assert_worker_options o ≡ true
    → (o.initial_failure_backoff_ms
        ≤ failure_backoff failures o.initial_failure_backoff_ms o.maximum_failure_backoff_ms)
      × (failure_backoff failures o.initial_failure_backoff_ms o.maximum_failure_backoff_ms
          ≤ o.maximum_failure_backoff_ms)
unfolding assert_worker_options failure_backoff
failure_backoff_bounds o failures valid = ground (
  arith,
  mul_mono o.initial_failure_backoff_ms 1 (2 ^ exponent failures)
      (one-le-pow (exponent failures) 2 (omega arith)),
)

-- More failures in a row never make the delay shorter.
pub failure_backoff_mono :
    (initial maximum failures more : ℕ)
    → failures ≤ more
    → failure_backoff failures initial maximum ≤ failure_backoff more initial maximum
unfolding failure_backoff
failure_backoff_mono initial maximum failures more h = omega (
  arith,
  mul_mono initial (2 ^ exponent failures) (2 ^ exponent more)
      (pow-le-pow_right {n = 2} (omega arith) (omega arith)),
)

-- Each failure up to the thirty-first doubles the delay, until the maximum.
pub failure_backoff_doubles :
    (initial maximum failures : ℕ)
    → 1 ≤ failures
    → failures ≤ 30
    → failure_backoff (failures + 1) initial maximum
      ≡ min maximum (2 * failure_backoff failures initial maximum)
unfolding failure_backoff
failure_backoff_doubles initial maximum zero low high = absurd (omega arith)
failure_backoff_doubles initial maximum (suc k) low high =
    let next : exponent (suc k + 1) ≡ suc k = omega arith in
    let now : exponent (suc k) ≡ k = omega arith in rw (next, now, pow-suc) (omega arith)
