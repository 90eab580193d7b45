-- ===== src/Publisher/Worker/Retry.antt =====
-- The backoff of the publishing worker: `retryBackoff` of
-- workers/match-publisher/src/runtime/match-publisher-worker.ts.
use hive_chameleon.Prelude.{ℕ, ◌≡◌, arith}
use hive_chameleon.Projector.Worker.{failure_backoff}
use hive_chameleon.Publisher.Worker.{retry_backoff}

-- The publisher waits after its n-th attempt exactly as long as the projector after its n-th
-- failure in a row, with the same two delays.
pub retry_backoff-failure_backoff :
    (attempt initial_ms maximum_ms : ℕ)
    → retry_backoff attempt initial_ms maximum_ms ≡ failure_backoff attempt initial_ms maximum_ms
unfolding retry_backoff failure_backoff
retry_backoff-failure_backoff attempt initial_ms maximum_ms = ground arith
