-- ===== src/Publisher/Worker/Tests.antt =====
-- The publishing worker at a concrete outbox row.
use hive_chameleon.Prelude.{◌≡◌, refl, none, some, false, true, [], ◌∷◌}
use hive_chameleon.Exec.{ok}
use hive_chameleon.Gateway.Contracts.{match_publisher}
use hive_chameleon.Gateway.Signer.{sign}
use hive_chameleon.Gateway.Tests.{id_1, id_2, sha, chain, boundary, gateway_world, issuer, batch}
use hive_chameleon.Projector.Worker.{failure_backoff}
use hive_chameleon.Publisher.Tests.{platform, policy}
use hive_chameleon.Publisher.Worker.{
  MatchPublicationStore, MatchPublisherWorkerOptions, MatchOutboxAttempt, World, publish_attempt,
  retry_backoff, run_rounds,
}
use hive_chameleon.Publisher.Worker.Attempt.{IsSettled, publish_attempt-IsSettled}
use hive_chameleon.Publisher.Worker.Journal.{Journaled, start, run_rounds-IsJournaled}
use hive_chameleon.Publisher.Worker.Retry.{retry_backoff-failure_backoff}

abbrev attempt : MatchOutboxAttempt
attempt = record {
  outbox_id = id_1;
  event_id = batch.event_id;
  batch_id = batch.batch_id;
  attempt_count = 1;
  canonical_payload = "batch";
  payload_sha256 = sha;
  event = batch;
}

-- A store that hands out the same row again and again.
abbrev store : MatchPublicationStore Unit
store = record {
  freeze_next_batch = λ now policy s. (ok none, s);
  claim_next_outbox = λ now until s. (ok (some attempt), s);
  record_signing_attempt = λ r s. (ok tt, s);
  mark_broadcast = λ a b c d s. (ok tt, s);
  mark_retryable_failure = λ a b c d e s. (ok tt, s);
  reconcile_projected_finality = λ now s. (ok 0, s);
}

abbrev options : MatchPublisherWorkerOptions
options = record {
  authorization = record issuer { role = match_publisher; account = "hive.chameleon" };
  batch_policy = policy 2;
  transaction_expiration_seconds = 300;
  claim_lease_ms = 30000;
  initial_retry_backoff_ms = 1000;
  maximum_retry_backoff_ms = 60000;
  next_uuid_v7 = λ n. id_2;
  now = λ n. 50400000;
}

abbrev world : World platform chain (sign platform.library boundary) store options
world = record { store = tt; calls = []; gateway = gateway_world; readings = 0 }

publish_attempt-IsSettled_example :
    IsSettled platform chain
      (sign platform.library boundary)
      store
      options
      attempt
      50400000
      []
      []
      (publish_attempt platform chain
        (sign platform.library boundary)
        store
        options
        attempt
        50400000
        world).0
      (publish_attempt platform chain
        (sign platform.library boundary)
        store
        options
        attempt
        50400000
        world).1
publish_attempt-IsSettled_example =
    publish_attempt-IsSettled platform chain (sign platform.library boundary) store options attempt
      50400000 [] [] world refl refl

-- Three rounds, the last of them aborted.
run_rounds-IsJournaled_example :
    Journaled platform chain
      (sign platform.library boundary)
      store
      options
      (run_rounds platform chain
        (sign platform.library boundary)
        store
        options
        (false ∷ false ∷ true ∷ [])
        world).1
run_rounds-IsJournaled_example =
    run_rounds-IsJournaled platform chain (sign platform.library boundary) store options
      (false ∷ false ∷ true ∷ []) world start

retry_backoff-failure_backoff_example : retry_backoff 4 1000 60000 ≡ failure_backoff 4 1000 60000
retry_backoff-failure_backoff_example = retry_backoff-failure_backoff 4 1000 60000
