-- ===== src/Publisher/Worker.antt =====
-- workers/match-publisher/src/runtime/match-publisher-worker.ts, store/publication-store.ts and the
-- outbox records of model.ts: `MatchPublisherWorker`, over any publication store and any gateway.
-- Dates are numbers of milliseconds. The wait between two cycles and the console are the
-- environment's; a run is given by what the abort signal shows at the head of each round.
pub mod Attempt
pub mod Journal
pub mod Retry
pub mod Tests
use Prim.Native.String.{◌++◌ as str_append}
use hive_chameleon.Prelude.{
  decimal, ℕ, zero, suc, String, ◌+◌, ◌-◌, ◌*◌, ◌^◌, Bool, true, false, not, ◌||◌, Option, none,
  some, List, [], ◌∷◌, ◌++◌, ◌⊎◌, inl, inr, ltb, ◌==◌, str_eq, is_some, if◌then◌else◌, min, max,
}
use hive_chameleon.Exec.{Result, ok, err, Exec, pure, lift, unless, ◌>>=◌, ◌>>◌, rescue, failing}
use hive_chameleon.Gateway.Protocol.Event.{MatchBatch, match_results_batch}
use hive_chameleon.Gateway.Protocol.Text.{is_uuid_v7}
use hive_chameleon.Gateway.Protocol.Codec
use hive_chameleon.Gateway.Protocol.Codec.{HiveGatewayErrorCode}
use hive_chameleon.Gateway.Contracts
use hive_chameleon.Gateway.Contracts.{
  HiveChainPort, OfficialServiceAuthorization, OfficialEventIntent, PreparedOfficialEvent,
  IsolatedSignerRequest, IsolatedSignerResponse, GatewayFailure, same_role, same_authority,
  match_publisher, posting,
}
use hive_chameleon.Gateway.Send.{GatewayWorld, prepare_official_event, broadcast_official_event}
use hive_chameleon.Outbox.{PublishingWorld, call_store, reading, in_gateway}
use hive_chameleon.Publisher.Batch.{
  Platform, FrozenMatchBatch, MatchBatchPolicy, MatchPublisherErrorCode, configuration_invalid,
  database_unavailable, invalid_candidate, payload_too_large, publication_failed,
}

pub record MatchOutboxAttempt : Type 0 where
  pub outbox_id : String
  pub event_id : String
  pub batch_id : String
  pub attempt_count : ℕ
  pub canonical_payload : String
  pub payload_sha256 : String
  pub event : MatchBatch

-- The field `operationKind` is the constant `match_results_batch`.
pub record SigningAttemptRecord : Type 0 where
  pub id : String
  pub idempotency_key : String
  pub outbox_id : String
  pub canonical_operation_hash : String
  pub policy_version : String
  pub transaction_id : String
  pub validated_at : String
  pub expires_at : String

-- What a cycle can throw.
pub data PublicationFailure : Type 0 where
  gateway_error : HiveGatewayErrorCode → PublicationFailure
  publisher_error : MatchPublisherErrorCode → PublicationFailure
  other_error : PublicationFailure

abbrev pub of_gateway : GatewayFailure → PublicationFailure
of_gateway (Contracts.gateway_error code) = gateway_error code
of_gateway Contracts.unexpected = other_error

pub record MatchPublicationStore (S : Type 0) : Type 0 where
  pub freeze_next_batch : ℕ → MatchBatchPolicy → Exec S PublicationFailure (Option FrozenMatchBatch)
  pub claim_next_outbox : ℕ → ℕ → Exec S PublicationFailure (Option MatchOutboxAttempt)
  pub record_signing_attempt : SigningAttemptRecord → Exec S PublicationFailure (Unit {0})
  pub mark_broadcast :
      (outbox_id signing_attempt_id transaction_id : String)
      → ℕ
      → Exec S PublicationFailure (Unit {0})
  pub mark_retryable_failure :
      (outbox_id : String)
      → (signing_attempt_id transaction_id : Option String) → (failure_code : String) → ℕ
      → Exec S PublicationFailure (Unit {0})
  pub reconcile_projected_finality : ℕ → Exec S PublicationFailure ℕ

-- A call of the store, with its arguments.
pub data StoreCall : Type 0 where
  reconciled frozen : StoreCall
  claimed : (lease_until : ℕ) → StoreCall
  recorded : SigningAttemptRecord → StoreCall
  marked_broadcast : (outbox_id signing_attempt_id transaction_id : String) → ℕ → StoreCall
  marked_failure :
      (outbox_id : String)
      → (signing_attempt_id transaction_id : Option String) → (failure_code : String)
      → (retry_at : ℕ) → StoreCall

pub record MatchPublisherWorkerOptions : Type 0 where
  pub authorization : OfficialServiceAuthorization
  pub batch_policy : MatchBatchPolicy
  pub transaction_expiration_seconds : ℕ
  pub claim_lease_ms : ℕ
  pub initial_retry_backoff_ms : ℕ
  pub maximum_retry_backoff_ms : ℕ
  pub next_uuid_v7 : ℕ → String
  pub now : ℕ → ℕ

-- The constructor of `MatchPublisherWorker`: `false` where it throws.
unfoldable pub is_worker_configured : MatchPublisherWorkerOptions → Bool
is_worker_configured options = not (
    not (same_role options.authorization.role match_publisher)
    || (not (same_authority options.authorization.authority posting)
        || not (str_eq options.authorization.account options.batch_policy.publisher_account)))

pub data Publication : Type 0 where
  broadcast failed idle : Publication

pub record MatchPublisherCycleResult : Type 0 where
  pub batch_frozen : Bool
  pub projected_rows_reconciled : ℕ
  pub publication : Publication
  pub event_id : Option String

-- `retryBackoff`.
unfoldable pub retry_backoff : ℕ → ℕ → ℕ → ℕ
retry_backoff attempt initial_ms maximum_ms =
    min maximum_ms (initial_ms * 2 ^ max 0 (min (attempt - 1) 30))

abbrev publisher_code : MatchPublisherErrorCode → String
publisher_code configuration_invalid = "configuration_invalid"
publisher_code database_unavailable = "database_unavailable"
publisher_code invalid_candidate = "invalid_candidate"
publisher_code payload_too_large = "payload_too_large"
publisher_code publication_failed = "publication_failed"

-- `stableErrorCode`.
abbrev pub stable_error_code : PublicationFailure → String
stable_error_code (gateway_error code) = Codec.error_code_text code
stable_error_code (publisher_error code) = publisher_code code
stable_error_code other_error = "publication_failed"

-- `checkedUuid` of the worker.
unfoldable pub checked_signing_attempt_id : String → Result PublicationFailure String
checked_signing_attempt_id value =
    if not (is_uuid_v7 value) then err (publisher_error configuration_invalid) else ok value

-- The variables `prepared` and `journaled` of `publishAttempt`, as its `catch` finds them.
pub record Progress : Type 0 where
  pub prepared : Option PreparedOfficialEvent
  pub journaled : Bool

abbrev pub transaction_of : Option PreparedOfficialEvent → Option String
transaction_of none = none
transaction_of (some prepared) = some prepared.transaction_id

module _ (platform : Platform) (chain : HiveChainPort) {N S : Type 0}
    (sign : IsolatedSignerRequest → Exec N GatewayFailure IsolatedSignerResponse)
    (store : MatchPublicationStore S) (options : MatchPublisherWorkerOptions) where
  abbrev pub World : Type 0
  World = PublishingWorld S StoreCall N

  abbrev pub key_of : MatchOutboxAttempt → String
  key_of attempt =
      str_append "match-batch:"
        (str_append attempt.batch_id (str_append ":attempt:" (decimal attempt.attempt_count)))

  abbrev pub intent_of : MatchOutboxAttempt → OfficialEventIntent
  intent_of attempt = record {
    idempotency_key = key_of attempt;
    policy_version = options.authorization.policy_version;
    event = match_results_batch attempt.event;
    expiration_seconds = some options.transaction_expiration_seconds;
  }

  abbrev pub signing_record :
      MatchOutboxAttempt → ℕ → String → PreparedOfficialEvent → SigningAttemptRecord
  signing_record attempt started id prepared = record {
    id = id;
    idempotency_key = key_of attempt;
    outbox_id = attempt.outbox_id;
    canonical_operation_hash = prepared.canonical_operation_hash;
    policy_version = prepared.policy_version;
    transaction_id = prepared.transaction_id;
    validated_at = platform.to_iso_string started;
    expires_at = platform.to_iso_string (started + options.transaction_expiration_seconds * 1000);
  }

  -- What is thrown, with the variables as they stand.
  abbrev pub at_stage :
      {A : Type 0}
      → Option PreparedOfficialEvent
      → Bool
      → Exec World PublicationFailure A
      → Exec World (Progress × PublicationFailure) A
  at_stage prepared journaled m =
      failing (λ e. (record { prepared = prepared; journaled = journaled }, e)) m

  -- The `try` block of `publishAttempt`, from the record of the signing attempt on.
  unfoldable pub send_prepared :
      MatchOutboxAttempt
      → ℕ
      → String
      → PreparedOfficialEvent
      → Exec World (Progress × PublicationFailure) Publication
  send_prepared attempt started id prepared = do
    _ ← at_stage (some prepared) false (
        call_store (recorded (signing_record attempt started id prepared))
          (store.record_signing_attempt (signing_record attempt started id prepared)))
    result ← at_stage (some prepared) true (
        failing of_gateway
          (in_gateway (broadcast_official_event platform.library chain sign prepared)))
    broadcast_at ← reading options.now
    _ ← at_stage (some prepared) true (
        call_store (marked_broadcast attempt.outbox_id id result.transaction_id broadcast_at)
          (store.mark_broadcast attempt.outbox_id id result.transaction_id broadcast_at))
    pure broadcast

  unfoldable pub try_publish :
      MatchOutboxAttempt → ℕ → String → Exec World (Progress × PublicationFailure) Publication
  try_publish attempt started id = do
    prepared ← at_stage none false (
        failing of_gateway (
          in_gateway (
            prepare_official_event platform.library chain sign (intent_of attempt)
              options.authorization)))
    unless (not (str_eq prepared.canonical_payload attempt.canonical_payload))
        (record { prepared = some prepared; journaled = false }, publisher_error invalid_candidate)
        (send_prepared attempt started id prepared)

  -- The `catch` block of `publishAttempt`.
  unfoldable pub mark_failure :
      MatchOutboxAttempt
      → String
      → Progress × PublicationFailure
      → Exec World PublicationFailure Publication
  mark_failure attempt id thrown = do
    now ← reading options.now
    let retry_at =
        now
        + retry_backoff attempt.attempt_count options.initial_retry_backoff_ms
            options.maximum_retry_backoff_ms
    let signing_attempt_id = if thrown.0.journaled then some id else none
    _ ←
        call_store
          (marked_failure attempt.outbox_id signing_attempt_id (transaction_of thrown.0.prepared)
            (stable_error_code thrown.1) retry_at)
          (store.mark_retryable_failure attempt.outbox_id signing_attempt_id
            (transaction_of thrown.0.prepared) (stable_error_code thrown.1) retry_at)
    pure failed

  unfoldable pub publish_attempt :
      MatchOutboxAttempt → ℕ → Exec World PublicationFailure Publication
  publish_attempt attempt started = do
    value ← reading options.next_uuid_v7
    id ← lift (checked_signing_attempt_id value)
    rescue (try_publish attempt started id) (mark_failure attempt id)

  -- The end of `processOnce`, once an attempt is claimed or none.
  unfoldable pub publish_claimed :
      Bool
      → ℕ
      → ℕ
      → Option MatchOutboxAttempt
      → Exec World PublicationFailure MatchPublisherCycleResult
  publish_claimed batch_frozen rows now none = pure (record {
    batch_frozen = batch_frozen;
    projected_rows_reconciled = rows;
    publication = idle;
    event_id = none;
  })
  publish_claimed batch_frozen rows now (some attempt) = do
    publication ← publish_attempt attempt now
    pure (record {
      batch_frozen = batch_frozen;
      projected_rows_reconciled = rows;
      publication = publication;
      event_id = some attempt.event_id;
    })

  unfoldable pub process_once : Exec World PublicationFailure MatchPublisherCycleResult
  process_once = do
    now ← reading options.now
    rows ← call_store reconciled (store.reconcile_projected_finality now)
    batch ← call_store frozen (store.freeze_next_batch now options.batch_policy)
    attempt ←
        call_store (claimed (now + options.claim_lease_ms))
          (store.claim_next_outbox now (now + options.claim_lease_ms))
    publish_claimed (is_some batch) rows now attempt

  -- What a round of `run` logs: the result where there was something to do, the code of an error.
  abbrev pub is_busy : MatchPublisherCycleResult → Bool
  is_busy result =
      result.batch_frozen
      || (ltb 0 result.projected_rows_reconciled
          || elim result.publication [ idle ↦ false | _ ↦ true ])

  abbrev pub log_of :
      Result PublicationFailure MatchPublisherCycleResult
      → List (MatchPublisherCycleResult ⊎ String)
  log_of (ok result) = if is_busy result then inl result ∷ [] else []
  log_of (err error) = inr (stable_error_code error) ∷ []

  unfoldable pub run_rounds : List Bool → World → List (MatchPublisherCycleResult ⊎ String) × World
  run_rounds [] w = ([], w)
  run_rounds (aborted ∷ rounds) w = elim aborted [
    | true ↦ ([], w)
    | false ↦
        let (result, w₁) = process_once w in
        let (entries, w₂) = run_rounds rounds w₁ in (log_of result ++ entries, w₂)
  ]
