-- ===== src/Collectible.antt =====
-- workers/collectible-issuer/src/collectible-issuer.ts, model.ts and journal.ts:
-- `CollectibleIssuerService`, over any journal and any gateway. Dates are numbers of milliseconds.
pub mod Laws
pub mod Tests
use Prim.Native.String.{◌++◌ as str_append}
use hive_chameleon.Prelude.{
  ℕ, String, ◌+◌, ◌*◌, ◌^◌, Bool, true, false, not, ◌||◌, Option, none, some, ltb, if◌then◌else◌,
  decimal,
}
use hive_chameleon.Exec.{Result, ok, err, Exec, pure, throw, lift, unless, ◌>>=◌, rescue}
use hive_chameleon.Gateway.Protocol.Event.{
  HiveChameleonEvent, CollectibleKind, CollectibleIssued, CollectibleRevoked, EventType, event_type,
  event_id, collectible_issued, collectible_revoked,
}
use hive_chameleon.Gateway.Protocol.Text.{is_uuid_v7}
use hive_chameleon.Gateway.Protocol.Codec.{error_code_text, invalid_authorization, invalid_event}
use hive_chameleon.Gateway.Library.{Library}
use hive_chameleon.Gateway.Contracts.{
  HiveChainPort, OfficialServiceAuthorization, OfficialEventIntent, PreparedOfficialEvent,
  IsolatedSignerRequest, IsolatedSignerResponse, GatewayFailure, gateway_error, unexpected,
  same_role, same_authority, collectible_issuer, posting,
}
use hive_chameleon.Gateway.Send.{prepare_official_event, broadcast_official_event}
use hive_chameleon.Outbox.{PublishingWorld, call_store, reading, in_gateway}

pub record IssueCollectibleCommand : Type 0 where
  pub event_id : String
  pub occurred_at : String
  pub attempt_number : ℕ
  pub collectible_id : String
  pub definition_id : String
  pub kind : CollectibleKind
  pub owner : String
  pub reason : String
  pub metadata_uri : String
  pub metadata_sha256 : String
  pub payment_transaction_id : Option String

pub record RevokeCollectibleCommand : Type 0 where
  pub event_id : String
  pub occurred_at : String
  pub attempt_number : ℕ
  pub collectible_id : String
  pub issued_event_id : String
  pub reason_code : String

pub record CollectibleSigningRecord : Type 0 where
  pub id : String
  pub idempotency_key : String
  pub operation_kind : EventType
  pub canonical_operation_hash : String
  pub policy_version : String
  pub transaction_id : String
  pub validated_at : String
  pub expires_at : String

pub record CollectibleBroadcastResult : Type 0 where
  pub event_id : String
  pub transaction_id : String
  pub event_type : EventType

-- An error of the journal is any error but a `HiveGatewayError`, or one.
pub record CollectibleIssuerJournal (S : Type 0) : Type 0 where
  pub record_prepared : CollectibleSigningRecord → Exec S GatewayFailure (Unit {0})
  pub mark_broadcast :
      (record_id transaction_id broadcast_at : String) → Exec S GatewayFailure (Unit {0})
  pub mark_failed :
      (record_id transaction_id failure_code failed_at : String) → Exec S GatewayFailure (Unit {0})

-- A call of the journal, with its arguments.
pub data JournalCall : Type 0 where
  recorded_prepared : CollectibleSigningRecord → JournalCall
  marked_broadcast : (record_id transaction_id broadcast_at : String) → JournalCall
  marked_failed : (record_id transaction_id failure_code failed_at : String) → JournalCall

pub record CollectibleIssuerOptions : Type 0 where
  pub authorization : OfficialServiceAuthorization
  pub transaction_expiration_seconds : Option ℕ
  pub next_uuid_v7 : ℕ → String
  pub now : ℕ → ℕ

-- `this.expirationSeconds`.
abbrev pub expiration_seconds : CollectibleIssuerOptions → ℕ
expiration_seconds options = elim options.transaction_expiration_seconds [
  | none ↦ 300
  | some seconds ↦ seconds
]

-- The constructor of `CollectibleIssuerService`: `false` where it throws. An expiration beyond the
-- safe integers is over the maximum too.
unfoldable pub is_issuer_configured : CollectibleIssuerOptions → Bool
is_issuer_configured options =
    if not (same_role options.authorization.role collectible_issuer)
      || not (same_authority options.authorization.authority posting)
    then false
    else not (ltb (expiration_seconds options) 10 || ltb 3600 (expiration_seconds options))

-- `checkedUuid` of the issuer.
unfoldable pub checked_record_id : String → Result GatewayFailure String
checked_record_id value =
    if not (is_uuid_v7 value) then err (gateway_error invalid_authorization) else ok value

-- `stableFailureCode`.
abbrev pub stable_failure_code : GatewayFailure → String
stable_failure_code (gateway_error code) = error_code_text code
stable_failure_code unexpected = "publication_failed"

module _ (lib : Library) (to_iso_string : ℕ → String) (chain : HiveChainPort) {N S : Type 0}
    (sign : IsolatedSignerRequest → Exec N GatewayFailure IsolatedSignerResponse)
    (journal : CollectibleIssuerJournal S) (options : CollectibleIssuerOptions) where
  abbrev pub IssuerWorld : Type 0
  IssuerWorld = PublishingWorld S JournalCall N

  abbrev pub key_of : HiveChameleonEvent → ℕ → String
  key_of event attempt_number =
      str_append "collectible:"
        (str_append (event_id event) (str_append ":attempt:" (decimal attempt_number)))

  abbrev pub intent_of : HiveChameleonEvent → ℕ → OfficialEventIntent
  intent_of event attempt_number = record {
    idempotency_key = key_of event attempt_number;
    policy_version = options.authorization.policy_version;
    event = event;
    expiration_seconds = some (expiration_seconds options);
  }

  abbrev pub signing_record :
      HiveChameleonEvent → ℕ → PreparedOfficialEvent → String → ℕ → CollectibleSigningRecord
  signing_record event attempt_number prepared id prepared_at = record {
    id = id;
    idempotency_key = key_of event attempt_number;
    operation_kind = event_type event;
    canonical_operation_hash = prepared.canonical_operation_hash;
    policy_version = prepared.policy_version;
    transaction_id = prepared.transaction_id;
    validated_at = to_iso_string prepared_at;
    expires_at = to_iso_string (prepared_at + expiration_seconds options * 1000);
  }

  -- The `try` block of `publish`.
  unfoldable pub broadcast_prepared :
      HiveChameleonEvent
      → PreparedOfficialEvent
      → String
      → Exec IssuerWorld GatewayFailure CollectibleBroadcastResult
  broadcast_prepared event prepared id = do
    sent ← in_gateway (broadcast_official_event lib chain sign prepared)
    broadcast_at ← reading options.now
    _ ←
        call_store (marked_broadcast id sent.transaction_id (to_iso_string broadcast_at))
          (journal.mark_broadcast id sent.transaction_id (to_iso_string broadcast_at))
    pure (record {
      event_id = event_id event;
      transaction_id = sent.transaction_id;
      event_type = event_type event;
    })

  -- The `catch` block of `publish`: it throws the error again.
  unfoldable pub mark_failure :
      PreparedOfficialEvent
      → String
      → GatewayFailure
      → Exec IssuerWorld GatewayFailure CollectibleBroadcastResult
  mark_failure prepared id error = do
    failed_at ← reading options.now
    _ ←
        call_store
          (marked_failed id prepared.transaction_id (stable_failure_code error)
            (to_iso_string failed_at))
          (journal.mark_failed id prepared.transaction_id (stable_failure_code error)
            (to_iso_string failed_at))
    throw error

  -- `publish`, once the event is prepared.
  unfoldable pub publish_prepared :
      HiveChameleonEvent
      → ℕ
      → PreparedOfficialEvent
      → Exec IssuerWorld GatewayFailure CollectibleBroadcastResult
  publish_prepared event attempt_number prepared = do
    value ← reading options.next_uuid_v7
    id ← lift (checked_record_id value)
    prepared_at ← reading options.now
    _ ←
        call_store (recorded_prepared (signing_record event attempt_number prepared id prepared_at))
          (journal.record_prepared (signing_record event attempt_number prepared id prepared_at))
    rescue (broadcast_prepared event prepared id) (mark_failure prepared id)

  -- A number beyond the safe integers is over the maximum too.
  unfoldable pub publish :
      HiveChameleonEvent → ℕ → Exec IssuerWorld GatewayFailure CollectibleBroadcastResult
  publish event attempt_number =
      unless (ltb attempt_number 1 || ltb 1000000 attempt_number) (gateway_error invalid_event) do
        prepared ← in_gateway (
            prepare_official_event lib chain sign (intent_of event attempt_number)
              options.authorization)
        publish_prepared event attempt_number prepared

  abbrev pub issued_event : IssueCollectibleCommand → CollectibleIssued
  issued_event command = record {
    event_id = command.event_id;
    occurred_at = command.occurred_at;
    collectible_id = command.collectible_id;
    definition_id = command.definition_id;
    kind = command.kind;
    owner = command.owner;
    issuer = options.authorization.account;
    reason = command.reason;
    metadata_uri = command.metadata_uri;
    metadata_sha256 = command.metadata_sha256;
    payment_tx_id = command.payment_transaction_id;
  }

  unfoldable pub issue :
      IssueCollectibleCommand → Exec IssuerWorld GatewayFailure CollectibleBroadcastResult
  issue command = publish (collectible_issued (issued_event command)) command.attempt_number

  abbrev pub revoked_event : RevokeCollectibleCommand → CollectibleRevoked
  revoked_event command = record {
    event_id = command.event_id;
    occurred_at = command.occurred_at;
    collectible_id = command.collectible_id;
    issued_event_id = command.issued_event_id;
    reason_code = command.reason_code;
  }

  unfoldable pub revoke :
      RevokeCollectibleCommand → Exec IssuerWorld GatewayFailure CollectibleBroadcastResult
  revoke command = publish (collectible_revoked (revoked_event command)) command.attempt_number
