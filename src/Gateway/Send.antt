-- ===== src/Gateway/Send.antt =====
-- packages/hive-gateway/src/gateway.ts: `HiveGateway`.
-- The world holds the signer's state, what was broadcast (the last one first), and a clock that
-- ticks at every call of the chain.
pub mod Laws
pub mod Prepare
pub mod Silence
pub mod Tests
use hive_chameleon.Prelude.{ℕ, suc, String, Bool, not, Option, none, some, List, [], ◌∷◌, str_eq}
use hive_chameleon.Exec.{Result, ok, err, Exec, pure, lift, unless, ◌>>=◌, ◌>>◌}
use hive_chameleon.Gateway.Library.{Library}
use hive_chameleon.Gateway.Protocol.Event.{EventType, event_type, event_family}
use hive_chameleon.Gateway.Protocol.Codec.{transaction_mismatch, signer_mismatch}
use hive_chameleon.Gateway.Contracts.{
  HiveChainPort, OfficialEventIntent, OfficialServiceAuthorization, PreparedOfficialEvent,
  PreparedChainTransaction, HiveCustomJsonOperation, IsolatedSignerRequest, IsolatedSignerResponse,
  GatewayFailure, gateway_error, gateway,
}
use hive_chameleon.Gateway.Policy.{authorize_official_event, canonical_custom_json_operation}
use hive_chameleon.Gateway.Signature.{assert_signature_matches_public_key}

pub record GatewayWorld (N : Type 0) : Type 0 where
  pub signer : N
  pub broadcasts : List String
  pub tick : ℕ

pub record BroadcastOfficialEventResult : Type 0 where
  pub transaction_id : String
  pub event_type : EventType

abbrev pub seconds_of : Option ℕ → ℕ
seconds_of none = 300
seconds_of (some seconds) = seconds

abbrev pub request_of : PreparedOfficialEvent → IsolatedSignerRequest
request_of prepared = record {
  idempotency_key = prepared.idempotency_key;
  policy_version = prepared.policy_version;
  role = prepared.authorization.role;
  account = prepared.authorization.account;
  authority = prepared.authorization.authority;
  expected_public_key = prepared.authorization.expected_public_key;
  signer_key_reference = prepared.authorization.signer_key_reference;
  event_family = prepared.event_family;
  event_type = prepared.event_type;
  canonical_payload = prepared.canonical_payload;
  canonical_operation_json = prepared.canonical_operation_json;
  canonical_operation_hash = prepared.canonical_operation_hash;
  unsigned_transaction_json = prepared.unsigned_transaction_json;
  signature_digest = prepared.signature_digest;
  transaction_id = prepared.transaction_id;
}

module _ (lib : Library) (chain : HiveChainPort) {N : Type 0}
    (sign : IsolatedSignerRequest → Exec N GatewayFailure IsolatedSignerResponse) where
  unfoldable pub ask :
      {A : Type 0} → (ℕ → Result GatewayFailure A) → Exec (GatewayWorld N) GatewayFailure A
  ask answer w = (answer w.tick, record w { tick = suc w.tick })

  -- `chain.broadcast`: the transaction may reach the chain even where the call throws.
  unfoldable pub call_broadcast : String → Exec (GatewayWorld N) GatewayFailure (Unit {0})
  call_broadcast signed w = (
    chain.broadcast w.tick signed,
    record w { tick = suc w.tick; broadcasts = signed ∷ w.broadcasts },
  )

  unfoldable pub call_signer :
      IsolatedSignerRequest → Exec (GatewayWorld N) GatewayFailure IsolatedSignerResponse
  call_signer request w = let (r, n) = sign request w.signer in (r, record w { signer = n })

  abbrev pub prepared_event :
      OfficialEventIntent
      → OfficialServiceAuthorization
      → String
      → String
      → PreparedChainTransaction
      → PreparedOfficialEvent
  prepared_event intent authorization payload operation_json prepared = record {
    prepared = prepared;
    idempotency_key = intent.idempotency_key;
    policy_version = intent.policy_version;
    event_family = event_family intent.event;
    event_type = event_type intent.event;
    canonical_payload = payload;
    canonical_operation_hash = lib.sha256_hex operation_json;
    authorization = authorization;
  }

  -- `prepareOfficialEvent`, once the event is authorized.
  unfoldable pub prepare_authorized :
      OfficialEventIntent
      → OfficialServiceAuthorization
      → HiveCustomJsonOperation
      → String
      → Exec (GatewayWorld N) GatewayFailure PreparedOfficialEvent
  prepare_authorized intent authorization operation payload = do
    operation_json ← lift (gateway (canonical_custom_json_operation lib operation))
    prepared ←
        ask
          (λ tick. chain.prepare_custom_json tick operation (seconds_of intent.expiration_seconds))
    unless (not (str_eq prepared.canonical_operation_json operation_json))
        (gateway_error transaction_mismatch)
        (pure (prepared_event intent authorization payload operation_json prepared))

  unfoldable pub prepare_official_event :
      OfficialEventIntent
      → OfficialServiceAuthorization
      → Exec (GatewayWorld N) GatewayFailure PreparedOfficialEvent
  prepare_official_event intent authorization = do
    authorized ← lift (gateway (authorize_official_event lib intent authorization))
    prepare_authorized intent authorization authorized.0 authorized.1

  -- `broadcastOfficialEvent`, once the signer has answered.
  unfoldable pub send_signed :
      PreparedOfficialEvent
      → IsolatedSignerResponse
      → Exec (GatewayWorld N) GatewayFailure BroadcastOfficialEventResult
  send_signed prepared response =
      unless (not (str_eq response.public_key prepared.authorization.expected_public_key))
        (gateway_error signer_mismatch)
        do
          _ ←
              assert_signature_matches_public_key
                (ask (λ tick.
                  chain.recover_public_key tick prepared.signature_digest response.signature))
                prepared.signature_digest response.signature
                prepared.authorization.expected_public_key
          signed ← ask (λ tick.
              chain.attach_signature tick prepared.unsigned_transaction_json response.signature)
          _ ← call_broadcast signed
          pure (record {
            transaction_id = prepared.transaction_id;
            event_type = prepared.event_type;
          })

  unfoldable pub broadcast_official_event :
      PreparedOfficialEvent → Exec (GatewayWorld N) GatewayFailure BroadcastOfficialEventResult
  broadcast_official_event prepared = do
    response ← call_signer (request_of prepared)
    send_signed prepared response
