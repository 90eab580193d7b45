-- ===== src/Gateway/Contracts.antt =====
-- packages/hive-gateway/src/contracts.ts: what the gateway, the signer boundary, the chain and the
-- ledger exchange.
use hive_chameleon.Prelude.{ℕ, String, Bool, Option, List}
use hive_chameleon.Exec.{Result, ok, err}
use hive_chameleon.Gateway.Protocol.Event.{HiveChameleonEvent, HiveChameleonEventFamily, EventType}
use hive_chameleon.Gateway.Protocol.Codec.{HiveGatewayErrorCode}

pub data HiveAuthority : Type 0 where
  active owner posting : HiveAuthority

pub data OfficialServiceRole : Type 0 where
  collectible_issuer match_publisher rc_support treasury : OfficialServiceRole

-- `mode` of the three kinds of `AuthorizationContext`.
pub data AuthorizationMode : Type 0 where
  official_service custodial_player external_player : AuthorizationMode

pub record OfficialServiceAuthorization : Type 0 where
  pub mode : AuthorizationMode
  pub role : OfficialServiceRole
  pub account : String
  pub authority : HiveAuthority
  pub expected_public_key : String
  pub signer_key_reference : String
  pub policy_version : String

pub record OfficialEventIntent : Type 0 where
  pub idempotency_key : String
  pub policy_version : String
  pub event : HiveChameleonEvent
  pub expiration_seconds : Option ℕ

pub record HiveCustomJsonOperation : Type 0 where
  pub required_auths : List String
  pub required_posting_auths : List String
  pub id : String
  pub json : String

pub record PreparedChainTransaction : Type 0 where
  pub unsigned_transaction_json : String
  pub signature_digest : String
  pub transaction_id : String
  pub canonical_operation_json : String

-- `interface InspectedChainTransaction extends PreparedChainTransaction`.
pub record InspectedChainTransaction : Type 0 where
  pub prepared : PreparedChainTransaction
  pub open prepared use *
  pub operation : HiveCustomJsonOperation
  pub is_signed : Bool

-- `interface PreparedOfficialEvent extends PreparedChainTransaction`.
pub record PreparedOfficialEvent : Type 0 where
  pub prepared : PreparedChainTransaction
  pub open prepared use *
  pub idempotency_key : String
  pub policy_version : String
  pub event_family : HiveChameleonEventFamily
  pub event_type : EventType
  pub canonical_payload : String
  pub canonical_operation_hash : String
  pub authorization : OfficialServiceAuthorization

pub record IsolatedSignerRequest : Type 0 where
  pub idempotency_key : String
  pub policy_version : String
  pub role : OfficialServiceRole
  pub account : String
  pub authority : HiveAuthority
  pub expected_public_key : String
  pub signer_key_reference : String
  pub event_family : HiveChameleonEventFamily
  pub event_type : EventType
  pub canonical_payload : String
  pub canonical_operation_json : String
  pub canonical_operation_hash : String
  pub unsigned_transaction_json : String
  pub signature_digest : String
  pub transaction_id : String

pub record IsolatedSignerResponse : Type 0 where
  pub signature : String
  pub public_key : String

pub record SignerIdempotencyBinding : Type 0 where
  pub idempotency_key : String
  pub policy_version : String
  pub role : OfficialServiceRole
  pub account : String
  pub authority : HiveAuthority
  pub expected_public_key : String
  pub signer_key_reference : String
  pub canonical_operation_json : String
  pub canonical_operation_hash : String
  pub signature_digest : String
  pub transaction_id : String

pub data SignerIdempotencyAcquisition : Type 0 where
  acquired : (lease_id : ℕ) → SignerIdempotencyAcquisition
  conflict : SignerIdempotencyAcquisition
  replay : IsolatedSignerResponse → SignerIdempotencyAcquisition

-- The request of `DigestSignatureProvider.signDigest`.
pub record DigestRequest : Type 0 where
  pub idempotency_key : String
  pub signer_key_reference : String
  pub signature_digest : String
  pub expected_public_key : String

-- What a method can throw: a `HiveGatewayError` with its code, or any other error.
pub data GatewayFailure : Type 0 where
  gateway_error : HiveGatewayErrorCode → GatewayFailure
  unexpected : GatewayFailure

-- `HiveChainPort`, implemented by the WAX library: what it answers at each tick of the world's clock.
pub record HiveChainPort : Type 0 where
  pub prepare_custom_json :
      ℕ → HiveCustomJsonOperation → ℕ → Result GatewayFailure PreparedChainTransaction
  pub inspect_transaction : ℕ → String → Result GatewayFailure InspectedChainTransaction
  pub recover_public_key : ℕ → String → String → Result GatewayFailure String
  pub attach_signature : ℕ → String → String → Result GatewayFailure String
  pub broadcast : ℕ → String → Result GatewayFailure (Unit {0})

abbrev pub same_role : OfficialServiceRole → OfficialServiceRole → Bool
same_role collectible_issuer collectible_issuer = Bool.true
same_role match_publisher match_publisher = Bool.true
same_role rc_support rc_support = Bool.true
same_role treasury treasury = Bool.true
same_role _ _ = Bool.false

abbrev pub same_authority : HiveAuthority → HiveAuthority → Bool
same_authority active active = Bool.true
same_authority owner owner = Bool.true
same_authority posting posting = Bool.true
same_authority _ _ = Bool.false

-- A pure function that throws, among methods that may throw other errors too.
abbrev pub gateway : {A : Type 0} → Result HiveGatewayErrorCode A → Result GatewayFailure A
gateway (ok a) = ok a
gateway (err code) = err (gateway_error code)
