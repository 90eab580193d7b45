-- ===== src/Gateway/Protocol/Codec.antt =====
-- packages/hive-gateway/src/protocol/events.ts, canonical/json.ts and errors.ts: an event as the
-- payload of a Hive operation, and back.
pub mod Roundtrip
use hive_chameleon.Prelude.{
  ℕ, String, Bool, true, false, not, Option, none, some, ltb, ◌*◌, str_eq, if◌then◌else◌,
}
use hive_chameleon.Exec.{Result, ok, err, ◌>>=?◌}
use hive_chameleon.Gateway.Json.{Json}
use hive_chameleon.Gateway.Library.{Library, byte_length}
use hive_chameleon.Gateway.Protocol.Event.{HiveChameleonEvent}
use hive_chameleon.Gateway.Protocol.Check.{valid_event}

pub data HiveGatewayErrorCode : Type 0 where
  invalid_authorization : HiveGatewayErrorCode
  invalid_event : HiveGatewayErrorCode
  invalid_operation : HiveGatewayErrorCode
  invalid_signature : HiveGatewayErrorCode
  idempotency_conflict : HiveGatewayErrorCode
  idempotency_unavailable : HiveGatewayErrorCode
  non_canonical_payload : HiveGatewayErrorCode
  payload_too_large : HiveGatewayErrorCode
  policy_denied : HiveGatewayErrorCode
  signer_unavailable : HiveGatewayErrorCode
  signer_mismatch : HiveGatewayErrorCode
  transaction_mismatch : HiveGatewayErrorCode

-- `HiveGatewayError.code`, as the text it is.
abbrev pub error_code_text : HiveGatewayErrorCode → String
error_code_text invalid_authorization = "invalid_authorization"
error_code_text invalid_event = "invalid_event"
error_code_text invalid_operation = "invalid_operation"
error_code_text invalid_signature = "invalid_signature"
error_code_text idempotency_conflict = "idempotency_conflict"
error_code_text idempotency_unavailable = "idempotency_unavailable"
error_code_text non_canonical_payload = "non_canonical_payload"
error_code_text payload_too_large = "payload_too_large"
error_code_text policy_denied = "policy_denied"
error_code_text signer_unavailable = "signer_unavailable"
error_code_text signer_mismatch = "signer_mismatch"
error_code_text transaction_mismatch = "transaction_mismatch"

abbrev pub application_id : String
application_id = "hive.chameleon"

abbrev pub max_payload_bytes : ℕ
max_payload_bytes = 6 * 1024

module _ (lib : Library) where
  abbrev canonical_of : Option String → Result HiveGatewayErrorCode String
  canonical_of none = err invalid_operation
  canonical_of (some text) = ok text

  -- `canonicalJson`.
  unfoldable pub canonical_json : Json → Result HiveGatewayErrorCode String
  canonical_json value = canonical_of (lib.canonicalize value)

  abbrev parsed_of : Option Json → Result HiveGatewayErrorCode Json
  parsed_of none = err invalid_event
  parsed_of (some value) = ok value

  -- `parseJson`.
  unfoldable pub parse_json : String → Result HiveGatewayErrorCode Json
  parse_json text = parsed_of (lib.json_parse text)

  -- `assertPayloadSize`.
  unfoldable pub assert_payload_size : String → Result HiveGatewayErrorCode (Unit {0})
  assert_payload_size payload =
      if ltb max_payload_bytes (byte_length payload) then err payload_too_large else ok tt

  -- `hiveChameleonEventSchema.safeParse`, of a value with the shape of an event and of any value.
  unfoldable pub check_event : HiveChameleonEvent → Result HiveGatewayErrorCode HiveChameleonEvent
  check_event event = if valid_event lib event then ok event else err invalid_event

  unfoldable pub check_shape :
      Option HiveChameleonEvent → Result HiveGatewayErrorCode HiveChameleonEvent
  check_shape none = err invalid_event
  check_shape (some event) = check_event event

  -- `serializeHiveChameleonEvent`.
  unfoldable pub serialize_hive_chameleon_event :
      HiveChameleonEvent → Result HiveGatewayErrorCode String
  serialize_hive_chameleon_event value = check_event value >>=? λ parsed.
      canonical_json (lib.to_json parsed) >>=? λ payload.
      assert_payload_size payload >>=? λ _. ok payload

  -- `parseHiveChameleonEvent`.
  unfoldable pub parse_hive_chameleon_event :
      String → Result HiveGatewayErrorCode HiveChameleonEvent
  parse_hive_chameleon_event payload = assert_payload_size payload >>=? λ _.
      parse_json payload >>=? λ value. check_shape (lib.shape value) >>=? λ parsed.
      canonical_json (lib.to_json parsed) >>=? λ canonical.
      if not (str_eq canonical payload) then err non_canonical_payload else ok parsed
