-- ===== src/Gateway/Policy.antt =====
-- packages/hive-gateway/src/policy.ts and official-signer-policy.ts: which official service may
-- publish which event, and the operation that carries it.
pub mod Laws
use hive_chameleon.Prelude.{
  ℕ, String, Bool, true, false, not, ◌&&◌, ◌||◌, Option, none, some, List, [], ◌∷◌, leb, ◌==◌,
  length, all, str_eq, if◌then◌else◌,
}
use hive_chameleon.Exec.{Result, ok, err, ◌>>=?◌}
use hive_chameleon.Gateway.Json.{Json, str, arr, obj, Items, nil, cons, end, field}
use hive_chameleon.Gateway.Library.{Library}
use hive_chameleon.Gateway.Protocol.Event.{
  HiveChameleonEvent, match_results_batch, match_result_corrected, match_result_invalidated,
  collectible_issued, collectible_revoked, HiveChameleonEventFamily, match_family,
  collectible_family, event_family,
}
use hive_chameleon.Gateway.Protocol.Text.{
  codes, is_hive_account, is_lower, is_digit, is_alphanumeric,
}
use hive_chameleon.Gateway.Protocol.Check.{text_length}
use hive_chameleon.Gateway.Protocol.Codec.{
  HiveGatewayErrorCode, invalid_authorization, policy_denied, application_id, canonical_json,
  serialize_hive_chameleon_event,
}
use hive_chameleon.Gateway.Contracts.{
  OfficialServiceAuthorization, OfficialEventIntent, HiveCustomJsonOperation, OfficialServiceRole,
  collectible_issuer, match_publisher, same_role, same_authority, posting, AuthorizationMode,
  official_service,
}

-- `/^[a-z0-9][a-z0-9._-]{0,31}$/`
abbrev is_version_mark : ℕ → Bool
is_version_mark c = is_alphanumeric c || (c == b'.' || (c == b'_' || c == b'-'))

abbrev policy_version : List ℕ → Bool
policy_version [] = false
policy_version (c ∷ cs) = is_alphanumeric c && (leb (length cs) 31 && all is_version_mark cs)

unfoldable pub is_policy_version : String → Bool
is_policy_version text = policy_version (codes text)

-- `/^[A-Za-z0-9._:-]+$/`, with between 8 and 128 characters.
abbrev is_key_mark : ℕ → Bool
is_key_mark c = is_version_mark c || ((leb b'A' c && leb c b'Z') || c == b':')

unfoldable pub is_idempotency_key : String → Bool
is_idempotency_key text =
    leb 8 (text_length text) && (leb (text_length text) 128 && all is_key_mark (codes text))

-- `assertAuthorizationShape`.
unfoldable pub assert_authorization_shape :
    OfficialEventIntent → OfficialServiceAuthorization → Result HiveGatewayErrorCode (Unit {0})
assert_authorization_shape intent authorization =
    let n = text_length authorization.expected_public_key in
    let m = text_length authorization.signer_key_reference in
    if not (
      is_idempotency_key intent.idempotency_key
      && (is_policy_version intent.policy_version
          && (is_policy_version authorization.policy_version
              && (is_hive_account authorization.account
                  && ((leb 16 n && leb n 128) && (leb 1 m && leb m 256))))))
    then err invalid_authorization
    else if not (str_eq intent.policy_version authorization.policy_version)
    then err policy_denied
    else ok tt

-- `assertPayloadAccount`, as a test: a revocation names no account.
unfoldable pub payload_account_agrees : HiveChameleonEvent → String → Bool
payload_account_agrees (match_results_batch b) account = str_eq b.publisher account
payload_account_agrees (match_result_corrected c) account = str_eq c.publisher account
payload_account_agrees (match_result_invalidated i) account = str_eq i.publisher account
payload_account_agrees (collectible_issued i) account = str_eq i.issuer account
payload_account_agrees (collectible_revoked r) account = true

unfoldable pub assert_payload_account :
    HiveChameleonEvent → String → Result HiveGatewayErrorCode (Unit {0})
assert_payload_account event account =
    if not (payload_account_agrees event account) then err policy_denied else ok tt

abbrev pub expected_role : HiveChameleonEventFamily → OfficialServiceRole
expected_role match_family = match_publisher
expected_role collectible_family = collectible_issuer

abbrev pub is_official : AuthorizationMode → Bool
is_official official_service = true
is_official _ = false

abbrev pub operation_of : String → String → HiveCustomJsonOperation
operation_of account payload = record {
  required_auths = [];
  required_posting_auths = account ∷ [];
  id = application_id;
  json = payload;
}

-- `authorizeOfficialEvent`, past `assertAuthorizationShape`.
unfoldable pub authorize_shaped :
    Library
    → OfficialEventIntent
    → OfficialServiceAuthorization
    → Result HiveGatewayErrorCode (HiveCustomJsonOperation × String)
authorize_shaped lib intent authorization =
    if not (is_official authorization.mode) || not (same_authority authorization.authority posting)
    then err invalid_authorization
    else if not (same_role authorization.role (expected_role (event_family intent.event)))
    then err policy_denied
    else (assert_payload_account intent.event authorization.account >>=? λ _.
        serialize_hive_chameleon_event lib intent.event >>=? λ payload.
        ok (operation_of authorization.account payload, payload))

unfoldable pub authorize_official_event :
    Library
    → OfficialEventIntent
    → OfficialServiceAuthorization
    → Result HiveGatewayErrorCode (HiveCustomJsonOperation × String)
authorize_official_event lib intent authorization =
    assert_authorization_shape intent authorization >>=? λ _.
    authorize_shaped lib intent authorization

unfoldable pub text_items : List String → Items
text_items [] = nil
text_items (x ∷ xs) = cons (str x) (text_items xs)

abbrev pub operation_json : HiveCustomJsonOperation → Json
operation_json operation = obj (
    field "required_auths" (arr (text_items operation.required_auths)) (
      field "required_posting_auths" (arr (text_items operation.required_posting_auths))
        (field "id" (str operation.id) (field "json" (str operation.json) end))))

-- `canonicalCustomJsonOperation`.
unfoldable pub canonical_custom_json_operation :
    Library → HiveCustomJsonOperation → Result HiveGatewayErrorCode String
canonical_custom_json_operation lib operation = canonical_json lib (
    obj (field "type" (str "custom_json_operation") (field "value" (operation_json operation) end)))

-- `StaticOfficialSignerPolicy.entries`: its key joins the version, a null character and the role.
unfoldable pub policy_key_is : String → OfficialServiceRole → OfficialServiceAuthorization → Bool
policy_key_is version role a = str_eq a.policy_version version && same_role a.role role

-- `StaticOfficialSignerPolicy.resolve`.
unfoldable pub resolve :
    List OfficialServiceAuthorization
    → String
    → OfficialServiceRole
    → Option OfficialServiceAuthorization
resolve [] version role = none
resolve (a ∷ entries) version role =
    let rest = resolve entries version role in if policy_key_is version role a then some a else rest

-- The loop of the constructor: the entries are set one by one, a second one of a key refused.
unfoldable pub set_entries :
    List OfficialServiceAuthorization
    → List OfficialServiceAuthorization
    → Result HiveGatewayErrorCode (List OfficialServiceAuthorization)
set_entries entries [] = ok entries
set_entries entries (a ∷ rest) = elim (resolve entries a.policy_version a.role) [
  | some found ↦ err invalid_authorization
  | none ↦ set_entries (a ∷ entries) rest
]

unfoldable pub static_official_signer_policy :
    List OfficialServiceAuthorization
    → Result HiveGatewayErrorCode (List OfficialServiceAuthorization)
static_official_signer_policy [] = err invalid_authorization
static_official_signer_policy (a ∷ rest) = set_entries [] (a ∷ rest)
