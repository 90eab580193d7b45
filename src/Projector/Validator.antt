-- ===== src/Projector/Validator.antt =====
-- workers/haf-projector/src/validation/operation-validator.ts: `HiveOperationValidator`.
pub mod Laws
pub mod Published
pub mod Tests
use hive_chameleon.Prelude.{
  ℕ, ◌+◌, ◌*◌, String, Bool, true, false, not, ◌&&◌, ◌||◌, Option, none, some, List, [], ◌∷◌,
  str_eq, ◌==◌, length, contains, if◌then◌else◌, all,
}
use hive_chameleon.Exec.{Result, ok, err}
use hive_chameleon.Gateway.Json.{
  Json, null, bool, num, str, arr, obj, Items, nil, cons, Fields, end, field, get_field,
}
use hive_chameleon.Gateway.Library.{Library, date_lt}
use hive_chameleon.Gateway.Protocol.Event.{
  HiveChameleonEvent, match_results_batch, match_result_corrected, match_result_invalidated,
  collectible_issued, collectible_revoked, occurred_at,
}
use hive_chameleon.Gateway.Protocol.Text.{is_hive_account}
use hive_chameleon.Gateway.Protocol.Codec.{
  HiveGatewayErrorCode, application_id, parse_hive_chameleon_event, invalid_authorization,
  invalid_event, invalid_operation, invalid_signature, idempotency_conflict,
  idempotency_unavailable, non_canonical_payload, payload_too_large, policy_denied,
  signer_unavailable, signer_mismatch, transaction_mismatch,
}
use hive_chameleon.Projector.Model.{
  HafBlock, HafOperation, OperationDecision, RawOperationEvidence, RequiredAuthority, active,
  posting, accepted, rejected,
}

pub record HiveEventValidationPolicy : Type 0 where
  pub match_publishers : List String
  pub collectible_issuers : List String
  pub maximum_future_clock_skew_ms : Option ℕ

-- The default of the constructor.
abbrev pub skew_of : Option ℕ → ℕ
skew_of none = 5 * 60 * 1000
skew_of (some ms) = ms

-- What `customJsonSchema` reads.
pub record CustomJson : Type 0 where
  pub required_auths : List String
  pub required_posting_auths : List String
  pub id : String
  pub json : String

-- `z.array(hiveAccountSchema)`.
unfoldable pub read_accounts : Items → Option (List String)
read_accounts nil = some []
read_accounts (cons (str account) rest) = elim (read_accounts rest) [
  | none ↦ none
  | some accounts ↦ if is_hive_account account then some (account ∷ accounts) else none
]
read_accounts (cons _ rest) = none

unfoldable pub read_account_array : Option Json → Option (List String)
read_account_array (some (arr items)) = read_accounts items
read_account_array _ = none

unfoldable pub read_text : Option Json → Option String
read_text (some (str text)) = some text
read_text _ = none

abbrev is_custom_json_key : String → Bool
is_custom_json_key key =
    contains ("required_auths" ∷ "required_posting_auths" ∷ "id" ∷ "json" ∷ []) key

-- `z.strictObject` refuses other keys.
unfoldable pub strict_keys : Fields → Bool
strict_keys end = true
strict_keys (field key value rest) = is_custom_json_key key && strict_keys rest

abbrev pub custom_json_of :
    Option (List String) → Option (List String) → Option String → Option String → Option CustomJson
custom_json_of (some auths) (some posting_auths) (some id) (some json) = some (record {
  required_auths = auths;
  required_posting_auths = posting_auths;
  id = id;
  json = json;
})
custom_json_of _ _ _ _ = none

-- `customJsonSchema.safeParse`.
unfoldable pub read_custom_json : Json → Option CustomJson
read_custom_json (obj fields) =
    if strict_keys fields
    then custom_json_of (read_account_array (get_field fields "required_auths"))
        (read_account_array (get_field fields "required_posting_auths"))
        (read_text (get_field fields "id")) (read_text (get_field fields "json"))
    else none
read_custom_json _ = none

abbrev pub is_application_id : Option String → Bool
is_application_id none = false
is_application_id (some id) = str_eq id application_id

-- `customJsonNamespaceSchema.safeParse`, and the test of the id.
unfoldable pub in_namespace : Json → Bool
in_namespace (obj fields) = is_application_id (read_text (get_field fields "id"))
in_namespace _ = false

-- `primaryAccount`.
unfoldable pub primary_account : List String → List String → String
primary_account (account ∷ rest) auths = account
primary_account [] (account ∷ rest) = account
primary_account [] [] = "unknown"

unfoldable pub required_authority : List String → List String → Option RequiredAuthority
required_authority (account ∷ rest) auths = some posting
required_authority [] (account ∷ rest) = some active
required_authority [] [] = none

abbrev pub evidence_of :
    HafOperation → HafBlock → String → Option RequiredAuthority → String → RawOperationEvidence
evidence_of operation block account authority id = record {
  source_operation_id = operation.source_operation_id;
  transaction_id = operation.transaction_id;
  operation_index = operation.operation_index;
  is_virtual = operation.is_virtual;
  block_number = operation.block_number;
  block_id = block.id;
  block_timestamp = block.timestamp;
  operation_type = operation.operation_type;
  primary_account = account;
  required_authority = authority;
  application_id = some id;
  payload = operation.value;
}

-- `buildMalformedEvidence`.
abbrev pub build_malformed_evidence : HafOperation → HafBlock → RawOperationEvidence
build_malformed_evidence operation block = evidence_of operation block "unknown" none application_id

-- `error.code`.
abbrev pub code_text : HiveGatewayErrorCode → String
code_text invalid_authorization = "invalid_authorization"
code_text invalid_event = "invalid_event"
code_text invalid_operation = "invalid_operation"
code_text invalid_signature = "invalid_signature"
code_text idempotency_conflict = "idempotency_conflict"
code_text idempotency_unavailable = "idempotency_unavailable"
code_text non_canonical_payload = "non_canonical_payload"
code_text payload_too_large = "payload_too_large"
code_text policy_denied = "policy_denied"
code_text signer_unavailable = "signer_unavailable"
code_text signer_mismatch = "signer_mismatch"
code_text transaction_mismatch = "transaction_mismatch"

abbrev pub reject : RawOperationEvidence → String → OperationDecision
reject evidence reason = record {
  evidence = evidence;
  validation_state = rejected;
  rejection_reason = some reason;
  event = none;
}

abbrev pub accept : RawOperationEvidence → HiveChameleonEvent → OperationDecision
accept evidence event = record {
  evidence = evidence;
  validation_state = accepted;
  rejection_reason = none;
  event = some event;
}

-- `Date.parse(timestamp) + skew`.
abbrev pub later_by : ℕ → Option ℕ → Option ℕ
later_by skew none = none
later_by skew (some time) = some (time + skew)

module _ (lib : Library) (policy : HiveEventValidationPolicy) where
  unfoldable pub is_signer_allowed : HiveChameleonEvent → String → Bool
  is_signer_allowed (match_results_batch b) signer =
      contains policy.match_publishers signer && str_eq b.publisher signer
  is_signer_allowed (match_result_corrected c) signer =
      contains policy.match_publishers signer && str_eq c.publisher signer
  is_signer_allowed (match_result_invalidated i) signer =
      contains policy.match_publishers signer && str_eq i.publisher signer
  is_signer_allowed (collectible_issued i) signer =
      contains policy.collectible_issuers signer && str_eq i.issuer signer
  is_signer_allowed (collectible_revoked r) signer = contains policy.collectible_issuers signer

  -- From the parse of the payload on.
  unfoldable pub judge :
      RawOperationEvidence
      → HafBlock
      → String
      → Result HiveGatewayErrorCode HiveChameleonEvent
      → OperationDecision
  judge evidence block signer (err code) = reject evidence (code_text code)
  judge evidence block signer (ok event) =
      if not (is_signer_allowed event signer)
      then reject evidence "signer_not_allowed"
      else if date_lt
          (later_by (skew_of policy.maximum_future_clock_skew_ms) (lib.date_parse block.timestamp))
          (lib.date_parse (occurred_at event))
      then reject evidence "future_event_timestamp"
      else accept evidence event

  -- From the test of the authorities on: a single posting authority and nothing else.
  unfoldable pub judge_authorities :
      HafOperation → HafBlock → RawOperationEvidence → CustomJson → OperationDecision
  judge_authorities operation block evidence parsed = elim parsed.required_posting_auths [
    | [] ↦ reject evidence "unexpected_authority"
    | signer ∷ more ↦
        if operation.is_virtual
          || (not (length parsed.required_auths == 0) || not (length more == 0))
        then reject evidence "unexpected_authority"
        else judge evidence block signer (parse_hive_chameleon_event lib parsed.json)
  ]

  unfoldable pub judge_custom_json : HafOperation → HafBlock → Option CustomJson → OperationDecision
  judge_custom_json operation block none =
      reject (build_malformed_evidence operation block) "invalid_operation"
  judge_custom_json operation block (some parsed) =
      judge_authorities operation block
        (evidence_of operation block
          (primary_account parsed.required_posting_auths parsed.required_auths)
          (required_authority parsed.required_posting_auths parsed.required_auths) parsed.id)
        parsed

  unfoldable pub validate : HafOperation → HafBlock → Option OperationDecision
  validate operation block =
      if not (str_eq operation.operation_type "custom_json_operation")
      then none
      else if not (in_namespace operation.value)
      then none
      else some (judge_custom_json operation block (read_custom_json operation.value))
