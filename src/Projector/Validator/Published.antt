-- ===== src/Projector/Validator/Published.antt =====
-- What the gateway publishes is what the projector accepts: packages/hive-gateway/src/policy.ts
-- and workers/haf-projector/src/validation/operation-validator.ts.
use hive_chameleon.Prelude.{
  String, true, false, ◌≡◌, refl, ap, ◌∙◌, arith, some, [], ◌∷◌, str_eq, eq_refl, contains,
}
use hive_chameleon.Exec.{ok}
use hive_chameleon.Gateway.Json.{get_field}
use hive_chameleon.Gateway.Library.{Library, IsLibrary, date_lt}
use hive_chameleon.Gateway.Protocol.Event.{
  HiveChameleonEvent, match_results_batch, match_result_corrected, match_result_invalidated,
  collectible_issued, collectible_revoked, occurred_at,
}
use hive_chameleon.Gateway.Protocol.Text.{is_hive_account}
use hive_chameleon.Gateway.Protocol.Codec.{parse_hive_chameleon_event, application_id}
use hive_chameleon.Gateway.Protocol.Codec.Roundtrip.{bind_ok, serialize-parse}
use hive_chameleon.Gateway.Contracts.{
  OfficialServiceAuthorization, OfficialEventIntent, HiveCustomJsonOperation,
}
use hive_chameleon.Gateway.Policy.{
  authorize_official_event, assert_authorization_shape, operation_json, operation_of, text_items,
  payload_account_agrees,
}
use hive_chameleon.Gateway.Policy.Laws.{authorize_official_event-IsAuthorized, IsNamed-agrees}
use hive_chameleon.Projector.Model.{HafBlock, HafOperation, posting}
use hive_chameleon.Projector.Validator.{
  HiveEventValidationPolicy, CustomJson, skew_of, later_by, read_custom_json, in_namespace,
  is_signer_allowed, judge, judge_authorities, judge_custom_json, validate, accept, evidence_of,
  read_text, read_accounts, read_account_array, strict_keys, primary_account, required_authority,
}

shape-account :
    (intent : OfficialEventIntent) (authorization : OfficialServiceAuthorization) (u : Unit)
    → assert_authorization_shape intent authorization ≡ ok u
    → is_hive_account authorization.account ≡ true
unfolding assert_authorization_shape
shape-account intent authorization u h = ground arith

-- The lists of the projector's policy name the account for the event's family.
abbrev pub IsListed : HiveEventValidationPolicy → HiveChameleonEvent → String → Type 0
IsListed policy (match_results_batch b) account = contains policy.match_publishers account ≡ true
IsListed policy (match_result_corrected c) account = contains policy.match_publishers account ≡ true
IsListed policy (match_result_invalidated i) account =
    contains policy.match_publishers account ≡ true
IsListed policy (collectible_issued i) account = contains policy.collectible_issuers account ≡ true
IsListed policy (collectible_revoked r) account = contains policy.collectible_issuers account ≡ true

allowed :
    (lib : Library) (policy : HiveEventValidationPolicy) (event : HiveChameleonEvent)
    (account : String)
    → payload_account_agrees event account ≡ true
    → IsListed policy event account
    → is_signer_allowed lib policy event account ≡ true
unfolding payload_account_agrees is_signer_allowed
allowed lib policy (match_results_batch b) account h k = ground (arith, h, k)
allowed lib policy (match_result_corrected c) account h k = ground (arith, h, k)
allowed lib policy (match_result_invalidated i) account h k = ground (arith, h, k)
allowed lib policy (collectible_issued i) account h k = ground (arith, h, k)
allowed lib policy (collectible_revoked r) account h k = k

abbrev pub carried : String → String → CustomJson
carried account payload = record {
  required_auths = [];
  required_posting_auths = account ∷ [];
  id = application_id;
  json = payload;
}

-- The operation as the chain shows it is read back.
read_custom_json-operation_json :
    (account payload : String)
    → is_hive_account account ≡ true
    → read_custom_json (operation_json (operation_of account payload))
      ≡ some (carried account payload)
unfolding read_custom_json read_account_array read_accounts read_text strict_keys get_field
    text_items
read_custom_json-operation_json account payload h = rw h refl

in_namespace-operation_json :
    (account payload : String) → in_namespace (operation_json (operation_of account payload)) ≡ true
unfolding in_namespace read_text get_field text_items
in_namespace-operation_json account payload = refl

judged :
    (lib : Library) (policy : HiveEventValidationPolicy) (operation : HafOperation)
    (block : HafBlock) (account payload : String) (event : HiveChameleonEvent)
    → operation.is_virtual ≡ false
    → parse_hive_chameleon_event lib payload ≡ ok event
    → is_signer_allowed lib policy event account ≡ true
    → date_lt
        (later_by (skew_of policy.maximum_future_clock_skew_ms) (lib.date_parse block.timestamp))
        (lib.date_parse (occurred_at event))
      ≡ false
    → judge_custom_json lib policy operation block (some (carried account payload))
      ≡ accept (evidence_of operation block account (some posting) application_id) event
unfolding judge_custom_json judge_authorities judge primary_account required_authority
judged lib policy operation block account payload event real parses trusted timely =
    rw (real, parses, trusted, timely) refl

validate-judge :
    (lib : Library) (policy : HiveEventValidationPolicy) (operation : HafOperation)
    (block : HafBlock) (parsed : CustomJson)
    → operation.operation_type ≡ "custom_json_operation"
    → in_namespace operation.value ≡ true
    → read_custom_json operation.value ≡ some parsed
    → validate lib policy operation block
      ≡ some (judge_custom_json lib policy operation block (some parsed))
unfolding validate
validate-judge lib policy operation block parsed custom inside reads =
    let same : str_eq operation.operation_type "custom_json_operation" ≡ true =
      ap (λ t. str_eq t "custom_json_operation") custom ∙ eq_refl "custom_json_operation" in
    rw (same, inside, reads) refl

-- An event that the gateway authorizes is accepted by every projector that lists the account for
-- the event's family: where the chain shows the gateway's operation as a real custom_json operation
-- and the event is not dated past the block's allowed skew, the projector's decision is to accept
-- that very event, signed by the posting authority of that account.
pub authorize_official_event-validate :
    (lib : Library)
    → IsLibrary lib
    → (intent : OfficialEventIntent) (authorization : OfficialServiceAuthorization)
      (custom_json : HiveCustomJsonOperation) (payload : String)
      (policy : HiveEventValidationPolicy) (operation : HafOperation) (block : HafBlock)
    → authorize_official_event lib intent authorization ≡ ok (custom_json, payload)
    → operation.operation_type ≡ "custom_json_operation"
    → operation.value ≡ operation_json custom_json
    → operation.is_virtual ≡ false
    → IsListed policy intent.event authorization.account
    → date_lt
        (later_by (skew_of policy.maximum_future_clock_skew_ms) (lib.date_parse block.timestamp))
        (lib.date_parse (occurred_at intent.event))
      ≡ false
    → validate lib policy operation block
      ≡ some (
          accept
            (evidence_of operation block authorization.account (some posting) application_id)
            intent.event)
unfolding authorize_official_event
authorize_official_event-validate lib laws intent authorization custom_json payload policy operation
      block h custom shown real listed timely =
    let (u, shaped, rest) = bind_ok (assert_authorization_shape intent authorization) _ _ h in
    let account_form = shape-account intent authorization u shaped in
    let ok_event =
      authorize_official_event-IsAuthorized lib intent authorization custom_json payload h in
    let account = authorization.account in
    let value : operation.value ≡ operation_json (operation_of account payload) =
      shown ∙ ap operation_json ok_event.operates in
    let parses = (serialize-parse lib laws intent.event payload).0 ok_event.serialized in
    let trusts =
      allowed lib policy intent.event account (IsNamed-agrees intent.event account ok_event.account)
        listed in
    let reads =
      ap read_custom_json value ∙ read_custom_json-operation_json account payload account_form in
    let inside = ap in_namespace value ∙ in_namespace-operation_json account payload in
    let judgement =
      judged lib policy operation block account payload intent.event real parses trusts timely in
    validate-judge lib policy operation block _ custom inside reads ∙ ap some judgement
