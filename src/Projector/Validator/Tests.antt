-- ===== src/Projector/Validator/Tests.antt =====
-- The validation of operations, and an operation that a fork brings back, at concrete inputs.
use hive_chameleon.Prelude.{List, true, false, ◌≡◌, refl, none, some, [], ◌∷◌}
use hive_chameleon.Exec.{err}
use hive_chameleon.Gateway.Json.{str, arr, obj, nil, cons, end, field, get_field}
use hive_chameleon.Gateway.Protocol.Event.{collectible_revoked}
use hive_chameleon.Gateway.Protocol.Text.{
  is_uuid_v7, is_controlled_code, is_hive_account, split_dots, account_segment,
}
use hive_chameleon.Gateway.Protocol.Check.{valid_event, valid_revoked}
use hive_chameleon.Gateway.Protocol.Codec.{
  parse_hive_chameleon_event, assert_payload_size, parse_json, check_shape, check_event,
  canonical_json, application_id,
}
use hive_chameleon.Gateway.Library.{date_lt}
use hive_chameleon.Gateway.Policy.{operation_json, text_items}
use hive_chameleon.Gateway.Tests.{
  small, small-IsLibrary, revocation, noon, intent, issuer, authorized, operation as custom_json,
}
use hive_chameleon.Projector.Model.{
  HafBlock, HafOperation, OperationDecision, posting, included, projector_error, cursor_conflict,
}
use hive_chameleon.Projector.InMemory.{InMemoryProjectionStore, is_stored, apply_block}
use hive_chameleon.Projector.InMemory.Reinclusion.{
  StoreStep, reverts, after_steps, count_stored, apply_block-after_steps,
}
use hive_chameleon.Projector.Validator.{
  HiveEventValidationPolicy, validate, judge_custom_json, judge_authorities, judge,
  is_signer_allowed, read_custom_json, in_namespace, read_text, read_accounts, read_account_array,
  strict_keys, primary_account, required_authority, evidence_of, accept,
}
use hive_chameleon.Projector.Validator.{skew_of, later_by}
use hive_chameleon.Projector.Validator.Published.{authorize_official_event-validate}
use hive_chameleon.Projector.Validator.Laws.{IsAcceptable, validate-IsAcceptable}
use hive_chameleon.Prelude.{find}

abbrev policy : HiveEventValidationPolicy
policy = record {
  match_publishers = "hive.publisher" ∷ [];
  collectible_issuers = "hive.issuer" ∷ [];
  maximum_future_clock_skew_ms = none;
}

abbrev block : HafBlock
block = record { number = 7; id = "a7"; previous_id = "a6"; timestamp = noon }

abbrev operation : HafOperation
operation = record {
  source_operation_id = "7-0";
  transaction_id = some "tx";
  operation_index = 0;
  is_virtual = false;
  block_number = 7;
  timestamp = noon;
  operation_type = "custom_json_operation";
  value = obj (
      field "required_auths" (arr nil) (
        field "required_posting_auths" (arr (cons (str "hive.issuer") nil))
          (field "id" (str "hive.chameleon") (field "json" (str "revocation") end))));
}

abbrev decision : OperationDecision
decision =
    accept (evidence_of operation block "hive.issuer" (some posting) "hive.chameleon")
      (collectible_revoked revocation)

validated : validate small policy operation block ≡ some decision
unfolding validate judge_custom_json judge_authorities judge is_signer_allowed read_custom_json
    in_namespace read_text read_accounts read_account_array strict_keys primary_account
    required_authority get_field parse_hive_chameleon_event assert_payload_size parse_json
    check_shape check_event canonical_json valid_event valid_revoked is_uuid_v7 is_controlled_code
    is_hive_account split_dots account_segment
validated = refl

validate-IsAcceptable_example :
    IsAcceptable small policy operation block (collectible_revoked revocation)
validate-IsAcceptable_example =
    validate-IsAcceptable small policy operation block decision (collectible_revoked revocation)
      validated refl

-- A store that holds the operation.
abbrev holding : InMemoryProjectionStore
holding = record {
  checkpoints = [];
  operations =
      record {
        decision = decision;
        source = "fixture";
        state = included;
        irreversible_at = none;
        reverted_at = none;
      }
      ∷ [];
  cursors = [];
}

held : is_stored decision holding ≡ true
unfolding is_stored find
held = refl

-- The store goes back, and the operation comes again after another one.
abbrev forked : List StoreStep
forked = reverts "fixture" 6 "now" ∷ []

abbrev other_decision : OperationDecision
other_decision = record decision {
  evidence = record decision.evidence { source_operation_id = "other" };
}

apply_block-after_steps_example :
    ((apply_block "fixture" block
        (other_decision ∷ decision ∷ [])
        "later"
        (after_steps forked holding)).0
      ≡ err (projector_error cursor_conflict))
    × ((apply_block "fixture" block
          (other_decision ∷ decision ∷ [])
          "later"
          (after_steps forked holding)).1.cursors
        ≡ (after_steps forked holding).cursors)
    × (count_stored decision.evidence.source_operation_id
          (apply_block "fixture" block
            (other_decision ∷ decision ∷ [])
            "later"
            (after_steps forked holding)).1.operations
        ≡ count_stored decision.evidence.source_operation_id holding.operations)
apply_block-after_steps_example =
    apply_block-after_steps decision holding forked "fixture" block (other_decision ∷ []) [] "later"
      held

-- The operation shows the one that the gateway built.
shown : operation.value ≡ operation_json custom_json
unfolding text_items
shown = refl

timely : date_lt (later_by (skew_of none) (small.date_parse noon)) (small.date_parse noon) ≡ false
timely = refl

authorize_official_event-validate_example :
    validate small policy operation block
    ≡ some (
        accept
          (evidence_of operation block "hive.issuer" (some posting) application_id)
          (collectible_revoked revocation))
authorize_official_event-validate_example =
    authorize_official_event-validate small small-IsLibrary intent issuer custom_json "revocation"
      policy operation block authorized refl shown refl refl timely
