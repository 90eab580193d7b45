-- ===== src/Publisher/Tests.antt =====
-- The planning of a batch at concrete inputs: two rounds, given in the wrong order.
use mathlib.Core.List.{Perm}
use hive_chameleon.Prelude.{ℕ, false, ◌≡◌, refl, none, some, [], ◌∷◌}
use hive_chameleon.Exec.{ok}
use hive_chameleon.Gateway.Json.{str}
use hive_chameleon.Gateway.Protocol.Text.{
  is_uuid_v7, is_controlled_code, is_sha256, is_fixed_score, is_hive_account, split_dots,
  account_segment,
}
use hive_chameleon.Gateway.Protocol.Check.{
  valid_event, valid_batch, valid_result, valid_result_fields, valid_tournament_id, refined_result,
  refined_batch, inside_period, are_ordered, out_of_order, are_unique, set_size, context_agrees,
  side_agrees, codes_lt, utf16_length,
}
use hive_chameleon.Gateway.Protocol.Codec.{
  serialize_hive_chameleon_event, assert_payload_size, check_event, canonical_json,
}
use hive_chameleon.Gateway.Tests.{id_1, id_2, noon, one, two, small, round_one, round_two}
use hive_chameleon.Publisher.Batch.{
  MatchPublicationCandidate, MatchBatchPolicy, Platform, FrozenMatchBatch, plan_match_batch,
  plan_at, plan_ordered, validate_policy, checked_uuid, sort, insert, comes_after, is_inconsistent,
  assert_candidates, select, attend, refuse, reach_payload_limit, freeze, last_completion,
  period_end_date, age_limit_reached, create_event,
}
use hive_chameleon.Publisher.Batch.Order.{IsOrdered, sort-IsOrdered}
use hive_chameleon.Publisher.Batch.Plan.{IsPlanned, plan_match_batch-IsPlanned}
use hive_chameleon.Publisher.Batch.Withheld.{IsWithheld, plan_match_batch-IsWithheld}

abbrev pub platform : Platform
platform = record {
  library = record small { to_json = λ event. str "batch" };
  to_iso_string = λ n. two;
  locale_after = λ a b. false;
}

abbrev first : MatchPublicationCandidate
first = record {
  publication_request_id = id_1;
  result_revision_id = id_1;
  round_id = id_1;
  completed_at = noon;
  requested_at = noon;
  public_result = round_one;
}

abbrev second : MatchPublicationCandidate
second = record {
  publication_request_id = id_2;
  result_revision_id = id_2;
  round_id = id_2;
  completed_at = one;
  requested_at = one;
  public_result = round_two;
}

abbrev pub policy : ℕ → MatchBatchPolicy
policy maximum = record {
  publisher_account = "hive.chameleon";
  maximum_age_ms = 86400000;
  maximum_results = maximum;
  maximum_payload_bytes = 6144;
  next_event_id = id_1;
  next_batch_id = id_2;
  next_outbox_id = id_1;
}

abbrev planned : FrozenMatchBatch
planned = record {
  outbox_id = id_1;
  event_id = id_1;
  batch_id = id_2;
  event =
      create_event
        (record {
          publisher = "hive.chameleon";
          event_id = id_1;
          batch_id = id_2;
          occurred_at = two;
          period_start = noon;
          period_end = two;
        })
        (first ∷ second ∷ []);
  canonical_payload = "batch";
  payload_sha256 = platform.sha256_hex "batch";
  payload_byte_count = 5;
  publication_period_start = noon;
  publication_period_end = two;
  candidates = first ∷ second ∷ [];
}

full :
    plan_match_batch platform (policy 2) (second ∷ first ∷ []) (some 50400000) ≡ ok (some planned)
unfolding plan_match_batch plan_at plan_ordered validate_policy checked_uuid sort insert comes_after
    is_inconsistent assert_candidates select attend refuse reach_payload_limit freeze
    last_completion period_end_date age_limit_reached serialize_hive_chameleon_event
    assert_payload_size check_event canonical_json valid_event valid_batch valid_result
    valid_result_fields valid_tournament_id refined_result refined_batch inside_period are_ordered
    out_of_order are_unique set_size context_agrees side_agrees codes_lt utf16_length is_uuid_v7
    is_controlled_code is_sha256 is_fixed_score is_hive_account split_dots account_segment
full = refl

waiting : plan_match_batch platform (policy 3) (second ∷ first ∷ []) (some 50400000) ≡ ok none
unfolding plan_match_batch plan_at plan_ordered validate_policy checked_uuid sort insert comes_after
    is_inconsistent assert_candidates select attend refuse reach_payload_limit freeze
    last_completion period_end_date age_limit_reached serialize_hive_chameleon_event
    assert_payload_size check_event canonical_json valid_event valid_batch valid_result
    valid_result_fields valid_tournament_id refined_result refined_batch inside_period are_ordered
    out_of_order are_unique set_size context_agrees side_agrees codes_lt utf16_length is_uuid_v7
    is_controlled_code is_sha256 is_fixed_score is_hive_account split_dots account_segment
waiting = refl

plan_match_batch-IsPlanned_example : IsPlanned platform (policy 2) (second ∷ first ∷ []) planned
plan_match_batch-IsPlanned_example =
    plan_match_batch-IsPlanned platform (policy 2) (second ∷ first ∷ []) (some 50400000) planned
      full

plan_match_batch-IsWithheld_example : IsWithheld platform (policy 3) 50400000 (second ∷ first ∷ [])
plan_match_batch-IsWithheld_example =
    plan_match_batch-IsWithheld platform (policy 3) (second ∷ first ∷ []) 50400000 waiting

sort-IsOrdered_example :
    IsOrdered platform (sort platform (second ∷ first ∷ []))
    × Perm (second ∷ first ∷ []) (sort platform (second ∷ first ∷ []))
sort-IsOrdered_example = sort-IsOrdered platform (second ∷ first ∷ []) (λ a b h. refl)
