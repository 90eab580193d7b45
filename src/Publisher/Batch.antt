-- ===== src/Publisher/Batch.antt =====
-- workers/match-publisher/src/batch-builder.ts, and the types of its model.ts and errors.ts:
-- `planMatchBatch`. A date is a number of milliseconds, `none` where it is invalid; the id provider
-- is given by the three ids it hands out.
pub mod Order
pub mod Plan
pub mod Withheld
pub mod Selection
use hive_chameleon.Prelude.{
  ℕ, suc, ◌+◌, ◌-◌, ◌*◌, ◌^◌, String, Bool, true, false, not, ◌&&◌, ◌||◌, Option, none, some, List,
  [], ◌∷◌, ◌++◌, map, ltb, leb, ◌==◌, str_eq, is_some, length, take, contains, if◌then◌else◌, min,
}
use hive_chameleon.Exec.{Result, ok, err, ◌>>=?◌}
use hive_chameleon.Gateway.Library.{Library, date_lt, date_eq, byte_length}
use hive_chameleon.Gateway.Protocol.Event.{MatchResult, MatchBatch, match_results_batch}
use hive_chameleon.Gateway.Protocol.Text.{is_uuid_v7}
use hive_chameleon.Gateway.Protocol.Codec.{HiveGatewayErrorCode, serialize_hive_chameleon_event}

pub data MatchPublisherErrorCode : Type 0 where
  configuration_invalid : MatchPublisherErrorCode
  database_unavailable : MatchPublisherErrorCode
  invalid_candidate : MatchPublisherErrorCode
  payload_too_large : MatchPublisherErrorCode
  publication_failed : MatchPublisherErrorCode

pub record MatchPublicationCandidate : Type 0 where
  pub publication_request_id : String
  pub result_revision_id : String
  pub round_id : String
  pub completed_at : String
  pub requested_at : String
  pub public_result : MatchResult

pub record FrozenMatchBatch : Type 0 where
  pub outbox_id : String
  pub event_id : String
  pub batch_id : String
  pub event : MatchBatch
  pub canonical_payload : String
  pub payload_sha256 : String
  pub payload_byte_count : ℕ
  pub publication_period_start : String
  pub publication_period_end : String
  pub candidates : List MatchPublicationCandidate

-- The ids are the next three of `nextUuidV7`.
pub record MatchBatchPolicy : Type 0 where
  pub publisher_account : String
  pub maximum_age_ms : ℕ
  pub maximum_results : ℕ
  pub maximum_payload_bytes : ℕ
  pub next_event_id : String
  pub next_batch_id : String
  pub next_outbox_id : String

-- `Date.prototype.toISOString`, and whether `localeCompare` gives a positive number.
pub record Platform : Type 0 where
  pub library : Library
  pub open library use *
  pub to_iso_string : ℕ → String
  pub locale_after : String → String → Bool

abbrev max_safe_integer : ℕ
max_safe_integer = 2 ^ 53 - 1

-- `validatePolicy`.
unfoldable pub validate_policy : MatchBatchPolicy → Result MatchPublisherErrorCode (Unit {0})
validate_policy policy =
    if ltb max_safe_integer policy.maximum_age_ms
      || (ltb policy.maximum_age_ms 1000
          || (ltb max_safe_integer policy.maximum_results
              || (ltb policy.maximum_results 1
                  || (ltb 20 policy.maximum_results
                      || (ltb max_safe_integer policy.maximum_payload_bytes
                          || (ltb policy.maximum_payload_bytes 512
                              || ltb (6 * 1024) policy.maximum_payload_bytes))))))
    then err configuration_invalid
    else ok tt

-- `checkedUuid`.
unfoldable pub checked_uuid : String → Result MatchPublisherErrorCode String
checked_uuid value = if not (is_uuid_v7 value) then err configuration_invalid else ok value

module _ (platform : Platform) where
  abbrev pub completion : MatchPublicationCandidate → Option ℕ
  completion candidate = platform.date_parse candidate.completed_at

  -- `compareCandidates(left, right) > 0`; a comparison with `NaN` counts as equal.
  unfoldable pub comes_after : MatchPublicationCandidate → MatchPublicationCandidate → Bool
  comes_after left right =
      date_lt (completion right) (completion left)
      || (date_eq (completion left) (completion right)
          && platform.locale_after left.round_id right.round_id)

  -- `Array.prototype.sort` is stable: an element goes before the first that it does not come after.
  unfoldable pub insert :
      MatchPublicationCandidate → List MatchPublicationCandidate → List MatchPublicationCandidate
  insert c [] = c ∷ []
  insert c (d ∷ ds) = let rest = insert c ds in if comes_after c d then d ∷ rest else c ∷ d ∷ ds

  unfoldable pub sort : List MatchPublicationCandidate → List MatchPublicationCandidate
  sort [] = []
  sort (c ∷ cs) = insert c (sort cs)

  -- The tests of `assertCandidates` on one candidate, at the time `now`.
  unfoldable pub is_inconsistent : ℕ → MatchPublicationCandidate → Bool
  is_inconsistent now candidate =
      not (is_some (completion candidate))
      || (date_lt (some now) (completion candidate)
          || (not (str_eq candidate.public_result.completed_at candidate.completed_at)
              || not (str_eq candidate.public_result.round_id candidate.round_id)))

  -- `assertCandidates`, from the sets of the ids seen.
  unfoldable pub assert_candidates :
      ℕ
      → List String
      → List String
      → List MatchPublicationCandidate
      → Result MatchPublisherErrorCode (Unit {0})
  assert_candidates now round_ids request_ids [] = ok tt
  assert_candidates now round_ids request_ids (c ∷ cs) =
      let rest =
        assert_candidates now (c.round_id ∷ round_ids) (c.publication_request_id ∷ request_ids)
          cs in
      if is_inconsistent now c
      then err invalid_candidate
      else if contains round_ids c.round_id || contains request_ids c.publication_request_id
      then err invalid_candidate
      else rest

-- What a batch has before its results are chosen.
pub record BatchFrame : Type 0 where
  pub publisher : String
  pub event_id : String
  pub batch_id : String
  pub occurred_at : String
  pub period_start : String
  pub period_end : String

abbrev pub create_event : BatchFrame → List MatchPublicationCandidate → MatchBatch
create_event frame candidates = record {
  event_id = frame.event_id;
  occurred_at = frame.occurred_at;
  batch_id = frame.batch_id;
  period_start = frame.period_start;
  period_end = frame.period_end;
  publisher = frame.publisher;
  result_count = length candidates;
  results = map (λ c. c.public_result) candidates;
}

-- The variables of the loop of `planMatchBatch`.
pub record Selected : Type 0 where
  pub selected : List MatchPublicationCandidate
  pub selected_payload : String
  pub selected_event : Option MatchBatch
  pub payload_limit_reached : Bool

abbrev pub nothing_selected : Selected
nothing_selected = record {
  selected = [];
  selected_payload = "";
  selected_event = none;
  payload_limit_reached = false;
}

module _ (lib : Library) (maximum_payload_bytes : ℕ) (frame : BatchFrame) where
  -- A limit on the payload ends the loop, and refuses a single result.
  unfoldable pub reach_payload_limit : Selected → Result MatchPublisherErrorCode Selected
  reach_payload_limit s =
      if length s.selected == 0
      then err payload_too_large
      else ok (record s { payload_limit_reached = true })

  unfoldable pub refuse : HiveGatewayErrorCode → Selected → Result MatchPublisherErrorCode Selected
  refuse HiveGatewayErrorCode.payload_too_large s = reach_payload_limit s
  refuse _ s = err invalid_candidate

  -- `serializeHiveChameleonEvent(event)` has answered: go on with the payload, or end the loop.
  unfoldable pub attend :
      Selected
      → (String → Result MatchPublisherErrorCode Selected)
      → Result HiveGatewayErrorCode String
      → Result MatchPublisherErrorCode Selected
  attend s next (err code) = refuse code s
  attend s next (ok payload) =
      if ltb maximum_payload_bytes (byte_length payload)
      then reach_payload_limit s
      else next payload

  abbrev pub extend : Selected → MatchPublicationCandidate → String → Selected
  extend s candidate payload = record s {
    selected = s.selected ++ candidate ∷ [];
    selected_payload = payload;
    selected_event = some (create_event frame (s.selected ++ candidate ∷ []));
  }

  -- The `for` loop.
  unfoldable pub select :
      List MatchPublicationCandidate → Selected → Result MatchPublisherErrorCode Selected
  select [] s = ok s
  select (candidate ∷ rest) s =
      attend s (λ payload. select rest (extend s candidate payload))
        (serialize_hive_chameleon_event lib
          (match_results_batch (create_event frame (s.selected ++ candidate ∷ []))))

module _ (platform : Platform) (policy : MatchBatchPolicy) where
  -- The completion of the last candidate that a batch could hold, `default` where there is none.
  unfoldable pub last_completion : String → List MatchPublicationCandidate → String
  last_completion default [] = default
  last_completion default (c ∷ cs) = last_completion c.completed_at cs

  -- `periodEndDate`: strictly after every completion.
  unfoldable pub period_end_date : ℕ → Option ℕ → ℕ
  period_end_date now none = now
  period_end_date now (some latest) = if ltb latest now then now else latest + 1

  abbrev pub frame_of : ℕ → MatchPublicationCandidate → List MatchPublicationCandidate → BatchFrame
  frame_of now first rest = record {
    publisher = policy.publisher_account;
    event_id = policy.next_event_id;
    batch_id = policy.next_batch_id;
    occurred_at = platform.to_iso_string now;
    period_start = first.completed_at;
    period_end = platform.to_iso_string (
        period_end_date now (
          platform.date_parse
            (last_completion first.completed_at (take policy.maximum_results (first ∷ rest)))));
  }

  -- `ageLimitReached`.
  unfoldable pub age_limit_reached : ℕ → Option ℕ → Bool
  age_limit_reached now none = false
  age_limit_reached now (some oldest) = leb (policy.maximum_age_ms + oldest) now

  abbrev frozen : BatchFrame → Selected → MatchBatch → FrozenMatchBatch
  frozen frame s event = record {
    outbox_id = policy.next_outbox_id;
    event_id = frame.event_id;
    batch_id = frame.batch_id;
    event = event;
    canonical_payload = s.selected_payload;
    payload_sha256 = platform.sha256_hex s.selected_payload;
    payload_byte_count = byte_length s.selected_payload;
    publication_period_start = frame.period_start;
    publication_period_end = frame.period_end;
    candidates = s.selected;
  }

  -- After the loop.
  unfoldable pub freeze :
      BatchFrame → Bool → Selected → Result MatchPublisherErrorCode (Option FrozenMatchBatch)
  freeze frame aged s = elim s.selected_event [
    | none ↦ err invalid_candidate
    | some event ↦
        if str_eq s.selected_payload ""
        then err invalid_candidate
        else if not aged
            && (not (length s.selected == policy.maximum_results) && not s.payload_limit_reached)
        then ok none
        else ok (some (frozen frame s event))
  ]

  -- From the sorted candidates on.
  unfoldable pub plan_ordered :
      ℕ → List MatchPublicationCandidate → Result MatchPublisherErrorCode (Option FrozenMatchBatch)
  plan_ordered now [] = ok none
  plan_ordered now (first ∷ rest) =
      let frame = frame_of now first rest in
      assert_candidates platform now [] [] (first ∷ rest) >>=? λ _.
      checked_uuid policy.next_event_id >>=? λ _. checked_uuid policy.next_batch_id >>=? λ _.
      checked_uuid policy.next_outbox_id >>=? λ _.
      select platform.library policy.maximum_payload_bytes frame
        (take policy.maximum_results (first ∷ rest)) nothing_selected
      >>=? freeze frame (age_limit_reached now (completion platform first))

  -- The clock is read once.
  unfoldable pub plan_at :
      Option ℕ
      → List MatchPublicationCandidate
      → Result MatchPublisherErrorCode (Option FrozenMatchBatch)
  plan_at none candidates = err invalid_candidate
  plan_at (some now) candidates = plan_ordered now (sort platform candidates)

  unfoldable pub plan_match_batch :
      List MatchPublicationCandidate
      → Option ℕ
      → Result MatchPublisherErrorCode (Option FrozenMatchBatch)
  plan_match_batch candidates now = validate_policy policy >>=? λ _. plan_at now candidates
