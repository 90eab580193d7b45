-- ===== src/Gateway/Tests.antt =====
-- The gateway at concrete inputs: a small platform, a revocation, and a signer boundary with the
-- fixture ledger.
use hive_chameleon.Prelude.{
  ℕ, String, Bool, true, false, ◌&&◌, ◌≡◌, ◌≤◌, refl, sym, ap, subst, arith, Option, none, some, [],
  ◌∷◌, str_eq, eq_iff, is_some, if◌then◌else◌, Bool-cases, inl, inr,
}
use hive_chameleon.Exec.{ok}
use hive_chameleon.Gateway.Json.{Json, null, str, obj}
use hive_chameleon.Gateway.Library.{Library, IsLibrary, byte_length}
use hive_chameleon.Gateway.Protocol.Event.{
  HiveChameleonEvent, match_results_batch, match_result_corrected, match_result_invalidated,
  collectible_issued, collectible_revoked, CollectibleRevoked, MatchBatch, MatchResult, normal,
  casual, hiders, hider, hunter, survived, hunter_loss, revoked_type, collectible_family,
  event_family,
}
use hive_chameleon.Gateway.Protocol.Text.{
  is_uuid_v7, is_controlled_code, is_sha256, is_fixed_score, is_hive_account, split_dots,
  account_segment,
}
use hive_chameleon.Gateway.Protocol.Check.{
  valid_event, valid_revoked, valid_batch, valid_result, valid_result_fields, valid_tournament_id,
  refined_result, refined_batch, inside_period, are_ordered, out_of_order, are_unique, set_size,
  context_agrees, side_agrees, codes_lt, utf16_length,
}
use hive_chameleon.Gateway.Protocol.Check.Batch.{IsPublishable, valid_batch-IsPublishable}
use hive_chameleon.Gateway.Protocol.Codec.Roundtrip.{parse_unique, serialize-parse}
use hive_chameleon.Gateway.Contracts.{
  OfficialServiceAuthorization, official_service, collectible_issuer, posting,
  IsolatedSignerRequest, HiveCustomJsonOperation, PreparedChainTransaction,
  InspectedChainTransaction, HiveChainPort,
}
use hive_chameleon.Gateway.Policy
use hive_chameleon.Gateway.Policy.{
  resolve, operation_of, authorize_official_event, authorize_shaped, assert_authorization_shape,
  assert_payload_account, payload_account_agrees, is_policy_version, is_idempotency_key,
  canonical_custom_json_operation, text_items, policy_key_is,
}
use hive_chameleon.Gateway.Policy.Laws.{IsAuthorized, authorize_official_event-IsAuthorized}
use hive_chameleon.Gateway.Signer.{
  PolicyEnforcingSignerBoundary, SignerWorld, intent_of, check_request, check_transaction,
  check_event_of, check_operation, trusted, matches_trusted_authorization, sign_all,
}
use hive_chameleon.Gateway.Contracts.{PreparedOfficialEvent, OfficialEventIntent}
use hive_chameleon.Gateway.Signer.{sign}
use hive_chameleon.Exec.{continue, ◌>>=◌, lift, pure, throw, unless}
use hive_chameleon.Prelude.{map_get, map_set}
use hive_chameleon.Gateway.Signature.{
  assert_signature_matches_public_key, validate_hive_compact_signature,
  is_graphene_canonical_scalar, hex_value,
}
use hive_chameleon.Gateway.Signer.{
  ask, guarded, with_ledger, acquire_idempotency, settle, sign_acquired, call_provider,
  assert_signer_response, response_of,
}
use hive_chameleon.Gateway.Signer.Fixture
use hive_chameleon.Gateway.Signer.Fixture.{is_active_lease, same_binding}
use hive_chameleon.Gateway.Signer.Response.{IsVerifiedResponse, sign-IsVerifiedResponse}
use hive_chameleon.Gateway.Send.{GatewayWorld, broadcast_official_event}
use hive_chameleon.Gateway.Send.Laws.{HasSent, broadcast_official_event-HasSent}
use hive_chameleon.Gateway.Signer.Checks.{IsVetted, check_request-IsVetted}
use hive_chameleon.Gateway.Signer.Fence.{IsFenced, sign_all-IsFenced}
use hive_chameleon.Gateway.Signer.Fixture.{
  FixtureSignerIdempotencyLedger, fixture_ledger, fixture_ledger-IsLedger,
}
use hive_chameleon.Gateway.Protocol.Codec.{
  serialize_hive_chameleon_event, parse_hive_chameleon_event, assert_payload_size, parse_json,
  check_shape, check_event, canonical_json,
}

abbrev pub id_1 : String
id_1 = "01900000-0000-7000-8000-000000000001"

abbrev pub id_2 : String
id_2 = "01900000-0000-7000-8000-000000000002"

abbrev pub noon : String
noon = "2026-07-11T12:00:00.000Z"

abbrev pub one : String
one = "2026-07-11T13:00:00.000Z"

abbrev pub two : String
two = "2026-07-11T14:00:00.000Z"

abbrev pub sha : String
sha = "aaaaaaaaaaaaaaaaaaaaaaaaaaaaaaaaaaaaaaaaaaaaaaaaaaaaaaaaaaaaaaaa"

abbrev pub revocation : CollectibleRevoked
revocation = record {
  event_id = id_1;
  occurred_at = noon;
  collectible_id = id_2;
  issued_event_id = id_2;
  reason_code = "issued-in-error";
}

-- Three timestamps, an hour apart.
abbrev pub parse_date : String → Option ℕ
parse_date text =
    if str_eq text noon
    then some 43200000
    else if str_eq text one
    then some 46800000
    else if str_eq text two
    then some 50400000
    else none

abbrev is_revocation : CollectibleRevoked → Bool
is_revocation r =
    str_eq r.event_id id_1
    && (str_eq r.occurred_at noon
        && (str_eq r.collectible_id id_2
            && (str_eq r.issued_event_id id_2 && str_eq r.reason_code "issued-in-error")))

-- The platform writes one event, the revocation.
abbrev write : HiveChameleonEvent → Json
write (collectible_revoked r) = if is_revocation r then str "revocation" else null
write _ = null

abbrev canonical : Json → Option String
canonical (str text) = some text
canonical (obj fields) = some "operation"
canonical _ = none

abbrev read : Json → Option HiveChameleonEvent
read (str text) = if str_eq text "revocation" then some (collectible_revoked revocation) else none
read _ = none

abbrev pub small : Library
small = record {
  is_iso_timestamp = λ text. is_some (parse_date text);
  is_https_url = λ text. false;
  date_parse = parse_date;
  shape = read;
  to_json = write;
  canonicalize = canonical;
  json_parse = λ text. some (str text);
  sha256_hex = λ text. sha;
}

revocation_eq : (r : CollectibleRevoked) → is_revocation r ≡ true → r ≡ revocation
revocation_eq r h =
    let a : r.event_id ≡ id_1 = ground (arith, eq_iff r.event_id id_1) in
    let b : r.occurred_at ≡ noon = ground (arith, eq_iff r.occurred_at noon) in
    let c : r.collectible_id ≡ id_2 = ground (arith, eq_iff r.collectible_id id_2) in
    let d : r.issued_event_id ≡ id_2 = ground (arith, eq_iff r.issued_event_id id_2) in
    let e : r.reason_code ≡ "issued-in-error" =
      ground (arith, eq_iff r.reason_code "issued-in-error") in
    λ i. record {
      event_id = a i;
      occurred_at = b i;
      collectible_id = c i;
      issued_event_id = d i;
      reason_code = e i;
    }

faithful :
    (event : HiveChameleonEvent) (text : String)
    → canonical (write event) ≡ some text
    → (value : Json) × (some (str text) ≡ some value) × (read value ≡ some event)
faithful (match_results_batch b) text h = ground arith
faithful (match_result_corrected c) text h = ground arith
faithful (match_result_invalidated i) text h = ground arith
faithful (collectible_issued i) text h = ground arith
faithful (collectible_revoked r) text h = elim (Bool-cases (is_revocation r)) [
  | inl e ↦
      let same : "revocation" ≡ text = ground (arith, e, h) in
      (
        str text,
        refl,
        subst (λ t. read (str t) ≡ some (collectible_revoked r)) same
            (ap (λ q. some (collectible_revoked q)) (sym (revocation_eq r e))),
      )
  | inr e ↦ ground (arith, e)
]

dated : (text : String) → is_some (parse_date text) ≡ true → is_some (parse_date text) ≡ true
dated text h = h

pub small-IsLibrary : IsLibrary small
small-IsLibrary = record { dated = dated; faithful = faithful }

-- The revocation parses from its text.
parsed : parse_hive_chameleon_event small "revocation" ≡ ok (collectible_revoked revocation)
unfolding parse_hive_chameleon_event assert_payload_size parse_json check_shape check_event
    canonical_json valid_event valid_revoked is_uuid_v7 is_controlled_code
parsed = refl

abbrev payload : String
payload = "revocation"

parse_unique_example : (payload ≡ payload) × (byte_length payload ≤ 6144)
parse_unique_example =
    parse_unique small (collectible_revoked revocation) payload payload parsed parsed

serialize-parse_example :
    (serialize_hive_chameleon_event small (collectible_revoked revocation) ≡ ok "revocation"
      → parse_hive_chameleon_event small "revocation" ≡ ok (collectible_revoked revocation))
    × (parse_hive_chameleon_event small "revocation" ≡ ok (collectible_revoked revocation)
        → serialize_hive_chameleon_event small (collectible_revoked revocation) ≡ ok "revocation")
serialize-parse_example =
    serialize-parse small small-IsLibrary (collectible_revoked revocation) "revocation"

abbrev pub round_one : MatchResult
round_one = record {
  round_id = id_1;
  completed_at = noon;
  context = normal;
  tournament_id = none;
  mode = casual;
  result_schema = "result-v1";
  scoring_rules = "rules-v1";
  map_id = id_1;
  map_version_id = id_2;
  map_version = "1.0.0";
  map_content_sha256 = sha;
  server_build = "build-7";
  server_protocol = "protocol-1";
  winning_side = hiders;
  winner_accounts = "alice" ∷ [];
  participants =
      record {
        account = "alice";
        initial_role = hider;
        final_role = hider;
        outcome = survived;
        score = "10.5000";
      }
      ∷ record {
        account = "bob.player";
        initial_role = hunter;
        final_role = hunter;
        outcome = hunter_loss;
        score = "0.0000";
      }
      ∷ [];
  discoveries = record { hunter = "bob.player"; hider = "alice" } ∷ [];
  survivors = "alice" ∷ [];
  likes = record { account = "alice"; received = 1 } ∷ [];
  result_sha256 = sha;
}

abbrev pub round_two : MatchResult
round_two = record round_one { round_id = id_2; completed_at = one }

abbrev pub batch : MatchBatch
batch = record {
  event_id = id_1;
  occurred_at = two;
  batch_id = id_2;
  period_start = noon;
  period_end = two;
  publisher = "hive.chameleon";
  result_count = 2;
  results = round_one ∷ round_two ∷ [];
}

batch_valid : valid_batch small batch ≡ true
unfolding valid_batch valid_result valid_result_fields valid_tournament_id refined_result
    refined_batch inside_period are_ordered out_of_order are_unique set_size context_agrees
    side_agrees codes_lt utf16_length is_uuid_v7 is_controlled_code is_sha256 is_fixed_score
    is_hive_account split_dots account_segment
batch_valid = refl

valid_batch-IsPublishable_example : IsPublishable small small-IsLibrary batch
valid_batch-IsPublishable_example =
    valid_batch-IsPublishable small small-IsLibrary batch batch_valid

-- The service that issues collectibles, its request and the chain that shows its transaction.
abbrev pub issuer : OfficialServiceAuthorization
issuer = record {
  mode = official_service;
  role = collectible_issuer;
  account = "hive.issuer";
  authority = posting;
  expected_public_key = "STM-public-key-0";
  signer_key_reference = "vault/issuer";
  policy_version = "v1";
}

abbrev pub request : IsolatedSignerRequest
request = record {
  idempotency_key = "event:0001";
  policy_version = "v1";
  role = collectible_issuer;
  account = "hive.issuer";
  authority = posting;
  expected_public_key = "STM-public-key-0";
  signer_key_reference = "vault/issuer";
  event_family = collectible_family;
  event_type = revoked_type;
  canonical_payload = "revocation";
  canonical_operation_json = "operation";
  canonical_operation_hash = sha;
  unsigned_transaction_json = "transaction";
  signature_digest = sha;
  transaction_id = "transaction-id";
}

abbrev pub operation : HiveCustomJsonOperation
operation = operation_of "hive.issuer" "revocation"

abbrev pub prepared : PreparedChainTransaction
prepared = record {
  unsigned_transaction_json = "transaction";
  signature_digest = sha;
  transaction_id = "transaction-id";
  canonical_operation_json = "operation";
}

abbrev inspected : InspectedChainTransaction
inspected = record { prepared = prepared; operation = operation; is_signed = false }

abbrev pub signature : String
signature =
    "1f11111111111111111111111111111111111111111111111111111111111111111111111111111111111111111111111111111111111111111111111111111111"

abbrev pub chain : HiveChainPort
chain = record {
  prepare_custom_json = λ tick op seconds. ok prepared;
  inspect_transaction = λ tick text. ok inspected;
  recover_public_key = λ tick digest text. ok "STM-public-key-0";
  attach_signature = λ tick text mark. ok text;
  broadcast = λ tick text. ok tt;
}

abbrev pub boundary : PolicyEnforcingSignerBoundary FixtureSignerIdempotencyLedger
boundary = record {
  chain = chain;
  sign_digest = λ tick q. ok signature;
  resolve = resolve (issuer ∷ []);
  idempotency = fixture_ledger;
}

abbrev pub world : SignerWorld FixtureSignerIdempotencyLedger
world = record { ledger = record { records = []; lease_sequence = 0 }; requests = []; tick = 0 }

abbrev pub intent : OfficialEventIntent
intent = intent_of small boundary request (collectible_revoked revocation)

pub authorized :
    authorize_official_event small
      (intent_of small boundary request (collectible_revoked revocation))
      issuer
    ≡ ok (operation, "revocation")
unfolding authorize_official_event authorize_shaped assert_authorization_shape
    assert_payload_account payload_account_agrees is_policy_version is_idempotency_key utf16_length
    event_family serialize_hive_chameleon_event assert_payload_size check_event canonical_json
    valid_event valid_revoked is_uuid_v7 is_controlled_code is_hive_account split_dots
    account_segment
authorized = refl

authorize_official_event-IsAuthorized_example :
    IsAuthorized small
      (intent_of small boundary request (collectible_revoked revocation))
      issuer
      operation
      "revocation"
authorize_official_event-IsAuthorized_example =
    authorize_official_event-IsAuthorized small
      (intent_of small boundary request (collectible_revoked revocation)) issuer operation
      "revocation" authorized

checked : check_request small boundary request inspected ≡ ok tt
unfolding check_request check_transaction check_event_of check_operation trusted
    matches_trusted_authorization canonical_custom_json_operation text_items Policy.resolve
    policy_key_is authorize_official_event authorize_shaped assert_authorization_shape
    assert_payload_account payload_account_agrees is_policy_version is_idempotency_key utf16_length
    event_family serialize_hive_chameleon_event assert_payload_size check_event canonical_json
    valid_event valid_revoked is_uuid_v7 is_controlled_code is_hive_account split_dots
    account_segment parse_hive_chameleon_event parse_json check_shape
checked = refl

check_request-IsVetted_example : IsVetted small boundary request inspected
check_request-IsVetted_example = check_request-IsVetted small boundary request inspected checked

-- The same request twice, one after the other.
sign_all-IsFenced_example :
    IsFenced small boundary fixture_ledger-IsLedger
      (sign_all small boundary (request ∷ request ∷ []) world)
sign_all-IsFenced_example =
    sign_all-IsFenced small boundary fixture_ledger-IsLedger (request ∷ request ∷ []) world
      (record { bound = tt; once = tt; approved = tt })

abbrev pub prepared_revocation : PreparedOfficialEvent
prepared_revocation = record {
  prepared = prepared;
  idempotency_key = "event:0001";
  policy_version = "v1";
  event_family = collectible_family;
  event_type = revoked_type;
  canonical_payload = "revocation";
  canonical_operation_hash = sha;
  authorization = issuer;
}

abbrev pub gateway_world : GatewayWorld (SignerWorld FixtureSignerIdempotencyLedger)
gateway_world = record { signer = world; broadcasts = []; tick = 0 }

-- The gateway over the signer boundary.
broadcast_official_event-HasSent_example :
    HasSent small chain
      (sign small boundary)
      prepared_revocation
      []
      (broadcast_official_event small chain
        (sign small boundary)
        prepared_revocation
        gateway_world).1
broadcast_official_event-HasSent_example =
    broadcast_official_event-HasSent small chain (sign small boundary) prepared_revocation []
      gateway_world refl

-- The first request is signed.
signed :
    sign small boundary request world
    ≡ (ok (response_of request signature), (sign small boundary request world).1)
unfolding sign ask ◌>>=◌ continue lift pure throw unless guarded with_ledger acquire_idempotency
    settle sign_acquired call_provider assert_signer_response assert_signature_matches_public_key
    validate_hive_compact_signature is_graphene_canonical_scalar hex_value is_sha256 Fixture.acquire
    Fixture.complete is_active_lease same_binding map_get map_set check_request check_transaction
    check_event_of check_operation trusted matches_trusted_authorization
    canonical_custom_json_operation text_items Policy.resolve policy_key_is authorize_official_event
    authorize_shaped assert_authorization_shape assert_payload_account payload_account_agrees
    is_policy_version is_idempotency_key utf16_length event_family serialize_hive_chameleon_event
    assert_payload_size check_event canonical_json valid_event valid_revoked is_uuid_v7
    is_controlled_code is_hive_account split_dots account_segment parse_hive_chameleon_event
    parse_json check_shape
signed = refl

sign-IsVerifiedResponse_example :
    IsVerifiedResponse small boundary request (response_of request signature)
sign-IsVerifiedResponse_example =
    sign-IsVerifiedResponse small boundary request world (sign small boundary request world).1
      (response_of request signature) signed
