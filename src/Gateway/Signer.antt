-- ===== src/Gateway/Signer.antt =====
-- packages/hive-gateway/src/signer-boundary.ts: `PolicyEnforcingSignerBoundary`.
-- The boundary's world holds the ledger's state, the requests that reached the signature provider
-- (the last one first), and a clock that ticks at every call of the chain or the provider, so that
-- two calls may answer differently.
pub mod Checks
pub mod Fence
pub mod Fixture
pub mod Response
use hive_chameleon.Prelude.{
  ℕ, suc, String, Bool, true, false, not, ◌&&◌, ◌||◌, Option, none, some, List, [], ◌∷◌, str_eq,
  if◌then◌else◌, ◌≡◌, ◌⊎◌,
}
use hive_chameleon.Exec.{Result, ok, err, ◌>>=?◌, Exec, pure, throw, lift, unless, ◌>>=◌, ◌>>◌}
use hive_chameleon.Gateway.Library.{Library}
use hive_chameleon.Gateway.Protocol.Event.{
  HiveChameleonEvent, EventType, event_type, batch_type, corrected_type, invalidated_type,
  issued_type, revoked_type, HiveChameleonEventFamily, match_family, collectible_family,
  event_family,
}
use hive_chameleon.Gateway.Protocol.Text.{is_sha256}
use hive_chameleon.Gateway.Protocol.Codec.{
  HiveGatewayErrorCode, transaction_mismatch, policy_denied, idempotency_conflict,
  idempotency_unavailable, signer_mismatch, invalid_signature, parse_hive_chameleon_event,
}
use hive_chameleon.Gateway.Contracts.{
  gateway, IsolatedSignerRequest, IsolatedSignerResponse, SignerIdempotencyBinding,
  SignerIdempotencyAcquisition, acquired, conflict, replay, DigestRequest, GatewayFailure,
  gateway_error, unexpected, HiveChainPort, InspectedChainTransaction, OfficialServiceAuthorization,
  OfficialServiceRole, OfficialEventIntent, HiveCustomJsonOperation, same_role, same_authority,
}
use hive_chameleon.Gateway.Policy.{
  authorize_official_event, canonical_custom_json_operation, is_official,
}
use hive_chameleon.Gateway.Signature.{assert_signature_matches_public_key}

-- `SignerIdempotencyLedger`, less `abort`, which the boundary never calls. Each call ends with an
-- answer, or throws, and its state is kept either way.
pub record SignerIdempotencyLedger (L : Type 0) : Type 0 where
  pub acquire : SignerIdempotencyBinding → Exec L GatewayFailure SignerIdempotencyAcquisition
  pub complete :
      SignerIdempotencyBinding → ℕ → IsolatedSignerResponse → Exec L GatewayFailure (Unit {0})
  pub abort : SignerIdempotencyBinding → ℕ → Exec L GatewayFailure (Unit {0})

-- What a ledger promises of the calls that the boundary makes, which never aborts: a key that is bound stays bound, and only a key that was not is acquired.
pub record IsLedger {L : Type 0} (ledger : SignerIdempotencyLedger L) : Type 0 where
  pub is_bound : L → String → Bool
  pub acquire_keeps :
      (b : SignerIdempotencyBinding) (l : L) (key : String)
      → is_bound l key ≡ true
      → is_bound (ledger.acquire b l).1 key ≡ true
  pub acquire_binds :
      (b : SignerIdempotencyBinding) (l : L) (lease_id : ℕ)
      → (ledger.acquire b l).0 ≡ ok (acquired lease_id)
      → (is_bound l b.idempotency_key ≡ false)
        × (is_bound (ledger.acquire b l).1 b.idempotency_key ≡ true)
  pub complete_keeps :
      (b : SignerIdempotencyBinding) (lease_id : ℕ) (r : IsolatedSignerResponse) (l : L)
      (key : String)
      → is_bound l key ≡ true
      → is_bound (ledger.complete b lease_id r l).1 key ≡ true

pub record SignerWorld (L : Type 0) : Type 0 where
  pub ledger : L
  pub requests : List DigestRequest
  pub tick : ℕ

-- The constructor's arguments. The provider answers with a signature, or throws.
pub record PolicyEnforcingSignerBoundary (L : Type 0) : Type 0 where
  pub chain : HiveChainPort
  pub sign_digest : ℕ → DigestRequest → Result GatewayFailure String
  pub resolve : String → OfficialServiceRole → Option OfficialServiceAuthorization
  pub idempotency : SignerIdempotencyLedger L

abbrev pub idempotency_binding : IsolatedSignerRequest → SignerIdempotencyBinding
idempotency_binding request = record {
  idempotency_key = request.idempotency_key;
  policy_version = request.policy_version;
  role = request.role;
  account = request.account;
  authority = request.authority;
  expected_public_key = request.expected_public_key;
  signer_key_reference = request.signer_key_reference;
  canonical_operation_json = request.canonical_operation_json;
  canonical_operation_hash = request.canonical_operation_hash;
  signature_digest = request.signature_digest;
  transaction_id = request.transaction_id;
}

unfoldable pub matches_trusted_authorization :
    IsolatedSignerRequest → OfficialServiceAuthorization → Bool
matches_trusted_authorization request a =
    is_official a.mode
    && (same_role a.role request.role
        && (str_eq a.account request.account
            && (same_authority a.authority request.authority
                && (str_eq a.expected_public_key request.expected_public_key
                    && (str_eq a.signer_key_reference request.signer_key_reference
                        && str_eq a.policy_version request.policy_version)))))

abbrev pub same_type : EventType → EventType → Bool
same_type batch_type batch_type = true
same_type corrected_type corrected_type = true
same_type invalidated_type invalidated_type = true
same_type issued_type issued_type = true
same_type revoked_type revoked_type = true
same_type _ _ = false

abbrev pub same_family : HiveChameleonEventFamily → HiveChameleonEventFamily → Bool
same_family match_family match_family = true
same_family collectible_family collectible_family = true
same_family _ _ = false

abbrev pub digest_request : IsolatedSignerRequest → DigestRequest
digest_request request = record {
  idempotency_key = request.idempotency_key;
  signer_key_reference = request.signer_key_reference;
  signature_digest = request.signature_digest;
  expected_public_key = request.expected_public_key;
}

abbrev pub response_of : IsolatedSignerRequest → String → IsolatedSignerResponse
response_of request signature = record {
  signature = signature;
  public_key = request.expected_public_key;
}

abbrev pub guard : Bool → HiveGatewayErrorCode → Result HiveGatewayErrorCode (Unit {0})
guard refused code = if refused then err code else ok tt

-- `catch (error) { throw new HiveGatewayError('idempotency_unavailable', …) }`.
abbrev pub unavailable : {A : Type 0} → Result GatewayFailure A → Result GatewayFailure A
unavailable (ok a) = ok a
unavailable (err e) = err (gateway_error idempotency_unavailable)

module _ (lib : Library) {L : Type 0} (boundary : PolicyEnforcingSignerBoundary L) where
  -- The checks of `sign` between the inspection of the transaction and the ledger.
  unfoldable pub check_transaction :
      IsolatedSignerRequest → InspectedChainTransaction → Result HiveGatewayErrorCode (Unit {0})
  check_transaction request inspected =
      if inspected.is_signed
      then err transaction_mismatch
      else guard
          (not (str_eq inspected.signature_digest request.signature_digest)
            || (not (str_eq inspected.transaction_id request.transaction_id)
                || (not (str_eq inspected.canonical_operation_json request.canonical_operation_json)
                    || not (
                        str_eq (lib.sha256_hex inspected.canonical_operation_json)
                          request.canonical_operation_hash))))
          transaction_mismatch

  unfoldable pub trusted :
      IsolatedSignerRequest
      → Option OfficialServiceAuthorization
      → Result HiveGatewayErrorCode OfficialServiceAuthorization
  trusted request none = err policy_denied
  trusted request (some a) =
      if not (matches_trusted_authorization request a) then err policy_denied else ok a

  abbrev pub intent_of : IsolatedSignerRequest → HiveChameleonEvent → OfficialEventIntent
  intent_of request event = record {
    idempotency_key = request.idempotency_key;
    policy_version = request.policy_version;
    event = event;
    expiration_seconds = none;
  }

  -- The operation that the policy reconstructs is the request's.
  unfoldable pub check_operation :
      IsolatedSignerRequest
      → HiveChameleonEvent
      → OfficialServiceAuthorization
      → Result HiveGatewayErrorCode (Unit {0})
  check_operation request event authorization =
      authorize_official_event lib (intent_of request event) authorization >>=? λ authorized.
      canonical_custom_json_operation lib authorized.0 >>=? λ expected.
      guard
        (not (str_eq expected request.canonical_operation_json)
          || not (str_eq authorized.1 request.canonical_payload))
        policy_denied

  unfoldable pub check_event_of :
      IsolatedSignerRequest → HiveChameleonEvent → Result HiveGatewayErrorCode (Unit {0})
  check_event_of request event =
      if not (same_type (event_type event) request.event_type)
      then err transaction_mismatch
      else if not (same_family (event_family event) request.event_family)
      then err transaction_mismatch
      else (trusted request (boundary.resolve request.policy_version request.role)
          >>=? check_operation request event)

  unfoldable pub check_request :
      IsolatedSignerRequest → InspectedChainTransaction → Result HiveGatewayErrorCode (Unit {0})
  check_request request inspected = check_transaction request inspected >>=? λ _.
      parse_hive_chameleon_event lib request.canonical_payload >>=? check_event_of request

  -- The calls of the chain and the provider, at the tick of the world.
  unfoldable pub ask :
      {A : Type 0} → (ℕ → Result GatewayFailure A) → Exec (SignerWorld L) GatewayFailure A
  ask answer w = (answer w.tick, record w { tick = suc w.tick })

  unfoldable pub call_provider : DigestRequest → Exec (SignerWorld L) GatewayFailure String
  call_provider request w = (
    boundary.sign_digest w.tick request,
    record w { tick = suc w.tick; requests = request ∷ w.requests },
  )

  unfoldable pub guarded :
      {A : Type 0} → Exec (SignerWorld L) GatewayFailure A → Exec (SignerWorld L) GatewayFailure A
  guarded m w = let (r, w') = m w in (unavailable r, w')

  unfoldable pub with_ledger :
      {A : Type 0} → Exec L GatewayFailure A → Exec (SignerWorld L) GatewayFailure A
  with_ledger m w = let (r, l) = m w.ledger in (r, record w { ledger = l })

  -- `acquireIdempotency`.
  unfoldable pub acquire_idempotency :
      SignerIdempotencyBinding → Exec (SignerWorld L) GatewayFailure SignerIdempotencyAcquisition
  acquire_idempotency binding = guarded (with_ledger (boundary.idempotency.acquire binding))

  -- `assertSignerResponse`.
  unfoldable pub assert_signer_response :
      IsolatedSignerRequest
      → IsolatedSignerResponse
      → Exec (SignerWorld L) GatewayFailure (Unit {0})
  assert_signer_response request response =
      unless (not (str_eq response.public_key request.expected_public_key))
        (gateway_error signer_mismatch)
        (assert_signature_matches_public_key
          (ask (λ tick.
            boundary.chain.recover_public_key tick request.signature_digest response.signature))
          request.signature_digest response.signature request.expected_public_key)

  -- The end of `sign`, once the key is acquired.
  unfoldable pub sign_acquired :
      IsolatedSignerRequest → ℕ → Exec (SignerWorld L) GatewayFailure IsolatedSignerResponse
  sign_acquired request lease_id = do
    signature ← guarded (call_provider (digest_request request))
    _ ← assert_signer_response request (response_of request signature)
    _ ← guarded (
        with_ledger (
          boundary.idempotency.complete (idempotency_binding request) lease_id
            (response_of request signature)))
    pure (response_of request signature)

  unfoldable pub settle :
      IsolatedSignerRequest
      → SignerIdempotencyAcquisition
      → Exec (SignerWorld L) GatewayFailure IsolatedSignerResponse
  settle request conflict = throw (gateway_error idempotency_conflict)
  settle request (replay response) = do _ ← assert_signer_response request response; pure response
  settle request (acquired lease_id) = sign_acquired request lease_id

  unfoldable pub sign :
      IsolatedSignerRequest → Exec (SignerWorld L) GatewayFailure IsolatedSignerResponse
  sign request = do
    inspected ←
        ask (λ tick. boundary.chain.inspect_transaction tick request.unsigned_transaction_json)
    _ ← lift (gateway (check_request request inspected))
    acquisition ← acquire_idempotency (idempotency_binding request)
    settle request acquisition

  -- Requests one after the other, whatever each of them answers.
  unfoldable pub sign_all : List IsolatedSignerRequest → SignerWorld L → SignerWorld L
  sign_all [] w = w
  sign_all (request ∷ rest) w = sign_all rest (sign request w).1
