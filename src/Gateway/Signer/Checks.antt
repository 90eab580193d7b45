-- ===== src/Gateway/Signer/Checks.antt =====
-- What the checks of `sign` establish: packages/hive-gateway/src/signer-boundary.ts.
use hive_chameleon.Prelude.{
  String, true, false, not, ◌||◌, ◌≡◌, ap, ◌∙◌, arith, Option, some, none, str_eq, eq_iff,
}
use hive_chameleon.Exec.{ok, ◌>>=?◌}
use hive_chameleon.Gateway.Library.{Library}
use hive_chameleon.Gateway.Protocol.Event.{HiveChameleonEvent}
use hive_chameleon.Gateway.Protocol.Codec.{parse_hive_chameleon_event, policy_denied}
use hive_chameleon.Gateway.Protocol.Codec.Roundtrip.{bind_ok}
use hive_chameleon.Gateway.Contracts.{
  IsolatedSignerRequest, InspectedChainTransaction, OfficialServiceAuthorization,
  HiveCustomJsonOperation,
}
use hive_chameleon.Gateway.Policy.{authorize_official_event, canonical_custom_json_operation}
use hive_chameleon.Gateway.Policy.Laws.{IsAuthorized, authorize_official_event-IsAuthorized}
use hive_chameleon.Gateway.Signer.{
  PolicyEnforcingSignerBoundary, matches_trusted_authorization, check_transaction, trusted,
  check_request, check_operation, check_event_of, intent_of, guard,
}

module _ (lib : Library) {L : Type 0} (boundary : PolicyEnforcingSignerBoundary L) where
  -- The operation and the payload of the request are those the policy authorizes for the event.
  pub record IsReconstructed (request : IsolatedSignerRequest) (event : HiveChameleonEvent)
      (authorization : OfficialServiceAuthorization) : Type 0 where
    pub custom_json : HiveCustomJsonOperation
    pub authorized :
        IsAuthorized lib
          (intent_of lib boundary request event)
          authorization
          custom_json
          request.canonical_payload
    pub canonical :
        canonical_custom_json_operation lib custom_json ≡ ok request.canonical_operation_json

  -- The transaction is the one the request names, unsigned, and carries one operation that an
  -- authorization of the policy allows for the event in the payload.
  pub record IsVetted (request : IsolatedSignerRequest) (inspected : InspectedChainTransaction)
      : Type 0 where
    pub unsigned : inspected.is_signed ≡ false
    pub digest : inspected.signature_digest ≡ request.signature_digest
    pub transaction : inspected.transaction_id ≡ request.transaction_id
    pub operation : inspected.canonical_operation_json ≡ request.canonical_operation_json
    pub event : HiveChameleonEvent
    pub parsed : parse_hive_chameleon_event lib request.canonical_payload ≡ ok event
    pub authorization : OfficialServiceAuthorization
    pub resolved : boundary.resolve request.policy_version request.role ≡ some authorization
    pub account : authorization.account ≡ request.account
    pub key : authorization.expected_public_key ≡ request.expected_public_key
    pub reconstructed : IsReconstructed request event authorization

  trusted-ok :
      (request : IsolatedSignerRequest) (found : Option OfficialServiceAuthorization)
      (a : OfficialServiceAuthorization)
      → trusted lib boundary request found ≡ ok a
      → (found ≡ some a) × (matches_trusted_authorization request a ≡ true)
  unfolding trusted
  trusted-ok request none a h = ground arith
  trusted-ok request (some b) a h = grind arith

  trusted-same :
      (request : IsolatedSignerRequest) (a : OfficialServiceAuthorization)
      → matches_trusted_authorization request a ≡ true
      → (a.account ≡ request.account) × (a.expected_public_key ≡ request.expected_public_key)
  unfolding matches_trusted_authorization
  trusted-same request a h = ground (
    arith,
    eq_iff a.account request.account,
    eq_iff a.expected_public_key request.expected_public_key,
  )

  IsReconstructed-of :
      (request : IsolatedSignerRequest) (event : HiveChameleonEvent)
      (authorization : OfficialServiceAuthorization) (operation : HiveCustomJsonOperation)
      (payload expected : String)
      → authorize_official_event lib (intent_of lib boundary request event) authorization
        ≡ ok (operation, payload)
      → canonical_custom_json_operation lib operation ≡ ok expected
      → guard
          (not (str_eq expected request.canonical_operation_json)
            || not (str_eq payload request.canonical_payload))
          policy_denied
        ≡ ok tt
      → IsReconstructed request event authorization
  IsReconstructed-of request event authorization operation payload expected h canonical k =
      let same_operation : expected ≡ request.canonical_operation_json =
        ground (arith, eq_iff expected request.canonical_operation_json) in
      let same_payload : payload ≡ request.canonical_payload =
        ground (arith, eq_iff payload request.canonical_payload) in
      record {
        custom_json = operation;
        authorized =
            authorize_official_event-IsAuthorized lib _ authorization operation _
              (h ∙ ap (λ p. ok (operation, p)) same_payload);
        canonical = canonical ∙ ap ok same_operation;
      }

  check_operation-ok :
      (request : IsolatedSignerRequest) (event : HiveChameleonEvent)
      (authorization : OfficialServiceAuthorization)
      → check_operation lib boundary request event authorization ≡ ok tt
      → IsReconstructed request event authorization
  unfolding check_operation
  check_operation-ok request event authorization h =
      let intent = intent_of lib boundary request event in
      let (authorized, authorizes, h₁) =
        bind_ok (authorize_official_event lib intent authorization) _ _ h in
      let (expected, canonical, h₂) =
        bind_ok (canonical_custom_json_operation lib authorized.0) _ _ h₁ in
      IsReconstructed-of request event authorization authorized.0 authorized.1 expected authorizes
        canonical h₂

  check_event_of-ok :
      (request : IsolatedSignerRequest) (event : HiveChameleonEvent)
      → check_event_of lib boundary request event ≡ ok tt
      → (trusted lib boundary request (boundary.resolve request.policy_version request.role)
          >>=? check_operation lib boundary request event)
        ≡ ok tt
  unfolding check_event_of
  check_event_of-ok request event h = ground arith

  check_transaction-ok :
      (request : IsolatedSignerRequest) (inspected : InspectedChainTransaction) (u : Unit)
      → check_transaction lib boundary request inspected ≡ ok u
      → (inspected.is_signed ≡ false)
        × (inspected.signature_digest ≡ request.signature_digest)
        × (inspected.transaction_id ≡ request.transaction_id)
        × (inspected.canonical_operation_json ≡ request.canonical_operation_json)
  unfolding check_transaction
  check_transaction-ok request inspected u h = ground (
    arith,
    eq_iff inspected.signature_digest request.signature_digest,
    eq_iff inspected.transaction_id request.transaction_id,
    eq_iff inspected.canonical_operation_json request.canonical_operation_json,
  )

  -- A request that passes the checks of the boundary names the transaction that the chain shows,
  -- which is not signed; its payload parses to an event, and its operation is the one that the
  -- signer's own policy authorizes for that event, that account and that key.
  pub check_request-IsVetted :
      (request : IsolatedSignerRequest) (inspected : InspectedChainTransaction)
      → check_request lib boundary request inspected ≡ ok tt
      → IsVetted request inspected
  unfolding check_request
  check_request-IsVetted request inspected h =
      let (u, transacted, h₁) = bind_ok (check_transaction lib boundary request inspected) _ _ h in
      let (event, parsed, h₂) =
        bind_ok (parse_hive_chameleon_event lib request.canonical_payload) _ _ h₁ in
      let (a, trusts, h₃) =
        bind_ok
          (trusted lib boundary request (boundary.resolve request.policy_version request.role)) _ _
          (check_event_of-ok request event h₂) in
      let (unsigned, digest, transaction, operation) =
        check_transaction-ok request inspected u transacted in
      let (resolved, matched) = trusted-ok request _ a trusts in
      let (account, key) = trusted-same request a matched in
      record {
        unsigned = unsigned;
        digest = digest;
        transaction = transaction;
        operation = operation;
        event = event;
        parsed = parsed;
        authorization = a;
        resolved = resolved;
        account = account;
        key = key;
        reconstructed = check_operation-ok request event a h₃;
      }
