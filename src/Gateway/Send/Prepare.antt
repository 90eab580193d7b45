-- ===== src/Gateway/Send/Prepare.antt =====
-- What is prepared for the chain: packages/hive-gateway/src/gateway.ts, `prepareOfficialEvent`.
use hive_chameleon.Prelude.{ℕ, String, ◌≡◌, ◌∙◌, ap, subst, refl, arith, eq_iff, List, not, str_eq}
use hive_chameleon.Exec.{Result, ok, err, Exec, unless, pure}
use hive_chameleon.Exec.Triple.{
  Post, Triple, Triple-pure, Triple-unless, Triple-bind, Triple-bind-lift,
}
use hive_chameleon.Gateway.Library.{Library}
use hive_chameleon.Gateway.Contracts.{
  HiveChainPort, OfficialEventIntent, OfficialServiceAuthorization, PreparedOfficialEvent,
  PreparedChainTransaction, HiveCustomJsonOperation, IsolatedSignerRequest, IsolatedSignerResponse,
  GatewayFailure, gateway, gateway_error,
}
use hive_chameleon.Gateway.Protocol.Codec.{HiveGatewayErrorCode, transaction_mismatch}
use hive_chameleon.Gateway.Policy.{authorize_official_event, canonical_custom_json_operation}
use hive_chameleon.Gateway.Send.Silence.{Silent, Triple-ask}
use hive_chameleon.Gateway.Send.{
  GatewayWorld, prepare_official_event, prepare_authorized, prepared_event, seconds_of,
}

gateway_ok : {A : Type 0} (r : Result HiveGatewayErrorCode A) {a : A} → gateway r ≡ ok a → r ≡ ok a
gateway_ok (ok b) h = cc
gateway_ok (err e) h = cc

module _ (lib : Library) (chain : HiveChainPort) {N : Type 0}
    (sign : IsolatedSignerRequest → Exec N GatewayFailure IsolatedSignerResponse)
    (intent : OfficialEventIntent) (authorization : OfficialServiceAuthorization) where
  -- The event is authorized, its operation has a canonical text, and the chain prepared exactly
  -- this operation for the lifetime asked for; key, version and authorization are the caller's.
  pub record IsPrepared (prepared : PreparedOfficialEvent) : Type 0 where
    pub operation : HiveCustomJsonOperation
    pub authorized :
        authorize_official_event lib intent authorization
        ≡ ok (operation, prepared.canonical_payload)
    pub canonical :
        canonical_custom_json_operation lib operation ≡ ok prepared.canonical_operation_json
    pub tick : ℕ
    pub built :
        chain.prepare_custom_json tick operation (seconds_of intent.expiration_seconds)
        ≡ ok prepared.prepared
    pub hash : prepared.canonical_operation_hash ≡ lib.sha256_hex prepared.canonical_operation_json
    pub key : prepared.idempotency_key ≡ intent.idempotency_key
    pub version : prepared.policy_version ≡ intent.policy_version
    pub authority : prepared.authorization ≡ authorization

  module _ (before : List String) where
    Triple-canonical :
        (operation : HiveCustomJsonOperation) (payload operation_json : String)
        → authorize_official_event lib intent authorization ≡ ok (operation, payload)
        → canonical_custom_json_operation lib operation ≡ ok operation_json
        → (prepared : PreparedChainTransaction)
        → Triple
            (λ (w : GatewayWorld N).
              Silent before w
              × ((n : ℕ) × (chain.prepare_custom_json n operation
                      (seconds_of intent.expiration_seconds)
                    ≡ ok prepared)))
            (unless
              (not (str_eq prepared.canonical_operation_json operation_json))
              (gateway_error transaction_mismatch)
              (pure (
                prepared_event lib chain sign intent authorization payload operation_json
                  prepared)))
            (λ p w. Silent before w × IsPrepared p)
            (λ e. Silent before)
    Triple-canonical operation payload operation_json ha hc prepared =
        Triple-unless _ _ _ (λ e w p. p.0)
          λ e. Triple-pure _ λ w p.
            let same : operation_json ≡ prepared.canonical_operation_json =
              ground (arith, eq_iff prepared.canonical_operation_json operation_json) in
            (
              p.0,
              record {
                operation = operation;
                authorized = ha;
                canonical = hc ∙ ap ok same;
                tick = p.1.0;
                built = p.1.1;
                hash = ap lib.sha256_hex same;
                key = refl;
                version = refl;
                authority = refl;
              },
            )

    pub Triple-IsPrepared :
        Triple
          (Silent before)
          (prepare_official_event lib chain sign intent authorization)
          (λ p w. Silent before w × IsPrepared p)
          (λ e. Silent before)
    unfolding prepare_official_event prepare_authorized
    Triple-IsPrepared =
        Triple-bind-lift _ _
          (λ authorized ha.
            Triple-bind-lift _ _
              (λ operation_json hc. Triple-bind _ _ (Triple-ask lib chain sign before _) (
                Triple-canonical authorized.0 authorized.1 operation_json (gateway_ok _ ha)
                  (gateway_ok _ hc)))
              (λ e h w p. p))
          (λ e h w p. p)

  IsPrepared-of :
      (before : List String) (x : Result GatewayFailure PreparedOfficialEvent × GatewayWorld N)
      (p : PreparedOfficialEvent) (w : GatewayWorld N)
      → x ≡ (ok p, w)
      → Post (λ p w. Silent before w × IsPrepared p) (λ e. Silent before) x
      → Silent before w × IsPrepared p
  unfolding Post
  IsPrepared-of before x p w e h =
      subst (Post (λ p w. Silent before w × IsPrepared p) (λ e. Silent before)) e h

  -- A preparation that returns broadcasts nothing. What it returns carries the payload of the
  -- authorized event and the transaction that the chain prepared from exactly the authorized
  -- operation, for the lifetime asked for, with the hash of the operation's canonical text; the
  -- key, the policy version and the authorization are the caller's.
  pub prepare_official_event-IsPrepared :
      (w w' : GatewayWorld N) (prepared : PreparedOfficialEvent)
      → prepare_official_event lib chain sign intent authorization w ≡ (ok prepared, w')
      → (w'.broadcasts ≡ w.broadcasts) × IsPrepared prepared
  prepare_official_event-IsPrepared w w' prepared h =
      IsPrepared-of w.broadcasts _ prepared w' h ((Triple-IsPrepared w.broadcasts).at w refl)
