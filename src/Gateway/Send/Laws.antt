-- ===== src/Gateway/Send/Laws.antt =====
-- What reaches the chain: packages/hive-gateway/src/gateway.ts, `broadcastOfficialEvent`.
use hive_chameleon.Prelude.{ℕ, String, ◌≡◌, ◌⊎◌, inl, inr, refl, ap, List, ◌∷◌}
use hive_chameleon.Exec.{ok, Exec}
use hive_chameleon.Exec.Triple.{
  Post-const, Post-mono, Post-either, Triple, Triple-pre, Triple-post, Triple-pure, Triple-unless,
  Triple-bind, Triple-given,
}
use hive_chameleon.Gateway.Library.{Library}
use hive_chameleon.Gateway.Contracts.{
  HiveChainPort, PreparedOfficialEvent, IsolatedSignerRequest, IsolatedSignerResponse,
  GatewayFailure,
}
use hive_chameleon.Gateway.Signature.{assert_signature_matches_public_key}
use hive_chameleon.Gateway.Signature.Verified.{IsWellFormed, Triple-signature}
use hive_chameleon.Gateway.Send.Silence.{Silent, Triple-ask}
use hive_chameleon.Gateway.Send.{
  GatewayWorld, BroadcastOfficialEventResult, ask, call_broadcast, call_signer, send_signed,
  broadcast_official_event, request_of,
}

module _ (lib : Library) (chain : HiveChainPort) {N : Type 0}
    (sign : IsolatedSignerRequest → Exec N GatewayFailure IsolatedSignerResponse)
    (prepared : PreparedOfficialEvent) (before : List String) where
  -- The signature is well formed and recovers the expected key, as the chain said at some tick.
  pub record IsVerified (signature : String) : Type 0 where
    pub form : IsWellFormed prepared.signature_digest signature
    pub recovered_at : ℕ
    pub recovered :
        chain.recover_public_key recovered_at prepared.signature_digest signature
        ≡ ok prepared.authorization.expected_public_key

  -- The prepared transaction with a verified signature attached.
  pub record IsSigned (signed : String) : Type 0 where
    pub signature : String
    pub verified : IsVerified signature
    pub attached_at : ℕ
    pub attached :
        chain.attach_signature attached_at prepared.unsigned_transaction_json signature ≡ ok signed

  -- One signed transaction was broadcast.
  abbrev pub Sent : GatewayWorld N → Type 0
  Sent w = (signed : String) × (w.broadcasts ≡ signed ∷ before) × IsSigned signed

  -- Nothing new was broadcast, or one signed transaction.
  abbrev pub HasSent : GatewayWorld N → Type 0
  HasSent w = (w.broadcasts ≡ before) ⊎ Sent w

  -- What a returning broadcast ensures.
  abbrev pub IsDelivered : BroadcastOfficialEventResult → GatewayWorld N → Type 0
  IsDelivered result w = (result.transaction_id ≡ prepared.transaction_id) × Sent w

  abbrev Recovered : String → GatewayWorld N → Type 0
  Recovered signature w =
      Silent before w
      × ((n : ℕ) × (chain.recover_public_key n prepared.signature_digest signature
            ≡ ok prepared.authorization.expected_public_key))

  Triple-broadcast :
      (signed : String)
      → IsSigned signed
      → Triple (Silent before) (call_broadcast lib chain sign signed) (λ u. Sent) (λ e. HasSent)
  unfolding call_broadcast
  Triple-broadcast signed h = record {
    at = λ w p.
        Post-mono _ (λ a w q. q) (λ e w q. inr q)
          (Post-const Sent (chain.broadcast w.tick signed) _ (signed, ap (λ l. signed ∷ l) p, h));
  }

  Triple-checked :
      (signature : String)
      → Triple
          (Silent before)
          (assert_signature_matches_public_key
            (ask lib chain sign
              (λ tick. chain.recover_public_key tick prepared.signature_digest signature))
            prepared.signature_digest
            signature
            prepared.authorization.expected_public_key)
          (λ u w. IsWellFormed prepared.signature_digest signature × Recovered signature w)
          (λ e. HasSent)
  Triple-checked signature =
      Triple-signature
        {R = λ key w.
          Silent before w
          × ((n : ℕ) × (chain.recover_public_key n prepared.signature_digest signature ≡ ok key))}
        _ prepared.signature_digest signature prepared.authorization.expected_public_key
        (λ w p. inl p) (λ key w p. inl p.0)
        (Triple-post _ (Triple-ask lib chain sign before _) (λ a w p. p) (λ e w p. inl p))

  Triple-attach :
      (signature : String)
      → Triple
          (λ w. IsWellFormed prepared.signature_digest signature × Recovered signature w)
          (ask lib chain sign
            (λ tick. chain.attach_signature tick prepared.unsigned_transaction_json signature))
          (λ signed w.
            Silent before w
            × ((n : ℕ) × (chain.attach_signature n prepared.unsigned_transaction_json signature
                  ≡ ok signed)))
          (λ e. HasSent)
  Triple-attach signature =
      Triple-pre _
        (Triple-post _ (Triple-ask lib chain sign before _) (λ a w p. p) (λ e w p. inl p))
        λ w p. p.1.0

  Triple-signer :
      (request : IsolatedSignerRequest)
      → Triple
          (Silent before)
          (call_signer lib chain sign request)
          (λ r. Silent before)
          (λ e. HasSent)
  unfolding call_signer
  Triple-signer request = record {
    at = λ w p.
        Post-mono _ (λ a w' q. q) (λ e w' q. inl q)
          (Post-const (Silent before) (sign request w.signer).0
            (record w { signer = (sign request w.signer).1 }) p);
  }

  Triple-send :
      (response : IsolatedSignerResponse)
      → Triple
          (Silent before)
          (send_signed lib chain sign prepared response)
          IsDelivered
          (λ e. HasSent)
  unfolding send_signed
  Triple-send response =
      Triple-unless _ _ _ (λ e w p. inl p)
        λ same. Triple-bind _ _ (Triple-checked response.signature) λ u.
          Triple-given _ λ w₀ checked. Triple-bind _ _ (Triple-attach response.signature) λ signed.
            Triple-given _ λ w₁ attached.
              Triple-bind _ _
                (Triple-pre _
                  (Triple-broadcast signed (record {
                    signature = response.signature;
                    verified = record {
                      form = checked.0;
                      recovered_at = checked.1.1.0;
                      recovered = checked.1.1.1;
                    };
                    attached_at = attached.1.0;
                    attached = attached.1.1;
                  }))
                  λ w p. p.0)
                λ v. Triple-pure _ (λ w p. (refl, p))

  pub Triple-IsDelivered :
      Triple
        (Silent before)
        (broadcast_official_event lib chain sign prepared)
        IsDelivered
        (λ e. HasSent)
  unfolding broadcast_official_event
  Triple-IsDelivered = Triple-bind _ _ (Triple-signer (request_of prepared)) Triple-send

  -- A broadcast sends nothing, or a single transaction: the prepared one, with a well-formed
  -- signature attached that recovers the key of the authorization, as the chain said itself. This
  -- holds whatever the signer answers, and whether the method returns or throws.
  pub broadcast_official_event-HasSent :
      (w : GatewayWorld N)
      → w.broadcasts ≡ before
      → HasSent (broadcast_official_event lib chain sign prepared w).1
  broadcast_official_event-HasSent w h =
      Post-either HasSent (broadcast_official_event lib chain sign prepared w)
        (Post-mono _ (λ r w' d. inr d.1) (λ e w' d. d) (Triple-IsDelivered.at w h))
