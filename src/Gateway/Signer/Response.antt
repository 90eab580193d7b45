-- ===== src/Gateway/Signer/Response.antt =====
-- What the boundary returns: packages/hive-gateway/src/signer-boundary.ts, `sign`.
use hive_chameleon.Prelude.{ℕ, ◌≡◌, refl, subst}
use hive_chameleon.Exec.{Result, ok, err, Exec}
use hive_chameleon.Exec.Triple.{
  Post, Triple, Triple-pure, Triple-throw, Triple-unless, Triple-bind, Triple-bind-lift,
  Triple-given, Triple-pre, Triple-post,
}
use hive_chameleon.Gateway.Library.{Library}
use hive_chameleon.Gateway.Contracts.{
  IsolatedSignerRequest, IsolatedSignerResponse, SignerIdempotencyAcquisition, acquired, conflict,
  replay, GatewayFailure,
}
use hive_chameleon.Gateway.Signature.Verified.{IsWellFormed, Triple-signature, key_eq}
use hive_chameleon.Gateway.Signer.{
  SignerWorld, PolicyEnforcingSignerBoundary, ask, assert_signer_response, sign_acquired, settle,
  sign, response_of,
}

done : {W A : Type 0} (x : Result GatewayFailure A × W) → Post (λ a w. Unit {0}) (λ e w. Unit {0}) x
unfolding Post
done (ok a, w) = tt
done (err e, w) = tt

module _ (lib : Library) {L : Type 0} (boundary : PolicyEnforcingSignerBoundary L)
    (request : IsolatedSignerRequest) where
  -- The response has the expected key, and a well-formed signature of the request's digest that
  -- recovers it, as the chain said at some tick.
  pub record IsVerifiedResponse (response : IsolatedSignerResponse) : Type 0 where
    pub key : response.public_key ≡ request.expected_public_key
    pub form : IsWellFormed request.signature_digest response.signature
    pub tick : ℕ
    pub recovered :
        boundary.chain.recover_public_key tick request.signature_digest response.signature
        ≡ ok request.expected_public_key

  abbrev Anything : SignerWorld L → Type 0
  Anything w = Unit {0}

  Anything-done :
      {A : Type 0} (m : Exec (SignerWorld L) GatewayFailure A)
      → Triple Anything m (λ a. Anything) (λ e. Anything)
  Anything-done m = record { at = λ w p. done (m w) }

  answered :
      {A : Type 0} (answer : ℕ → Result GatewayFailure A) (tick : ℕ) (r : Result GatewayFailure A)
      (w : SignerWorld L)
      → answer tick ≡ r
      → Post (λ a w. (n : ℕ) × (answer n ≡ ok a)) (λ e. Anything) (r, w)
  unfolding Post
  answered answer tick (ok a) w h = (tick, h)
  answered answer tick (err e) w h = tt

  Triple-answer :
      {A : Type 0} (answer : ℕ → Result GatewayFailure A)
      → Triple Anything
          (ask lib boundary answer)
          (λ a w. (n : ℕ) × (answer n ≡ ok a))
          (λ e. Anything)
  unfolding ask
  Triple-answer answer = record { at = λ w p. answered answer w.tick _ _ refl }

  Triple-verified :
      (response : IsolatedSignerResponse)
      → Triple Anything
          (assert_signer_response lib boundary request response)
          (λ u w. IsVerifiedResponse response)
          (λ e. Anything)
  unfolding assert_signer_response
  Triple-verified response =
      Triple-unless _ _ _ (λ e w p. tt)
        λ same.
          Triple-post _
            (Triple-signature
              {R = λ key w.
                (n : ℕ) × (boundary.chain.recover_public_key n request.signature_digest
                    response.signature
                  ≡ ok key)}
              _ request.signature_digest response.signature request.expected_public_key (λ w p. tt)
              (λ key w p. tt) (Triple-answer _))
            (λ u w p. record {
              key = key_eq response.public_key request.expected_public_key same;
              form = p.0;
              tick = p.1.0;
              recovered = p.1.1;
            })
            (λ e w p. tt)

  Triple-settled :
      (a : SignerIdempotencyAcquisition)
      → Triple Anything
          (settle lib boundary request a)
          (λ r w. IsVerifiedResponse r)
          (λ e. Anything)
  unfolding settle sign_acquired
  Triple-settled conflict = Triple-throw _ (λ w p. tt)
  Triple-settled (replay response) =
      Triple-bind _ _ (Triple-verified response) λ u. Triple-pure _ (λ w p. p)
  Triple-settled (acquired lease_id) = Triple-bind _ _ (Anything-done _) λ signature.
      Triple-bind _ _ (Triple-verified (response_of request signature)) λ u.
        Triple-given _ λ w verified.
          Triple-bind _ _ (Triple-pre _ (Anything-done _) (λ w p. tt))
            λ v. Triple-pure _ (λ w p. verified)

  Triple-sign :
      Triple Anything (sign lib boundary request) (λ r w. IsVerifiedResponse r) (λ e. Anything)
  unfolding sign
  Triple-sign = Triple-bind _ _ (Anything-done _) λ inspected.
      Triple-bind-lift _ _ (λ u e. Triple-bind _ _ (Anything-done _) Triple-settled) (λ e k w p. tt)

  -- What the boundary returns, freshly signed or replayed, carries the key the request expects and
  -- a signature from which the chain itself recovers that key for the request's digest: 65 bytes in
  -- hexadecimal, a header from 31 to 34, two scalars whose first byte is below 128 and not 0 before
  -- a second byte below 128, and an s between 1 and half the order of secp256k1.
  pub sign-IsVerifiedResponse :
      (w w' : SignerWorld L) (response : IsolatedSignerResponse)
      → sign lib boundary request w ≡ (ok response, w')
      → IsVerifiedResponse response
  unfolding Post
  sign-IsVerifiedResponse w w' response h =
      subst (Post (λ r w. IsVerifiedResponse r) (λ e. Anything)) h (Triple-sign.at w tt)
