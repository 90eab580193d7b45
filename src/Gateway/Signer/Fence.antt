-- ===== src/Gateway/Signer/Fence.antt =====
-- The signature provider is called once per idempotency key, and for approved requests only:
-- packages/hive-gateway/src/signer-boundary.ts over any ledger that keeps its promise.
use hive_chameleon.Prelude.{
  ℕ, suc, String, true, false, ◌≡◌, refl, arith, List, [], ◌∷◌, map, All, All-mono, contains,
  eq_iff,
}
use hive_chameleon.Exec.{Result, ok, err, Exec}
use hive_chameleon.Exec.Triple.{
  Post, Post-either, Post-const, Triple, Triple-pure, Triple-throw, Triple-unless, Triple-bind,
  Triple-bind-lift, Triple-given, Triple-pre, Triple-post, Keeps,
}
use hive_chameleon.Gateway.Library.{Library}
use hive_chameleon.Gateway.Protocol.Check.Laws.{Distinct}
use hive_chameleon.Gateway.Protocol.Codec.{HiveGatewayErrorCode}
use hive_chameleon.Gateway.Contracts.{
  IsolatedSignerRequest, IsolatedSignerResponse, SignerIdempotencyBinding,
  SignerIdempotencyAcquisition, acquired, conflict, replay, DigestRequest, GatewayFailure,
  InspectedChainTransaction,
}
use hive_chameleon.Gateway.Signature.Verified.{Triple-signature}
use hive_chameleon.Gateway.Contracts.{gateway}
use hive_chameleon.Gateway.Signer.{
  IsLedger, SignerWorld, PolicyEnforcingSignerBoundary, idempotency_binding, digest_request,
  response_of, check_request, ask, call_provider, guarded, with_ledger, acquire_idempotency,
  assert_signer_response, sign_acquired, settle, sign, sign_all, unavailable,
}

guarded-Post :
    {W A : Type 0} (Q : A → W → Type 0) (R : W → Type 0) (x : Result GatewayFailure A × W)
    → Post Q (λ e. R) x
    → Post Q (λ e. R) (unavailable x.0, x.1)
unfolding Post
guarded-Post Q R (ok a, w) p = p
guarded-Post Q R (err e, w) p = p

shown-Post :
    {W A : Type 0} (P : W → Type 0) (answer : ℕ → Result GatewayFailure A) (tick : ℕ)
    (r : Result GatewayFailure A) (w : W)
    → answer tick ≡ r
    → P w
    → Post (λ a w. P w × ((n : ℕ) × (answer n ≡ ok a))) (λ e. P) (r, w)
unfolding Post
shown-Post P answer tick (ok a) w h p = (p, (tick, h))
shown-Post P answer tick (err e) w h p = p

gateway-ok : (r : Result HiveGatewayErrorCode (Unit {0})) (u : Unit) → gateway r ≡ ok u → r ≡ ok tt
gateway-ok (ok a) u h = refl
gateway-ok (err e) u h = ground arith

module _ (lib : Library) {L : Type 0} (boundary : PolicyEnforcingSignerBoundary L)
    (laws : IsLedger boundary.idempotency) where
  -- A request of the provider that comes from a request of the boundary whose transaction the
  -- chain showed at some tick, and which passed every check.
  pub record IsApproved (q : DigestRequest) : Type 0 where
    pub request : IsolatedSignerRequest
    pub inspected : InspectedChainTransaction
    pub tick : ℕ
    pub shown :
        boundary.chain.inspect_transaction tick request.unsigned_transaction_json ≡ ok inspected
    pub checked : check_request lib boundary request inspected ≡ ok tt
    pub same : digest_request request ≡ q

  abbrev pub keys : List DigestRequest → List String
  keys requests = map (λ q. q.idempotency_key) requests

  abbrev pub IsBound : L → DigestRequest → Type 0
  IsBound l q = laws.is_bound l q.idempotency_key ≡ true

  -- Every key that reached the provider is bound, and reached it once, with an approved request.
  pub record IsFenced (w : SignerWorld L) : Type 0 where
    pub bound : All (IsBound w.ledger) w.requests
    pub once : Distinct (keys w.requests)
    pub approved : All IsApproved w.requests

  -- The key is bound and has not reached the provider.
  pub record IsReady (key : String) (w : SignerWorld L) : Type 0 where
    pub fenced : IsFenced w
    pub bound : laws.is_bound w.ledger key ≡ true
    pub fresh : contains (keys w.requests) key ≡ false

  absent :
      (l : L) (requests : List DigestRequest) (key : String)
      → All (IsBound l) requests
      → laws.is_bound l key ≡ false
      → contains (keys requests) key ≡ false
  absent l [] key h free = refl
  absent l (q ∷ qs) key h free =
      ground (arith, absent l qs key h.1 free, eq_iff q.idempotency_key key, h.0, free)

  -- A ledger that keeps the bound keys keeps the fence.
  IsFenced-ledger :
      (w : SignerWorld L) (l : L)
      → IsFenced w
      → ((key : String) → laws.is_bound w.ledger key ≡ true → laws.is_bound l key ≡ true)
      → IsFenced (record w { ledger = l })
  IsFenced-ledger w l h keeps = record {
    bound = All-mono w.requests (λ q. keeps q.idempotency_key) h.bound;
    once = h.once;
    approved = h.approved;
  }

  ticked : (w : SignerWorld L) → IsFenced w → IsFenced (record w { tick = suc w.tick })
  ticked w p = record { bound = p.bound; once = p.once; approved = p.approved }

  Triple-ask :
      {A : Type 0} (answer : ℕ → Result GatewayFailure A) (P : SignerWorld L → Type 0)
      → ((w : SignerWorld L) → P w → P (record w { tick = suc w.tick }))
      → Triple P (ask lib boundary answer) (λ a. P) (λ e. P)
  unfolding ask Post
  Triple-ask answer P h = record { at = λ w p. Post-const P (answer w.tick) _ (h w p) }

  Triple-guarded :
      {A : Type 0} (P : SignerWorld L → Type 0) (Q : A → SignerWorld L → Type 0)
      (R : SignerWorld L → Type 0) (m : Exec (SignerWorld L) GatewayFailure A)
      → Triple P m Q (λ e. R)
      → Triple P (guarded lib boundary m) Q (λ e. R)
  unfolding guarded
  Triple-guarded P Q R m h = record { at = λ w p. guarded-Post Q R (m w) (h.at w p) }

  -- An acquired key is ready for the provider; any other answer keeps the fence.
  abbrev AcquisitionPost : String → SignerIdempotencyAcquisition → SignerWorld L → Type 0
  AcquisitionPost key (acquired lease_id) w = IsReady key w
  AcquisitionPost key conflict w = IsFenced w
  AcquisitionPost key (replay response) w = IsFenced w

  acquired-Post :
      (b : SignerIdempotencyBinding) (w : SignerWorld L)
      (r : Result GatewayFailure SignerIdempotencyAcquisition) (l : L)
      → IsFenced w
      → IsFenced (record w { ledger = l })
      → ((lease_id : ℕ)
          → r ≡ ok (acquired lease_id)
          → (laws.is_bound w.ledger b.idempotency_key ≡ false)
            × (laws.is_bound l b.idempotency_key ≡ true))
      → Post (AcquisitionPost b.idempotency_key) (λ e. IsFenced) (r, record w { ledger = l })
  unfolding Post
  acquired-Post b w (ok (acquired n)) l before after h = record {
    fenced = after;
    bound = (h n refl).1;
    fresh = absent w.ledger w.requests b.idempotency_key before.bound (h n refl).0;
  }
  acquired-Post b w (ok conflict) l before after h = after
  acquired-Post b w (ok (replay response)) l before after h = after
  acquired-Post b w (err e) l before after h = after

  Triple-acquire :
      (b : SignerIdempotencyBinding)
      → Triple IsFenced
          (acquire_idempotency lib boundary b)
          (AcquisitionPost b.idempotency_key)
          (λ e. IsFenced)
  unfolding acquire_idempotency with_ledger
  Triple-acquire b = Triple-guarded _ _ IsFenced _ (record {
    at = λ w p.
        acquired-Post b w _ _ p (IsFenced-ledger w _ p (laws.acquire_keeps b w.ledger))
          (laws.acquire_binds b w.ledger);
  })

  Triple-complete :
      (b : SignerIdempotencyBinding) (lease_id : ℕ) (r : IsolatedSignerResponse)
      → Keeps IsFenced (
          guarded lib boundary
            (with_ledger lib boundary (boundary.idempotency.complete b lease_id r)))
  unfolding with_ledger
  Triple-complete b lease_id r = Triple-guarded _ _ IsFenced _ (record {
    at = λ w p.
        Post-const IsFenced _ _ (IsFenced-ledger w _ p (laws.complete_keeps b lease_id r w.ledger));
  })

  -- A call of the provider for a ready key, with an approved request.
  Triple-provider :
      (q : DigestRequest)
      → IsApproved q
      → Triple
          (IsReady q.idempotency_key)
          (guarded lib boundary (call_provider lib boundary q))
          (λ signature. IsFenced)
          (λ e. IsFenced)
  unfolding call_provider
  Triple-provider q approved = Triple-guarded _ _ IsFenced _ (record {
    at = λ w p. Post-const IsFenced _ _ (record {
      bound = (p.bound, p.fenced.bound);
      once = (p.fresh, p.fenced.once);
      approved = (approved, p.fenced.approved);
    });
  })

  Triple-assert :
      (request : IsolatedSignerRequest) (response : IsolatedSignerResponse)
      → Keeps IsFenced (assert_signer_response lib boundary request response)
  unfolding assert_signer_response
  Triple-assert request response =
      Triple-unless _ _ _ (λ h w p. p)
        λ h.
          Triple-post _
            (Triple-signature {R = λ key. IsFenced} _ request.signature_digest response.signature
              request.expected_public_key (λ w p. p) (λ key w p. p)
              (Triple-ask _ IsFenced (λ w p. ticked w p)))
            (λ u w p. p.1) (λ e w p. p)

  Triple-settle :
      (request : IsolatedSignerRequest) (a : SignerIdempotencyAcquisition)
      → IsApproved (digest_request request)
      → Triple
          (AcquisitionPost request.idempotency_key a)
          (settle lib boundary request a)
          (λ r. IsFenced)
          (λ e. IsFenced)
  unfolding settle sign_acquired
  Triple-settle request conflict approved = Triple-throw _ (λ w p. p)
  Triple-settle request (replay response) approved =
      Triple-bind _ _ (Triple-assert request response) λ u. Triple-pure _ (λ w p. p)
  Triple-settle request (acquired lease_id) approved =
      Triple-bind _ _ (Triple-provider (digest_request request) approved) λ signature.
        Triple-bind _ _ (Triple-assert request (response_of request signature)) λ u.
          Triple-bind _ _
            (Triple-complete (idempotency_binding request) lease_id (response_of request signature))
            λ v. Triple-pure _ (λ w p. p)

  -- The inspection keeps the fence, and its answer is the chain's at some tick.
  Triple-ask_shown :
      {A : Type 0} (answer : ℕ → Result GatewayFailure A)
      → Triple IsFenced
          (ask lib boundary answer)
          (λ a w. IsFenced w × ((tick : ℕ) × (answer tick ≡ ok a)))
          (λ e. IsFenced)
  unfolding ask
  Triple-ask_shown answer = record {
    at = λ w p. shown-Post IsFenced answer w.tick (answer w.tick) _ refl (ticked w p);
  }

  Triple-sign : (request : IsolatedSignerRequest) → Keeps IsFenced (sign lib boundary request)
  unfolding sign
  Triple-sign request = Triple-bind _ _ (Triple-ask_shown _) λ inspected.
      Triple-bind-lift _ _
        (λ u e. Triple-given _ λ w p.
          Triple-bind _ _ (Triple-pre _ (Triple-acquire (idempotency_binding request)) λ w p. p.0)
            λ a. Triple-settle request a (record {
              request = request;
              inspected = inspected;
              tick = p.1.0;
              shown = p.1.1;
              checked = gateway-ok _ u e;
              same = refl;
            }))
        (λ e k w p. p.0)

  -- Whatever requests the boundary gets, and whatever each of them ends with: every idempotency key
  -- reaches the signature provider at most once, each time with a request whose transaction the
  -- chain showed and which passed every check of the boundary, and stays bound in the ledger. The
  -- ledger must keep bound keys bound and acquire only unbound ones, and the fence must hold at the
  -- start, as it does where no key has reached the provider.
  pub sign_all-IsFenced :
      (requests : List IsolatedSignerRequest) (w : SignerWorld L)
      → IsFenced w
      → IsFenced (sign_all lib boundary requests w)
  unfolding sign_all
  sign_all-IsFenced [] w h = h
  sign_all-IsFenced (request ∷ rest) w h =
      sign_all-IsFenced rest _ (Post-either IsFenced _ ((Triple-sign request).at w h))
