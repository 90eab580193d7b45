-- ===== src/Gateway/Signer/Fixture/Tests.antt =====
-- An answered request that comes back to the ledger of the tests.
use hive_chameleon.Prelude.{◌≡◌, ◌≢◌, ◌⊎◌, refl, List, [], ◌∷◌, map_get, some}
use hive_chameleon.Exec.{ok}
use hive_chameleon.Gateway.Contracts.{
  SignerIdempotencyBinding, conflict, replay, IsolatedSignerResponse, collectible_issuer, posting,
}
use hive_chameleon.Gateway.Signer.Fixture.{FixtureSignerIdempotencyLedger, acquire}
use hive_chameleon.Gateway.Signer.Fixture.Replay.{
  LedgerCall, acquires, aborts, completes, after_calls, answered, acquire-after_calls,
}

abbrev binding : SignerIdempotencyBinding
binding = record {
  idempotency_key = "request-1";
  policy_version = "v1";
  role = collectible_issuer;
  account = "issuer";
  authority = posting;
  expected_public_key = "key";
  signer_key_reference = "reference";
  canonical_operation_json = "operation";
  canonical_operation_hash = "hash";
  signature_digest = "digest";
  transaction_id = "transaction";
}

abbrev response : IsolatedSignerResponse
response = record { public_key = "key"; signature = "signature" }

abbrev ledger : FixtureSignerIdempotencyLedger
ledger = record { records = ("request-1", answered binding 1 response) ∷ []; lease_sequence = 1 }

abbrev calls : List LedgerCall
calls = aborts binding 1 ∷ completes binding 1 response ∷ acquires binding ∷ []

held : map_get ledger.records binding.idempotency_key ≡ some (answered binding 1 response)
unfolding map_get
held = refl

acquire-after_calls_example :
    ((binding ≡ binding)
      × (acquire binding (after_calls calls ledger)
          ≡ (ok (replay response), after_calls calls ledger)))
    ⊎ ((binding ≢ binding)
        × (acquire binding (after_calls calls ledger) ≡ (ok conflict, after_calls calls ledger)))
acquire-after_calls_example = acquire-after_calls binding binding 1 response ledger calls held
