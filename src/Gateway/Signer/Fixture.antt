-- ===== src/Gateway/Signer/Fixture.antt =====
-- packages/hive-gateway/src/testing/fakes.ts: `FixtureSignerIdempotencyLedger`. A lease id is its
-- number, and two bindings have one JSON text when their fields agree.
pub mod Replay
mod Tests
use hive_chameleon.Prelude.{
  ℕ, suc, String, Bool, true, false, not, ◌&&◌, Option, none, some, List, ◌==◌, str_eq, eq_refl,
  is_some, map_get, map_set, map_delete, map_get-map_set, if◌then◌else◌, ◌≡◌, refl, arith,
  Bool-cases, inl, inr,
}
use hive_chameleon.Exec.{Result, ok, err, Exec}
use hive_chameleon.Gateway.Contracts.{
  SignerIdempotencyBinding, SignerIdempotencyAcquisition, acquired, conflict, replay,
  IsolatedSignerResponse, GatewayFailure, unexpected, same_role, same_authority,
}
use hive_chameleon.Gateway.Signer.{SignerIdempotencyLedger, IsLedger}

pub record FixtureIdempotencyRecord : Type 0 where
  pub binding : SignerIdempotencyBinding
  pub lease_id : ℕ
  pub response : Option IsolatedSignerResponse

pub record FixtureSignerIdempotencyLedger : Type 0 where
  pub records : List (String × FixtureIdempotencyRecord)
  pub lease_sequence : ℕ

unfoldable pub same_binding : SignerIdempotencyBinding → SignerIdempotencyBinding → Bool
same_binding a b =
    str_eq a.idempotency_key b.idempotency_key
    && (str_eq a.policy_version b.policy_version
        && (same_role a.role b.role
            && (str_eq a.account b.account
                && (same_authority a.authority b.authority
                    && (str_eq a.expected_public_key b.expected_public_key
                        && (str_eq a.signer_key_reference b.signer_key_reference
                            && (str_eq a.canonical_operation_json b.canonical_operation_json
                                && (str_eq a.canonical_operation_hash b.canonical_operation_hash
                                    && (str_eq a.signature_digest b.signature_digest
                                        && str_eq a.transaction_id b.transaction_id)))))))))

abbrev pub replayed :
    Option IsolatedSignerResponse → Result GatewayFailure SignerIdempotencyAcquisition
replayed none = err unexpected
replayed (some response) = ok (replay response)

abbrev pub existing_answer :
    SignerIdempotencyBinding
    → FixtureIdempotencyRecord
    → Result GatewayFailure SignerIdempotencyAcquisition
existing_answer binding existing =
    if not (same_binding existing.binding binding) then ok conflict else replayed existing.response

abbrev pub acquire_from :
    Option FixtureIdempotencyRecord
    → SignerIdempotencyBinding
    → Exec FixtureSignerIdempotencyLedger GatewayFailure SignerIdempotencyAcquisition
acquire_from none binding l = (
  ok (acquired (suc l.lease_sequence)),
  record {
    records =
        map_set l.records binding.idempotency_key
          (record { binding = binding; lease_id = suc l.lease_sequence; response = none });
    lease_sequence = suc l.lease_sequence;
  },
)
acquire_from (some existing) binding l = (existing_answer binding existing, l)

-- `acquire`. It throws where an identical request is still unanswered.
unfoldable pub acquire :
    SignerIdempotencyBinding
    → Exec FixtureSignerIdempotencyLedger GatewayFailure SignerIdempotencyAcquisition
acquire binding l = acquire_from (map_get l.records binding.idempotency_key) binding l

-- `assertActiveLease`.
unfoldable pub is_active_lease : FixtureIdempotencyRecord → SignerIdempotencyBinding → ℕ → Bool
is_active_lease existing binding lease_id =
    not (is_some existing.response)
    && (existing.lease_id == lease_id && same_binding existing.binding binding)

abbrev pub complete_in :
    Option FixtureIdempotencyRecord
    → SignerIdempotencyBinding
    → ℕ
    → IsolatedSignerResponse
    → Exec FixtureSignerIdempotencyLedger GatewayFailure (Unit {0})
complete_in none binding lease_id response l = (err unexpected, l)
complete_in (some existing) binding lease_id response l =
    if is_active_lease existing binding lease_id
    then (
      ok tt,
      record l {
        records =
            map_set l.records binding.idempotency_key
              (record existing { response = some response });
      },
    )
    else (err unexpected, l)

unfoldable pub complete :
    SignerIdempotencyBinding
    → ℕ
    → IsolatedSignerResponse
    → Exec FixtureSignerIdempotencyLedger GatewayFailure (Unit {0})
complete binding lease_id response l =
    complete_in (map_get l.records binding.idempotency_key) binding lease_id response l

abbrev pub abort_in :
    Option FixtureIdempotencyRecord
    → SignerIdempotencyBinding
    → ℕ
    → Exec FixtureSignerIdempotencyLedger GatewayFailure (Unit {0})
abort_in none binding lease_id l = (ok tt, l)
abort_in (some existing) binding lease_id l =
    if is_active_lease existing binding lease_id
    then (ok tt, record l { records = map_delete l.records binding.idempotency_key })
    else (ok tt, l)

-- `abort`.
unfoldable pub abort :
    SignerIdempotencyBinding → ℕ → Exec FixtureSignerIdempotencyLedger GatewayFailure (Unit {0})
abort binding lease_id l = abort_in (map_get l.records binding.idempotency_key) binding lease_id l

abbrev pub fixture_ledger : SignerIdempotencyLedger FixtureSignerIdempotencyLedger
fixture_ledger = record { acquire = acquire; complete = complete; abort = abort }

abbrev pub is_bound : FixtureSignerIdempotencyLedger → String → Bool
is_bound l key = is_some (map_get l.records key)

-- Setting an entry leaves every bound key bound.
bound_after_set :
    (records : List (String × FixtureIdempotencyRecord)) (key other : String)
    (entry : FixtureIdempotencyRecord)
    → is_some (map_get records other) ≡ true
    → is_some (map_get (map_set records key entry) other) ≡ true
bound_after_set records key other entry h = ground (arith, map_get-map_set records key other entry)

acquire_keeps :
    (b : SignerIdempotencyBinding) (l : FixtureSignerIdempotencyLedger) (key : String)
    (found : Option FixtureIdempotencyRecord)
    → is_bound l key ≡ true
    → is_bound (acquire_from found b l).1 key ≡ true
acquire_keeps b l key none h = bound_after_set l.records b.idempotency_key key _ h
acquire_keeps b l key (some existing) h = h

-- A key that is bound is never acquired.
not_acquired :
    (response : Option IsolatedSignerResponse) (same : Bool) (lease_id : ℕ)
    → (if not same then ok conflict else replayed response) ≡ ok (acquired lease_id)
    → true ≡ false
not_acquired none true n h = ground arith
not_acquired none false n h = ground arith
not_acquired (some r) true n h = ground arith
not_acquired (some r) false n h = ground arith

acquire_binds :
    (b : SignerIdempotencyBinding) (l : FixtureSignerIdempotencyLedger) (lease_id : ℕ)
    (found : Option FixtureIdempotencyRecord)
    → found ≡ map_get l.records b.idempotency_key
    → (acquire_from found b l).0 ≡ ok (acquired lease_id)
    → (is_bound l b.idempotency_key ≡ false)
      × (is_bound (acquire_from found b l).1 b.idempotency_key ≡ true)
acquire_binds b l lease_id none e h = (
  ground (arith, e),
  ground (
    arith,
    eq_refl b.idempotency_key,
    map_get-map_set l.records b.idempotency_key b.idempotency_key
        (record { binding = b; lease_id = suc l.lease_sequence; response = none }),
  ),
)
acquire_binds b l lease_id (some existing) e h =
    ground (arith, not_acquired existing.response (same_binding existing.binding b) lease_id h)

complete_keeps :
    (b : SignerIdempotencyBinding) (lease_id : ℕ) (r : IsolatedSignerResponse)
    (l : FixtureSignerIdempotencyLedger) (key : String) (found : Option FixtureIdempotencyRecord)
    → is_bound l key ≡ true
    → is_bound (complete_in found b lease_id r l).1 key ≡ true
complete_keeps b lease_id r l key none h = h
complete_keeps b lease_id r l key (some existing) h =
    elim (Bool-cases (is_active_lease existing b lease_id)) [
      | inl e ↦ ground (
        arith,
        e,
        bound_after_set l.records b.idempotency_key key (record existing { response = some r }) h,
      )
      | inr e ↦ ground (arith, e)
    ]

-- Of `acquire` and `complete`, the ledger of the tests keeps a ledger's promise: bound keys stay
-- bound, and a key is acquired only if it was not bound.
pub fixture_ledger-IsLedger : IsLedger fixture_ledger
unfolding acquire complete
fixture_ledger-IsLedger = record {
  is_bound = is_bound;
  acquire_keeps = λ b l key h. acquire_keeps b l key _ h;
  acquire_binds = λ b l n h. acquire_binds b l n _ refl h;
  complete_keeps = λ b n r l key h. complete_keeps b n r l key _ h;
}
