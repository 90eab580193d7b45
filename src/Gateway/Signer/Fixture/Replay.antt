-- ===== src/Gateway/Signer/Fixture/Replay.antt =====
-- What an answered request meets in `FixtureSignerIdempotencyLedger` of
-- packages/hive-gateway/src/testing/fakes.ts, whatever is called in between.
use hive_chameleon.Prelude.{
  ℕ, suc, String, ◌≡◌, ◌≢◌, ◌⊎◌, inl, inr, refl, sym, ap, ◌∙◌, subst, Bool, true, false, ◌&&◌,
  Option, none, some, List, [], ◌∷◌, str_eq, eq_iff, eq_refl, map_get, map_get-map_set,
  map_get-map_delete, arith, Bool-cases,
}
use hive_chameleon.Exec.{ok}
use hive_chameleon.Gateway.Contracts.{
  SignerIdempotencyBinding, conflict, replay, IsolatedSignerResponse, OfficialServiceRole,
  HiveAuthority, same_role, same_authority, collectible_issuer, match_publisher, rc_support,
  treasury, active, owner, posting,
}
use hive_chameleon.Gateway.Policy.Laws.{same_role-eq, same_authority-eq}
use hive_chameleon.Gateway.Signer.Fixture.{
  FixtureIdempotencyRecord, FixtureSignerIdempotencyLedger, same_binding, is_active_lease, acquire,
  complete, abort, acquire_from, complete_in, abort_in, existing_answer,
}

same_role_refl : (a : OfficialServiceRole) → same_role a a ≡ true
same_role_refl collectible_issuer = refl
same_role_refl match_publisher = refl
same_role_refl rc_support = refl
same_role_refl treasury = refl

same_authority_refl : (a : HiveAuthority) → same_authority a a ≡ true
same_authority_refl active = refl
same_authority_refl owner = refl
same_authority_refl posting = refl

and_true : (a b : Bool) → (a && b) ≡ true → (a ≡ true) × (b ≡ true)
and_true true b h = (refl, h)
and_true false b h = absurd (ground (arith, h))

same_text : (a b : String) → str_eq a b ≡ true → a ≡ b
same_text a b h = ground (arith, h, eq_iff a b)

same_binding_refl : (b : SignerIdempotencyBinding) → same_binding b b ≡ true
unfolding same_binding
same_binding_refl b =
    rw
      (
        eq_refl b.idempotency_key,
        eq_refl b.policy_version,
        same_role_refl b.role,
        eq_refl b.account,
        same_authority_refl b.authority,
        eq_refl b.expected_public_key,
        eq_refl b.signer_key_reference,
        eq_refl b.canonical_operation_json,
        eq_refl b.canonical_operation_hash,
        eq_refl b.signature_digest,
        eq_refl b.transaction_id,
      )
      refl

same_binding-eq : (a b : SignerIdempotencyBinding) → same_binding a b ≡ true → a ≡ b
unfolding same_binding
same_binding-eq a b h₀ =
    let (key, h₁) = and_true (str_eq a.idempotency_key b.idempotency_key) _ h₀ in
    let (version, h₂) = and_true (str_eq a.policy_version b.policy_version) _ h₁ in
    let (role, h₃) = and_true (same_role a.role b.role) _ h₂ in
    let (account, h₄) = and_true (str_eq a.account b.account) _ h₃ in
    let (authority, h₅) = and_true (same_authority a.authority b.authority) _ h₄ in
    let (public_key, h₆) = and_true (str_eq a.expected_public_key b.expected_public_key) _ h₅ in
    let (reference, h₇) = and_true (str_eq a.signer_key_reference b.signer_key_reference) _ h₆ in
    let (json, h₈) = and_true (str_eq a.canonical_operation_json b.canonical_operation_json) _ h₇ in
    let (hash, h₉) = and_true (str_eq a.canonical_operation_hash b.canonical_operation_hash) _ h₈ in
    let (digest, transaction) =
      and_true (str_eq a.signature_digest b.signature_digest)
        (str_eq a.transaction_id b.transaction_id) h₉ in
    λ i. record {
      idempotency_key = same_text a.idempotency_key b.idempotency_key key i;
      policy_version = same_text a.policy_version b.policy_version version i;
      role = same_role-eq a.role b.role role i;
      account = same_text a.account b.account account i;
      authority = same_authority-eq a.authority b.authority authority i;
      expected_public_key = same_text a.expected_public_key b.expected_public_key public_key i;
      signer_key_reference = same_text a.signer_key_reference b.signer_key_reference reference i;
      canonical_operation_json =
          same_text a.canonical_operation_json b.canonical_operation_json json i;
      canonical_operation_hash =
          same_text a.canonical_operation_hash b.canonical_operation_hash hash i;
      signature_digest = same_text a.signature_digest b.signature_digest digest i;
      transaction_id = same_text a.transaction_id b.transaction_id transaction i;
    }

pub data LedgerCall : Type 0 where
  acquires : (binding : SignerIdempotencyBinding) → LedgerCall
  completes :
      (binding : SignerIdempotencyBinding) (lease_id : ℕ) (response : IsolatedSignerResponse)
      → LedgerCall
  aborts : (binding : SignerIdempotencyBinding) (lease_id : ℕ) → LedgerCall

abbrev after_call : LedgerCall → FixtureSignerIdempotencyLedger → FixtureSignerIdempotencyLedger
after_call (acquires b) l = (acquire b l).1
after_call (completes b lease_id r) l = (complete b lease_id r l).1
after_call (aborts b lease_id) l = (abort b lease_id l).1

abbrev pub after_calls :
    List LedgerCall → FixtureSignerIdempotencyLedger → FixtureSignerIdempotencyLedger
after_calls [] l = l
after_calls (call ∷ calls) l = after_calls calls (after_call call l)

-- An entry with a response.
abbrev pub answered :
    SignerIdempotencyBinding → ℕ → IsolatedSignerResponse → FixtureIdempotencyRecord
answered binding lease_id response = record {
  binding = binding;
  lease_id = lease_id;
  response = some response;
}

module _ (key : String) (binding : SignerIdempotencyBinding) (lease_id : ℕ)
    (response : IsolatedSignerResponse) where
  abbrev IsAnswered : FixtureSignerIdempotencyLedger → Type 0
  IsAnswered l = map_get l.records key ≡ some (answered binding lease_id response)

  found_here :
      (l : FixtureSignerIdempotencyLedger) (other : String)
      → IsAnswered l
      → str_eq other key ≡ true
      → map_get l.records other ≡ some (answered binding lease_id response)
  found_here l other h e = ap (map_get l.records) (same_text other key e) ∙ h

  IsAnswered-acquire :
      (b : SignerIdempotencyBinding) (l : FixtureSignerIdempotencyLedger)
      (found : Option FixtureIdempotencyRecord)
      → found ≡ map_get l.records b.idempotency_key
      → IsAnswered l
      → IsAnswered (acquire_from found b l).1
  IsAnswered-acquire b l (some existing) e h = h
  IsAnswered-acquire b l none e h =
      let new : FixtureIdempotencyRecord = record {
        binding = b;
        lease_id = suc l.lease_sequence;
        response = none;
      } in
      elim (Bool-cases (str_eq b.idempotency_key key)) [
        | inl same ↦ absurd (ground (arith, e, found_here l b.idempotency_key h same))
        | inr same ↦ ground (arith, same, h, map_get-map_set l.records b.idempotency_key key new)
      ]

  -- What changes an entry changes one that is not answered.
  IsAnswered-change :
      (b : SignerIdempotencyBinding) (n : ℕ) (l : FixtureSignerIdempotencyLedger)
      (existing : FixtureIdempotencyRecord)
      → map_get l.records b.idempotency_key ≡ some existing
      → is_active_lease existing b n ≡ true
      → IsAnswered l
      → str_eq b.idempotency_key key ≡ false
  unfolding is_active_lease
  IsAnswered-change b n l existing e lease h = elim (Bool-cases (str_eq b.idempotency_key key)) [
    | inr same ↦ same
    | inl same ↦ absurd (ground (arith, lease, e, found_here l b.idempotency_key h same))
  ]

  IsAnswered-complete :
      (b : SignerIdempotencyBinding) (n : ℕ) (r : IsolatedSignerResponse)
      (l : FixtureSignerIdempotencyLedger) (found : Option FixtureIdempotencyRecord)
      → map_get l.records b.idempotency_key ≡ found
      → IsAnswered l
      → IsAnswered (complete_in found b n r l).1
  IsAnswered-complete b n r l none e h = h
  IsAnswered-complete b n r l (some existing) e h =
      elim (Bool-cases (is_active_lease existing b n)) [
        | inr lease ↦ ground (arith, lease, h)
        | inl lease ↦
            let other = IsAnswered-change b n l existing e lease h in
            ground (
              arith,
              lease,
              other,
              h,
              map_get-map_set l.records b.idempotency_key key
                  (record existing { response = some r }),
            )
      ]

  IsAnswered-abort :
      (b : SignerIdempotencyBinding) (n : ℕ) (l : FixtureSignerIdempotencyLedger)
      (found : Option FixtureIdempotencyRecord)
      → map_get l.records b.idempotency_key ≡ found
      → IsAnswered l
      → IsAnswered (abort_in found b n l).1
  IsAnswered-abort b n l none e h = h
  IsAnswered-abort b n l (some existing) e h = elim (Bool-cases (is_active_lease existing b n)) [
    | inr lease ↦ ground (arith, lease, h)
    | inl lease ↦
        let other = IsAnswered-change b n l existing e lease h in
        ground (arith, lease, other, h, map_get-map_delete l.records b.idempotency_key key)
  ]

  IsAnswered-call :
      (call : LedgerCall) (l : FixtureSignerIdempotencyLedger)
      → IsAnswered l
      → IsAnswered (after_call call l)
  unfolding acquire complete abort
  IsAnswered-call (acquires b) l h = IsAnswered-acquire b l _ refl h
  IsAnswered-call (completes b n r) l h = IsAnswered-complete b n r l _ refl h
  IsAnswered-call (aborts b n) l h = IsAnswered-abort b n l _ refl h

  IsAnswered-calls :
      (calls : List LedgerCall) (l : FixtureSignerIdempotencyLedger)
      → IsAnswered l
      → IsAnswered (after_calls calls l)
  IsAnswered-calls [] l h = h
  IsAnswered-calls (call ∷ calls) l h =
      IsAnswered-calls calls (after_call call l) (IsAnswered-call call l h)

  answers :
      (b : SignerIdempotencyBinding) (l : FixtureSignerIdempotencyLedger)
      → b.idempotency_key ≡ key
      → IsAnswered l
      → acquire b l ≡ (existing_answer b (answered binding lease_id response), l)
  unfolding acquire
  answers b l named h = ap (λ found. acquire_from found b l) (ap (map_get l.records) named ∙ h)

-- Once a request is answered under a key, and whatever is acquired, completed or aborted since:
-- acquiring that key with the same binding replays the response, with any other binding it is a
-- conflict, and the ledger stays as it is.
pub acquire-after_calls :
    (binding b : SignerIdempotencyBinding) (lease_id : ℕ) (response : IsolatedSignerResponse)
    (l : FixtureSignerIdempotencyLedger) (calls : List LedgerCall)
    → map_get l.records b.idempotency_key ≡ some (answered binding lease_id response)
    → ((b ≡ binding)
        × (acquire b (after_calls calls l) ≡ (ok (replay response), after_calls calls l)))
      ⊎ ((b ≢ binding) × (acquire b (after_calls calls l) ≡ (ok conflict, after_calls calls l)))
acquire-after_calls binding b lease_id response l calls h =
    let key = b.idempotency_key in
    let run =
      answers key binding lease_id response b (after_calls calls l) refl
        (IsAnswered-calls key binding lease_id response calls l h) in
    elim (Bool-cases (same_binding binding b)) [
      | inl e ↦ inl (sym (same_binding-eq binding b e), run ∙ rw e refl)
      | inr e ↦ inr (
        (λ same.
            absurd
              (ground (arith, e, subst (λ x. same_binding x b ≡ true) same (same_binding_refl b)))),
        run ∙ rw e refl,
      )
    ]
