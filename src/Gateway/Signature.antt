-- ===== src/Gateway/Signature.antt =====
-- packages/hive-gateway/src/signature.ts: compact recoverable signatures of Hive.
pub mod Verified
use hive_chameleon.Prelude.{
  str_eq, ℕ, zero, suc, ◌+◌, ◌-◌, ◌*◌, String, Bool, not, ◌&&◌, ◌||◌, List, [], ◌∷◌, ltb, leb, ◌==◌,
  length, all, take, if◌then◌else◌,
}
use hive_chameleon.Exec.{Result, ok, err, Exec, pure, lift, unless, ◌>>=◌}
use hive_chameleon.Gateway.Protocol.Text.{codes, is_hex, is_sha256}
use hive_chameleon.Gateway.Protocol.Codec.{HiveGatewayErrorCode, invalid_signature, signer_mismatch}
use hive_chameleon.Gateway.Contracts.{GatewayFailure, gateway_error, gateway}

-- `SECP256K1_ORDER`, and half of it rounded down.
abbrev pub secp256k1_order : ℕ
secp256k1_order = 115792089237316195423570985008687907852837564279074904382605163141518161494337

abbrev pub secp256k1_half_order : ℕ
secp256k1_half_order = 57896044618658097711785492504343953926418782139537452191302581570759080747168

abbrev pub drop : ℕ → List ℕ → List ℕ
drop zero cs = cs
drop (suc n) [] = []
drop (suc n) (c ∷ cs) = drop n cs

abbrev hex_digit : ℕ → ℕ
hex_digit c = if leb c b'9' then c - b'0' else c - b'a' + 10

-- `Number.parseInt(text, 16)` and `BigInt('0x' + text)`.
unfoldable pub hex_value : ℕ → List ℕ → ℕ
hex_value value [] = value
hex_value value (c ∷ cs) = hex_value (16 * value + hex_digit c) cs

-- `isGrapheneCanonicalScalar`.
unfoldable pub is_graphene_canonical_scalar : List ℕ → Bool
is_graphene_canonical_scalar hex =
    let first = hex_value 0 (take 2 hex) in
    let second = hex_value 0 (take 2 (drop 2 hex)) in
    ltb first 128 && not (first == 0 && ltb second 128)

pub record HiveCompactSignatureInfo : Type 0 where
  pub recovery_id : ℕ
  pub r : List ℕ
  pub s : List ℕ

-- `validateHiveCompactSignature`.
unfoldable pub validate_hive_compact_signature :
    String → Result HiveGatewayErrorCode HiveCompactSignatureInfo
validate_hive_compact_signature signature =
    let text = codes signature in
    let header = hex_value 0 (take 2 text) in
    let r = take 64 (drop 2 text) in
    let s = take 64 (drop 66 text) in
    if not (length text == 130 && all is_hex text)
    then err invalid_signature
    else if ltb header 31 || ltb 34 header
    then err invalid_signature
    else if not (is_graphene_canonical_scalar r) || not (is_graphene_canonical_scalar s)
    then err invalid_signature
    else if ltb (hex_value 0 s) 1 || ltb secp256k1_half_order (hex_value 0 s)
    then err invalid_signature
    else ok (record { recovery_id = header - 31; r = r; s = s })

-- `assertSignatureMatchesPublicKey`; `recover` is `chain.recoverPublicKey(signatureDigest, signature)`.
unfoldable pub assert_signature_matches_public_key :
    {W : Type 0}
    → Exec W GatewayFailure String
    → String
    → String
    → String
    → Exec W GatewayFailure (Unit {0})
assert_signature_matches_public_key recover signature_digest signature expected_public_key =
    unless (not (is_sha256 signature_digest)) (gateway_error invalid_signature) do
      _ ← lift (gateway (validate_hive_compact_signature signature))
      recovered ← recover
      unless (not (str_eq recovered expected_public_key)) (gateway_error signer_mismatch) (pure tt)
