-- ===== src/Gateway/Signature/Verified.antt =====
-- What a check of a signature establishes, and what it keeps: packages/hive-gateway/src/signature.ts.
use hive_chameleon.Prelude.{
  ℕ, ◌*◌, ◌≤◌, ◌<◌, ◌-◌, ◌==◌, ◌&&◌, ◌||◌, ltb, refl, List, Bool, length, all, take, if◌then◌else◌,
  String, true, false, not, ◌≡◌, subst, arith, str_eq, eq_iff,
}
use hive_chameleon.Exec.{Result, ok, err, Exec}
use hive_chameleon.Exec.Triple.{Triple, Triple-pure, Triple-unless, Triple-bind, Triple-bind-lift}
use hive_chameleon.Gateway.Protocol.Text.{codes, is_hex, is_sha256}
use hive_chameleon.Gateway.Protocol.Codec.{HiveGatewayErrorCode, invalid_signature}
use hive_chameleon.Gateway.Contracts.{GatewayFailure, gateway}
use hive_chameleon.Gateway.Signature.{
  hex_value, drop, is_graphene_canonical_scalar, secp256k1_order, secp256k1_half_order,
  HiveCompactSignatureInfo, validate_hive_compact_signature, assert_signature_matches_public_key,
}

-- The 64 digits of a scalar that start at a place of a signature's text.
abbrev pub scalar_at : ℕ → String → List ℕ
scalar_at place signature = take 64 (drop place (codes signature))

-- The first byte is below 128, and where it is 0 the second is not.
pub record IsGrapheneScalar (hex : List ℕ) : Type 0 where
  pub short : hex_value 0 (take 2 hex) < 128
  pub unpadded : hex_value 0 (take 2 hex) ≡ 0 → 128 ≤ hex_value 0 (take 2 (drop 2 hex))

-- A canonical low-S signature of a digest: 65 bytes in hexadecimal, a header from 31 to 34, two
-- canonical scalars, and an s that is positive and at most half the order of the curve.
pub record IsWellFormed (digest signature : String) : Type 0 where
  pub digest_form : is_sha256 digest ≡ true
  pub size : length (codes signature) ≡ 130
  pub hexadecimal : all is_hex (codes signature) ≡ true
  pub header_low : 31 ≤ hex_value 0 (take 2 (codes signature))
  pub header_high : hex_value 0 (take 2 (codes signature)) ≤ 34
  pub r_scalar : IsGrapheneScalar (scalar_at 2 signature)
  pub s_scalar : IsGrapheneScalar (scalar_at 66 signature)
  pub s_positive : 1 ≤ hex_value 0 (scalar_at 66 signature)
  pub s_low : 2 * hex_value 0 (scalar_at 66 signature) ≤ secp256k1_order

scalar-IsGrapheneScalar :
    (hex : List ℕ) → is_graphene_canonical_scalar hex ≡ true → IsGrapheneScalar hex
unfolding is_graphene_canonical_scalar
scalar-IsGrapheneScalar hex h = record {
  short = ground (arith, h);
  unpadded = λ zero_first. ground (arith, h, zero_first);
}

-- What the four tests of a signature's text leave.
four_guards :
    {A : Type 0} (a b c d : Bool) (error : HiveGatewayErrorCode) (last x : A)
    → (if a
        then err error
        else if b
        then err error
        else if c
        then err error
        else if d
        then err error
        else ok last)
      ≡ ok x
    → (a ≡ false) × (b ≡ false) × (c ≡ false) × (d ≡ false)
four_guards true b c d error last x h = absurd (ground (arith, h))
four_guards false true c d error last x h = absurd (ground (arith, h))
four_guards false false true d error last x h = absurd (ground (arith, h))
four_guards false false false true error last x h = absurd (ground (arith, h))
four_guards false false false false error last x h = (refl, refl, refl, refl)

both_tests : (a b : Bool) → not (a && b) ≡ false → (a ≡ true) × (b ≡ true)
both_tests true true h = (refl, refl)
both_tests true false h = absurd (ground (arith, h))
both_tests false b h = absurd (ground (arith, h))

neither : (a b : Bool) → (not a || not b) ≡ false → (a ≡ true) × (b ≡ true)
neither true true h = (refl, refl)
neither true false h = absurd (ground (arith, h))
neither false b h = absurd (ground (arith, h))

equal_of : (n m : ℕ) → (n == m) ≡ true → n ≡ m
equal_of n m h = ground (arith, h)

in_bounds : (n low high : ℕ) → (ltb n low || ltb high n) ≡ false → (low ≤ n) × (n ≤ high)
in_bounds n low high h = (ground (arith, h), ground (arith, h))

-- Half of the order, rounded down.
low_of : (n : ℕ) → n ≤ secp256k1_half_order → 2 * n ≤ secp256k1_order
low_of n h = omega (arith, h)

validated-IsWellFormed :
    (digest signature : String) (info : HiveCompactSignatureInfo)
    → is_sha256 digest ≡ true
    → validate_hive_compact_signature signature ≡ ok info
    → IsWellFormed digest signature
unfolding validate_hive_compact_signature
validated-IsWellFormed digest signature info formed h =
    let text = codes signature in
    let header = hex_value 0 (take 2 text) in
    let r = scalar_at 2 signature in
    let s = scalar_at 66 signature in
    let (sized, headed, scalars, low) =
      four_guards (not (length text == 130 && all is_hex text)) (ltb header 31 || ltb 34 header)
        (not (is_graphene_canonical_scalar r) || not (is_graphene_canonical_scalar s))
        (ltb (hex_value 0 s) 1 || ltb secp256k1_half_order (hex_value 0 s)) invalid_signature
        (record { recovery_id = header - 31; r = r; s = s }) info h in
    record {
      digest_form = formed;
      size = equal_of (length text) 130 (both_tests (length text == 130) (all is_hex text) sized).0;
      hexadecimal = (both_tests (length text == 130) (all is_hex text) sized).1;
      header_low = (in_bounds header 31 34 headed).0;
      header_high = (in_bounds header 31 34 headed).1;
      r_scalar =
          scalar-IsGrapheneScalar r
            (neither (is_graphene_canonical_scalar r) (is_graphene_canonical_scalar s) scalars).0;
      s_scalar =
          scalar-IsGrapheneScalar s
            (neither (is_graphene_canonical_scalar r) (is_graphene_canonical_scalar s) scalars).1;
      s_positive = (in_bounds (hex_value 0 s) 1 secp256k1_half_order low).0;
      s_low = low_of (hex_value 0 s) (in_bounds (hex_value 0 s) 1 secp256k1_half_order low).1;
    }

gateway-info :
    (r : Result HiveGatewayErrorCode HiveCompactSignatureInfo) (info : HiveCompactSignatureInfo)
    → gateway r ≡ ok info
    → r ≡ ok info
gateway-info (ok a) info h = ground arith
gateway-info (err e) info h = ground arith

pub key_eq : (a b : String) → not (str_eq a b) ≡ false → a ≡ b
key_eq a b h = ground (arith, eq_iff a b)

-- The recovery answers with `R` of the key; the check returns only for the expected key.
pub Triple-signature :
    {W : Type 0} {P : W → Type 0} {R : String → W → Type 0} {E : W → Type 0}
    (recover : Exec W GatewayFailure String) (digest signature expected : String)
    → ((w : W) → P w → E w)
    → ((key : String) (w : W) → R key w → E w)
    → Triple P recover R (λ e. E)
    → Triple P
        (assert_signature_matches_public_key recover digest signature expected)
        (λ u w. IsWellFormed digest signature × R expected w)
        (λ e. E)
unfolding assert_signature_matches_public_key
Triple-signature {R = R} recover digest signature expected start stop h =
    Triple-unless _ _ _ (λ e w p. start w p)
      λ formed.
        Triple-bind-lift _ _
          (λ info valid. Triple-bind _ _ h λ recovered.
            Triple-unless _ _ _ (λ e w p. stop recovered w p)
              λ same. Triple-pure _ (λ w p. (
                validated-IsWellFormed digest signature info (ground (arith, formed))
                    (gateway-info _ info valid),
                subst (λ k. R k w) (key_eq recovered expected same) p,
              )))
          (λ e k w p. start w p)
