-- ===== src/Api/Token.antt =====
-- apps/api/src/auth/token.service.ts: `TokenService`. A token is the list of its codes; times are in
-- milliseconds. What the code takes from node and zod is the record `TokenLibrary`.
pub mod Laws
mod Tests
use hive_chameleon.Prelude.{
  ℕ, zero, suc, String, ◌+◌, ◌*◌, Bool, true, false, not, ◌&&◌, ◌||◌, Option, none, some, List, [],
  ◌∷◌, ◌++◌, ltb, leb, ◌==◌, str_eq, same_codes, if◌then◌else◌,
}
use Prim.Native.Nat.{◌/◌}
use hive_chameleon.Exec.{Result, ok, err, ◌>>=?◌}
use hive_chameleon.Gateway.Protocol.Text.{codes}

pub data TokenType : Type 0 where
  access onboarding : TokenType

pub record TokenClaims : Type 0 where
  pub aud : String
  pub exp : ℕ
  pub iat : ℕ
  pub iss : String
  pub sid : Option String
  pub sub : String
  pub typ : TokenType

pub record AccessTokenClaims : Type 0 where
  pub player_id : String
  pub session_id : String

-- The fields of `AuthConfig` that a token depends on.
pub record AuthConfig : Type 0 where
  pub access_token_ttl_seconds : ℕ
  pub audience : String
  pub issuer : String
  pub token_key : List ℕ

-- `UnauthorizedException` with its code.
pub data Unauthorized : Type 0 where
  invalid_session : Unauthorized

-- `JSON.stringify` of claims in the order of `sign`, base64url, HMAC-SHA-256, and zod: what
-- `parse_claims` reads off bytes has the shape of the schema, and `is_uuid` is its test of an id.
pub record TokenLibrary : Type 0 where
  pub stringify : TokenClaims → List ℕ
  pub to_base64url : List ℕ → List ℕ
  pub from_base64url : List ℕ → List ℕ
  pub hmac : List ℕ → List ℕ → List ℕ
  pub parse_claims : List ℕ → Option TokenClaims
  pub is_uuid : String → Bool

abbrev pub is_empty : List ℕ → Bool
is_empty [] = true
is_empty (c ∷ cs) = false

abbrev pub push_code : ℕ → List (List ℕ) → List (List ℕ)
push_code c [] = (c ∷ []) ∷ []
push_code c (part ∷ parts) = (c ∷ part) ∷ parts

-- `token.split('.')`
unfoldable pub split_token : List ℕ → List (List ℕ)
split_token [] = [] ∷ []
split_token (c ∷ cs) =
    let parts = split_token cs in if c == b'.' then [] ∷ parts else push_code c parts

abbrev pub seconds : ℕ → ℕ
seconds ms = ms / 1000

module _ (library : TokenLibrary) (config : AuthConfig) where
  abbrev pub token_header : List ℕ
  token_header = library.to_base64url (codes "{\"alg\":\"HS256\",\"typ\":\"JWT\"}")

  abbrev pub signed_claims : Option String → String → TokenType → ℕ → ℕ → TokenClaims
  signed_claims sid sub typ now token_expiry = record {
    aud = config.audience;
    exp = seconds token_expiry;
    iat = seconds now;
    iss = config.issuer;
    sid = sid;
    sub = sub;
    typ = typ;
  }

  abbrev pub signature_of : List ℕ → List ℕ → List ℕ
  signature_of header payload = library.hmac config.token_key (header ++ b'.' ∷ payload)

  abbrev pub payload_of : TokenClaims → List ℕ
  payload_of claims = library.to_base64url (library.stringify claims)

  unfoldable pub sign_token : TokenClaims → List ℕ
  sign_token claims =
      token_header
      ++ b'.'
        ∷ (payload_of claims
            ++ b'.' ∷ library.to_base64url (signature_of token_header (payload_of claims)))

  abbrev pub token_expiry : ℕ → ℕ
  token_expiry now = now + config.access_token_ttl_seconds * 1000

  unfoldable pub issue_access_token : String → String → ℕ → ℕ × List ℕ
  issue_access_token player_id session_id now = (
    token_expiry now,
    sign_token (signed_claims (some session_id) player_id access now (token_expiry now)),
  )

  unfoldable pub issue_onboarding_token : String → ℕ → ℕ × List ℕ
  issue_onboarding_token external_identity_id now = (
    token_expiry now,
    sign_token (signed_claims none external_identity_id onboarding now (token_expiry now)),
  )

  abbrev valid_session_id : Option String → Bool
  valid_session_id none = true
  valid_session_id (some id) = library.is_uuid id

  -- What `verify` asks of the claims, with the rest of the schema.
  unfoldable pub accepts_claims : ℕ → TokenClaims → Bool
  accepts_claims now claims =
      (library.is_uuid claims.sub && valid_session_id claims.sid)
      && (str_eq claims.iss config.issuer
          && (str_eq claims.aud config.audience
              && (leb claims.iat (seconds now + 30) && ltb (seconds now) claims.exp)))

  abbrev pub check_claims : ℕ → Option TokenClaims → Result Unauthorized TokenClaims
  check_claims now none = err invalid_session
  check_claims now (some claims) =
      if accepts_claims now claims then ok claims else err invalid_session

  abbrev pub verify_parts : ℕ → List (List ℕ) → Result Unauthorized TokenClaims
  verify_parts now (header ∷ payload ∷ signature ∷ []) =
      if not (same_codes header token_header) || (is_empty payload || is_empty signature)
      then err invalid_session
      else if not (same_codes (library.from_base64url signature) (signature_of header payload))
      then err invalid_session
      else check_claims now (library.parse_claims (library.from_base64url payload))
  verify_parts now parts = err invalid_session

  unfoldable pub verify_token : ℕ → List ℕ → Result Unauthorized TokenClaims
  verify_token now token = verify_parts now (split_token token)

  abbrev pub access_claims :
      TokenType → Option String → String → Result Unauthorized AccessTokenClaims
  access_claims access (some sid) sub = ok (record { player_id = sub; session_id = sid })
  access_claims typ sid sub = err invalid_session

  unfoldable pub verify_access_token : List ℕ → ℕ → Result Unauthorized AccessTokenClaims
  verify_access_token token now =
      verify_token now token >>=? λ claims. access_claims claims.typ claims.sid claims.sub

  -- The external identity of an `OnboardingPrincipal`.
  abbrev pub onboarding_principal : TokenType → Option String → String → Result Unauthorized String
  onboarding_principal onboarding none sub = ok sub
  onboarding_principal typ sid sub = err invalid_session

  unfoldable pub verify_onboarding_token : List ℕ → ℕ → Result Unauthorized String
  verify_onboarding_token token now =
      verify_token now token >>=? λ claims. onboarding_principal claims.typ claims.sid claims.sub
