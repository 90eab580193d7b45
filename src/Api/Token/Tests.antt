-- ===== src/Api/Token/Tests.antt =====
-- Tokens over a library whose base64url moves every byte past the dot, and the witnesses.
use hive_chameleon.Prelude.{
  ℕ, zero, suc, String, ◌+◌, ◌-◌, ◌≡◌, refl, true, false, Option, none, some, List, [], ◌∷◌, arith,
  map,
}
use hive_chameleon.Exec.{ok, err}
use hive_chameleon.Api.Token.{
  access, onboarding, TokenClaims, AuthConfig, invalid_session, TokenLibrary, is_empty, split_token,
  sign_token, issue_access_token, issue_onboarding_token, accepts_claims, verify_token,
  verify_access_token, verify_onboarding_token,
}
use hive_chameleon.Api.Token.Laws.{
  is_dotless, IsTokenLibrary, verify_access_token-issue_access_token,
  verify_onboarding_token-issue_access_token,
}

abbrev config : AuthConfig
config = record {
  access_token_ttl_seconds = 600;
  audience = "hive-chameleon";
  issuer = "https://api.test";
  token_key = 7 ∷ [];
}

abbrev claims_of : List ℕ → Option TokenClaims
claims_of (suc n ∷ now ∷ []) = some (record {
  aud = "hive-chameleon";
  exp = now + 600;
  iat = now;
  iss = "https://api.test";
  sid = some "session";
  sub = "player";
  typ = access;
})
claims_of (zero ∷ now ∷ []) = some (record {
  aud = "hive-chameleon";
  exp = now + 600;
  iat = now;
  iss = "https://api.test";
  sid = none;
  sub = "identity";
  typ = onboarding;
})
claims_of bytes = none

abbrev print_claims : Option String → ℕ → List ℕ
print_claims none now = 0 ∷ now ∷ []
print_claims (some sid) now = 1 ∷ now ∷ []

abbrev library : TokenLibrary
library = record {
  stringify = λ claims. print_claims claims.sid claims.iat;
  to_base64url = map (λ c. c + 100);
  from_base64url = map (λ c. c - 100);
  hmac = λ key input. 1 ∷ input;
  parse_claims = claims_of;
  is_uuid = λ id. true;
}

decoded : (bytes : List ℕ) → map (λ c. c - 100) (map (λ c. c + 100) bytes) ≡ bytes
decoded [] = refl
decoded (c ∷ cs) = ground (arith, decoded cs)

dotless : (bytes : List ℕ) → is_dotless (map (λ c. c + 100) bytes) ≡ true
dotless [] = refl
dotless (c ∷ cs) = ground (arith, dotless cs)

nonempty : (bytes : List ℕ) → is_empty bytes ≡ false → is_empty (map (λ c. c + 100) bytes) ≡ false
nonempty [] h = h
nonempty (c ∷ cs) h = refl

printed : (sid : Option String) (now : ℕ) → is_empty (print_claims sid now) ≡ false
printed none now = refl
printed (some sid) now = refl

library-IsTokenLibrary : IsTokenLibrary library
library-IsTokenLibrary = record {
  decoded = decoded;
  dotless = dotless;
  nonempty = nonempty;
  digested = λ key input. refl;
  printed = λ claims. printed claims.sid claims.iat;
}

-- At the second of its expiry the token is refused.
expired :
    verify_access_token library config
      (issue_access_token library config "player" "session" 5000).1
      605000
    ≡ err invalid_session
unfolding verify_access_token issue_access_token sign_token verify_token split_token accepts_claims
expired = refl

verify_access_token-issue_access_token_example :
    verify_access_token library config
      (issue_access_token library config "player" "session" 5000).1
      604999
    ≡ ok (record { player_id = "player"; session_id = "session" })
verify_access_token-issue_access_token_example =
    verify_access_token-issue_access_token library config library-IsTokenLibrary "player" "session"
      5000 604999 refl refl refl (omega arith) (omega arith)

verify_onboarding_token-issue_access_token_example :
    (verify_onboarding_token library config
        (issue_access_token library config "player" "session" 5000).1
        6000
      ≡ err invalid_session)
    × (verify_access_token library config
          (issue_onboarding_token library config "identity" 5000).1
          6000
        ≡ err invalid_session)
verify_onboarding_token-issue_access_token_example =
    verify_onboarding_token-issue_access_token library config library-IsTokenLibrary "player"
      "session" "identity" 5000 6000 refl refl
