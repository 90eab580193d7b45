-- ===== src/Api/Token/Laws.antt =====
-- What `TokenService` promises: an issued token is accepted until it expires, and only as what it is.
use hive_chameleon.Prelude.{
  ℕ, String, ◌+◌, ◌≤◌, ◌<◌, ◌≡◌, refl, Bool, true, false, not, none, some, List, [], ◌∷◌, ◌++◌,
  arith, ◌==◌, eq_refl, all, same_codes_refl,
}
use hive_chameleon.Exec.{ok, err}
use hive_chameleon.Gateway.Protocol.Text.{codes}
use hive_chameleon.Api.Token.{
  access, onboarding, TokenClaims, AuthConfig, invalid_session, TokenLibrary, is_empty, split_token,
  seconds, token_header, signed_claims, signature_of, payload_of, sign_token, token_expiry,
  issue_access_token, issue_onboarding_token, accepts_claims, check_claims, verify_token,
  verify_access_token, verify_onboarding_token,
}

abbrev pub is_dotless : List ℕ → Bool
is_dotless = all (λ c. not (c == b'.'))

-- base64url is a code without dots that gives the bytes back, and no digest or text is empty.
pub record IsTokenLibrary (library : TokenLibrary) : Type 0 where
  pub decoded : (bytes : List ℕ) → library.from_base64url (library.to_base64url bytes) ≡ bytes
  pub dotless : (bytes : List ℕ) → is_dotless (library.to_base64url bytes) ≡ true
  pub nonempty :
      (bytes : List ℕ) → is_empty bytes ≡ false → is_empty (library.to_base64url bytes) ≡ false
  pub digested : (key input : List ℕ) → is_empty (library.hmac key input) ≡ false
  pub printed : (claims : TokenClaims) → is_empty (library.stringify claims) ≡ false

split_last : (part : List ℕ) → is_dotless part ≡ true → split_token part ≡ part ∷ []
unfolding split_token
split_last [] h = refl
split_last (c ∷ cs) h = ground (arith, h, split_last cs (ground (arith, h)))

split_first :
    (part rest : List ℕ)
    → is_dotless part ≡ true
    → split_token (part ++ b'.' ∷ rest) ≡ part ∷ split_token rest
unfolding split_token
split_first [] rest h = refl
split_first (c ∷ cs) rest h = ground (arith, h, split_first cs rest (ground (arith, h)))

module _ (library : TokenLibrary) (config : AuthConfig) (laws : IsTokenLibrary library) where
  split_token-sign_token :
      (claims : TokenClaims)
      → split_token (sign_token library config claims)
        ≡ token_header library config
          ∷ payload_of library config claims
          ∷ library.to_base64url (
              signature_of library config
                (token_header library config)
                (payload_of library config claims))
          ∷ []
  unfolding sign_token
  split_token-sign_token claims =
      rw
        (
          split_first (token_header library config)
              (payload_of library config claims
                ++ b'.'
                  ∷ library.to_base64url (
                      signature_of library config (token_header library config)
                        (payload_of library config claims)))
              (laws.dotless (codes "{\"alg\":\"HS256\",\"typ\":\"JWT\"}")),
          split_first (payload_of library config claims)
              (library.to_base64url (
                signature_of library config (token_header library config)
                  (payload_of library config claims)))
              (laws.dotless (library.stringify claims)),
          split_last
              (library.to_base64url (
                signature_of library config (token_header library config)
                  (payload_of library config claims)))
              (laws.dotless (
                signature_of library config (token_header library config)
                  (payload_of library config claims))),
        )
        refl

  -- What is signed is verified by its claims alone.
  verify_token-sign_token :
      (claims : TokenClaims) (now : ℕ)
      → library.parse_claims (library.stringify claims) ≡ some claims
      → verify_token library config now (sign_token library config claims)
        ≡ check_claims library config now (some claims)
  unfolding verify_token
  verify_token-sign_token claims now parsed =
      rw
        (
          split_token-sign_token claims,
          same_codes_refl (token_header library config),
          laws.nonempty (library.stringify claims) (laws.printed claims),
          laws.nonempty
              (signature_of library config (token_header library config)
                (payload_of library config claims))
              (laws.digested config.token_key
                (token_header library config ++ b'.' ∷ payload_of library config claims)),
          laws.decoded (
              signature_of library config (token_header library config)
                (payload_of library config claims)),
          same_codes_refl (
              signature_of library config (token_header library config)
                (payload_of library config claims)),
          laws.decoded (library.stringify claims),
          parsed,
        )
        refl

  -- An access token is accepted from half a minute before its issue until the second it expires, in
  -- any session whose ids are UUIDs, and gives the player and the session it was issued for. JSON is
  -- assumed to give its claims back.
  pub verify_access_token-issue_access_token :
      (player_id session_id : String) (now later : ℕ)
      → library.parse_claims (
          library.stringify (
            signed_claims library config
              (some session_id)
              player_id
              access
              now
              (token_expiry library config now)))
        ≡ some (
            signed_claims library config
              (some session_id)
              player_id
              access
              now
              (token_expiry library config now))
      → library.is_uuid player_id ≡ true
      → library.is_uuid session_id ≡ true
      → seconds now ≤ seconds later + 30
      → seconds later < seconds (token_expiry library config now)
      → verify_access_token library config
          (issue_access_token library config player_id session_id now).1
          later
        ≡ ok (record { player_id = player_id; session_id = session_id })
  unfolding verify_access_token issue_access_token accepts_claims
  verify_access_token-issue_access_token player_id session_id now later parsed player session
        started running =
      rw
        (verify_token-sign_token
          (signed_claims library config (some session_id) player_id access now
            (token_expiry library config now))
          later parsed)
        (ground (arith, player, session, eq_refl config.issuer, eq_refl config.audience))

  -- Neither kind of token is taken for the other, at any time. JSON is assumed to give their claims
  -- back.
  pub verify_onboarding_token-issue_access_token :
      (player_id session_id external_identity_id : String) (now later : ℕ)
      → library.parse_claims (
          library.stringify (
            signed_claims library config
              (some session_id)
              player_id
              access
              now
              (token_expiry library config now)))
        ≡ some (
            signed_claims library config
              (some session_id)
              player_id
              access
              now
              (token_expiry library config now))
      → library.parse_claims (
          library.stringify (
            signed_claims library config none external_identity_id onboarding now
              (token_expiry library config now)))
        ≡ some (
            signed_claims library config none external_identity_id onboarding now
              (token_expiry library config now))
      → (verify_onboarding_token library config
            (issue_access_token library config player_id session_id now).1
            later
          ≡ err invalid_session)
        × (verify_access_token library config
              (issue_onboarding_token library config external_identity_id now).1
              later
            ≡ err invalid_session)
  unfolding verify_access_token verify_onboarding_token issue_access_token issue_onboarding_token
  verify_onboarding_token-issue_access_token player_id session_id external_identity_id now later
        parsed parsed' =
      (
        rw
            (verify_token-sign_token
              (signed_claims library config (some session_id) player_id access now
                (token_expiry library config now))
              later parsed)
            (ground arith),
        rw
            (verify_token-sign_token
              (signed_claims library config none external_identity_id onboarding now
                (token_expiry library config now))
              later parsed')
            (ground arith),
      )
