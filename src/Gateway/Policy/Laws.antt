-- ===== src/Gateway/Policy/Laws.antt =====
-- What an authorized event is: packages/hive-gateway/src/policy.ts.
use hive_chameleon.Prelude.{String, true, ◌≡◌, refl, sym, ap, ◌∙◌, arith, eq_iff, eq_refl, [], ◌∷◌}
use hive_chameleon.Exec.{Result, ok, ◌>>=?◌}
use hive_chameleon.Gateway.Library.{Library}
use hive_chameleon.Gateway.Protocol.Event.{
  HiveChameleonEvent, event_family, match_results_batch, match_result_corrected,
  match_result_invalidated, collectible_issued, collectible_revoked,
}
use hive_chameleon.Gateway.Protocol.Codec.{serialize_hive_chameleon_event, application_id}
use hive_chameleon.Gateway.Protocol.Codec.Roundtrip.{bind_ok}
use hive_chameleon.Gateway.Contracts.{
  OfficialServiceAuthorization, OfficialEventIntent, HiveCustomJsonOperation, OfficialServiceRole,
  same_role, same_authority, posting, HiveAuthority, active, owner, official_service,
  AuthorizationMode, custodial_player, external_player, collectible_issuer, match_publisher,
  rc_support, treasury,
}
use hive_chameleon.Gateway.Policy.{
  assert_authorization_shape, authorize_shaped, authorize_official_event, payload_account_agrees,
  assert_payload_account, expected_role, is_official, operation_of,
}

pub same_role-eq : (a b : OfficialServiceRole) → same_role a b ≡ true → a ≡ b
same_role-eq collectible_issuer collectible_issuer h = refl
same_role-eq match_publisher match_publisher h = refl
same_role-eq rc_support rc_support h = refl
same_role-eq treasury treasury h = refl
same_role-eq _ _ h = ground arith

pub same_authority-eq : (a b : HiveAuthority) → same_authority a b ≡ true → a ≡ b
same_authority-eq active active h = refl
same_authority-eq owner owner h = refl
same_authority-eq posting posting h = refl
same_authority-eq _ _ h = ground arith

is_official-eq : (m : AuthorizationMode) → is_official m ≡ true → m ≡ official_service
is_official-eq official_service h = refl
is_official-eq custodial_player h = ground arith
is_official-eq external_player h = ground arith

-- The account that the payload of an event names; a revocation names none.
abbrev pub IsNamed : HiveChameleonEvent → String → Type 0
IsNamed (match_results_batch b) account = b.publisher ≡ account
IsNamed (match_result_corrected c) account = c.publisher ≡ account
IsNamed (match_result_invalidated i) account = i.publisher ≡ account
IsNamed (collectible_issued i) account = i.issuer ≡ account
IsNamed (collectible_revoked r) account = Unit {0}

-- Match events are for the match publisher, collectible events for the collectible issuer.
abbrev pub IsServed : HiveChameleonEvent → OfficialServiceRole → Type 0
IsServed (match_results_batch b) role = role ≡ match_publisher
IsServed (match_result_corrected c) role = role ≡ match_publisher
IsServed (match_result_invalidated i) role = role ≡ match_publisher
IsServed (collectible_issued i) role = role ≡ collectible_issuer
IsServed (collectible_revoked r) role = role ≡ collectible_issuer

agrees-IsNamed :
    (event : HiveChameleonEvent) (account : String)
    → payload_account_agrees event account ≡ true
    → IsNamed event account
unfolding payload_account_agrees
agrees-IsNamed (match_results_batch b) account h = ground (arith, h, eq_iff b.publisher account)
agrees-IsNamed (match_result_corrected c) account h = ground (arith, h, eq_iff c.publisher account)
agrees-IsNamed (match_result_invalidated i) account h =
    ground (arith, h, eq_iff i.publisher account)
agrees-IsNamed (collectible_issued i) account h = ground (arith, h, eq_iff i.issuer account)
agrees-IsNamed (collectible_revoked r) account h = tt

pub IsNamed-agrees :
    (event : HiveChameleonEvent) (account : String)
    → IsNamed event account
    → payload_account_agrees event account ≡ true
unfolding payload_account_agrees
IsNamed-agrees (match_results_batch b) account h = ground (arith, h, eq_refl account)
IsNamed-agrees (match_result_corrected c) account h = ground (arith, h, eq_refl account)
IsNamed-agrees (match_result_invalidated i) account h = ground (arith, h, eq_refl account)
IsNamed-agrees (collectible_issued i) account h = ground (arith, h, eq_refl account)
IsNamed-agrees (collectible_revoked r) account h = refl

role-IsServed :
    (event : HiveChameleonEvent) (role : OfficialServiceRole)
    → role ≡ expected_role (event_family event)
    → IsServed event role
unfolding event_family
role-IsServed (match_results_batch b) role h = h
role-IsServed (match_result_corrected c) role h = h
role-IsServed (match_result_invalidated i) role h = h
role-IsServed (collectible_issued i) role h = h
role-IsServed (collectible_revoked r) role h = h

-- What the policy demands of an intent, its authorization, the operation and the payload.
pub record IsAuthorized (lib : Library) (intent : OfficialEventIntent)
    (authorization : OfficialServiceAuthorization) (operation : HiveCustomJsonOperation)
    (payload : String) : Type 0 where
  pub mode : authorization.mode ≡ official_service
  pub authority : authorization.authority ≡ posting
  pub role : IsServed intent.event authorization.role
  pub version : intent.policy_version ≡ authorization.policy_version
  pub account : IsNamed intent.event authorization.account
  pub operates : operation ≡ record {
    required_auths = [];
    required_posting_auths = authorization.account ∷ [];
    id = application_id;
    json = payload;
  }
  pub serialized : serialize_hive_chameleon_event lib intent.event ≡ ok payload

shape-version :
    (intent : OfficialEventIntent) (authorization : OfficialServiceAuthorization) (u : Unit)
    → assert_authorization_shape intent authorization ≡ ok u
    → intent.policy_version ≡ authorization.policy_version
unfolding assert_authorization_shape
shape-version intent authorization u h =
    ground (arith, eq_iff intent.policy_version authorization.policy_version)

assert_payload_account-agrees :
    (event : HiveChameleonEvent) (account : String) (u : Unit)
    → assert_payload_account event account ≡ ok u
    → payload_account_agrees event account ≡ true
unfolding assert_payload_account
assert_payload_account-agrees event account u h = ground arith

ok_pair :
    {E A B : Type 0} (r : Result E (A × B)) (a c : A) (b d : B)
    → r ≡ ok (a, b)
    → r ≡ ok (c, d)
    → (a ≡ c) × (b ≡ d)
ok_pair r a c b d h k = ground arith

-- An event is authorized only under the posting authority of an official service that is the match
-- publisher for a match event and the collectible issuer for a collectible event, whose policy version is the intent's and whose account is the one
-- the payload names, if it names one; the operation carries the event's canonical payload under the
-- application's id, with that account as its only posting authority and no active one.
pub authorize_official_event-IsAuthorized :
    (lib : Library) (intent : OfficialEventIntent) (authorization : OfficialServiceAuthorization)
    (operation : HiveCustomJsonOperation) (payload : String)
    → authorize_official_event lib intent authorization ≡ ok (operation, payload)
    → IsAuthorized lib intent authorization operation payload
unfolding authorize_official_event authorize_shaped
authorize_official_event-IsAuthorized lib intent authorization operation payload h =
    let (u, shaped, h₁) = bind_ok (assert_authorization_shape intent authorization) _ _ h in
    let official : is_official authorization.mode ≡ true = ground arith in
    let posts : same_authority authorization.authority posting ≡ true = ground arith in
    let serves : same_role authorization.role (expected_role (event_family intent.event)) ≡ true =
      ground arith in
    let accepted : (assert_payload_account intent.event authorization.account >>=? λ _.
    serialize_hive_chameleon_event lib intent.event >>=? λ text.
    ok (operation_of authorization.account text, text))
        ≡ ok (operation, payload) =
      ground arith in
    let (v, agrees, h₂) =
      bind_ok (assert_payload_account intent.event authorization.account) _ _ accepted in
    let (text, serialized, h₃) = bind_ok (serialize_hive_chameleon_event lib intent.event) _ _ h₂ in
    let same = ok_pair _ _ _ _ _ refl h₃ in
    record {
      mode = is_official-eq _ official;
      authority = same_authority-eq _ _ posts;
      role = role-IsServed intent.event authorization.role (same_role-eq _ _ serves);
      version = shape-version intent authorization u shaped;
      account =
          agrees-IsNamed intent.event authorization.account
            (assert_payload_account-agrees intent.event authorization.account v agrees);
      operates = sym same.0 ∙ ap (operation_of authorization.account) same.1;
      serialized = serialized ∙ ap ok same.1;
    }
