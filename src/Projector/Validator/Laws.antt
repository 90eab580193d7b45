-- ===== src/Projector/Validator/Laws.antt =====
-- What the projector accepts: workers/haf-projector/src/validation/operation-validator.ts.
use hive_chameleon.Prelude.{
  ℕ, ◌+◌, ◌≤◌, ◌&&◌, ◌⊎◌, contains, String, Bool, true, false, not, ◌≡◌, refl, ap, ◌∙◌, arith,
  Option, none, some, List, [], ◌∷◌, str_eq, eq_iff, if◌then◌else◌, inl, inr, Bool-cases, subst,
}
use hive_chameleon.Exec.{Result, ok, err}
use hive_chameleon.Gateway.Json.{Json, null, bool, num, str, arr, obj, get_field}
use hive_chameleon.Gateway.Library.{Library, date_lt}
use hive_chameleon.Gateway.Protocol.Event.{
  HiveChameleonEvent, occurred_at, match_results_batch, match_result_corrected,
  match_result_invalidated, collectible_issued, collectible_revoked,
}
use hive_chameleon.Gateway.Protocol.Codec.{
  application_id, HiveGatewayErrorCode, parse_hive_chameleon_event,
}
use hive_chameleon.Projector.Model.{HafBlock, HafOperation, OperationDecision, RawOperationEvidence}
use hive_chameleon.Projector.Validator.{
  is_application_id, custom_json_of, strict_keys, read_account_array, read_text,
  HiveEventValidationPolicy, CustomJson, skew_of, later_by, read_custom_json, in_namespace,
  is_signer_allowed, judge, judge_authorities, judge_custom_json, validate, reject, accept,
}

abbrev pub IsAmong : String → List String → Type 0
IsAmong a [] = ⊥
IsAmong a (x ∷ xs) = (x ≡ a) ⊎ IsAmong a xs

-- Who may sign an event: a listed publisher that a match event names, a listed issuer that an
-- issued collectible names, any listed issuer for a revocation.
abbrev pub IsSigner : HiveEventValidationPolicy → HiveChameleonEvent → String → Type 0
IsSigner policy (match_results_batch b) signer =
    IsAmong signer policy.match_publishers × (b.publisher ≡ signer)
IsSigner policy (match_result_corrected c) signer =
    IsAmong signer policy.match_publishers × (c.publisher ≡ signer)
IsSigner policy (match_result_invalidated i) signer =
    IsAmong signer policy.match_publishers × (i.publisher ≡ signer)
IsSigner policy (collectible_issued i) signer =
    IsAmong signer policy.collectible_issuers × (i.issuer ≡ signer)
IsSigner policy (collectible_revoked r) signer = IsAmong signer policy.collectible_issuers

contains-IsAmong : (xs : List String) (a : String) → contains xs a ≡ true → IsAmong a xs
contains-IsAmong [] a h = absurd (ground (arith, h))
contains-IsAmong (x ∷ xs) a h = elim (Bool-cases (str_eq x a)) [
  | inl e ↦ inl (ground (arith, e, eq_iff x a))
  | inr e ↦ inr (contains-IsAmong xs a (ground (arith, h, e)))
]

both_signs :
    (xs : List String) (named signer : String)
    → (contains xs signer && str_eq named signer) ≡ true
    → IsAmong signer xs × (named ≡ signer)
both_signs xs named signer h =
    (contains-IsAmong xs signer (ground (arith, h)), ground (arith, h, eq_iff named signer))

allowed-IsSigner :
    (lib : Library) (policy : HiveEventValidationPolicy) (event : HiveChameleonEvent)
    (signer : String)
    → is_signer_allowed lib policy event signer ≡ true
    → IsSigner policy event signer
unfolding is_signer_allowed
allowed-IsSigner lib policy (match_results_batch b) signer h =
    both_signs policy.match_publishers b.publisher signer h
allowed-IsSigner lib policy (match_result_corrected c) signer h =
    both_signs policy.match_publishers c.publisher signer h
allowed-IsSigner lib policy (match_result_invalidated i) signer h =
    both_signs policy.match_publishers i.publisher signer h
allowed-IsSigner lib policy (collectible_issued i) signer h =
    both_signs policy.collectible_issuers i.issuer signer h
allowed-IsSigner lib policy (collectible_revoked r) signer h =
    contains-IsAmong policy.collectible_issuers signer h

-- Whichever times the two texts read as, the event is within the skew of its block.
late-bound :
    (block event : Option ℕ) (skew at_block at_event : ℕ)
    → date_lt (later_by skew block) event ≡ false
    → block ≡ some at_block
    → event ≡ some at_event
    → at_event ≤ at_block + skew
late-bound none event skew b e h hb he = absurd (ground (arith, hb))
late-bound (some m) none skew b e h hb he = absurd (ground (arith, he))
late-bound (some m) (some n) skew b e h hb he = ground (arith, h, hb, he)

named_application :
    (auths posting : Option (List String)) (id json : Option String) (parsed : CustomJson)
    → is_application_id id ≡ true
    → custom_json_of auths posting id json ≡ some parsed
    → parsed.id ≡ application_id
named_application (some a) (some p) (some i) (some j) parsed h e =
    ground (arith, h, e, eq_iff i application_id)
named_application none p i j parsed h e = absurd (ground (arith, e))
named_application (some a) none i j parsed h e = absurd (ground (arith, e))
named_application (some a) (some p) none j parsed h e = absurd (ground (arith, e))
named_application (some a) (some p) (some i) none parsed h e = absurd (ground (arith, e))

namespaced :
    (value : Json) (parsed : CustomJson)
    → in_namespace value ≡ true
    → read_custom_json value ≡ some parsed
    → parsed.id ≡ application_id
unfolding in_namespace read_custom_json
namespaced (obj fields) parsed h e = elim (Bool-cases (strict_keys fields)) [
  | inr loose ↦ absurd (ground (arith, e, loose))
  | inl strict ↦
      named_application (read_account_array (get_field fields "required_auths"))
        (read_account_array (get_field fields "required_posting_auths"))
        (read_text (get_field fields "id")) (read_text (get_field fields "json")) parsed h
        (ground (arith, e, strict))
]
namespaced null parsed h e = absurd (ground (arith, e))
namespaced (bool b) parsed h e = absurd (ground (arith, e))
namespaced (num n) parsed h e = absurd (ground (arith, e))
namespaced (str s) parsed h e = absurd (ground (arith, e))
namespaced (arr items) parsed h e = absurd (ground (arith, e))

judge_tests :
    (allowed late : Bool) (evidence : RawOperationEvidence) (found event : HiveChameleonEvent)
    → (if not allowed
        then reject evidence "signer_not_allowed"
        else if late
        then reject evidence "future_event_timestamp"
        else accept evidence found).event
      ≡ some event
    → (found ≡ event) × (allowed ≡ true) × (late ≡ false)
judge_tests false late evidence found event h = ground arith
judge_tests true true evidence found event h = ground arith
judge_tests true false evidence found event h = ground arith

module _ (lib : Library) (policy : HiveEventValidationPolicy) where
  -- Everything that an accepted operation is.
  pub record IsAcceptable (operation : HafOperation) (block : HafBlock) (event : HiveChameleonEvent)
      : Type 0 where
    pub custom : operation.operation_type ≡ "custom_json_operation"
    pub namespace : in_namespace operation.value ≡ true
    pub real : operation.is_virtual ≡ false
    pub parsed : CustomJson
    pub signer : String
    pub reads : read_custom_json operation.value ≡ some parsed
    pub application : parsed.id ≡ application_id
    pub one_signer : parsed.required_posting_auths ≡ signer ∷ []
    pub no_active : parsed.required_auths ≡ []
    pub parses : parse_hive_chameleon_event lib parsed.json ≡ ok event
    pub allowed : IsSigner policy event signer
    pub timely :
        (at_block at_event : ℕ)
        → lib.date_parse block.timestamp ≡ some at_block
        → lib.date_parse (occurred_at event) ≡ some at_event
        → at_event ≤ at_block + skew_of policy.maximum_future_clock_skew_ms

  judge-accepts :
      (evidence : RawOperationEvidence) (block : HafBlock) (signer : String)
      (parse : Result HiveGatewayErrorCode HiveChameleonEvent) (event : HiveChameleonEvent)
      → (judge lib policy evidence block signer parse).event ≡ some event
      → (parse ≡ ok event)
        × (is_signer_allowed lib policy event signer ≡ true)
        × (date_lt
              (later_by
                (skew_of policy.maximum_future_clock_skew_ms)
                (lib.date_parse block.timestamp))
              (lib.date_parse (occurred_at event))
            ≡ false)
  unfolding judge
  judge-accepts evidence block signer (err code) event h = ground arith
  judge-accepts evidence block signer (ok found) event h =
      let (same, allowed, timely) = judge_tests _ _ evidence found event h in
      (
        ap ok same,
        subst (λ e. is_signer_allowed lib policy e signer ≡ true) same allowed,
        subst
            (λ e.
              date_lt
                (later_by (skew_of policy.maximum_future_clock_skew_ms)
                  (lib.date_parse block.timestamp))
                (lib.date_parse (occurred_at e))
              ≡ false)
            same timely,
      )

  abbrev IsJudged : HafOperation → HafBlock → CustomJson → HiveChameleonEvent → Type 0
  IsJudged operation block parsed event =
      (operation.is_virtual ≡ false)
      × ((signer : String) × (parsed.required_posting_auths ≡ signer ∷ [])
          × (parsed.required_auths ≡ [])
          × (parse_hive_chameleon_event lib parsed.json ≡ ok event)
          × (is_signer_allowed lib policy event signer ≡ true)
          × (date_lt
                (later_by (skew_of policy.maximum_future_clock_skew_ms)
                  (lib.date_parse block.timestamp))
                (lib.date_parse (occurred_at event))
              ≡ false))

  judge_authorities-accepts :
      (operation : HafOperation) (block : HafBlock) (evidence : RawOperationEvidence)
      (auths posting_auths : List String) (id json : String) (event : HiveChameleonEvent)
      → (judge_authorities lib policy operation block evidence (record {
        required_auths = auths;
        required_posting_auths = posting_auths;
        id = id;
        json = json;
      })).event
        ≡ some event
      → IsJudged operation block
          (record {
            required_auths = auths;
            required_posting_auths = posting_auths;
            id = id;
            json = json;
          })
          event
  unfolding judge_authorities
  judge_authorities-accepts operation block evidence auths [] id json event h = ground arith
  judge_authorities-accepts operation block evidence (a ∷ auths) (signer ∷ more) id json event h =
      ground arith
  judge_authorities-accepts operation block evidence [] (signer ∷ a ∷ more) id json event h =
      ground arith
  judge_authorities-accepts operation block evidence [] (signer ∷ []) id json event h =
      elim (Bool-cases operation.is_virtual) [
        | inl e ↦ ground (arith, e)
        | inr e ↦
            let (parses, allowed, timely) =
              judge-accepts evidence block signer _ event (ground (arith, e)) in
            (e, (signer, refl, refl, parses, allowed, timely))
      ]

  judge_custom_json-accepts :
      (operation : HafOperation) (block : HafBlock) (read : Option CustomJson)
      (event : HiveChameleonEvent)
      → (judge_custom_json lib policy operation block read).event ≡ some event
      → (parsed : CustomJson) × (read ≡ some parsed) × IsJudged operation block parsed event
  unfolding judge_custom_json
  judge_custom_json-accepts operation block none event h = ground arith
  judge_custom_json-accepts operation block (some parsed) event h =
      (parsed, refl, judge_authorities-accepts operation block _ _ _ _ _ event h)

  -- A decision that carries an event comes from a real operation of the application with a single
  -- posting authority and no active one, whose payload parses to that event, canonical and valid;
  -- the signer is a listed match publisher that a match event names, a listed issuer that an issued
  -- collectible names, or any listed issuer for a revocation; and where the times of the event and
  -- of its block can be read, the event is at most the skew of the policy after its block.
  pub validate-IsAcceptable :
      (operation : HafOperation) (block : HafBlock) (decision : OperationDecision)
      (event : HiveChameleonEvent)
      → validate lib policy operation block ≡ some decision
      → decision.event ≡ some event
      → IsAcceptable operation block event
  unfolding validate
  validate-IsAcceptable operation block decision event h k =
      let custom : str_eq operation.operation_type "custom_json_operation" ≡ true = ground arith in
      let namespace : in_namespace operation.value ≡ true = ground arith in
      let judged : judge_custom_json lib policy operation block (read_custom_json operation.value)
          ≡ decision =
        ground arith in
      let (parsed, reads, judgement) =
        judge_custom_json-accepts operation block (read_custom_json operation.value) event
          (ap (λ d. d.event) judged ∙ k) in
      let (real, (signer, one_signer, no_active, parses, allowed, timely)) = judgement in
      record {
        custom = grind (arith, eq_iff operation.operation_type "custom_json_operation");
        namespace = namespace;
        real = real;
        parsed = parsed;
        signer = signer;
        reads = reads;
        application = namespaced operation.value parsed namespace reads;
        one_signer = one_signer;
        no_active = no_active;
        parses = parses;
        allowed = allowed-IsSigner lib policy event signer allowed;
        timely = λ at_block at_event hb he.
            late-bound (lib.date_parse block.timestamp) (lib.date_parse (occurred_at event))
              (skew_of policy.maximum_future_clock_skew_ms) at_block at_event timely hb he;
      }
