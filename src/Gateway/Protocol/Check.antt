-- ===== src/Gateway/Protocol/Check.antt =====
-- What the schemas of packages/hive-gateway/src/protocol/match.ts and collectible.ts demand beyond
-- shape: patterns and lengths of texts and arrays, and the `superRefine` blocks.
pub mod Laws
pub mod Batch
use hive_chameleon.Prelude.{
  ℕ, suc, ◌+◌, String, Bool, true, false, not, ◌&&◌, ◌||◌, Option, none, some, List, [], ◌∷◌, map,
  ltb, leb, ◌==◌, length, all, contains, is_some, str_eq, if◌then◌else◌,
}
use hive_chameleon.Gateway.Library.{Library, date_lt, date_le, date_eq}
use hive_chameleon.Gateway.Protocol.Event.{
  MatchParticipant, Discovery, LikeAggregate, MatchResult, MatchBatch, MatchCorrection,
  MatchInvalidation, CollectibleIssued, CollectibleRevoked, HiveChameleonEvent, match_results_batch,
  match_result_corrected, match_result_invalidated, collectible_issued, collectible_revoked,
  MatchContext, normal, tournament, WinningSide, hiders, hunters, no_side,
}
use hive_chameleon.Gateway.Protocol.Text.{
  codes, is_uuid_v7, is_sha256, is_controlled_code, is_fixed_score, is_hive_account,
  is_alphanumeric,
}

-- `text.length`: a character past the basic plane has two UTF-16 units.
unfoldable pub utf16_length : List ℕ → ℕ
utf16_length [] = 0
utf16_length (c ∷ cs) = (if ltb c 65536 then 1 else 2) + utf16_length cs

abbrev pub text_length : String → ℕ
text_length text = utf16_length (codes text)

abbrev between : ℕ → ℕ → ℕ → Bool
between low high n = leb low n && leb n high

-- `new Set(accounts).size`.
unfoldable pub set_size : List String → ℕ
set_size [] = 0
set_size (x ∷ xs) = let rest = set_size xs in if contains xs x then rest else suc rest

-- `assertUniqueAccounts`, and the same test of participants and round ids.
unfoldable pub are_unique : List String → Bool
are_unique accounts = set_size accounts == length accounts

-- `<` on texts of the ASCII patterns above.
unfoldable pub codes_lt : List ℕ → List ℕ → Bool
codes_lt [] [] = false
codes_lt [] (d ∷ ds) = true
codes_lt (c ∷ cs) [] = false
codes_lt (c ∷ cs) (d ∷ ds) = ltb c d || (c == d && codes_lt cs ds)

abbrev pub text_lt : String → String → Bool
text_lt a b = codes_lt (codes a) (codes b)

abbrev valid_participant : MatchParticipant → Bool
valid_participant p = is_hive_account p.account && is_fixed_score p.score

abbrev valid_discovery : Discovery → Bool
valid_discovery d = is_hive_account d.hunter && is_hive_account d.hider

abbrev valid_like : LikeAggregate → Bool
valid_like l = is_hive_account l.account && leb l.received 9

-- The fields of `matchResultSchema`.
unfoldable pub valid_tournament_id : Option String → Bool
valid_tournament_id none = true
valid_tournament_id (some id) = is_uuid_v7 id

unfoldable pub valid_result_fields : Library → MatchResult → Bool
unfolding valid_tournament_id
valid_result_fields lib r =
    is_uuid_v7 r.round_id
    && (lib.is_iso_timestamp r.completed_at
        && (valid_tournament_id r.tournament_id
            && (is_controlled_code r.result_schema
                && (is_controlled_code r.scoring_rules
                    && (is_uuid_v7 r.map_id
                        && (is_uuid_v7 r.map_version_id
                            && (between 1 32 (text_length r.map_version)
                                && (is_sha256 r.map_content_sha256
                                    && (between 1 64 (text_length r.server_build)
                                        && (is_controlled_code r.server_protocol
                                            && (leb (length r.winner_accounts) 10
                                                && (all is_hive_account r.winner_accounts
                                                    && (between 1 10 (length r.participants)
                                                        && (all valid_participant r.participants
                                                            && (leb (length r.discoveries) 45
                                                            && (all valid_discovery r.discoveries
                                                            && (leb (length r.survivors) 10
                                                            && (all is_hive_account r.survivors
                                                            && (leb (length r.likes) 10
                                                            && (all valid_like r.likes
                                                            && is_sha256
                                                            r.result_sha256))))))))))))))))))))

abbrev pub accounts_of : MatchResult → List String
accounts_of r = map (λ p. p.account) r.participants

abbrev pub like_accounts : MatchResult → List String
like_accounts r = map (λ l. l.account) r.likes

-- The issues of `tournament_id`: required by a tournament, refused by a normal round.
unfoldable pub context_agrees : MatchContext → Option String → Bool
context_agrees tournament tournament_id = is_some tournament_id
context_agrees normal tournament_id = not (is_some tournament_id)

unfoldable pub side_agrees : WinningSide → List String → Bool
side_agrees no_side winners = length winners == 0
side_agrees _ winners = true

-- The `superRefine` of `matchResultSchema`.
unfoldable pub refined_result : MatchResult → Bool
refined_result r =
    context_agrees r.context r.tournament_id
    && (are_unique (accounts_of r)
        && (are_unique r.winner_accounts
            && (are_unique r.survivors
                && (are_unique (like_accounts r)
                    && (all (contains (accounts_of r)) r.winner_accounts
                        && (all (contains (accounts_of r)) r.survivors
                            && (all (contains (accounts_of r)) (like_accounts r)
                                && (all
                                      (λ d.
                                        contains (accounts_of r) d.hunter
                                        && contains (accounts_of r) d.hider)
                                      r.discoveries
                                    && side_agrees r.winning_side r.winner_accounts))))))))

unfoldable pub valid_result : Library → MatchResult → Bool
valid_result lib r = valid_result_fields lib r && refined_result r

-- The issue of two neighbours that are out of order.
unfoldable pub out_of_order : Library → MatchResult → MatchResult → Bool
out_of_order lib previous current =
    date_lt (lib.date_parse current.completed_at) (lib.date_parse previous.completed_at)
    || (date_eq (lib.date_parse previous.completed_at) (lib.date_parse current.completed_at)
        && text_lt current.round_id previous.round_id)

unfoldable pub are_ordered : Library → List MatchResult → Bool
are_ordered lib [] = true
are_ordered lib (r ∷ []) = true
are_ordered lib (r ∷ s ∷ rest) = not (out_of_order lib r s) && are_ordered lib (s ∷ rest)

-- The issue of a result outside the half-open period.
unfoldable pub inside_period : Library → Option ℕ → Option ℕ → MatchResult → Bool
inside_period lib period_start period_end r =
    let completed = lib.date_parse r.completed_at in
    not (date_lt completed period_start || date_le period_end completed)

-- The `superRefine` of `matchBatchSchema`.
unfoldable pub refined_batch : Library → MatchBatch → Bool
refined_batch lib b =
    let period_start = lib.date_parse b.period_start in
    let period_end = lib.date_parse b.period_end in
    b.result_count == length b.results
    && (not (date_le period_end period_start)
        && (all (inside_period lib period_start period_end) b.results
            && (are_ordered lib b.results && are_unique (map (λ r. r.round_id) b.results))))

unfoldable pub valid_batch : Library → MatchBatch → Bool
valid_batch lib b =
    is_uuid_v7 b.event_id
    && (lib.is_iso_timestamp b.occurred_at
        && (is_uuid_v7 b.batch_id
            && (lib.is_iso_timestamp b.period_start
                && (lib.is_iso_timestamp b.period_end
                    && (is_hive_account b.publisher
                        && (between 1 20 b.result_count
                            && (between 1 20 (length b.results)
                                && (all (valid_result lib) b.results && refined_batch lib b))))))))

unfoldable pub valid_correction : Library → MatchCorrection → Bool
valid_correction lib c =
    is_uuid_v7 c.event_id
    && (lib.is_iso_timestamp c.occurred_at
        && (is_uuid_v7 c.round_id
            && (is_uuid_v7 c.original_batch_id
                && (is_uuid_v7 c.original_event_id
                    && (is_uuid_v7 c.supersedes_event_id
                        && (is_hive_account c.publisher
                            && (is_controlled_code c.reason_code
                                && (valid_result lib c.replacement_result
                                    && str_eq c.replacement_result.round_id c.round_id))))))))

unfoldable pub valid_invalidation : Library → MatchInvalidation → Bool
valid_invalidation lib i =
    is_uuid_v7 i.event_id
    && (lib.is_iso_timestamp i.occurred_at
        && (is_uuid_v7 i.round_id
            && (is_uuid_v7 i.original_batch_id
                && (is_uuid_v7 i.original_event_id
                    && (is_uuid_v7 i.supersedes_event_id
                        && (is_hive_account i.publisher && is_controlled_code i.reason_code))))))

-- `/^[a-z0-9][a-z0-9._-]{2,127}$/`
unfoldable pub definition_code : List ℕ → Bool
definition_code [] = false
definition_code (c ∷ cs) =
    is_alphanumeric c
    && (between 2 127 (length cs)
        && all (λ d. is_alphanumeric d || (d == b'.' || (d == b'_' || d == b'-'))) cs)

unfoldable pub valid_payment : Option String → Bool
valid_payment none = true
valid_payment (some id) = between 1 128 (text_length id)

unfoldable pub valid_issued : Library → CollectibleIssued → Bool
unfolding definition_code valid_payment
valid_issued lib i =
    is_uuid_v7 i.event_id
    && (lib.is_iso_timestamp i.occurred_at
        && (is_uuid_v7 i.collectible_id
            && (definition_code (codes i.definition_id)
                && (is_hive_account i.owner
                    && (is_hive_account i.issuer
                        && (is_controlled_code i.reason
                            && (lib.is_https_url i.metadata_uri
                                && (is_sha256 i.metadata_sha256
                                    && valid_payment i.payment_tx_id))))))))

unfoldable pub valid_revoked : Library → CollectibleRevoked → Bool
valid_revoked lib r =
    is_uuid_v7 r.event_id
    && (lib.is_iso_timestamp r.occurred_at
        && (is_uuid_v7 r.collectible_id
            && (is_uuid_v7 r.issued_event_id && is_controlled_code r.reason_code)))

-- `hiveChameleonEventSchema`, of a value with the shape of an event.
unfoldable pub valid_event : Library → HiveChameleonEvent → Bool
valid_event lib (match_results_batch b) = valid_batch lib b
valid_event lib (match_result_corrected c) = valid_correction lib c
valid_event lib (match_result_invalidated i) = valid_invalidation lib i
valid_event lib (collectible_issued i) = valid_issued lib i
valid_event lib (collectible_revoked r) = valid_revoked lib r
