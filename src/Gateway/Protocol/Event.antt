-- ===== src/Gateway/Protocol/Event.antt =====
-- The event types of protocol/match.ts, collectible.ts and events.ts, as their schemas infer them.
-- The literals `v`, `type` and `event_version` are the constructors of `HiveChameleonEvent`.
use hive_chameleon.Prelude.{ℕ, String, Option, List}

pub data Role : Type 0 where
  hider hunter : Role

pub data Outcome : Type 0 where
  survived found converted hunter_win hunter_loss : Outcome

pub data MatchContext : Type 0 where
  normal tournament : MatchContext

pub data MatchMode : Type 0 where
  casual infection : MatchMode

pub data WinningSide : Type 0 where
  hiders hunters no_side : WinningSide

pub record MatchParticipant : Type 0 where
  pub account : String
  pub initial_role : Role
  pub final_role : Role
  pub outcome : Outcome
  pub score : String

pub record Discovery : Type 0 where
  pub hunter : String
  pub hider : String

pub record LikeAggregate : Type 0 where
  pub account : String
  pub received : ℕ

-- The nested objects `map` and `server` are flattened.
pub record MatchResult : Type 0 where
  pub round_id : String
  pub completed_at : String
  pub context : MatchContext
  pub tournament_id : Option String
  pub mode : MatchMode
  pub result_schema : String
  pub scoring_rules : String
  pub map_id : String
  pub map_version_id : String
  pub map_version : String
  pub map_content_sha256 : String
  pub server_build : String
  pub server_protocol : String
  pub winning_side : WinningSide
  pub winner_accounts : List String
  pub participants : List MatchParticipant
  pub discoveries : List Discovery
  pub survivors : List String
  pub likes : List LikeAggregate
  pub result_sha256 : String

pub record MatchBatch : Type 0 where
  pub event_id : String
  pub occurred_at : String
  pub batch_id : String
  pub period_start : String
  pub period_end : String
  pub publisher : String
  pub result_count : ℕ
  pub results : List MatchResult

pub record MatchCorrection : Type 0 where
  pub event_id : String
  pub occurred_at : String
  pub round_id : String
  pub original_batch_id : String
  pub original_event_id : String
  pub supersedes_event_id : String
  pub publisher : String
  pub reason_code : String
  pub replacement_result : MatchResult

pub record MatchInvalidation : Type 0 where
  pub event_id : String
  pub occurred_at : String
  pub round_id : String
  pub original_batch_id : String
  pub original_event_id : String
  pub supersedes_event_id : String
  pub publisher : String
  pub reason_code : String

pub data CollectibleKind : Type 0 where
  badge weapon_skin character_material lobby_emote profile_frame victory_effect : CollectibleKind

pub record CollectibleIssued : Type 0 where
  pub event_id : String
  pub occurred_at : String
  pub collectible_id : String
  pub definition_id : String
  pub kind : CollectibleKind
  pub owner : String
  pub issuer : String
  pub reason : String
  pub metadata_uri : String
  pub metadata_sha256 : String
  pub payment_tx_id : Option String

pub record CollectibleRevoked : Type 0 where
  pub event_id : String
  pub occurred_at : String
  pub collectible_id : String
  pub issued_event_id : String
  pub reason_code : String

pub data HiveChameleonEvent : Type 0 where
  match_results_batch : MatchBatch → HiveChameleonEvent
  match_result_corrected : MatchCorrection → HiveChameleonEvent
  match_result_invalidated : MatchInvalidation → HiveChameleonEvent
  collectible_issued : CollectibleIssued → HiveChameleonEvent
  collectible_revoked : CollectibleRevoked → HiveChameleonEvent

-- `event.type`.
pub data EventType : Type 0 where
  batch_type corrected_type invalidated_type issued_type revoked_type : EventType

abbrev pub event_type : HiveChameleonEvent → EventType
event_type (match_results_batch b) = batch_type
event_type (match_result_corrected c) = corrected_type
event_type (match_result_invalidated i) = invalidated_type
event_type (collectible_issued i) = issued_type
event_type (collectible_revoked r) = revoked_type

abbrev pub event_id : HiveChameleonEvent → String
event_id (match_results_batch b) = b.event_id
event_id (match_result_corrected c) = c.event_id
event_id (match_result_invalidated i) = i.event_id
event_id (collectible_issued i) = i.event_id
event_id (collectible_revoked r) = r.event_id

abbrev pub occurred_at : HiveChameleonEvent → String
occurred_at (match_results_batch b) = b.occurred_at
occurred_at (match_result_corrected c) = c.occurred_at
occurred_at (match_result_invalidated i) = i.occurred_at
occurred_at (collectible_issued i) = i.occurred_at
occurred_at (collectible_revoked r) = r.occurred_at

pub data HiveChameleonEventFamily : Type 0 where
  collectible_family match_family : HiveChameleonEventFamily

-- `eventFamily`: the types that start with `match_` are those of match.ts.
unfoldable pub event_family : HiveChameleonEvent → HiveChameleonEventFamily
event_family (match_results_batch b) = match_family
event_family (match_result_corrected c) = match_family
event_family (match_result_invalidated i) = match_family
event_family (collectible_issued i) = collectible_family
event_family (collectible_revoked r) = collectible_family
