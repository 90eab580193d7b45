-- ===== src/Projector/Postgres.antt =====
-- The database that workers/haf-projector/src/store/postgres-projection-store.ts keeps: the tables
-- of the projection with the columns that some statement reads again, and transactions.
pub mod Statements
pub mod Indexes
pub mod Inserts
pub mod Finality
pub mod Results
pub mod Collectibles
pub mod Materialize
pub mod Store
pub mod Cursors
pub mod Keeps
pub mod Refines
pub mod Sound
pub mod Reinclusion
pub mod Tests
use hive_chameleon.Prelude.{
  ℕ, suc, String, Bool, true, false, not, Option, none, some, List, ltb, ◌^◌, ◌-◌, if◌then◌else◌,
}
use hive_chameleon.Exec.{Result, ok, err, Exec}
use hive_chameleon.Gateway.Library.{Library}
use hive_chameleon.Gateway.Protocol.Event.{
  EventType, MatchResult, MatchCorrection, CollectibleIssued, HiveChameleonEvent,
}
use hive_chameleon.Gateway.Protocol.Text.{is_uuid_v7}
use hive_chameleon.Projector.Model.{
  ProjectionState, BlockCheckpoint, RawOperationEvidence, ValidationState, Failure, projector_error,
  unexpected, cursor_conflict,
}

-- The tables of the schema `hive_projection`, and `commerce.collectible_instance`.
pub record SyncCursorRow : Type 0 where
  pub source : String
  pub last_processed_block : ℕ
  pub last_irreversible_block : ℕ

pub record CheckpointRow : Type 0 where
  pub id : String
  pub checkpoint : BlockCheckpoint

pub record OperationRow : Type 0 where
  pub id : String
  pub checkpoint_id : String
  pub evidence : RawOperationEvidence
  pub validation_state : ValidationState
  pub rejection_reason : Option String
  pub state : ProjectionState
  pub irreversible_at : Option String
  pub reverted_at : Option String

pub record MatchEventRow : Type 0 where
  pub event_uuid : String
  pub batch_uuid : Option String
  pub operation_id : String
  pub event_type : EventType
  pub publication_period_start : Option String
  pub publication_period_end : Option String
  pub publisher_hive_account : String
  pub result_count : ℕ
  pub operation_state : ProjectionState
  pub included_at : String
  pub irreversible_at : Option String
  pub reverted_at : Option String

pub data CurrentState : Type 0 where
  current corrected invalidated : CurrentState

pub record MatchResultRow : Type 0 where
  pub id : String
  pub initial_event_uuid : String
  pub result_position : ℕ
  pub result : MatchResult
  pub current_state : CurrentState
  pub current_event_uuid : String
  pub matched_result_revision_id : Option String
  pub reconciled_at : Option String

-- The replacement is there for a correction.
pub record MatchResultChangeRow : Type 0 where
  pub event_uuid : String
  pub projected_result_id : String
  pub round_id : String
  pub original_batch_uuid : String
  pub original_event_uuid : String
  pub supersedes_event_uuid : String
  pub reason_code : String
  pub replacement : Option (String × MatchResult)

pub data CollectibleEventType : Type 0 where
  issued revoked : CollectibleEventType

pub record CollectibleEventRow : Type 0 where
  pub event_id : String
  pub operation_id : String
  pub event_type : CollectibleEventType
  pub collectible_id : String
  pub collectible_definition_id : String
  pub owner_hive_username : String
  pub issuer_hive_username : String
  pub metadata_uri : String
  pub metadata_sha256 : String
  pub issuance_reason : String
  pub payment_transaction_id : Option String
  pub occurred_at : String

pub data CollectibleState : Type 0 where
  finalized revoked_state : CollectibleState

pub record CollectibleInstanceRow : Type 0 where
  pub id : String
  pub collectible_definition_id : String
  pub owner_player_id : String
  pub issuer_hive_account : String
  pub state : CollectibleState
  pub issued_event_id : String
  pub issued_hive_transaction_id : String
  pub issued_hive_block_number : ℕ
  pub irreversible_at : String
  pub payment_transaction_id : Option String
  pub revoked_event_id : Option String
  pub revoked_at : Option String

-- A table lists its rows in the order of their insertion. `ids_used` counts the ids that the
-- provider gave to committed transactions; the ids of a transaction that is rolled back left no
-- trace, and are not counted.
pub record Database : Type 0 where
  pub sync_cursors : List SyncCursorRow
  pub checkpoints : List CheckpointRow
  pub operations : List OperationRow
  pub match_events : List MatchEventRow
  pub match_results : List MatchResultRow
  pub match_result_changes : List MatchResultChangeRow
  pub collectible_events : List CollectibleEventRow
  pub collectible_instances : List CollectibleInstanceRow
  pub ids_used : ℕ

-- What the store takes from the server and from the tables of other schemas.
pub record Server : Type 0 where
  pub library : Library
  pub next_uuid_v7 : ℕ → String
  -- A time as it is given back: through a `timestamptz` column and `toIsoString`. `none` where the
  -- server refuses the text.
  pub timestamp : String → Option String
  -- Whether a transaction passes what is not written out here: the foreign keys, the checks of
  -- single rows and the triggers of infra/postgres/migrations, the deferred ones included. A
  -- statement that they refuse fails the transaction.
  pub admits : Database → Database → Bool
  -- The joins with `game`, `content`, `identity` and `commerce`: whether the round, its map version
  -- and its package are there, and the latest matching revision; the definition of a collectible,
  -- the player of a username, and a payment.
  pub is_local_round : MatchResult → Bool
  pub matching_revision : MatchResult → Option String
  pub correction_revision : MatchCorrection → Option String
  pub definition_of : CollectibleIssued → Option String
  pub player_of : String → Option String
  pub payment_of : String → Option String

abbrev max_safe_integer : ℕ
max_safe_integer = 2 ^ 53 - 1

-- `parseDatabaseInteger`.
unfoldable pub parse_database_integer : ℕ → Result Failure ℕ
parse_database_integer value =
    if ltb max_safe_integer value then err (projector_error cursor_conflict) else ok value

module _ (server : Server) where
  abbrev checked_id : ℕ → Result Failure String
  checked_id n =
      if not (is_uuid_v7 (server.next_uuid_v7 n))
      then err (projector_error cursor_conflict)
      else ok (server.next_uuid_v7 n)

  -- `nextUuidV7` of the store.
  unfoldable pub next_id : Exec Database Failure String
  next_id db = (checked_id db.ids_used, record db { ids_used = suc db.ids_used })

  -- `COMMIT` after the work has returned, `ROLLBACK` after it has thrown.
  unfoldable pub end_transaction :
      Database → Result Failure (Unit {0}) × Database → Result Failure (Unit {0}) × Database
  end_transaction before (ok u, db) =
      if server.admits before db then (ok u, db) else (err unexpected, before)
  end_transaction before (err e, db) = (err e, before)

  -- `inTransaction`.
  unfoldable pub in_transaction :
      Exec Database Failure (Unit {0}) → Exec Database Failure (Unit {0})
  in_transaction work db = end_transaction db (work db)
