-- ===== src/Projector/Postgres/Store.antt =====
-- workers/haf-projector/src/store/postgres-projection-store.ts: `PostgresProjectionStore`.
use hive_chameleon.Prelude.{ℕ, String, ◌+◌, not, Option, none, some, List, ltb, ◌==◌, max}
use hive_chameleon.Exec.{Result, ok, Exec, ◌>>=◌, ◌>>=?◌, lift, unless}
use hive_chameleon.Projector.Model.{
  HafBlock, ProjectionCursor, BlockCheckpoint, OperationDecision, Failure, projector_error,
  cursor_conflict, irreversible_fork,
}
use hive_chameleon.Projector.Store.{ProjectionStore, fresh_checkpoint}
use hive_chameleon.Projector.InMemory.{initial_cursor, parent_differs}
use hive_chameleon.Projector.Postgres.{
  Database, Server, SyncCursorRow, next_id, in_transaction, parse_database_integer,
}
use hive_chameleon.Projector.Postgres.Statements.{
  query, cursor_row, cursor_from_row, current_checkpoint, lock_cursor, written_time, update_cursor,
}
use hive_chameleon.Projector.Postgres.Inserts.{insert_checkpoint, insert_decisions}
use hive_chameleon.Projector.Postgres.Finality.{
  revert_match_events, revert_operations, revert_checkpoints, finalize_match_events,
  finalize_operations, finalize_checkpoints,
}
use hive_chameleon.Projector.Postgres.Materialize.{materialize_irreversible_events}

abbrev found_cursor : Database → String → Option SyncCursorRow → Result Failure ProjectionCursor
found_cursor db source none = ok (initial_cursor source)
found_cursor db source (some row) = cursor_from_row db row

unfoldable pub get_cursor : String → Exec Database Failure ProjectionCursor
get_cursor source = query (λ db. found_cursor db source (cursor_row db source))

-- `checkpointFromRow`.
abbrev parsed_checkpoint : Option BlockCheckpoint → Result Failure (Option BlockCheckpoint)
parsed_checkpoint none = ok none
parsed_checkpoint (some c) = parse_database_integer c.number >>=? λ number. ok (some c)

unfoldable pub get_current_checkpoint : String → ℕ → Exec Database Failure (Option BlockCheckpoint)
get_current_checkpoint source n = query (λ db. parsed_checkpoint (current_checkpoint db source n))

module _ (server : Server) where
  -- `applyBlock`, once the cursor is checked.
  unfoldable pub insert_block :
      String → HafBlock → List OperationDecision → String → Exec Database Failure (Unit {0})
  insert_block source block decisions observed_at = do
    id ← next_id server
    timestamp ← lift (written_time server block.timestamp)
    observed ← lift (written_time server observed_at)
    _ ←
        insert_checkpoint id
          (fresh_checkpoint source (record block { timestamp = timestamp }) observed)
    _ ← insert_decisions server id decisions
    update_cursor source (λ r. record r { last_processed_block = block.number })

  unfoldable pub apply_locked :
      String → HafBlock → List OperationDecision → String → Exec Database Failure (Unit {0})
  apply_locked source block decisions observed_at = do
    cursor ← lock_cursor source
    unless (not (block.number == cursor.last_processed_block + 1)) (projector_error cursor_conflict)
        (unless (parent_differs cursor.last_processed_block_id block.previous_id)
          (projector_error cursor_conflict) (insert_block source block decisions observed_at))

  unfoldable pub apply_block :
      String → HafBlock → List OperationDecision → String → Exec Database Failure (Unit {0})
  apply_block source block decisions observed_at =
      in_transaction server (apply_locked source block decisions observed_at)

  unfoldable pub revert_rows : String → ℕ → String → Exec Database Failure (Unit {0})
  revert_rows source ancestor reverted_at = do
    at_time ← lift (written_time server reverted_at)
    _ ← revert_match_events source ancestor at_time
    _ ← revert_operations source ancestor at_time
    _ ← revert_checkpoints source ancestor at_time
    update_cursor source (λ r. record r { last_processed_block = ancestor })

  unfoldable pub revert_locked : String → ℕ → String → Exec Database Failure (Unit {0})
  revert_locked source ancestor reverted_at = do
    cursor ← lock_cursor source
    unless (ltb ancestor cursor.last_irreversible_block) (projector_error irreversible_fork)
        (revert_rows source ancestor reverted_at)

  unfoldable pub revert_after : String → ℕ → String → Exec Database Failure (Unit {0})
  revert_after source ancestor reverted_at =
      in_transaction server (revert_locked source ancestor reverted_at)

  unfoldable pub finalize_rows : String → ℕ → String → Exec Database Failure (Unit {0})
  finalize_rows source block_number irreversible_at = do
    at_time ← lift (written_time server irreversible_at)
    _ ← finalize_match_events source block_number at_time
    _ ← finalize_operations source block_number at_time
    _ ← finalize_checkpoints source block_number at_time
    _ ←
        update_cursor source
          (λ r. record r { last_irreversible_block = max r.last_irreversible_block block_number })
    materialize_irreversible_events server source block_number at_time

  unfoldable pub finalize_locked : String → ℕ → String → Exec Database Failure (Unit {0})
  finalize_locked source block_number irreversible_at = do
    cursor ← lock_cursor source
    unless (ltb cursor.last_processed_block block_number) (projector_error cursor_conflict)
        (finalize_rows source block_number irreversible_at)

  unfoldable pub finalize_through : String → ℕ → String → Exec Database Failure (Unit {0})
  finalize_through source block_number irreversible_at =
      in_transaction server (finalize_locked source block_number irreversible_at)

  unfoldable pub postgres : ProjectionStore Database
  postgres = record {
    get_cursor = get_cursor;
    get_current_checkpoint = get_current_checkpoint;
    apply_block = apply_block;
    revert_after = revert_after;
    finalize_through = finalize_through;
  }
