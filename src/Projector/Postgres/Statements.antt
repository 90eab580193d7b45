-- ===== src/Projector/Postgres/Statements.antt =====
-- The queries of workers/haf-projector/src/store/postgres-projection-store.ts on cursors and on
-- current checkpoints.
use hive_chameleon.Prelude.{
  ℕ, String, Bool, false, Option, none, some, List, [], ◌∷◌, ◌++◌, map, str_eq, is_some, find,
  if◌then◌else◌,
}
use hive_chameleon.Exec.{Result, ok, err, Exec, ◌>>=?◌, ◌>>=◌}
use hive_chameleon.Projector.Model.{
  ProjectionCursor, BlockCheckpoint, Failure, projector_error, unexpected, cursor_conflict,
}
use hive_chameleon.Projector.Store.{checkpoint_id?}
use hive_chameleon.Projector.InMemory.{is_current_at, replace_where}
use hive_chameleon.Projector.Postgres.{Database, Server, SyncCursorRow, parse_database_integer}

-- A query that changes nothing.
unfoldable pub query : {A : Type 0} → (Database → Result Failure A) → Exec Database Failure A
query answer db = (answer db, db)

-- A statement that the server may refuse, and that changes the tables.
unfoldable pub execute :
    (Database → Bool) → (Database → Database) → Exec Database Failure (Unit {0})
execute refused change db = if refused db then (err unexpected, db) else (ok tt, change db)

abbrev pub always : Database → Bool
always db = false

abbrev pub cursor_row : Database → String → Option SyncCursorRow
cursor_row db source = find (λ r. str_eq r.source source) db.sync_cursors

abbrev pub blocks : Database → List BlockCheckpoint
blocks db = map (λ r. r.checkpoint) db.checkpoints

unfoldable pub current_checkpoint : Database → String → ℕ → Option BlockCheckpoint
current_checkpoint db source n = find (is_current_at source n) (blocks db)

-- `cursorFromRow`, on the row joined with its current checkpoint.
unfoldable pub cursor_from_row : Database → SyncCursorRow → Result Failure ProjectionCursor
cursor_from_row db row = parse_database_integer row.last_processed_block >>=? λ processed.
    parse_database_integer row.last_irreversible_block >>=? λ settled. ok (record {
      source = row.source;
      last_processed_block = processed;
      last_processed_block_id =
          checkpoint_id? (current_checkpoint db row.source row.last_processed_block);
      last_irreversible_block = settled;
    })

abbrev pub initial_row : String → SyncCursorRow
initial_row source = record {
  source = source;
  last_processed_block = 0;
  last_irreversible_block = 0;
}

abbrev pub ensured : String → Database → Database
ensured source db =
    if is_some (cursor_row db source)
    then db
    else record db { sync_cursors = db.sync_cursors ++ initial_row source ∷ [] }

abbrev pub locked_cursor : Database → Option SyncCursorRow → Result Failure ProjectionCursor
locked_cursor db none = err (projector_error cursor_conflict)
locked_cursor db (some row) = cursor_from_row db row

-- `lockCursor`.
unfoldable pub lock_cursor : String → Exec Database Failure ProjectionCursor
lock_cursor source = do
  _ ← execute always (ensured source)
  query (λ db. locked_cursor db (cursor_row db source))

-- The parameter of a `timestamptz` column.
abbrev time_of : Option String → Result Failure String
time_of none = err unexpected
time_of (some text) = ok text

unfoldable pub written_time : Server → String → Result Failure String
written_time server text = time_of (server.timestamp text)

-- `UPDATE sync_cursor ... WHERE source = $1`.
unfoldable pub update_cursor :
    String → (SyncCursorRow → SyncCursorRow) → Exec Database Failure (Unit {0})
update_cursor source change = execute always (λ db. record db {
  sync_cursors = replace_where db.sync_cursors (λ r. str_eq r.source source) change;
})
