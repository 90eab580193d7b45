-- ===== src/Projector/Postgres/Tests.antt =====
-- The production store at concrete inputs: a fork that comes back.
use hive_chameleon.Prelude.{ℕ, String, ◌≡◌, refl, true, none, some, [], ◌==◌, if◌then◌else◌, find}
use hive_chameleon.Exec.{err, continue, ◌>>=◌, lift, pure, unless}
use hive_chameleon.Gateway.Protocol.Text.{is_uuid_v7}
use hive_chameleon.Gateway.Tests.{id_1, id_2, small, noon}
use hive_chameleon.Projector.Model.{HafBlock, Failure}
use hive_chameleon.Projector.Store.{IsProjectionStore}
use hive_chameleon.Projector.InMemory.{replace_where}
use hive_chameleon.Projector.Postgres.{
  Server, Database, next_id, in_transaction, end_transaction, parse_database_integer,
}
use hive_chameleon.Projector.Postgres.Statements.{
  execute, query, cursor_from_row, current_checkpoint, lock_cursor, written_time, update_cursor,
  blocks,
}
use hive_chameleon.Projector.Postgres.Inserts.{insert_checkpoint, insert_decisions}
use hive_chameleon.Projector.Postgres.Finality.{
  revert_match_events, revert_operations, revert_checkpoints,
}
use hive_chameleon.Projector.Postgres.Store.{
  apply_block, apply_locked, insert_block, revert_after, revert_locked, revert_rows,
}
use hive_chameleon.Projector.Postgres.Sound.{
  sound_postgres, sound_postgres-IsProjectionStore, IsAtomic, IsAtomic,
}
use hive_chameleon.Projector.Postgres.Reinclusion.{has_seen, apply_block_seen}

abbrev server : Server
server = record {
  library = small;
  next_uuid_v7 =
      λ n. if n == 0 then id_1 else if n == 1 then id_2 else "01900000-0000-7000-8000-000000000003";
  timestamp = λ text. some text;
  admits = λ before after. true;
  is_local_round = λ result. true;
  matching_revision = λ result. none;
  correction_revision = λ c. none;
  definition_of = λ c. some id_1;
  player_of = λ name. some id_2;
  payment_of = λ id. none;
}

abbrev empty : Database
empty = record {
  sync_cursors = [];
  checkpoints = [];
  operations = [];
  match_events = [];
  match_results = [];
  match_result_changes = [];
  collectible_events = [];
  collectible_instances = [];
  ids_used = 0;
}

abbrev block : ℕ → String → String → HafBlock
block number id previous_id = record {
  number = number;
  id = id;
  previous_id = previous_id;
  timestamp = noon;
}

-- Two blocks are applied, and the second is reverted.
abbrev forked : Database
forked =
    let one = (apply_block server "hafah" (block 1 "a1" "0") [] noon empty).1 in
    let two = (apply_block server "hafah" (block 2 "a2" "a1") [] noon one).1 in
    (revert_after server "hafah" 1 noon two).1

seen : has_seen "hafah" "a2" (blocks forked) ≡ true
unfolding apply_block apply_locked insert_block revert_after revert_locked revert_rows
    revert_match_events revert_operations revert_checkpoints insert_checkpoint insert_decisions
    execute query cursor_from_row current_checkpoint lock_cursor written_time update_cursor next_id
    in_transaction end_transaction parse_database_integer replace_where find continue ◌>>=◌ lift
    pure unless is_uuid_v7
seen = refl

-- The second block comes back.
apply_block_seen_example :
    (e : Failure) × (apply_block server "hafah" (block 2 "a2" "a1") [] noon forked
      ≡ (err e, forked))
apply_block_seen_example = apply_block_seen server "hafah" (block 2 "a2" "a1") [] noon forked seen

sound_postgres-IsProjectionStore_example :
    IsProjectionStore (sound_postgres server) × IsAtomic (sound_postgres server)
sound_postgres-IsProjectionStore_example = sound_postgres-IsProjectionStore server
