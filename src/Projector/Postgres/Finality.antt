-- ===== src/Projector/Postgres/Finality.antt =====
-- How rows are reverted and become irreversible: the updates of `revertAfter` and
-- `finalizeThrough` of workers/haf-projector/src/store/postgres-projection-store.ts.
use hive_chameleon.Prelude.{
  ℕ, String, Bool, true, false, not, ◌&&◌, none, some, ltb, leb, str_eq, any,
}
use hive_chameleon.Exec.{Exec}
use hive_chameleon.Projector.Model.{
  BlockCheckpoint, Failure, irreversible, reverted, is_included, is_reverted, ProjectionState,
}
use hive_chameleon.Projector.InMemory.{replace_where}
use hive_chameleon.Projector.Postgres.{Database, OperationRow, MatchEventRow}
use hive_chameleon.Projector.Postgres.Statements.{execute, always}

-- The checkpoints and operations above an ancestor, or through a height.
abbrev pub is_above : String → ℕ → BlockCheckpoint → Bool
is_above source ancestor c =
    str_eq c.source source && (ltb ancestor c.number && not (is_reverted c.state))

abbrev pub is_through : String → ℕ → BlockCheckpoint → Bool
is_through source block_number c =
    str_eq c.source source && (leb c.number block_number && is_included c.state)

-- The join `checkpoint.id = operation.checkpoint_id`.
abbrev pub checkpoint_where : Database → (BlockCheckpoint → Bool) → OperationRow → Bool
checkpoint_where db test o =
    any (λ r. str_eq r.id o.checkpoint_id && test r.checkpoint) db.checkpoints

-- The join `event.operation_id = operation.id`.
abbrev pub operation_where : Database → (BlockCheckpoint → Bool) → MatchEventRow → Bool
operation_where db test e =
    any (λ o. str_eq e.operation_id o.id && checkpoint_where db test o) db.operations

abbrev pub lies_above : String → ℕ → BlockCheckpoint → Bool
lies_above source ancestor c = str_eq c.source source && ltb ancestor c.number

abbrev pub lies_through : String → ℕ → BlockCheckpoint → Bool
lies_through source block_number c = str_eq c.source source && leb c.number block_number

abbrev pub is_settled : ProjectionState → Bool
is_settled irreversible = true
is_settled _ = false

-- The three updates of `revertAfter`, at a written time. The trigger
-- `hc_validate_checkpoint_mutation` and its like refuse to revert what is irreversible.
unfoldable pub revert_match_events : String → ℕ → String → Exec Database Failure (Unit {0})
revert_match_events source ancestor at_time = execute always (λ db. record db {
  match_events =
      replace_where db.match_events
        (λ e. operation_where db (lies_above source ancestor) e && is_included e.operation_state)
        (λ e. record e {
          operation_state = reverted;
          irreversible_at = none;
          reverted_at = some at_time;
        });
})

unfoldable pub revert_operations : String → ℕ → String → Exec Database Failure (Unit {0})
revert_operations source ancestor at_time =
    execute
      (λ db.
        any (λ o. checkpoint_where db (lies_above source ancestor) o && is_settled o.state)
          db.operations)
      (λ db. record db {
        operations =
            replace_where db.operations
              (λ o. checkpoint_where db (lies_above source ancestor) o && not (is_reverted o.state))
              (λ o. record o { state = reverted; reverted_at = some at_time });
      })

unfoldable pub revert_checkpoints : String → ℕ → String → Exec Database Failure (Unit {0})
revert_checkpoints source ancestor at_time =
    execute
      (λ db.
        any (λ r. is_above source ancestor r.checkpoint && is_settled r.checkpoint.state)
          db.checkpoints)
      (λ db. record db {
        checkpoints =
            replace_where db.checkpoints (λ r. is_above source ancestor r.checkpoint)
              (λ r. record r {
                checkpoint = record r.checkpoint { state = reverted; reverted_at = some at_time };
              });
      })

-- The three updates of `finalizeThrough`, at a written time.
unfoldable pub finalize_match_events : String → ℕ → String → Exec Database Failure (Unit {0})
finalize_match_events source block_number at_time = execute always (λ db. record db {
  match_events =
      replace_where db.match_events
        (λ e.
          operation_where db (lies_through source block_number) e && is_included e.operation_state)
        (λ e. record e {
          operation_state = irreversible;
          irreversible_at = some at_time;
          reverted_at = none;
        });
})

unfoldable pub finalize_operations : String → ℕ → String → Exec Database Failure (Unit {0})
finalize_operations source block_number at_time = execute always (λ db. record db {
  operations =
      replace_where db.operations
        (λ o. checkpoint_where db (lies_through source block_number) o && is_included o.state)
        (λ o. record o { state = irreversible; irreversible_at = some at_time });
})

unfoldable pub finalize_checkpoints : String → ℕ → String → Exec Database Failure (Unit {0})
finalize_checkpoints source block_number at_time = execute always (λ db. record db {
  checkpoints =
      replace_where db.checkpoints (λ r. is_through source block_number r.checkpoint)
        (λ r. record r {
          checkpoint = record r.checkpoint { state = irreversible; irreversible_at = some at_time };
        });
})
