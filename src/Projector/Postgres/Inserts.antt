-- ===== src/Projector/Postgres/Inserts.antt =====
-- What a new block writes: the statements of `applyBlock`, `insertOperation` and
-- `upsertIncludedMatchEvent` of workers/haf-projector/src/store/postgres-projection-store.ts, with
-- the unique indexes of infra/postgres/migrations that they meet.
use hive_chameleon.Prelude.{
  ℕ, String, Bool, true, false, not, ◌&&◌, ◌||◌, Option, none, some, List, [], ◌∷◌, ◌++◌, ◌==◌,
  str_eq, is_some, any, if◌then◌else◌, same_text?,
}
use hive_chameleon.Exec.{Exec, ◌>>=◌, pure}
use hive_chameleon.Gateway.Protocol.Event.{
  HiveChameleonEvent, event_type, event_id, match_results_batch, match_result_corrected,
  match_result_invalidated, collectible_issued, collectible_revoked,
}
use hive_chameleon.Projector.Model.{
  BlockCheckpoint, OperationDecision, RawOperationEvidence, Failure, included, is_reverted,
  accepted, ValidationState,
}
use hive_chameleon.Projector.InMemory.{replace_where}
use hive_chameleon.Projector.Postgres.{
  Database, Server, CheckpointRow, OperationRow, MatchEventRow, next_id,
}
use hive_chameleon.Projector.Postgres.Statements.{execute, always}

-- The primary key, `uq_block_checkpoint_source_id` and `uq_block_checkpoint_current_height`.
abbrev pub checkpoint_conflicts : String → BlockCheckpoint → CheckpointRow → Bool
checkpoint_conflicts id c r =
    str_eq r.id id
    || (str_eq r.checkpoint.source c.source
        && (str_eq r.checkpoint.id c.id
            || (r.checkpoint.number == c.number && not (is_reverted r.checkpoint.state))))

unfoldable pub insert_checkpoint : String → BlockCheckpoint → Exec Database Failure (Unit {0})
insert_checkpoint id c =
    execute (λ db. any (checkpoint_conflicts id c) db.checkpoints)
      (λ db. record db { checkpoints = db.checkpoints ++ record { id = id; checkpoint = c } ∷ [] })

-- The primary key, `uq_hive_operation_current_source_id` and `uq_hive_operation_current_tx_index`.
abbrev pub operation_conflicts : OperationRow → OperationRow → Bool
operation_conflicts o r =
    str_eq r.id o.id
    || (not (is_reverted r.state)
        && (str_eq r.evidence.source_operation_id o.evidence.source_operation_id
            || (is_some o.evidence.transaction_id
                && (same_text? r.evidence.transaction_id o.evidence.transaction_id
                    && r.evidence.operation_index == o.evidence.operation_index))))

abbrev pub operation_row : String → String → OperationDecision → OperationRow
operation_row id checkpoint_id decision = record {
  id = id;
  checkpoint_id = checkpoint_id;
  evidence = decision.evidence;
  validation_state = decision.validation_state;
  rejection_reason = decision.rejection_reason;
  state = included;
  irreversible_at = none;
  reverted_at = none;
}

-- The trigger `hc_validate_operation_evidence`: the checkpoint is current, and the block agrees.
abbrev pub lies_in : Server → OperationDecision → String → CheckpointRow → Bool
lies_in server decision checkpoint_id r =
    str_eq r.id checkpoint_id
    && (not (is_reverted r.checkpoint.state)
        && (r.checkpoint.number == decision.evidence.block_number
            && (str_eq r.checkpoint.id decision.evidence.block_id
                && same_text? (some r.checkpoint.timestamp)
                    (server.timestamp decision.evidence.block_timestamp))))

-- `insertOperation`.
unfoldable pub insert_operation : Server → String → OperationDecision → Exec Database Failure String
insert_operation server checkpoint_id decision = do
  id ← next_id server
  _ ←
      execute
        (λ db.
          not (any (lies_in server decision checkpoint_id) db.checkpoints)
          || any (operation_conflicts (operation_row id checkpoint_id decision)) db.operations)
        (λ db. record db {
          operations = db.operations ++ operation_row id checkpoint_id decision ∷ [];
        })
  pure id

-- `isMatchEvent`.
abbrev pub is_match_event : HiveChameleonEvent → Bool
is_match_event (match_results_batch b) = true
is_match_event (match_result_corrected c) = true
is_match_event (match_result_invalidated i) = true
is_match_event (collectible_issued i) = false
is_match_event (collectible_revoked r) = false

pub record MatchEventFields : Type 0 where
  pub batch_id : Option String
  pub period_start : Option String
  pub period_end : Option String
  pub publisher : String
  pub result_count : ℕ

-- The fields of a change, and of an event of another kind, which has no row.
abbrev change_fields : String → MatchEventFields
change_fields publisher = record {
  batch_id = none;
  period_start = none;
  period_end = none;
  publisher = publisher;
  result_count = 1;
}

-- `matchEventFields`.
abbrev pub match_event_fields : HiveChameleonEvent → MatchEventFields
match_event_fields (match_results_batch b) = record {
  batch_id = some b.batch_id;
  period_start = some b.period_start;
  period_end = some b.period_end;
  publisher = b.publisher;
  result_count = b.result_count;
}
match_event_fields (match_result_corrected c) = change_fields c.publisher
match_event_fields (match_result_invalidated i) = change_fields i.publisher
match_event_fields (collectible_issued i) = change_fields ""
match_event_fields (collectible_revoked r) = change_fields ""

abbrev pub match_event_row : String → String → HiveChameleonEvent → MatchEventRow
match_event_row operation_id included_at event =
    let fields = match_event_fields event in
    record {
      event_uuid = event_id event;
      batch_uuid = fields.batch_id;
      operation_id = operation_id;
      event_type = event_type event;
      publication_period_start = fields.period_start;
      publication_period_end = fields.period_end;
      publisher_hive_account = fields.publisher;
      result_count = fields.result_count;
      operation_state = included;
      included_at = included_at;
      irreversible_at = none;
      reverted_at = none;
    }

-- The columns that are unique in `match_event`.
abbrev pub match_event_conflicts : MatchEventRow → MatchEventRow → Bool
match_event_conflicts e r =
    str_eq r.event_uuid e.event_uuid
    || (str_eq r.operation_id e.operation_id
        || (is_some e.batch_uuid && same_text? r.batch_uuid e.batch_uuid))

abbrev pub is_replayed : MatchEventRow → MatchEventRow → Bool
is_replayed e r = str_eq r.event_uuid e.event_uuid && is_reverted r.operation_state

abbrev pub bound_again : MatchEventRow → MatchEventRow → MatchEventRow
bound_again e r = record r {
  operation_id = e.operation_id;
  operation_state = included;
  included_at = e.included_at;
  irreversible_at = none;
  reverted_at = none;
}

-- `upsertIncludedMatchEvent`: a reverted row is bound again, another one is left alone.
abbrev pub upserted : MatchEventRow → Database → Database
upserted e db =
    if any (is_replayed e) db.match_events
    then record db { match_events = replace_where db.match_events (is_replayed e) (bound_again e) }
    else if any (match_event_conflicts e) db.match_events
    then db
    else record db { match_events = db.match_events ++ e ∷ [] }

unfoldable pub upsert_included_match_event :
    String → RawOperationEvidence → HiveChameleonEvent → Exec Database Failure (Unit {0})
upsert_included_match_event operation_id evidence event =
    execute always (upserted (match_event_row operation_id evidence.block_timestamp event))

abbrev pub is_accepted : ValidationState → Bool
is_accepted accepted = true
is_accepted ValidationState.rejected = false

abbrev pub accepted_match_event : OperationDecision → Option HiveChameleonEvent
accepted_match_event decision = elim decision.event [
  | none ↦ none
  | some event ↦
      if is_accepted decision.validation_state && is_match_event event then some event else none
]

-- One round of the loop of `applyBlock`.
unfoldable pub upsert_accepted :
    String → RawOperationEvidence → Option HiveChameleonEvent → Exec Database Failure (Unit {0})
upsert_accepted operation_id evidence none = pure tt
upsert_accepted operation_id evidence (some event) =
    upsert_included_match_event operation_id evidence event

unfoldable pub insert_decisions :
    Server → String → List OperationDecision → Exec Database Failure (Unit {0})
insert_decisions server checkpoint_id [] = pure tt
insert_decisions server checkpoint_id (decision ∷ decisions) = do
  id ← insert_operation server checkpoint_id decision
  _ ← upsert_accepted id decision.evidence (accepted_match_event decision)
  insert_decisions server checkpoint_id decisions
