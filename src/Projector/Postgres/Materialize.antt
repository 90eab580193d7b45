-- ===== src/Projector/Postgres/Materialize.antt =====
-- What an irreversible event writes: `materializeIrreversibleEvents` and the methods it calls, of
-- workers/haf-projector/src/store/postgres-projection-store.ts.
use Prim.Native.Nat.{Ordering}
use Prim.Native.String.{compare as compare_text}
use hive_chameleon.Prelude.{
  ℕ, String, Bool, true, false, ◌&&◌, ◌||◌, Option, none, some, List, [], ◌∷◌, ltb, ◌==◌, str_eq,
  find, filter, map, if◌then◌else◌, same_text?,
}
use hive_chameleon.Exec.{Result, ok, err, Exec, ◌>>=◌, pure, lift}
use hive_chameleon.Gateway.Json.{Json, obj, str, get_field}
use hive_chameleon.Gateway.Protocol.Event.{
  HiveChameleonEvent, event_id, match_results_batch, match_result_corrected,
  match_result_invalidated, collectible_issued, collectible_revoked,
}
use hive_chameleon.Gateway.Protocol.Codec.{
  application_id, HiveGatewayErrorCode, parse_hive_chameleon_event,
}
use hive_chameleon.Projector.Model.{Failure, projector_error, unexpected, cursor_conflict}
use hive_chameleon.Projector.Postgres.{Database, Server, OperationRow, MatchEventRow}
use hive_chameleon.Projector.Postgres.Indexes.{execute_unique}
use hive_chameleon.Projector.Postgres.Inserts.{is_accepted}
use hive_chameleon.Projector.Postgres.Finality.{checkpoint_where, lies_through, is_settled}
use hive_chameleon.Projector.Postgres.Collectibles.{materialize_issue, materialize_revocation}
use hive_chameleon.Projector.Postgres.Results.{
  materialize_results, materialize_correction, materialize_invalidation,
}

-- `eventFromOperationPayload`. An error of the gateway is any other error here.
abbrev event_of_result :
    Result HiveGatewayErrorCode HiveChameleonEvent → Result Failure HiveChameleonEvent
event_of_result (ok event) = ok event
event_of_result (err code) = err unexpected

abbrev event_of_field : Server → Option Json → Result Failure HiveChameleonEvent
event_of_field server (some (str serialized)) =
    event_of_result (parse_hive_chameleon_event server.library serialized)
event_of_field server _ = err (projector_error cursor_conflict)

unfoldable pub event_from_operation_payload : Server → Json → Result Failure HiveChameleonEvent
event_from_operation_payload server (obj fields) = event_of_field server (get_field fields "json")
event_from_operation_payload server _ = err (projector_error cursor_conflict)

-- The rows of the query of `materializeIrreversibleEvents`, and their order.
abbrev pub is_materialized : Database → String → ℕ → String → OperationRow → Bool
is_materialized db source block_number at_time o =
    checkpoint_where db (lies_through source block_number) o
    && (is_settled o.state
        && (same_text? o.irreversible_at (some at_time)
            && (is_accepted o.validation_state
                && same_text? o.evidence.application_id (some application_id))))

abbrev id_before : Ordering → Bool
id_before Ordering.lt = true
id_before _ = false

abbrev row_before : OperationRow → OperationRow → Bool
row_before a b =
    ltb a.evidence.block_number b.evidence.block_number
    || (a.evidence.block_number == b.evidence.block_number
        && (ltb a.evidence.operation_index b.evidence.operation_index
            || (a.evidence.operation_index == b.evidence.operation_index
                && id_before (compare_text a.id b.id))))

unfoldable pub insert_row : OperationRow → List OperationRow → List OperationRow
insert_row o [] = o ∷ []
insert_row o (p ∷ ps) =
    let rest = insert_row o ps in if row_before p o then p ∷ rest else o ∷ p ∷ ps

unfoldable pub in_order : List OperationRow → List OperationRow
in_order [] = []
in_order (o ∷ os) = insert_row o (in_order os)

abbrev uuid_of : Option MatchEventRow → Option String
uuid_of none = none
uuid_of (some e) = some e.event_uuid

abbrev pub match_event_uuid : Database → OperationRow → Option String
match_event_uuid db o = uuid_of (find (λ e. str_eq e.operation_id o.id) db.match_events)

module _ (server : Server) where
  -- `row.match_event_uuid !== event.event_id`.
  abbrev is_bound : Option String → HiveChameleonEvent → Bool
  is_bound uuid event = same_text? uuid (some (event_id event))

  -- The `switch` of `materializeIrreversibleEvents`.
  unfoldable pub materialize_event :
      OperationRow → Option String → String → HiveChameleonEvent → Exec Database Failure (Unit {0})
  materialize_event o uuid at_time (match_results_batch b) =
      if is_bound uuid (match_results_batch b)
      then materialize_results server b.event_id at_time 0 b.results
      else pure tt
  materialize_event o uuid at_time (match_result_corrected c) = execute_unique (λ db.
      if is_bound uuid (match_result_corrected c)
      then materialize_correction server c at_time db
      else db)
  materialize_event o uuid at_time (match_result_invalidated i) = execute_unique (λ db.
      if is_bound uuid (match_result_invalidated i)
      then materialize_invalidation server i db
      else db)
  materialize_event o uuid at_time (collectible_issued c) =
      execute_unique (materialize_issue server o c at_time)
  materialize_event o uuid at_time (collectible_revoked r) =
      execute_unique (materialize_revocation server o r)

  unfoldable pub materialize_rows :
      String → List (OperationRow × Option String) → Exec Database Failure (Unit {0})
  materialize_rows at_time [] = pure tt
  materialize_rows at_time ((o, uuid) ∷ rows) = do
    event ← lift (event_from_operation_payload server o.evidence.payload)
    _ ← materialize_event o uuid at_time event
    materialize_rows at_time rows

  abbrev selected : String → ℕ → String → Database → List (OperationRow × Option String)
  selected source block_number at_time db =
      map (λ o. (o, match_event_uuid db o))
        (in_order (filter (is_materialized db source block_number at_time) db.operations))

  -- `materializeIrreversibleEvents`.
  unfoldable pub materialize_irreversible_events :
      String → ℕ → String → Exec Database Failure (Unit {0})
  materialize_irreversible_events source block_number at_time db =
      materialize_rows at_time (selected source block_number at_time db) db
