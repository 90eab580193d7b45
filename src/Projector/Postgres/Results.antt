-- ===== src/Projector/Postgres/Results.antt =====
-- What an irreversible match event writes: `materializeInitialMatchResults`,
-- `materializeMatchCorrection` and `materializeMatchInvalidation` of
-- workers/haf-projector/src/store/postgres-projection-store.ts.
use hive_chameleon.Prelude.{
  ℕ, suc, String, Bool, not, ◌&&◌, Option, none, some, List, [], ◌∷◌, ◌++◌, str_eq, is_some, any,
  find, if◌then◌else◌,
}
use hive_chameleon.Exec.{Exec, ◌>>=◌, pure}
use hive_chameleon.Gateway.Protocol.Event.{MatchResult, MatchCorrection, MatchInvalidation}
use hive_chameleon.Projector.Model.{Failure}
use hive_chameleon.Projector.InMemory.{replace_where}
use hive_chameleon.Projector.Postgres.{
  Database, Server, MatchResultRow, MatchResultChangeRow, current, corrected, invalidated, next_id,
}
use hive_chameleon.Projector.Postgres.Indexes.{execute_unique}

module _ (server : Server) where
  abbrev pub initial_result : String → String → ℕ → MatchResult → String → MatchResultRow
  initial_result id event_uuid position result at_time =
      let revision = server.matching_revision result in
      record {
        id = id;
        initial_event_uuid = event_uuid;
        result_position = position;
        result = result;
        current_state = current;
        current_event_uuid = event_uuid;
        matched_result_revision_id = revision;
        reconciled_at = if is_some revision then some at_time else none;
      }

  abbrev pub has_round : String → MatchResultRow → Bool
  has_round round_id r = str_eq r.result.round_id round_id

  -- `INSERT ... ON CONFLICT (round_id) DO NOTHING`.
  abbrev pub with_result : MatchResultRow → Database → Database
  with_result row db =
      if server.is_local_round row.result
        && not (any (has_round row.result.round_id) db.match_results)
      then record db { match_results = db.match_results ++ row ∷ [] }
      else db

  -- `materializeInitialMatchResults`.
  unfoldable pub materialize_results :
      String → String → ℕ → List MatchResult → Exec Database Failure (Unit {0})
  materialize_results event_uuid at_time position [] = pure tt
  materialize_results event_uuid at_time position (result ∷ results) = do
    id ← next_id server
    _ ← execute_unique (with_result (initial_result id event_uuid position result at_time))
    materialize_results event_uuid at_time (suc position) results

  -- The head that a change supersedes.
  abbrev pub is_superseded : String → String → String → MatchResultRow → Bool
  is_superseded round_id original_event_id supersedes_event_id r =
      has_round round_id r
      && (str_eq r.initial_event_uuid original_event_id
          && str_eq r.current_event_uuid supersedes_event_id)

  -- The row goes in unless its event is there; then the head moves on.
  abbrev pub with_change :
      MatchResultChangeRow → (MatchResultRow → MatchResultRow) → Database → Database
  with_change change move db =
      if any (λ r. str_eq r.event_uuid change.event_uuid) db.match_result_changes
      then db
      else record db {
        match_result_changes = db.match_result_changes ++ change ∷ [];
        match_results =
            replace_where db.match_results
              (λ r.
                str_eq r.id change.projected_result_id
                && str_eq r.current_event_uuid change.supersedes_event_uuid)
              move;
      }

  abbrev corrected_by :
      MatchCorrection → String → Option MatchResultRow → Option String → Database → Database
  corrected_by c at_time (some head) (some revision) db =
      with_change
        (record {
          event_uuid = c.event_id;
          projected_result_id = head.id;
          round_id = c.round_id;
          original_batch_uuid = c.original_batch_id;
          original_event_uuid = c.original_event_id;
          supersedes_event_uuid = c.supersedes_event_id;
          reason_code = c.reason_code;
          replacement = some (revision, c.replacement_result);
        })
        (λ r. record r {
          current_event_uuid = c.event_id;
          current_state = corrected;
          matched_result_revision_id = some revision;
          reconciled_at = some at_time;
        })
        db
  corrected_by c at_time _ _ db = db

  -- `materializeMatchCorrection`.
  unfoldable pub materialize_correction : MatchCorrection → String → Database → Database
  materialize_correction c at_time db =
      corrected_by c at_time
        (find (is_superseded c.round_id c.original_event_id c.supersedes_event_id) db.match_results)
        (server.correction_revision c) db

  abbrev invalidated_by : MatchInvalidation → Option MatchResultRow → Database → Database
  invalidated_by i none db = db
  invalidated_by i (some head) db =
      with_change
        (record {
          event_uuid = i.event_id;
          projected_result_id = head.id;
          round_id = i.round_id;
          original_batch_uuid = i.original_batch_id;
          original_event_uuid = i.original_event_id;
          supersedes_event_uuid = i.supersedes_event_id;
          reason_code = i.reason_code;
          replacement = none;
        })
        (λ r. record r { current_event_uuid = i.event_id; current_state = invalidated }) db

  -- `materializeMatchInvalidation`.
  unfoldable pub materialize_invalidation : MatchInvalidation → Database → Database
  materialize_invalidation i db =
      invalidated_by i
        (find (is_superseded i.round_id i.original_event_id i.supersedes_event_id) db.match_results)
        db
