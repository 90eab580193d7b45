-- ===== src/Projector/Postgres/Keeps.antt =====
-- The statements that leave the cursors and the checkpoints alone: operations, match events and
-- what irreversible events write, in
-- workers/haf-projector/src/store/postgres-projection-store.ts.
use hive_chameleon.Prelude.{
  ℕ, suc, String, ◌≡◌, refl, Bool, true, false, Option, none, some, List, [], ◌∷◌, any, arith,
  if◌then◌else◌,
}
use hive_chameleon.Exec.Triple.{
  Post-cases, Triple, Triple-bind, Triple-pure, Triple-if, Triple-bind-lift,
}
use hive_chameleon.Gateway.Protocol.Event.{
  HiveChameleonEvent, MatchResult, MatchCorrection, MatchInvalidation, CollectibleIssued,
  CollectibleRevoked, match_results_batch, match_result_corrected, match_result_invalidated,
  collectible_issued, collectible_revoked,
}
use hive_chameleon.Projector.Model.{BlockCheckpoint, OperationDecision, RawOperationEvidence}
use hive_chameleon.Projector.Postgres.{
  Database, Server, OperationRow, MatchEventRow, MatchResultRow, next_id,
}
use hive_chameleon.Projector.Postgres.Statements.{execute, always}
use hive_chameleon.Projector.Postgres.Inserts.{
  insert_operation, insert_decisions, upsert_accepted, upsert_included_match_event, upserted,
  accepted_match_event, is_replayed, match_event_conflicts,
}
use hive_chameleon.Projector.Postgres.Finality.{
  revert_match_events, revert_operations, finalize_match_events, finalize_operations,
}
use hive_chameleon.Projector.Postgres.Results.{
  with_result, materialize_results, materialize_correction, materialize_invalidation,
}
use hive_chameleon.Projector.Postgres.Collectibles.{materialize_issue, materialize_revocation}
use hive_chameleon.Projector.Postgres.Materialize.{
  materialize_event, materialize_rows, materialize_irreversible_events,
}
use hive_chameleon.Projector.Postgres.Indexes.{breaks_index, execute_unique}
use hive_chameleon.Projector.Postgres.Cursors.{Holds, Anything, Triple-execute}

-- The two tables are the same.
abbrev pub SameTables : Database → Database → Type 0
SameTables w w' = (w'.sync_cursors ≡ w.sync_cursors) × (w'.checkpoints ≡ w.checkpoints)

SameTables-if :
    (w a b : Database) (test : Bool)
    → SameTables w a
    → SameTables w b
    → SameTables w (if test then a else b)
SameTables-if w a b true ha hb = ha
SameTables-if w a b false ha hb = hb

upserted-SameTables : (e : MatchEventRow) (w : Database) → SameTables w (upserted e w)
upserted-SameTables e w =
    SameTables-if w _ _ (any (is_replayed e) w.match_events) (refl, refl)
      (SameTables-if w _ _ (any (match_event_conflicts e) w.match_events) (refl, refl) (refl, refl))

module _ (server : Server) where
  with_result-SameTables :
      (row : MatchResultRow) (w : Database) → SameTables w (with_result server row w)
  with_result-SameTables row w = SameTables-if w _ _ _ (refl, refl) (refl, refl)

  materialize_correction-SameTables :
      (c : MatchCorrection) (at_time : String) (w : Database)
      → SameTables w (materialize_correction server c at_time w)
  unfolding materialize_correction
  materialize_correction-SameTables c at_time w = ground arith

  materialize_invalidation-SameTables :
      (i : MatchInvalidation) (w : Database) → SameTables w (materialize_invalidation server i w)
  unfolding materialize_invalidation
  materialize_invalidation-SameTables i w = ground arith

  materialize_issue-SameTables :
      (o : OperationRow) (c : CollectibleIssued) (at_time : String) (w : Database)
      → SameTables w (materialize_issue server o c at_time w)
  unfolding materialize_issue
  materialize_issue-SameTables o c at_time w = ground arith

  materialize_revocation-SameTables :
      (o : OperationRow) (r : CollectibleRevoked) (w : Database)
      → SameTables w (materialize_revocation server o r w)
  unfolding materialize_revocation
  materialize_revocation-SameTables o r w = ground arith

module _ (server : Server) (db : Database) (source : String) (bs : List BlockCheckpoint) where
  abbrev Here : Database → Type 0
  Here = Holds db source bs

  Holds-same : (w w' : Database) → SameTables w w' → Here w → Here w'
  Holds-same w w' same h = record {
    rows = λ k. rw same.0 (h.rows k);
    present = rw same.0 h.present;
    same = rw same.1 h.same;
  }

  -- A statement that changes other tables.
  Keeps-execute :
      (refused : Database → Bool) (change : Database → Database)
      → ((w : Database) → SameTables w (change w))
      → Triple Here (execute refused change) (λ u. Here) Anything
  Keeps-execute refused change same =
      Triple-execute refused change λ w e p. Holds-same w (change w) (same w) p

  pub Keeps-next_id : Triple Here (next_id server) (λ id. Here) Anything
  unfolding next_id
  Keeps-next_id = record {
    at = λ w p.
        Post-cases (λ id. Here) Anything _ _ (λ id e. Holds-same w _ (refl, refl) p) (λ e h. tt);
  }

  Keeps-insert_operation :
      (checkpoint_id : String) (decision : OperationDecision)
      → Triple Here (insert_operation server checkpoint_id decision) (λ id. Here) Anything
  unfolding insert_operation
  Keeps-insert_operation checkpoint_id decision =
      Triple-bind _ _ Keeps-next_id
        λ id. Triple-bind _ _ (Keeps-execute _ _ λ w. (refl, refl)) λ u. Triple-pure id λ w p. p

  Keeps-upsert_accepted :
      (id : String) (evidence : RawOperationEvidence) (event : Option HiveChameleonEvent)
      → Triple Here (upsert_accepted id evidence event) (λ u. Here) Anything
  unfolding upsert_accepted upsert_included_match_event
  Keeps-upsert_accepted id evidence none = Triple-pure tt λ w p. p
  Keeps-upsert_accepted id evidence (some event) =
      Keeps-execute always (upserted _) (upserted-SameTables _)

  pub Keeps-insert_decisions :
      (checkpoint_id : String) (decisions : List OperationDecision)
      → Triple Here (insert_decisions server checkpoint_id decisions) (λ u. Here) Anything
  unfolding insert_decisions
  Keeps-insert_decisions checkpoint_id [] = Triple-pure tt λ w p. p
  Keeps-insert_decisions checkpoint_id (d ∷ ds) =
      Triple-bind _ _ (Keeps-insert_operation checkpoint_id d) λ id.
        Triple-bind _ _ (Keeps-upsert_accepted id d.evidence (accepted_match_event d))
          λ u. Keeps-insert_decisions checkpoint_id ds

  pub Keeps-revert_match_events :
      (ancestor : ℕ) (at_time : String)
      → Triple Here (revert_match_events source ancestor at_time) (λ u. Here) Anything
  unfolding revert_match_events
  Keeps-revert_match_events ancestor at_time = Keeps-execute _ _ λ w. (refl, refl)

  pub Keeps-revert_operations :
      (ancestor : ℕ) (at_time : String)
      → Triple Here (revert_operations source ancestor at_time) (λ u. Here) Anything
  unfolding revert_operations
  Keeps-revert_operations ancestor at_time = Keeps-execute _ _ λ w. (refl, refl)

  pub Keeps-finalize_match_events :
      (block_number : ℕ) (at_time : String)
      → Triple Here (finalize_match_events source block_number at_time) (λ u. Here) Anything
  unfolding finalize_match_events
  Keeps-finalize_match_events block_number at_time = Keeps-execute _ _ λ w. (refl, refl)

  pub Keeps-finalize_operations :
      (block_number : ℕ) (at_time : String)
      → Triple Here (finalize_operations source block_number at_time) (λ u. Here) Anything
  unfolding finalize_operations
  Keeps-finalize_operations block_number at_time = Keeps-execute _ _ λ w. (refl, refl)

-- Any property of the two tables is kept by what irreversible events write.
module _ (server : Server) (P : Database → Type 0)
    (kept : (w w' : Database) → SameTables w w' → P w → P w') where
  Kept-execute_unique :
      (change : Database → Database)
      → ((w : Database) → SameTables w (change w))
      → Triple P (execute_unique change) (λ u. P) Anything
  unfolding execute_unique
  Kept-execute_unique change same =
      Triple-execute (λ w. breaks_index (change w)) change λ w e p. kept w (change w) (same w) p

  Kept-next_id : Triple P (next_id server) (λ id. P) Anything
  unfolding next_id
  Kept-next_id = record {
    at = λ w p. Post-cases (λ id. P) Anything _ _ (λ id e. kept w _ (refl, refl) p) (λ e h. tt);
  }

  Kept-results :
      (event_uuid at_time : String) (position : ℕ) (results : List MatchResult)
      → Triple P (materialize_results server event_uuid at_time position results) (λ u. P) Anything
  unfolding materialize_results
  Kept-results event_uuid at_time position [] = Triple-pure tt λ w p. p
  Kept-results event_uuid at_time position (r ∷ rs) = Triple-bind _ _ Kept-next_id λ id.
      Triple-bind _ _ (Kept-execute_unique _ (with_result-SameTables server _))
        λ u. Kept-results event_uuid at_time (suc position) rs

  Kept-event :
      (o : OperationRow) (uuid : Option String) (at_time : String) (event : HiveChameleonEvent)
      → Triple P (materialize_event server o uuid at_time event) (λ u. P) Anything
  unfolding materialize_event
  Kept-event o uuid at_time (match_results_batch b) =
      Triple-if _ _ _ (λ e. Kept-results b.event_id at_time 0 b.results)
        (λ e. Triple-pure tt λ w p. p)
  Kept-event o uuid at_time (match_result_corrected c) =
      Kept-execute_unique _ λ w.
        SameTables-if w _ _ _ (materialize_correction-SameTables server c at_time w) (refl, refl)
  Kept-event o uuid at_time (match_result_invalidated i) =
      Kept-execute_unique _
        λ w. SameTables-if w _ _ _ (materialize_invalidation-SameTables server i w) (refl, refl)
  Kept-event o uuid at_time (collectible_issued c) =
      Kept-execute_unique _ (materialize_issue-SameTables server o c at_time)
  Kept-event o uuid at_time (collectible_revoked r) =
      Kept-execute_unique _ (materialize_revocation-SameTables server o r)

  Kept-rows :
      (at_time : String) (rows : List (OperationRow × Option String))
      → Triple P (materialize_rows server at_time rows) (λ u. P) Anything
  unfolding materialize_rows
  Kept-rows at_time [] = Triple-pure tt λ w p. p
  Kept-rows at_time ((o, uuid) ∷ rows) =
      Triple-bind-lift _ _
        (λ event e. Triple-bind _ _ (Kept-event o uuid at_time event) λ u. Kept-rows at_time rows)
        (λ e h w p. tt)

  pub Kept-materialized :
      (source : String) (block_number : ℕ) (at_time : String)
      → Triple P
          (materialize_irreversible_events server source block_number at_time)
          (λ u. P)
          Anything
  unfolding materialize_irreversible_events
  Kept-materialized source block_number at_time = record {
    at = λ w p. (Kept-rows at_time _).at w p;
  }
